-- ===== src/OrderBook/Examples.antt =====
-- Runs of the order book of orderbook/src/orderbook/order_book.cpp on concrete books.
use scratch.Prelude.{
  take, map, pos, negsuc, List, [], ◌∷◌, some, ◌≡◌, ◌≤ℤ◌, refl, arith, Bytes, ◌+◌, ◌<◌, ◌^◌, ◌-ℤ◌,
  ◌+ℤ◌, InInt64, wrap64,
}
use scratch.OrderBook.Level.{PriceLevel, price_level}
use scratch.OrderBook.SideMap.{bid, ask, find, put, erase}
use scratch.OrderBook.Book.{
  OrderBook, new_book, add_order, modify_order, delete_order, Call, adds, modifies, deletes, step,
  run, get_best_bid, get_best_ask, get_spread, get_mid_price, get_depth, get_side_map,
}
use scratch.OrderBook.Validity.{IsValid, AllFit, run-IsValid}
use scratch.OrderBook.Refinement.{level_at, spec, step-spec}
use scratch.OrderBook.Algebra.{delete-add}
use scratch.OrderBook.Quotes.{InOrder, best_quotes}

abbrev name : Bytes
name = b'A' ∷ b'B' ∷ []

abbrev history : List Call
history =
    adds bid (pos 100) (pos 5)
    ∷ adds bid (pos 110) (pos 7)
    ∷ adds bid (pos 110) (pos 3)
    ∷ adds ask (pos 130) (pos 4)
    ∷ adds ask (pos 121) (pos 6)
    ∷ adds ask (pos 140) (pos 6)
    ∷ modifies bid (pos 100) (negsuc 1)
    ∷ deletes ask (pos 140) (pos 9)
    ∷ []

abbrev book : OrderBook
book = run (new_book name) history

history-AllFit : AllFit history (new_book name)
unfolding step new_book add_order modify_order delete_order find put erase ◌+ℤ◌ ◌-ℤ◌ wrap64
history-AllFit = omega arith

book-IsValid : IsValid book
book-IsValid = run-IsValid name history history-AllFit

bids_of_book :
    book.bids
    ≡ (pos 110, price_level (pos 110) (pos 10) 2) ∷ (pos 100, price_level (pos 100) (pos 3) 1) ∷ []
unfolding run step new_book add_order modify_order delete_order find put erase ◌+ℤ◌ ◌-ℤ◌ wrap64
bids_of_book = refl

asks_of_book :
    book.asks
    ≡ (pos 121, price_level (pos 121) (pos 6) 1) ∷ (pos 130, price_level (pos 130) (pos 4) 1) ∷ []
unfolding run step new_book add_order modify_order delete_order find put erase ◌+ℤ◌ ◌-ℤ◌ wrap64
asks_of_book = refl

found_bid : level_at bid (pos 100) book ≡ some (price_level (pos 100) (pos 3) 1)
unfolding run step new_book add_order modify_order delete_order find put erase ◌+ℤ◌ ◌-ℤ◌ wrap64
found_bid = refl

found_ask : level_at ask (pos 130) book ≡ some (price_level (pos 130) (pos 4) 1)
unfolding run step new_book add_order modify_order delete_order find put erase ◌+ℤ◌ ◌-ℤ◌ wrap64
found_ask = refl

uncrossed : (get_best_bid book).price ≤ℤ (get_best_ask book).price
unfolding get_best_bid get_best_ask run step new_book add_order modify_order delete_order find put
    erase ◌+ℤ◌ ◌-ℤ◌ wrap64
uncrossed = omega arith

difference_fits : InInt64 ((get_best_ask book).price -ℤ (get_best_bid book).price)
unfolding get_best_bid get_best_ask run step new_book add_order modify_order delete_order find put
    erase ◌+ℤ◌ ◌-ℤ◌ wrap64
difference_fits = omega arith

sum_fits : InInt64 ((get_best_bid book).price +ℤ (get_best_ask book).price)
unfolding get_best_bid get_best_ask run step new_book add_order modify_order delete_order find put
    erase ◌+ℤ◌ ◌-ℤ◌ wrap64
sum_fits = omega arith

run-IsValid_example : IsValid (run (new_book name) history)
run-IsValid_example = run-IsValid name history history-AllFit

step-spec_example :
    level_at bid (pos 110) (step book (modifies bid (pos 110) (pos 4)))
    ≡ spec (modifies bid (pos 110) (pos 4)) bid (pos 110) (level_at bid (pos 110) book)
step-spec_example = step-spec (modifies bid (pos 110) (pos 4)) bid (pos 110) book book-IsValid

few_orders : (l : PriceLevel) → level_at bid (pos 100) book ≡ some l → l.order_count + 1 < 2 ^ 32
few_orders l e = ground (arith, found_bid)

delete-add_example :
    delete_order bid (pos 100) (pos 9) (add_order bid (pos 100) (pos 9) book) ≡ book
delete-add_example = delete-add bid (pos 100) (pos 9) book book-IsValid (omega arith) few_orders

best_quotes_example :
    ((pos 100 ≤ℤ (get_best_bid book).price)
      × (level_at bid (get_best_bid book).price book ≡ some (get_best_bid book)))
    × (((get_best_ask book).price ≤ℤ pos 130)
        × (level_at ask (get_best_ask book).price book ≡ some (get_best_ask book)))
    × ((get_spread book ≡ (get_best_ask book).price -ℤ (get_best_bid book).price)
        × (pos 0 ≤ℤ get_spread book)
        × ((get_best_bid book).price ≤ℤ get_mid_price book)
        × (get_mid_price book ≤ℤ (get_best_ask book).price))
    × ((get_depth ask 2 book ≡ take 2 (map (λ e. e.1) (get_side_map ask book)))
        × InOrder ask (get_depth ask 2 book))
best_quotes_example =
    best_quotes book (pos 100) (pos 130) (price_level (pos 100) (pos 3) 1)
      (price_level (pos 130) (pos 4) 1) ask 2 book-IsValid found_bid found_ask uncrossed
      difference_fits sum_fits
