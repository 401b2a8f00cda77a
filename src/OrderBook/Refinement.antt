-- ===== src/OrderBook/Refinement.antt =====
-- The calls of orderbook/src/orderbook/order_book.cpp against an abstract book: for each side and
-- price, the level that stands there, or none.
use scratch.Prelude.{
  ℤ, pos, ◌≡◌, refl, none, some, arith, leb_ℤ, eqb_ℤ, if◌then◌else◌, inl, inr, Option-cases,
  Bool-cases, true, false, Bool, ◌&&◌, Option, eq_of_parts, ◌∙◌, not,
}
use scratch.OrderBook.Level.{PriceLevel, price_level}
use scratch.OrderBook.SideMap.{Side, bid, ask, SideMap, find, Ordered, find-put, find-erase}
use scratch.OrderBook.Keyed.{find-eq}
use scratch.OrderBook.Book.{
  OrderBook, get_side_map, add_level, add_order, put_or_erase, grown, changed, reduced,
  modify_level, modify_order, delete_level, delete_order, clear, Call, adds, modifies, deletes,
  clears, step,
}
use scratch.OrderBook.Validity.{IsFiled, IsValid, IsOrdered, IsValid-IsOrdered}

abbrev pub level_at : Side → ℤ → OrderBook → Option PriceLevel
level_at s k b = find k (get_side_map s b)

abbrev pub same_side : Side → Side → Bool
same_side bid bid = true
same_side ask ask = true
same_side bid ask = false
same_side ask bid = false

-- A level is kept as long as something is left of it.
abbrev pub kept : PriceLevel → Option PriceLevel
kept l = if leb_ℤ l.quantity (pos 0) then none else some l

-- What a call does to the level at the price that it names.
abbrev pub added : ℤ → ℤ → Option PriceLevel → Option PriceLevel
added price quantity none = some (price_level price quantity 1)
added price quantity (some l) = some (grown quantity l)

abbrev pub modified : ℤ → Option PriceLevel → Option PriceLevel
modified delta none = none
modified delta (some l) = kept (changed delta l)

abbrev pub deleted : ℤ → Option PriceLevel → Option PriceLevel
deleted quantity none = none
deleted quantity (some l) = kept (reduced quantity l)

-- The abstract step: one level changes, at the named side and price; a non-positive quantity is
-- ignored by adds and deletes.
abbrev pub spec : Call → Side → ℤ → Option PriceLevel → Option PriceLevel
spec (adds s p q) t k o =
    if same_side s t && eqb_ℤ p k && not (leb_ℤ q (pos 0)) then added p q o else o
spec (modifies s p q) t k o = if same_side s t && eqb_ℤ p k then modified q o else o
spec (deletes s p q) t k o =
    if same_side s t && eqb_ℤ p k && not (leb_ℤ q (pos 0)) then deleted q o else o
spec clears t k o = none

find_key : (p k : ℤ) (m : SideMap) → eqb_ℤ p k ≡ true → find k m ≡ find p m
find_key p k m h = ground (arith, eq_of_parts p k)

find-add_level :
    (s : Side) (p q k : ℤ) (m : SideMap)
    → find k (add_level s p q m) ≡ (if eqb_ℤ p k then added p q (find k m) else find k m)
unfolding add_level
find-add_level s p q k m = elim (Option-cases (find p m)) [
  | inl e ↦ rw (e, add_level) (ground (arith, find_key p k m, find-put s p k (price_level p q 1) m))
  | inr (l, e) ↦ rw (e, add_level) (ground (arith, find_key p k m, find-put s p k (grown q l) m))
]

find-put_or_erase :
    (s : Side) (p k : ℤ) (l : PriceLevel) (m : SideMap)
    → Ordered s IsFiled m
    → find k (put_or_erase s p l m) ≡ (if eqb_ℤ p k then kept l else find k m)
find-put_or_erase s p k l m o = elim (Bool-cases (leb_ℤ l.quantity (pos 0))) [
  | inl gone ↦ rw gone (find-erase IsFiled s p k m o)
  | inr left ↦ rw left (find-put s p k l m)
]

find-modify_level :
    (s : Side) (p q k : ℤ) (m : SideMap)
    → Ordered s IsFiled m
    → find k (modify_level s p q m) ≡ (if eqb_ℤ p k then modified q (find k m) else find k m)
unfolding modify_level
find-modify_level s p q k m o = elim (Option-cases (find p m)) [
  | inl e ↦ rw (e, modify_level) (ground (arith, find_key p k m))
  | inr (l, e) ↦
      rw (e, modify_level)
        (find-put_or_erase s p k (changed q l) m o ∙ ground (arith, find_key p k m))
]

find-delete_level :
    (s : Side) (p q k : ℤ) (m : SideMap)
    → Ordered s IsFiled m
    → find k (delete_level s p q m) ≡ (if eqb_ℤ p k then deleted q (find k m) else find k m)
unfolding delete_level
find-delete_level s p q k m o = elim (Option-cases (find p m)) [
  | inl e ↦ rw (e, delete_level) (ground (arith, find_key p k m))
  | inr (l, e) ↦
      rw (e, delete_level)
        (find-put_or_erase s p k (reduced q l) m o ∙ ground (arith, find_key p k m))
]

level_at-add_order :
    (s t : Side) (p q k : ℤ) (b : OrderBook)
    → level_at t k (add_order s p q b) ≡ spec (adds s p q) t k (level_at t k b)
unfolding add_order
level_at-add_order bid bid p q k b = ground (arith, find-add_level bid p q k b.bids)
level_at-add_order ask ask p q k b = ground (arith, find-add_level ask p q k b.asks)
level_at-add_order bid ask p q k b = ground arith
level_at-add_order ask bid p q k b = ground arith

pub level_at-modify_order :
    (s t : Side) (p q k : ℤ) (b : OrderBook)
    → IsOrdered b
    → level_at t k (modify_order s p q b) ≡ spec (modifies s p q) t k (level_at t k b)
unfolding modify_order
level_at-modify_order bid bid p q k b v =
    ground (arith, find-modify_level bid p q k b.bids v.bids_ordered)
level_at-modify_order ask ask p q k b v =
    ground (arith, find-modify_level ask p q k b.asks v.asks_ordered)
level_at-modify_order bid ask p q k b v = refl
level_at-modify_order ask bid p q k b v = refl

level_at-delete_order :
    (s t : Side) (p q k : ℤ) (b : OrderBook)
    → IsOrdered b
    → level_at t k (delete_order s p q b) ≡ spec (deletes s p q) t k (level_at t k b)
unfolding delete_order
level_at-delete_order bid bid p q k b v =
    ground (arith, find-delete_level bid p q k b.bids v.bids_ordered)
level_at-delete_order ask ask p q k b v =
    ground (arith, find-delete_level ask p q k b.asks v.asks_ordered)
level_at-delete_order bid ask p q k b v = ground arith
level_at-delete_order ask bid p q k b v = ground arith

level_at-clear : (t : Side) (k : ℤ) (b : OrderBook) → level_at t k (clear b) ≡ none
unfolding clear find
level_at-clear bid k b = refl
level_at-clear ask k b = refl

-- The abstract step on a book whose quantities may have overflowed.
pub step-spec_ordered :
    (c : Call) (t : Side) (k : ℤ) (b : OrderBook)
    → IsOrdered b
    → level_at t k (step b c) ≡ spec c t k (level_at t k b)
unfolding step
step-spec_ordered (adds s p q) t k b v = level_at-add_order s t p q k b
step-spec_ordered (modifies s p q) t k b v = level_at-modify_order s t p q k b v
step-spec_ordered (deletes s p q) t k b v = level_at-delete_order s t p q k b v
step-spec_ordered clears t k b v = level_at-clear t k b

-- On a valid book every call does to the level at each side and price what the abstract step does:
-- only the level at the named side and price changes. An add or delete of a non-positive quantity
-- changes nothing; an add grows the level or creates it with one order; a modify or a delete leaves
-- a missing level missing and removes the level once no positive quantity is left; clear removes
-- every level.
pub step-spec :
    (c : Call) (t : Side) (k : ℤ) (b : OrderBook)
    → IsValid b
    → level_at t k (step b c) ≡ spec c t k (level_at t k b)
step-spec c t k b v = step-spec_ordered c t k b (IsValid-IsOrdered v)

book_eq : (a b : OrderBook) → a.symbol ≡ b.symbol → a.bids ≡ b.bids → a.asks ≡ b.asks → a ≡ b
book_eq a b h p q = ground arith

-- Two such books of one symbol with the same level at each side and price are the same book.
pub level_at-eq :
    (a b : OrderBook)
    → IsOrdered a
    → IsOrdered b
    → a.symbol ≡ b.symbol
    → ((t : Side) (k : ℤ) → level_at t k a ≡ level_at t k b)
    → a ≡ b
level_at-eq a b v w h e =
    book_eq a b h (find-eq IsFiled bid a.bids b.bids v.bids_ordered w.bids_ordered (e bid))
      (find-eq IsFiled ask a.asks b.asks v.asks_ordered w.asks_ordered (e ask))
