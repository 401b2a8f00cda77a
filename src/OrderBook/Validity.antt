-- ===== src/OrderBook/Validity.antt =====
-- The invariant of the two maps of an OrderBook, and that the calls of
-- orderbook/src/orderbook/order_book.cpp keep it.
use scratch.Prelude.{
  ◌<◌, ◌^◌, ℤ, pos, ◌≤ℤ◌, ◌+ℤ◌, List, [], ◌∷◌, Option, none, some, ◌≡◌, refl, arith, leb_ℤ, inl,
  inr, Option-cases, Bool-cases, Bytes, InInt64, wrap64_fits, wrap64-InInt64,
}
use scratch.OrderBook.Level.{PriceLevel, price_level}
use scratch.OrderBook.SideMap.{
  Side, bid, ask, SideMap, find, Ordered, Ordered-map, put-Ordered, erase-Ordered,
}
use scratch.OrderBook.Keyed.{find-Ordered}
use scratch.OrderBook.Book.{
  OrderBook, new_book, get_side_map, set_side_map, grown, changed, reduced, add_level, add_order,
  put_or_erase, modify_level, modify_order, delete_level, delete_order, clear, Call, adds, modifies,
  deletes, clears, step, run,
}

-- Both maps stand in their order, and each entry satisfies `P`.
pub record Levels (P : ℤ → PriceLevel → Type 0) (b : OrderBook) : Type 0 where
  pub bids_ordered : Ordered bid P b.bids
  pub asks_ordered : Ordered ask P b.asks

-- A level under key `k`: its price is the key, it holds some quantity, which an int64_t holds, and its
-- counter is a uint32_t.
abbrev pub IsLevel : ℤ → PriceLevel → Type 0
IsLevel k l = (l.price ≡ k) × (pos 1 ≤ℤ l.quantity) × (l.order_count < 2 ^ 32) × InInt64 l.quantity

abbrev pub IsValid : OrderBook → Type 0
IsValid b = Levels IsLevel b

-- What remains of a valid book where quantities may have overflowed.
abbrev pub IsFiled : ℤ → PriceLevel → Type 0
IsFiled k l = l.price ≡ k

abbrev pub IsOrdered : OrderBook → Type 0
IsOrdered b = Levels IsFiled b

pub IsValid-IsOrdered : {b : OrderBook} → IsValid b → IsOrdered b
IsValid-IsOrdered {b} v = record {
  bids_ordered = Ordered-map IsLevel IsFiled (λ k l h. h.0) bid b.bids v.bids_ordered;
  asks_ordered = Ordered-map IsLevel IsFiled (λ k l h. h.0) ask b.asks v.asks_ordered;
}

-- What the levels that a call writes have to satisfy; a modification or a deletion writes none that
-- holds nothing.
abbrev pub Writes : (ℤ → PriceLevel → Type 0) → Call → OrderBook → Type 0
Writes P (adds s p q) b =
    (pos 1 ≤ℤ q → P p (price_level p q 1))
    × ((l : PriceLevel) → find p (get_side_map s b) ≡ some l → pos 1 ≤ℤ q → P p (grown q l))
Writes P (modifies s p q) b =
    (l : PriceLevel)
    → find p (get_side_map s b) ≡ some l
    → pos 1 ≤ℤ (changed q l).quantity
    → P p (changed q l)
Writes P (deletes s p q) b =
    (l : PriceLevel)
    → find p (get_side_map s b) ≡ some l
    → pos 1 ≤ℤ (reduced q l).quantity
    → P p (reduced q l)
Writes P clears b = Unit

module _ (P : ℤ → PriceLevel → Type 0) where
  pub side-Ordered : (s : Side) {b : OrderBook} → Levels P b → Ordered s P (get_side_map s b)
  side-Ordered bid v = v.bids_ordered
  side-Ordered ask v = v.asks_ordered

  set_side_map-Levels :
      (s : Side) (m : SideMap) {b : OrderBook}
      → Levels P b
      → Ordered s P m
      → Levels P (set_side_map s m b)
  set_side_map-Levels bid m v o = record { bids_ordered = o; asks_ordered = v.asks_ordered }
  set_side_map-Levels ask m v o = record { bids_ordered = v.bids_ordered; asks_ordered = o }

  add_level-Ordered :
      (s : Side) (p q : ℤ) (m : SideMap)
      → P p (price_level p q 1)
      → ((l : PriceLevel) → find p m ≡ some l → P p (grown q l))
      → Ordered s P m
      → Ordered s P (add_level s p q m)
  unfolding add_level
  add_level-Ordered s p q m new old o = elim (Option-cases (find p m)) [
    | inl e ↦ rw (e, add_level) (put-Ordered P s p _ m new o)
    | inr (l, e) ↦ rw (e, add_level) (put-Ordered P s p _ m (old l e) o)
  ]

  put_or_erase-Ordered :
      (s : Side) (p : ℤ) (l : PriceLevel) (m : SideMap)
      → (pos 1 ≤ℤ l.quantity → P p l)
      → Ordered s P m
      → Ordered s P (put_or_erase s p l m)
  put_or_erase-Ordered s p l m h o = elim (Bool-cases (leb_ℤ l.quantity (pos 0))) [
    | inl gone ↦ rw gone (erase-Ordered P s p m o)
    | inr left ↦ rw left (put-Ordered P s p l m (h (ground arith)) o)
  ]

  modify_level-Ordered :
      (s : Side) (p q : ℤ) (m : SideMap)
      → ((l : PriceLevel) → find p m ≡ some l → pos 1 ≤ℤ (changed q l).quantity → P p (changed q l))
      → Ordered s P m
      → Ordered s P (modify_level s p q m)
  unfolding modify_level
  modify_level-Ordered s p q m h o = elim (Option-cases (find p m)) [
    | inl e ↦ rw (e, modify_level) o
    | inr (l, e) ↦ rw (e, modify_level) (put_or_erase-Ordered s p (changed q l) m (h l e) o)
  ]

  delete_level-Ordered :
      (s : Side) (p q : ℤ) (m : SideMap)
      → ((l : PriceLevel) → find p m ≡ some l → pos 1 ≤ℤ (reduced q l).quantity → P p (reduced q l))
      → Ordered s P m
      → Ordered s P (delete_level s p q m)
  unfolding delete_level
  delete_level-Ordered s p q m h o = elim (Option-cases (find p m)) [
    | inl e ↦ rw (e, delete_level) o
    | inr (l, e) ↦ rw (e, delete_level) (put_or_erase-Ordered s p (reduced q l) m (h l e) o)
  ]

  -- Every call keeps the two orders, and a property of the levels that those it writes have.
  step-Levels : (c : Call) {b : OrderBook} → Writes P c b → Levels P b → Levels P (step b c)
  unfolding step add_order modify_order delete_order clear
  step-Levels (adds s p q) {b} w v = elim (Bool-cases (leb_ℤ q (pos 0))) [
    | inl ignored ↦ rw ignored v
    | inr real ↦
        let some_quantity : pos 1 ≤ℤ q = ground arith in
        rw real (
          set_side_map-Levels s _ v (
            add_level-Ordered s p q (get_side_map s b) (w.0 some_quantity)
              (λ l e. w.1 l e some_quantity) (side-Ordered s v)))
  ]
  step-Levels (modifies s p q) {b} w v =
      set_side_map-Levels s _ v (modify_level-Ordered s p q (get_side_map s b) w (side-Ordered s v))
  step-Levels (deletes s p q) {b} w v = elim (Bool-cases (leb_ℤ q (pos 0))) [
    | inl ignored ↦ rw ignored v
    | inr real ↦ rw real (
        set_side_map-Levels s _ v
          (delete_level-Ordered s p q (get_side_map s b) w (side-Ordered s v)))
  ]
  step-Levels clears w v = record { bids_ordered = tt; asks_ordered = tt }

-- The quantity at a side and price, 0 where no level stands.
abbrev pub quantity_of : Option PriceLevel → ℤ
quantity_of none = pos 0
quantity_of (some l) = l.quantity

abbrev pub quantity_at : Side → ℤ → OrderBook → ℤ
quantity_at s p b = quantity_of (find p (get_side_map s b))

-- The sum that an add or a modification makes does not overflow an int64_t. A deletion cannot overflow
-- at a positive quantity.
abbrev pub Fits : Call → OrderBook → Type 0
Fits (adds s p q) b = InInt64 (quantity_at s p b +ℤ q)
Fits (modifies s p q) b = InInt64 (quantity_at s p b +ℤ q)
Fits (deletes s p q) b = Unit
Fits clears b = Unit

abbrev pub AllFit : List Call → OrderBook → Type 0
AllFit [] b = Unit
AllFit (c ∷ cs) b = Fits c b × AllFit cs (step b c)

filed :
    (s : Side) (p : ℤ) (l : PriceLevel) {b : OrderBook}
    → IsOrdered b
    → find p (get_side_map s b) ≡ some l
    → l.price ≡ p
filed s p l {b} v e = find-Ordered IsFiled s p (get_side_map s b) l (side-Ordered IsFiled s v) e

-- Whatever overflows, the maps keep their order and each level stays under its price.
pub step-IsOrdered : (c : Call) {b : OrderBook} → IsOrdered b → IsOrdered (step b c)
step-IsOrdered (adds s p q) v =
    step-Levels IsFiled (adds s p q) ((λ h. refl), (λ l e h. filed s p l v e)) v
step-IsOrdered (modifies s p q) v =
    step-Levels IsFiled (modifies s p q) (λ l e h. filed s p l v e) v
step-IsOrdered (deletes s p q) v = step-Levels IsFiled (deletes s p q) (λ l e h. filed s p l v e) v
step-IsOrdered clears v = step-Levels IsFiled clears tt v

grown-IsLevel :
    (p q : ℤ) (l : PriceLevel)
    → IsLevel p l
    → pos 1 ≤ℤ q
    → InInt64 (l.quantity +ℤ q)
    → IsLevel p (grown q l)
unfolding ◌+ℤ◌
grown-IsLevel p q l h positive fits =
    (h.0, rw (wrap64_fits _ fits) (ground arith), omega arith, wrap64-InInt64 _)

new-IsLevel :
    (s : Side) (p q : ℤ) (b : OrderBook)
    → IsValid b
    → InInt64 (quantity_at s p b +ℤ q)
    → pos 1 ≤ℤ q
    → IsLevel p (price_level p q 1)
unfolding ◌+ℤ◌
new-IsLevel s p q b v fits positive = elim (Option-cases (find p (get_side_map s b))) [
  | inl e ↦
      let sum : InInt64 (pos 0 +ℤ q) = rw e at fits in (refl, positive, omega arith, ground arith)
  | inr (l, e) ↦
      let old = find-Ordered IsLevel s p (get_side_map s b) l (side-Ordered IsLevel s v) e in
      let sum : InInt64 (l.quantity +ℤ q) = rw e at fits in
      (refl, positive, omega arith, ground arith)
]

-- A call whose sum does not overflow keeps a valid book valid.
pub step-IsValid : (c : Call) {b : OrderBook} → Fits c b → IsValid b → IsValid (step b c)
step-IsValid (adds s p q) {b} fits v =
    step-Levels IsLevel (adds s p q)
      (
        (λ h. new-IsLevel s p q b v fits h),
        (λ l e h.
            grown-IsLevel p q l
              (find-Ordered IsLevel s p (get_side_map s b) l (side-Ordered IsLevel s v) e) h
              (rw e at fits)),
      )
      v
step-IsValid (modifies s p q) {b} fits v =
    step-Levels IsLevel (modifies s p q)
      (λ l e h.
        let old = find-Ordered IsLevel s p (get_side_map s b) l (side-Ordered IsLevel s v) e in
        (old.0, h, old.2, wrap64-InInt64 _))
      v
step-IsValid (deletes s p q) {b} fits v =
    step-Levels IsLevel (deletes s p q)
      (λ l e h.
        let old = find-Ordered IsLevel s p (get_side_map s b) l (side-Ordered IsLevel s v) e in
        (old.0, h, ground arith, wrap64-InInt64 _))
      v
step-IsValid clears fits v = step-Levels IsLevel clears tt v

pub run_from-IsValid :
    (cs : List Call) {b : OrderBook} → AllFit cs b → IsValid b → IsValid (run b cs)
unfolding run
run_from-IsValid [] fits v = v
run_from-IsValid (c ∷ cs) fits v = run_from-IsValid cs fits.1 (step-IsValid c fits.0 v)

pub new_book-IsValid : (symbol : Bytes) → IsValid (new_book symbol)
unfolding new_book
new_book-IsValid symbol = record { bids_ordered = tt; asks_ordered = tt }

-- After any history of calls on a new book in which no sum of a level's quantity and that of an add or
-- a modification overflows an int64_t, both maps stand in their order with one entry for a price, and
-- each level is filed under its own price, holds a positive quantity, which an int64_t holds, and
-- counts within 32 bits.
pub run-IsValid :
    (symbol : Bytes) (cs : List Call)
    → AllFit cs (new_book symbol)
    → IsValid (run (new_book symbol) cs)
run-IsValid symbol cs fits = run_from-IsValid cs fits (new_book-IsValid symbol)
