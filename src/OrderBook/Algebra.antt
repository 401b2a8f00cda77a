-- ===== src/OrderBook/Algebra.antt =====
-- Equations between sequences of calls of orderbook/src/orderbook/order_book.cpp.
use scratch.Prelude.{
  ℕ, ◌+◌, ◌<◌, ◌^◌, ℤ, pos, ◌≤ℤ◌, ◌≡◌, refl, none, some, arith, int_laws, ◌-ℤ◌, InInt64, wrap64,
  wrap64_pos, wrap64_cancel, wrap64-add, ◌+ℤ◌, leb_ℤ, eqb_ℤ, if◌then◌else◌, true, false, Bool, ◌&&◌,
  Option, eq_of_parts, ap, ◌∙◌, sym, not,
}
use scratch.OrderBook.Level.{PriceLevel, price_level}
use scratch.OrderBook.SideMap.{Side, bid, ask}
use scratch.OrderBook.Keyed.{find-Ordered}
use scratch.OrderBook.Book.{
  OrderBook, get_side_map, Call, adds, modifies, deletes, clears, step, add_order, modify_order,
  delete_order, clear, grown, reduced,
}
use scratch.OrderBook.Validity.{
  IsLevel, IsValid, IsOrdered, IsValid-IsOrdered, side-Ordered, step-IsOrdered,
}
use scratch.OrderBook.Refinement.{
  level_at, same_side, kept, added, deleted, spec, step-spec_ordered, level_at-eq,
}

symbol-step : (b : OrderBook) (c : Call) → (step b c).symbol ≡ b.symbol
unfolding step add_order modify_order delete_order clear
symbol-step b (adds bid p q) = ground arith
symbol-step b (adds ask p q) = ground arith
symbol-step b (modifies bid p q) = refl
symbol-step b (modifies ask p q) = refl
symbol-step b (deletes bid p q) = ground arith
symbol-step b (deletes ask p q) = ground arith
symbol-step b clears = refl

level_path :
    {p p' q q' : ℤ} {c c' : ℕ} → p ≡ p' → q ≡ q' → c ≡ c' → price_level p q c ≡ price_level p' q' c'
level_path p q c = cc

kept-none : (l : PriceLevel) → l.quantity ≤ℤ pos 0 → kept l ≡ none
kept-none l h = ground arith

kept-some : (l : PriceLevel) → pos 1 ≤ℤ l.quantity → kept l ≡ some l
kept-some l h = ground arith

reduced-grown :
    (q : ℤ) (l : PriceLevel)
    → l.order_count + 1 < 2 ^ 32
    → InInt64 l.quantity
    → reduced q (grown q l) ≡ l
reduced-grown q l h fits = level_path refl (wrap64_cancel l.quantity q fits) (ground arith)

nothing_left : (q : ℤ) → wrap64 (q -ℤ q) ≤ℤ pos 0
nothing_left q =
    let none_left : q -ℤ q ≡ pos 0 = omega int_laws in
    rw (none_left, wrap64_pos 0 (omega arith)) (omega arith)

-- At the price of the add the delete gives back the old level; elsewhere neither does anything.
deleted-added :
    (p q : ℤ) (o : Option PriceLevel)
    → pos 1 ≤ℤ q
    → ((l : PriceLevel) → o ≡ some l → IsLevel p l × (l.order_count + 1 < 2 ^ 32))
    → deleted q (added p q o) ≡ o
deleted-added p q none h small = kept-none (reduced q (price_level p q 1)) (nothing_left q)
deleted-added p q (some l) h small =
    let old = small l refl in ap kept (reduced-grown q l old.1 old.0.3) ∙ kept-some l old.0.1

undo_if {ℓ} :
    {A : Type ℓ} (a : Bool) (f g : A → A) (o : A)
    → (a ≡ true → g (f o) ≡ o)
    → (if a then g (if a then f o else o) else (if a then f o else o)) ≡ o
undo_if true f g o h = h refl
undo_if false f g o h = refl

same_place :
    (s t : Side) (p k : ℤ) (b : OrderBook) (c : Bool)
    → (same_side s t && eqb_ℤ p k && c) ≡ true
    → level_at s p b ≡ level_at t k b
same_place bid bid p k b c h = ground (arith, eq_of_parts p k)
same_place ask ask p k b c h = ground (arith, eq_of_parts p k)
same_place bid ask p k b c h = cc
same_place ask bid p k b c h = cc

undone :
    (s t : Side) (p q k : ℤ) (b : OrderBook)
    → IsValid b
    → pos 1 ≤ℤ q
    → ((l : PriceLevel) → level_at s p b ≡ some l → l.order_count + 1 < 2 ^ 32)
    → spec (deletes s p q) t k (spec (adds s p q) t k (level_at t k b)) ≡ level_at t k b
undone s t p q k b v h small =
    let here = same_side s t && eqb_ℤ p k && not (leb_ℤ q (pos 0)) in
    undo_if here (added p q) (deleted q) (level_at t k b) λ e.
      let at = same_place s t p k b (not (leb_ℤ q (pos 0))) e in
      rw (← at) (
        deleted-added p q (level_at s p b) h (λ l f.
          (find-Ordered IsLevel s p (get_side_map s b) l (side-Ordered IsLevel s v) f, small l f)))

-- Two calls whose abstract steps commute on the levels of a book commute on the book.
step_swap :
    (c d : Call) (b : OrderBook)
    → IsOrdered b
    → ((t : Side) (k : ℤ)
        → spec d t k (spec c t k (level_at t k b)) ≡ spec c t k (spec d t k (level_at t k b)))
    → step (step b c) d ≡ step (step b d) c
step_swap c d b v e =
    level_at-eq (step (step b c) d) (step (step b d) c) (step-IsOrdered d (step-IsOrdered c v))
      (step-IsOrdered c (step-IsOrdered d v))
      (symbol-step (step b c) d
        ∙ symbol-step b c
        ∙ sym (symbol-step (step b d) c ∙ symbol-step b d))
      λ t k.
        step-spec_ordered d t k (step b c) (step-IsOrdered c v)
        ∙ ap (spec d t k) (step-spec_ordered c t k b v)
        ∙ e t k
        ∙ sym (
            step-spec_ordered c t k (step b d) (step-IsOrdered d v)
            ∙ ap (spec c t k) (step-spec_ordered d t k b v))

same_price :
    (p p' k : ℤ) (a b a' b' : Bool)
    → (a && eqb_ℤ p k && b) ≡ true
    → (a' && eqb_ℤ p' k && b') ≡ true
    → p ≡ p'
same_price p p' k a b a' b' h h' = ground (arith, eq_of_parts p p')

if_comm {ℓ} :
    {A : Type ℓ} (a a' : Bool) (f f' : A → A) (o : A)
    → (a ≡ true → a' ≡ true → f' (f o) ≡ f (f' o))
    → (if a' then f' (if a then f o else o) else (if a then f o else o))
      ≡ (if a then f (if a' then f' o else o) else (if a' then f' o else o))
if_comm true true f f' o h = h refl refl
if_comm true false f f' o h = refl
if_comm false true f f' o h = refl
if_comm false false f f' o h = refl

sum_swap : (a b c : ℤ) → wrap64 (wrap64 (a +ℤ b) +ℤ c) ≡ wrap64 (wrap64 (a +ℤ c) +ℤ b)
sum_swap a b c =
    let same : a +ℤ b +ℤ c ≡ a +ℤ c +ℤ b = omega int_laws in
    wrap64-add (a +ℤ b) c ∙ ap wrap64 same ∙ sym (wrap64-add (a +ℤ c) b)

added_swap :
    (p q p' q' : ℤ) (o : Option PriceLevel)
    → p ≡ p'
    → added p' q' (added p q o) ≡ added p q (added p' q' o)
added_swap p q p' q' none e =
    ap some (level_path e (ap wrap64 (let same : q +ℤ q' ≡ q' +ℤ q = omega int_laws in same)) refl)
added_swap p q p' q' (some l) e = ap some (level_path refl (sum_swap l.quantity q q') refl)

-- On a valid book the order of two adds does not matter, whatever their sides, prices and quantities.
pub add_comm :
    (s s' : Side) (p q p' q' : ℤ) (b : OrderBook)
    → IsValid b
    → add_order s' p' q' (add_order s p q b) ≡ add_order s p q (add_order s' p' q' b)
unfolding step
add_comm s s' p q p' q' b v = step_swap (adds s p q) (adds s' p' q') b (IsValid-IsOrdered v) λ t k.
    if_comm (same_side s t && eqb_ℤ p k && not (leb_ℤ q (pos 0)))
      (same_side s' t && eqb_ℤ p' k && not (leb_ℤ q' (pos 0))) (added p q) (added p' q')
      (level_at t k b)
      (λ h h'. added_swap p q p' q' (level_at t k b) (same_price p p' k _ _ _ _ h h'))

-- On a valid book a delete of the positive quantity that an add has just put at a price gives back
-- the book, unless a level there has a counter at its largest value, which the add would wrap.
pub delete-add :
    (s : Side) (p q : ℤ) (b : OrderBook)
    → IsValid b
    → pos 1 ≤ℤ q
    → ((l : PriceLevel) → level_at s p b ≡ some l → l.order_count + 1 < 2 ^ 32)
    → delete_order s p q (add_order s p q b) ≡ b
unfolding step
delete-add s p q b v h small =
    let o = IsValid-IsOrdered v in
    let o' = step-IsOrdered (adds s p q) o in
    level_at-eq (step (step b (adds s p q)) (deletes s p q)) b (step-IsOrdered (deletes s p q) o') o
      (symbol-step (step b (adds s p q)) (deletes s p q) ∙ symbol-step b (adds s p q))
      λ t k.
        step-spec_ordered (deletes s p q) t k (step b (adds s p q)) o'
        ∙ ap (spec (deletes s p q) t k) (step-spec_ordered (adds s p q) t k b o)
        ∙ undone s t p q k b v h small
