-- ===== src/Views/Kept.antt =====
-- What the streaming parser of feedhandler/src/parser/fsm_fix_parser.cpp keeps of the fields with one tag,
-- as the first of them.
use scratch.Prelude.{
  ℕ, zero, suc, ◌≤◌, ◌==◌, ltb, length, take, ℤ, pos, ltb_ℤ, eqb_ℤ, List, [], ◌∷◌, map, Option,
  none, some, Bool, true, false, not, ◌||◌, if◌then◌else◌, Bytes, ◌≡◌, ◌⊎◌, refl, ap, ◌∙◌, arith,
  All, Bool-cases, inl, inr,
}
use scratch.Doubles.{Doubles}
use scratch.Feed.Tick.{fix_side_to_char}
use scratch.Number.Fast.{fast_atoi, fast_atof_fixed}
use scratch.Fsm.State.{TickBuilder, assign, price_of, symbol_size}
use scratch.Fsm.Message.{Field, tag_of, assign_all}
use scratch.Views.Fields.{find_field}
use scratch.Views.Printed.{seen}

abbrev pub number_of : Field → ℤ
number_of f = fast_atoi (tag_of f)

-- A field that both parsers take for the same: its delimiter is '|', its tag positive, a symbol is
-- shorter than 64 bytes, and a price survives the way through a double.
pub record IsPlain (d : Doubles) (f : Field) : Type 0 where
  pub bar : (f.delimiter == b'|') ≡ true
  pub positive : ltb_ℤ (pos 0) (number_of f) ≡ true
  pub symbol_fits : (not (eqb_ℤ (number_of f) (pos 55)) || ltb (length f.value) symbol_size) ≡ true
  pub price_exact :
      (eqb_ℤ (number_of f) (pos 44) ≡ false) ⊎ (price_of d f.value ≡ fast_atof_fixed 10000 f.value)

-- The value of the first field with a tag.
abbrev pub found : ℤ → List Field → Option Bytes
found tag fs = find_field tag (map seen fs)

-- No other field with the tag stands behind the first.
abbrev pub Once : ℤ → List Field → Type 0
Once tag [] = Unit
Once tag (f ∷ fs) = ((eqb_ℤ (number_of f) tag ≡ false) ⊎ (found tag fs ≡ none)) × Once tag fs

pub take_all {ℓ} : {A : Type ℓ} → (n : ℕ) (s : List A) → length s ≤ n → take n s ≡ s
take_all zero [] h = refl
take_all zero (c ∷ s) h = absurd (omega arith)
take_all (suc n) [] h = refl
take_all (suc n) (c ∷ s) h = ap (◌∷◌ c) (take_all n s (omega arith))

abbrev pub value_or : {A : Type 0} → (Bytes → A) → A → Option Bytes → A
value_or read start none = start
value_or read start (some v) = read v

-- What the parsers keep of one tag: `get` of the builder, which a field with the tag sets to `read`.
module _ (d : Doubles) (clock : ℕ → ℕ) {A : Type 0} (tag : ℤ) (read : Bytes → A)
    (get : TickBuilder → A)
    (law : (f : Field) (b : TickBuilder)
      → IsPlain d f
      → get (assign d (number_of f) f.value b)
        ≡ (if eqb_ℤ (number_of f) tag then read f.value else get b)) where
  pub kept :
      (fs : List Field) (b : TickBuilder)
      → All (IsPlain d) fs
      → Once tag fs
      → get (assign_all d clock fs b) ≡ value_or read (get b) (found tag fs)
  unfolding find_field
  kept [] b plain once = refl
  kept (f ∷ fs) b plain once =
      let after = assign d (number_of f) f.value b in
      kept fs after plain.1 once.1
      ∙ ap (λ a. value_or read a (found tag fs)) (law f b plain.0)
      ∙ elim (Bool-cases (eqb_ℤ (number_of f) tag)) [
        | inl hit ↦ ground arith
        | inr miss ↦ rw (miss, find_field) refl
      ]

-- What the builder keeps of each of the four tags, and what a value of the tag sets it to.
abbrev pub symbol_in : TickBuilder → Bytes × Bool
symbol_in b = (take 63 b.symbol, b.has_symbol)

abbrev pub price_in : TickBuilder → ℤ × Bool
price_in b = (b.price, b.has_price)

abbrev pub qty_in : TickBuilder → ℤ × Bool
qty_in b = (b.qty, b.has_qty)

abbrev pub side_in : TickBuilder → ℕ × Bool
side_in b = (b.side, b.has_side)

abbrev pub symbol_read : Bytes → Bytes × Bool
symbol_read v = (v, true)

abbrev pub price_read : Bytes → ℤ × Bool
price_read v = (fast_atof_fixed 10000 v, true)

abbrev pub qty_read : Bytes → ℤ × Bool
qty_read v = (fast_atoi v, true)

abbrev pub side_read : Bytes → ℕ × Bool
side_read v = (fix_side_to_char (fast_atoi v), true)

module _ (d : Doubles) where
  pub symbol_law :
      (f : Field) (b : TickBuilder)
      → IsPlain d f
      → symbol_in (assign d (number_of f) f.value b)
        ≡ (if eqb_ℤ (number_of f) (pos 55) then symbol_read f.value else symbol_in b)
  unfolding assign
  symbol_law f b plain = elim (Bool-cases (eqb_ℤ (number_of f) (pos 55))) [
    | inl hit ↦
        let fits : ltb (length f.value) symbol_size ≡ true = ground (arith, plain.symbol_fits) in
        let whole : take 63 f.value ≡ f.value = take_all 63 f.value (ground (arith, fits)) in
        ground (arith, fits, whole)
    | inr miss ↦ ground arith
  ]

  pub price_law :
      (f : Field) (b : TickBuilder)
      → IsPlain d f
      → price_in (assign d (number_of f) f.value b)
        ≡ (if eqb_ℤ (number_of f) (pos 44) then price_read f.value else price_in b)
  unfolding assign
  price_law f b plain = ground (arith, plain.price_exact)

  pub qty_law :
      (f : Field) (b : TickBuilder)
      → IsPlain d f
      → qty_in (assign d (number_of f) f.value b)
        ≡ (if eqb_ℤ (number_of f) (pos 38) then qty_read f.value else qty_in b)
  unfolding assign
  qty_law f b plain = ground arith

  pub side_law :
      (f : Field) (b : TickBuilder)
      → IsPlain d f
      → side_in (assign d (number_of f) f.value b)
        ≡ (if eqb_ℤ (number_of f) (pos 54) then side_read f.value else side_in b)
  unfolding assign
  side_law f b plain = ground arith
