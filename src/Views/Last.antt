-- ===== src/Views/Last.antt =====
-- Which field of a message feedhandler/src/parser/naive_fix_parser.cpp takes for a tag.
use scratch.Prelude.{
  ℕ, ℤ, pos, eqb_ℤ, eqb_ℤ_iff, List, [], ◌∷◌, Option, none, some, Bool, true, false, if◌then◌else◌,
  Bytes, ◌≡◌, refl, ap, ◌∙◌, arith, Bool-cases, inl, inr,
}
use scratch.Doubles.{Doubles}
use scratch.Views.Split.{split}
use scratch.Views.Fields.{Field}
use scratch.Views.Naive.{
  assign_field, lookup, naive_field, put, naive_loop, naive_extract_fields, naive_tick,
  naive_parse_message,
}

abbrev pub value_if : ℤ → Option Field → Option Bytes → Option Bytes
value_if tag none before = before
value_if tag (some f) before = if eqb_ℤ f.tag tag then some f.value else before

-- The value of the last piece that makes a field with the tag.
abbrev pub last_value : ℤ → List Bytes → Option Bytes → Option Bytes
last_value tag [] before = before
last_value tag (p ∷ ps) before = last_value tag ps (value_if tag (naive_field p) before)

same_test :
    (b : Bool) (x y z : Option Bytes) → (if b then x else y) ≡ (if b then x else if b then z else y)
same_test true x y z = refl
same_test false x y z = refl

lookup-assign_field :
    (tag : ℤ) (f : Field) (m : List Field)
    → lookup tag (assign_field f m) ≡ (if eqb_ℤ f.tag tag then some f.value else lookup tag m)
unfolding lookup assign_field
lookup-assign_field tag f [] = refl
lookup-assign_field tag f (g ∷ m) = elim (Bool-cases (eqb_ℤ g.tag f.tag)) [
  | inl same ↦
      let e : g.tag ≡ f.tag = (eqb_ℤ_iff g.tag f.tag).0 same in
      rw (same, e) (same_test (eqb_ℤ f.tag tag) (some f.value) (lookup tag m) (some g.value))
  | inr other ↦ elim (Bool-cases (eqb_ℤ g.tag tag)) [
    | inl hit ↦
        let e : g.tag ≡ tag = (eqb_ℤ_iff g.tag tag).0 hit in
        let miss : eqb_ℤ f.tag tag ≡ false = ground arith in rw (other, hit, miss) refl
    | inr skip ↦ rw (other, skip) (lookup-assign_field tag f m)
  ]
]

lookup-put :
    (tag : ℤ) (found : Option Field) (m : List Field)
    → lookup tag (put found m) ≡ value_if tag found (lookup tag m)
lookup-put tag none m = refl
lookup-put tag (some f) m = lookup-assign_field tag f m

lookup-naive_loop :
    (tag : ℤ) (ps : List Bytes) (m : List Field)
    → lookup tag (naive_loop ps m) ≡ last_value tag ps (lookup tag m)
unfolding naive_loop
lookup-naive_loop tag [] m = refl
lookup-naive_loop tag (p ∷ ps) m =
    lookup-naive_loop tag ps (put (naive_field p) m)
    ∙ ap (last_value tag ps) (lookup-put tag (naive_field p) m)

-- The tick of a message is made of the last piece of each tag: of those pieces between the bytes '|'
-- that make a field, the last one with the tag 55, 44, 38 or 54 counts, and all others have no effect.
pub naive_parse_message-last_value :
    (d : Doubles) (stod : Bytes → Option (d.Double)) (message : Bytes) (now : ℕ)
    → naive_parse_message d stod message now
      ≡ naive_tick d stod (λ tag. last_value tag (split b'|' message) none) now
unfolding naive_parse_message naive_extract_fields lookup
naive_parse_message-last_value d stod message now =
    let at = (λ (tag : ℤ). lookup-naive_loop tag (split b'|' message) []) in
    rw (at (pos 55), at (pos 44), at (pos 38), at (pos 54)) refl
