-- ===== src/Views/Extract.antt =====
-- That both field loops of feedhandler/src/parser store the first fields of the text cut at '|'.
use scratch.Prelude.{
  ℕ, zero, suc, ◌+◌, ◌-◌, ◌≤◌, ◌<◌, ltb, List, [], ◌∷◌, Option, none, some, false, not, ◌&&◌,
  length, take, drop, length-drop, Bytes, ◌≡◌, refl, sym, ap, ◌∙◌, arith, Bool-cases, inl, inr,
  Option-cases,
}
use native.Mathlib.Nat.{suc-add}
use scratch.Views.Split.{
  split, until, from_sep, find_char, find_or_end, take-find, drop-find, length-from_sep,
  split-until,
}
use scratch.Views.Fields.{
  Field, is_nil, view_field, store, stored, extract_loop, extract_fields, scanned_field, scan_loop,
  extract_fields_optimized,
}

-- The fields that the pieces of a text make, in their order.
abbrev pub fields_of : List Bytes → List Field
fields_of [] = []
fields_of (p ∷ ps) = store (scanned_field p) (fields_of ps)

-- What a search that fails, or finds a position, says of the scan.
find_none : (sep : ℕ) (s : Bytes) → find_char sep s ≡ none → from_sep sep s ≡ []
unfolding find_char from_sep
find_none sep [] e = refl
find_none sep (c ∷ cs) e = ground (arith, find_none sep cs)

find_some :
    (sep : ℕ) (s : Bytes) (k : ℕ)
    → find_char sep s ≡ some k
    → (take k s ≡ until sep s)
      × (drop (k + 1) s ≡ drop 1 (from_sep sep s))
      × (is_nil (from_sep sep s) ≡ false)
      × (ltb 0 k ≡ not (is_nil (until sep s)))
unfolding find_char from_sep until
find_some sep [] k e = cc
find_some sep (c ∷ cs) zero e = ground arith
find_some sep (c ∷ cs) (suc k) e = ground (arith, find_some sep cs k)

view-scanned : (field : Bytes) → view_field field ≡ scanned_field field
unfolding view_field scanned_field
view-scanned field = elim (Option-cases (find_char b'=' field)) [
  | inl e ↦ ground (arith, find_none b'=' field e)
  | inr (k, e) ↦ ground (arith, find_some b'=' field k e)
]

pub drop-add : (n m : ℕ) (s : Bytes) → drop (n + m) s ≡ drop m (drop n s)
drop-add zero m s = ap (λ k. drop k s) (omega arith)
drop-add (suc n) zero [] = rw suc-add refl
drop-add (suc n) (suc m) [] = rw suc-add refl
drop-add (suc n) m (c ∷ cs) = rw suc-add (drop-add n m cs)

take_none : (n : ℕ) → ◌≡◌ {A = List Field} (take n []) []
take_none zero = refl
take_none (suc n) = refl

take-stored :
    (found : Option Field) (count max_fields : ℕ) (fs : List Field)
    → count < max_fields
    → take (max_fields - count) (store found fs)
      ≡ store found (take (max_fields - stored found count) fs)
take-stored none count max_fields fs h = refl
take-stored (some f) count max_fields fs h =
    ap (λ n. take n (f ∷ fs))
      (let e : max_fields - count ≡ suc (max_fields - (count + 1)) = omega arith in e)

fields_of_rest :
    (r : Bytes)
    → fields_of (elim r as (λ _. List Bytes) [ [] ↦ [] | ◌∷◌ c cs ↦ split b'|' cs ])
      ≡ fields_of (split b'|' (drop 1 r))
unfolding split scanned_field
fields_of_rest [] = refl
fields_of_rest (c ∷ cs) = refl

fields_of-split :
    (s : Bytes)
    → fields_of (split b'|' s)
      ≡ store (scanned_field (until b'|' s)) (fields_of (split b'|' (drop 1 (from_sep b'|' s))))
fields_of-split s =
    rw (split-until b'|' s)
      (ap (store (scanned_field (until b'|' s))) (fields_of_rest (from_sep b'|' s)))

take-fields_of_nil : (n : ℕ) → [] ≡ take n (fields_of (split b'|' []))
unfolding split scanned_field
take-fields_of_nil n = sym (take_none n)

scan_loop_lem :
    (fuel : ℕ) (rest : Bytes) (count max_fields : ℕ)
    → length rest ≤ fuel
    → scan_loop fuel rest count max_fields ≡ take (max_fields - count) (fields_of (split b'|' rest))
unfolding scan_loop
scan_loop_lem zero [] count max_fields h = take-fields_of_nil (max_fields - count)
scan_loop_lem zero (c ∷ cs) count max_fields h = absurd (omega arith)
scan_loop_lem (suc fuel) [] count max_fields h = take-fields_of_nil (max_fields - count)
scan_loop_lem (suc fuel) (c ∷ cs) count max_fields h = elim (Bool-cases (ltb count max_fields)) [
  | inl room ↦
      let found = scanned_field (until b'|' (c ∷ cs)) in
      let rest = drop 1 (from_sep b'|' (c ∷ cs)) in
      rw (room, scan_loop)
        (ap (store found) (
            scan_loop_lem fuel rest (stored found count) max_fields (
              omega (arith, length-drop 1 (from_sep b'|' (c ∷ cs)), length-from_sep b'|' (c ∷ cs))))
          ∙ sym (take-stored found count max_fields (fields_of (split b'|' rest)) (ground arith))
          ∙ ap (take (max_fields - count)) (sym (fields_of-split (c ∷ cs))))
  | inr full ↦
      rw (full, scan_loop)
        (ap (λ n. take n (fields_of (split b'|' (c ∷ cs))))
          (let e : 0 ≡ max_fields - count = ground arith in e))
]

is_nil-drop : (n : ℕ) (s : Bytes) → not (is_nil (drop n s)) ≡ ltb n (length s)
is_nil-drop zero [] = refl
is_nil-drop zero (c ∷ cs) = ground arith
is_nil-drop (suc n) [] = ground arith
is_nil-drop (suc n) (c ∷ cs) = ground (arith, is_nil-drop n cs)

-- The position behind a field is the pointer behind it.
next_field :
    (position : ℕ) (message : Bytes)
    → drop (position + find_or_end b'|' (drop position message) + 1) message
      ≡ drop 1 (from_sep b'|' (drop position message))
next_field position message =
    let rest = drop position message in
    let size = find_or_end b'|' rest in
    drop-add (position + size) 1 message
    ∙ ap (drop 1) (drop-add position size message ∙ drop-find b'|' rest)

extract_loop-scan_loop :
    (fuel : ℕ) (message : Bytes) (position count max_fields : ℕ)
    → extract_loop fuel message position count max_fields
      ≡ scan_loop fuel (drop position message) count max_fields
unfolding extract_loop scan_loop
extract_loop-scan_loop zero message position count max_fields = refl
extract_loop-scan_loop (suc fuel) message position count max_fields =
    let rest = drop position message in
    let next = position + find_or_end b'|' rest + 1 in
    let same = view-scanned (until b'|' rest) in
    elim (Bool-cases (ltb position (length message) && ltb count max_fields)) [
      | inl more ↦
          rw
            (is_nil-drop position message, more, take-find b'|' rest, same, extract_loop, scan_loop)
            (let found = scanned_field (until b'|' rest) in
              ap (store found) (
                extract_loop-scan_loop fuel message next (stored found count) max_fields
                ∙ ap (λ r. scan_loop fuel r (stored found count) max_fields)
                    (next_field position message)))
      | inr done ↦ rw (is_nil-drop position message, done, extract_loop, scan_loop) refl
    ]

-- Both field loops come to their end within any fuel that is at least the length of the text, and
-- store the same fields, for every size of the array: the first ones of those that the pieces between
-- the bytes '|' make. A piece makes a field where a positive number stands in front of its first '='.
pub extract_loop_ends :
    (fuel : ℕ) (message : Bytes) (max_fields : ℕ)
    → length message ≤ fuel
    → (extract_loop fuel message 0 0 max_fields ≡ take max_fields (fields_of (split b'|' message)))
      × (scan_loop fuel message 0 max_fields ≡ take max_fields (fields_of (split b'|' message)))
extract_loop_ends fuel message max_fields enough =
    let e : max_fields - 0 ≡ max_fields = omega arith in
    let result =
      scan_loop_lem fuel message 0 max_fields enough
      ∙ ap (λ n. take n (fields_of (split b'|' message))) e in
    (extract_loop-scan_loop fuel message 0 0 max_fields ∙ result, result)

pub extract_fields-optimized :
    (message : Bytes) (max_fields : ℕ)
    → (extract_fields message max_fields ≡ take max_fields (fields_of (split b'|' message)))
      × (extract_fields_optimized message max_fields
          ≡ take max_fields (fields_of (split b'|' message)))
unfolding extract_fields extract_fields_optimized
extract_fields-optimized message max_fields =
    extract_loop_ends (length message) message max_fields (omega arith)
