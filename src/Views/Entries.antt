-- ===== src/Views/Entries.antt =====
-- What the groups of feedhandler/src/parser/repeating_group_parser.cpp come out as: the n-th type, the
-- n-th price and the n-th size of a message make its n-th entry.
use scratch.Prelude.{
  ℕ, zero, suc, ◌+◌, min, ℤ, pos, eqb_ℤ, List, [], ◌∷◌, ◌++◌, append_assoc, append-nil, map, length,
  get_elem?, take, some, false, if◌then◌else◌, Bytes, ◌≡◌, refl, sym, ap, ◌∙◌, arith, Bool-cases,
  inl, inr,
}
use scratch.Feed.Tick.{Tick, is_valid}
use scratch.Views.Split.{split}
use scratch.Views.Fields.{Field, find_field}
use scratch.Views.Extract.{fields_of, extract_fields-optimized}
use scratch.Views.Groups.{
  max_group_fields, max_indices, find_all_fields, push_valid, value_of, value_at, entry_tick,
  entry_loop, text_or_empty, count_entries, ticks_of_fields, parse_repeating_groups,
}

-- The values of all fields with a tag.
unfoldable pub values_of : ℤ → List Field → List Bytes
values_of tag [] = []
values_of tag (f ∷ fs) =
    let rest = values_of tag fs in if eqb_ℤ f.tag tag then f.value ∷ rest else rest

-- The ticks of entries as far as types, prices and sizes reach, from entry i on.
unfoldable pub zip_ticks : (ℕ → ℕ) → Bytes → ℕ → List Bytes → List Bytes → List Bytes → List Tick
zip_ticks clock symbol i [] ps ss = []
zip_ticks clock symbol i (t ∷ ts) [] ss = []
zip_ticks clock symbol i (t ∷ ts) (p ∷ ps) [] = []
zip_ticks clock symbol i (t ∷ ts) (p ∷ ps) (s ∷ ss) =
    entry_tick symbol t p s (clock i) ∷ zip_ticks clock symbol (i + 1) ts ps ss

unfoldable pub valid_ticks : List Tick → List Tick
valid_ticks [] = []
valid_ticks (t ∷ ts) = let rest = valid_ticks ts in if is_valid t then t ∷ rest else rest

-- What find_all_fields finds are the first values of the tag.
find_all_fields-values_of :
    (fields : List Field) (tag : ℤ) (room i : ℕ) (fs : List Field)
    → ((k : ℕ) → get_elem? fields (i + k) ≡ get_elem? fs k)
    → map (λ j. value_at fields (some j)) (find_all_fields tag room i fs)
      ≡ take room (values_of tag fs)
unfolding find_all_fields values_of
find_all_fields-values_of fields tag zero i fs same = refl
find_all_fields-values_of fields tag (suc room) i [] same = refl
find_all_fields-values_of fields tag (suc room) i (f ∷ fs) same =
    let behind : (k : ℕ) → get_elem? fields (i + 1 + k) ≡ get_elem? fs k = (λ k.
      ap (get_elem? fields) (let e : i + 1 + k ≡ i + suc k = omega arith in e) ∙ same (suc k)) in
    elim (Bool-cases (eqb_ℤ f.tag tag)) [
      | inl hit ↦ rw hit (
          ap (λ v. v ∷ map (λ j. value_at fields (some j)) (find_all_fields tag room (i + 1) fs))
            (ap value_of (ap (get_elem? fields) (let e : i ≡ i + 0 = omega arith in e) ∙ same 0))
          ∙ ap (◌∷◌ f.value) (find_all_fields-values_of fields tag room (i + 1) fs behind))
      | inr miss ↦ rw miss (find_all_fields-values_of fields tag (suc room) (i + 1) fs behind)
    ]

push_valid-valid_ticks :
    (t : Tick) (ticks ts : List Tick)
    → push_valid t ticks ++ valid_ticks ts ≡ ticks ++ valid_ticks (t ∷ ts)
unfolding valid_ticks
push_valid-valid_ticks t ticks ts = elim (Bool-cases (is_valid t)) [
  | inl valid ↦ rw valid (append_assoc ticks (t ∷ []) (valid_ticks ts))
  | inr bad ↦ rw bad refl
]

module _ (clock : ℕ → ℕ) (fields : List Field) (symbol : Bytes) (types prices sizes : List ℕ) where
  abbrev values : List ℕ → List Bytes
  values is = map (λ j. value_at fields (some j)) is

  -- What the lists of indices hold from i on.
  abbrev From : ℕ → List ℕ → List ℕ → Type 0
  From i is rest = (k : ℕ) → get_elem? is (i + k) ≡ get_elem? rest k

  here :
      (i : ℕ) (is : List ℕ) (j : ℕ) (rest : List ℕ) → From i is (j ∷ rest) → get_elem? is i ≡ some j
  here i is j rest same = ap (get_elem? is) (let e : i ≡ i + 0 = omega arith in e) ∙ same 0

  onward :
      (i : ℕ) (is : List ℕ) (j : ℕ) (rest : List ℕ) → From i is (j ∷ rest) → From (i + 1) is rest
  onward i is j rest same k =
      ap (get_elem? is) (let e : i + 1 + k ≡ i + suc k = omega arith in e) ∙ same (suc k)

  entry_loop_lem :
      (i n : ℕ) (ts ps ss : List ℕ) (ticks : List Tick)
      → n ≡ min (length ts) (min (length ps) (length ss))
      → From i types ts
      → From i prices ps
      → From i sizes ss
      → entry_loop clock fields symbol types prices sizes n i ticks
        ≡ ticks ++ valid_ticks (zip_ticks clock symbol i (values ts) (values ps) (values ss))
  unfolding entry_loop zip_ticks valid_ticks
  entry_loop_lem i zero [] ps ss ticks e ft fp fs = sym (append-nil ticks)
  entry_loop_lem i zero (t ∷ ts) [] ss ticks e ft fp fs = sym (append-nil ticks)
  entry_loop_lem i zero (t ∷ ts) (p ∷ ps) [] ticks e ft fp fs = sym (append-nil ticks)
  entry_loop_lem i zero (t ∷ ts) (p ∷ ps) (s ∷ ss) ticks e ft fp fs = absurd (omega arith)
  entry_loop_lem i (suc n) [] ps ss ticks e ft fp fs = absurd (omega arith)
  entry_loop_lem i (suc n) (t ∷ ts) [] ss ticks e ft fp fs = absurd (omega arith)
  entry_loop_lem i (suc n) (t ∷ ts) (p ∷ ps) [] ticks e ft fp fs = absurd (omega arith)
  entry_loop_lem i (suc n) (t ∷ ts) (p ∷ ps) (s ∷ ss) ticks e ft fp fs =
      let entry =
        entry_tick symbol (value_at fields (some t)) (value_at fields (some p))
          (value_at fields (some s)) (clock i) in
      rw (here i types t ts ft, here i prices p ps fp, here i sizes s ss fs, entry_loop)
        (entry_loop_lem (i + 1) n ts ps ss (push_valid entry ticks) (omega arith)
            (onward i types t ts ft) (onward i prices p ps fp) (onward i sizes s ss fs)
          ∙ push_valid-valid_ticks entry ticks
              (zip_ticks clock symbol (i + 1) (values ts) (values ps) (values ss)))

found_values :
    (fields : List Field) (tag : ℤ)
    → map (λ j. value_at fields (some j)) (find_all_fields tag max_indices 0 fields)
      ≡ take max_indices (values_of tag fields)
found_values fields tag =
    find_all_fields-values_of fields tag max_indices 0 fields
      (λ k. ap (get_elem? fields) (let e : 0 + k ≡ k = omega arith in e))

-- The first fields of a text, as many as the parser has room for.
abbrev pub group_fields : Bytes → List Field
group_fields message = take max_group_fields (fields_of (split b'|' message))

parse_repeating_groups-fields :
    (clock : ℕ → ℕ) (message : Bytes)
    → parse_repeating_groups clock message ≡ ticks_of_fields clock (group_fields message)
unfolding parse_repeating_groups
parse_repeating_groups-fields clock message =
    ap (ticks_of_fields clock) (extract_fields-optimized message max_group_fields).1

-- A message whose count of entries is not 0, the count given or else that of its entry types, makes
-- the valid ones among the ticks of its entries, in their order: the n-th value of tag 269 with the
-- n-th of 270 and the n-th of 271, as far as all three reach and at most 32 of them, and the symbol of
-- the whole message. How large a given count is has no effect.
pub parse_repeating_groups-zip_ticks :
    (clock : ℕ → ℕ) (message : Bytes)
    → eqb_ℤ (count_entries (group_fields message)) (pos 0) ≡ false
    → parse_repeating_groups clock message
      ≡ valid_ticks (
          zip_ticks clock
            (text_or_empty (find_field (pos 55) (group_fields message)))
            0
            (take max_indices (values_of (pos 269) (group_fields message)))
            (take max_indices (values_of (pos 270) (group_fields message)))
            (take max_indices (values_of (pos 271) (group_fields message))))
unfolding ticks_of_fields
parse_repeating_groups-zip_ticks clock message some_entries =
    let fields = group_fields message in
    let symbol = text_or_empty (find_field (pos 55) fields) in
    let found : ℤ → List ℕ = λ tag. find_all_fields tag max_indices 0 fields in
    let at_zero : (is : List ℕ) (k : ℕ) → get_elem? is (0 + k) ≡ get_elem? is k =
      (λ is k. ap (get_elem? is) (let e : 0 + k ≡ k = omega arith in e)) in
    parse_repeating_groups-fields clock message
    ∙ rw some_entries (
        entry_loop_lem clock fields symbol (found (pos 269)) (found (pos 270)) (found (pos 271)) 0
          (min (length (found (pos 269)))
            (min (length (found (pos 270))) (length (found (pos 271)))))
          (found (pos 269)) (found (pos 270)) (found (pos 271)) [] refl (at_zero (found (pos 269)))
          (at_zero (found (pos 270))) (at_zero (found (pos 271)))
        ∙ rw
            (
              found_values fields (pos 269),
              found_values fields (pos 270),
              found_values fields (pos 271),
            )
            refl)
