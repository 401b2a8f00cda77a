-- ===== src/Views/Quotes.antt =====
-- That feedhandler/src/parser/repeating_group_parser.cpp only makes ticks that are quotes.
use scratch.Prelude.{
  ℕ, zero, suc, ◌+◌, min, ℤ, pos, eqb_ℤ, List, [], ◌∷◌, ◌++◌, length, get_elem?, All, true, Bytes,
  ◌≡◌, ◌⊎◌, arith, Bool-cases, inl, inr,
}
use scratch.Feed.Tick.{Tick, is_valid}
use scratch.Views.Split.{split}
use scratch.Views.Fields.{Field, find_field, extract_fields_optimized, is_nil}
use scratch.Views.Lines.{over_lines, for_lines-split}
use scratch.Views.Groups.{
  max_group_fields, max_indices, find_all_fields, push_valid, single_tick, value_at, entry_tick,
  entry_loop, text_or_empty, count_entries, ticks_of_fields, parse_repeating_groups,
  parse_buffer_with_repeating_groups,
}

-- A tick that offers to buy or to sell.
abbrev pub IsQuote : Tick → Type 0
IsQuote t = (is_valid t ≡ true) × ((t.side ≡ b'B') ⊎ (t.side ≡ b'S'))

is_valid-IsQuote : (t : Tick) → is_valid t ≡ true → IsQuote t
unfolding is_valid
is_valid-IsQuote t e = ground arith

All-append : (xs ys : List Tick) → All IsQuote xs → All IsQuote ys → All IsQuote (xs ++ ys)
All-append [] ys h k = k
All-append (x ∷ xs) ys (p, h) k = (p, All-append xs ys h k)

push_valid-IsQuote :
    (t : Tick) (ticks : List Tick) → All IsQuote ticks → All IsQuote (push_valid t ticks)
push_valid-IsQuote t ticks h = elim (Bool-cases (is_valid t)) [
  | inl valid ↦ rw valid (All-append ticks (t ∷ []) h (is_valid-IsQuote t valid, tt))
  | inr bad ↦ rw bad h
]

entry_loop-IsQuote :
    (clock : ℕ → ℕ) (fields : List Field) (symbol : Bytes) (types prices sizes : List ℕ) (n i : ℕ)
    (ticks : List Tick)
    → All IsQuote ticks
    → All IsQuote (entry_loop clock fields symbol types prices sizes n i ticks)
unfolding entry_loop
entry_loop-IsQuote clock fields symbol types prices sizes zero i ticks h = h
entry_loop-IsQuote clock fields symbol types prices sizes (suc n) i ticks h =
    let entry =
      entry_tick symbol (value_at fields (get_elem? types i)) (value_at fields (get_elem? prices i))
        (value_at fields (get_elem? sizes i)) (clock i) in
    entry_loop-IsQuote clock fields symbol types prices sizes n (i + 1) (push_valid entry ticks)
      (push_valid-IsQuote entry ticks h)

ticks_of_fields-IsQuote :
    (clock : ℕ → ℕ) (fields : List Field) → All IsQuote (ticks_of_fields clock fields)
unfolding ticks_of_fields
ticks_of_fields-IsQuote clock fields =
    let symbol = text_or_empty (find_field (pos 55) fields) in
    let found : ℤ → List ℕ = λ tag. find_all_fields tag max_indices 0 fields in
    elim (Bool-cases (eqb_ℤ (count_entries fields) (pos 0))) [
      | inl nothing ↦ rw nothing (push_valid-IsQuote (single_tick fields symbol (clock 0)) [] tt)
      | inr something ↦ rw something (
          entry_loop-IsQuote clock fields symbol (found (pos 269)) (found (pos 270))
            (found (pos 271))
            (min (length (found (pos 269)))
              (min (length (found (pos 270))) (length (found (pos 271)))))
            0 [] tt)
    ]

over_lines-IsQuote :
    (clock : ℕ → ℕ → ℕ) (ls : List Bytes) (ticks : List Tick)
    → All IsQuote ticks
    → All IsQuote (
        over_lines
          (λ message ticks. ticks ++ parse_repeating_groups (clock (length ticks)) message)
          ls
          ticks)
unfolding parse_repeating_groups
over_lines-IsQuote clock [] ticks h = h
over_lines-IsQuote clock (l ∷ ls) ticks h = elim (Bool-cases (is_nil l)) [
  | inl nothing ↦ rw nothing (over_lines-IsQuote clock ls ticks h)
  | inr something ↦
      let more = parse_repeating_groups (clock (length ticks)) l in
      rw something (
        over_lines-IsQuote clock ls (ticks ++ more) (
          All-append ticks more h (
            ticks_of_fields-IsQuote (clock (length ticks))
              (extract_fields_optimized l max_group_fields))))
]

-- Every tick that comes out of a buffer is valid and a quote: its side is 'B' or 'S'. So an entry of
-- any other type, such as a trade, makes none.
pub parse_buffer_with_repeating_groups-IsQuote :
    (clock : ℕ → ℕ → ℕ) (buffer : Bytes)
    → All IsQuote (parse_buffer_with_repeating_groups clock buffer)
unfolding parse_buffer_with_repeating_groups
parse_buffer_with_repeating_groups-IsQuote clock buffer =
    rw
      (for_lines-split
        (λ message ticks. ticks ++ parse_repeating_groups (clock (length ticks)) message) buffer [])
      (over_lines-IsQuote clock (split b'\n' buffer) [] tt)
