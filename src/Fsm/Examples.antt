-- ===== src/Fsm/Examples.antt =====
-- Runs of the parser of feedhandler/src/parser/fsm_fix_parser.cpp, with decimal fixed point.
use scratch.Prelude.{
  ltb, ◌&&◌, ℕ, ◌+◌, ◌≤◌, length, drop, pos, eqb_ℤ, List, [], ◌∷◌, true, false, ◌⊎◌, ◌≡◌, ◌≢◌, refl,
  arith, All, Bytes, wrap32, ◌+ℤ◌, ◌*ℤ◌,
}
use scratch.Doubles.{fixed_point}
use scratch.Number.Fast.{fast_atoi, atoi_loop}
use scratch.Fsm.State.{
  wait_tag, is_tag_digit, is_delimiter, value_limit, RecoveryStats, new_parser, parse,
}
use scratch.Fsm.Stream.{
  joined, parse_fragments, parse_fragments-parse, IsSafe, new_parser-IsSafe, parse-IsSafe,
}
use scratch.Fsm.Recovery.{
  is_fix_message_start, attempt_garbage_recovery, recovery_loop, recovery_step,
}
use scratch.Fsm.Resync.{attempt_garbage_recovery_first}
use scratch.Fsm.Message.{
  Field, tag_of, print, IsField, print_all, assign_all, IsBody, Ends, parse-print_all,
}

-- A clock that moves by one with every tick.
abbrev pub clock : ℕ → ℕ
clock n = 1000 + n

-- A field with a tag of two digits.
abbrev field : ℕ → ℕ → Bytes → Field
field first second v = record { first = first; digits = second ∷ []; value = v; delimiter = b'|' }

field-IsField :
    (a b : ℕ) (v : Bytes)
    → is_tag_digit a ≡ true
    → is_tag_digit b ≡ true
    → All (λ c. is_delimiter c ≡ false) v
    → length v ≤ value_limit
    → IsField (field a b v)
field-IsField a b v first second plain fits = record {
  first_digit = first;
  other_digits = (second, tt);
  tag_fits = omega arith;
  plain_value = plain;
  value_fits = fits;
  delimited = refl;
  not_newline = refl;
}

-- 55=A| 38=50| 44=12.5| 54=1| and 10=0|
abbrev symbol_field : Field
symbol_field = field b'5' b'5' (b'A' ∷ [])

abbrev quantity_field : Field
quantity_field = field b'3' b'8' (b'5' ∷ b'0' ∷ [])

abbrev price_field : Field
price_field = field b'4' b'4' (b'1' ∷ b'2' ∷ b'.' ∷ b'5' ∷ [])

abbrev side_field : Field
side_field = field b'5' b'4' (b'1' ∷ [])

abbrev pub checksum : Field
checksum = field b'1' b'0' (b'0' ∷ [])

abbrev pub fields : List Field
fields = symbol_field ∷ price_field ∷ quantity_field ∷ side_field ∷ []

abbrev text : Bytes
text = print symbol_field (print checksum [])

parse_fragments-parse_example :
    (parse_fragments fixed_point clock (text ∷ text ∷ []) (new_parser, [])
      ≡ (parse fixed_point clock (joined (text ∷ text ∷ [])) (new_parser, [])).0)
    × ((parse fixed_point clock (joined (text ∷ text ∷ [])) (new_parser, [])).1
        ≡ length (joined (text ∷ text ∷ [])))
parse_fragments-parse_example =
    parse_fragments-parse fixed_point clock (text ∷ text ∷ []) (new_parser, [])

parse-IsSafe_example : IsSafe (parse fixed_point clock text (new_parser, [])).0.0
parse-IsSafe_example = parse-IsSafe fixed_point clock text [] new_parser new_parser-IsSafe

-- 88=FIX
abbrev garbage : Bytes
garbage = b'8' ∷ b'8' ∷ b'=' ∷ b'F' ∷ b'I' ∷ b'X' ∷ []

one_skipped : (attempt_garbage_recovery garbage new_parser).1 ≡ 1
unfolding attempt_garbage_recovery recovery_loop recovery_step
one_skipped = refl

attempt_garbage_recovery_first_example :
    let r = attempt_garbage_recovery garbage new_parser in
    ((ltb 0 r.1 && is_fix_message_start (drop 0 garbage)) ≡ false)
    × ((is_fix_message_start (drop r.1 garbage) ≡ true) ⊎ (r.1 ≡ length garbage))
attempt_garbage_recovery_first_example = attempt_garbage_recovery_first garbage new_parser 0

pub checksum-IsField : IsField checksum
checksum-IsField = field-IsField b'1' b'0' (b'0' ∷ []) refl refl (refl, tt) (omega arith)

pub fields-IsBody : All (IsBody fixed_point clock) fields
unfolding fast_atoi atoi_loop wrap32 ◌+ℤ◌ ◌*ℤ◌
fields-IsBody = (
  (field-IsField b'5' b'5' (b'A' ∷ []) refl refl (refl, tt) (omega arith), refl),
  (
    (
      field-IsField b'4' b'4' (b'1' ∷ b'2' ∷ b'.' ∷ b'5' ∷ []) refl refl
          (refl, (refl, (refl, (refl, tt)))) (omega arith),
      refl,
    ),
    (
      (field-IsField b'3' b'8' (b'5' ∷ b'0' ∷ []) refl refl (refl, (refl, tt)) (omega arith), refl),
      ((field-IsField b'5' b'4' (b'1' ∷ []) refl refl (refl, tt) (omega arith), refl), tt),
    ),
  ),
)

pub waiting : new_parser.state ≡ wait_tag
unfolding new_parser
waiting = refl

pub is_checksum : eqb_ℤ (fast_atoi (tag_of checksum)) (pos 10) ≡ true
unfolding fast_atoi atoi_loop wrap32 ◌+ℤ◌ ◌*ℤ◌
is_checksum = refl

parse-print_all_example :
    Ends fixed_point clock
      (assign_all fixed_point clock fields new_parser.tick_builder)
      []
      (parse fixed_point clock
        (print_all fixed_point clock fields (print checksum []))
        (new_parser, [])).0
parse-print_all_example =
    parse-print_all fixed_point clock fields checksum new_parser [] waiting fields-IsBody
      checksum-IsField is_checksum

abbrev busy : RecoveryStats
busy = record { error_count = 3; recovery_count = 1; bytes_skipped = 8 }

not_buy : fast_atoi (b'7' ∷ []) ≢ pos 1
unfolding fast_atoi atoi_loop wrap32 ◌+ℤ◌ ◌*ℤ◌
not_buy e = ground arith

not_sell : fast_atoi (b'7' ∷ []) ≢ pos 2
unfolding fast_atoi atoi_loop wrap32 ◌+ℤ◌ ◌*ℤ◌
not_sell e = ground arith
