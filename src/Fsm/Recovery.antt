-- ===== src/Fsm/Recovery.antt =====
-- The scan for "8=FIX" of feedhandler/src/parser/fsm_fix_parser.cpp, and its correctness.
use scratch.Prelude.{
  ℕ, ◌+◌, ◌-◌, ◌==◌, length, [], ◌∷◌, Bool, true, false, Bytes, not, ◌&&◌, if◌then◌else◌, Option,
  none, some, leb, inc64, add64,
}
use scratch.Fsm.State.{
  Parser, RecoveryState, scanning, found_8, found_equals, found_f, found_fi, recovered,
}

-- The bytes of the pattern stand at the front of a text, which is then at least as long.
unfoldable pub matches : Bytes → Bytes → Bool
matches [] cs = true
matches (p ∷ ps) [] = false
matches (p ∷ ps) (c ∷ cs) = c == p && matches ps cs

abbrev pub pattern_8_fix : Bytes
pattern_8_fix = b'8' ∷ b'=' ∷ b'F' ∷ b'I' ∷ b'X' ∷ []

unfoldable pub is_fix_message_start : Bytes → Bool
unfolding matches
is_fix_message_start cs = matches pattern_8_fix cs

-- One byte of the scan; the test of FOUND_FI for 'X' is made by the loop.
unfoldable pub recovery_step : RecoveryState → ℕ → RecoveryState
recovery_step scanning c = if c == b'8' then found_8 else scanning
recovery_step found_8 c =
    if c == b'=' then found_equals else if not (c == b'8') then scanning else found_8
recovery_step found_equals c =
    if c == b'F' then found_f else if c == b'8' then found_8 else scanning
recovery_step found_f c = if c == b'I' then found_fi else if c == b'8' then found_8 else scanning
recovery_step found_fi c = if c == b'X' then recovered else if c == b'8' then found_8 else scanning
recovery_step recovered c = recovered

abbrev pub is_recovered : RecoveryState → Bool
is_recovered recovered = true
is_recovered _ = false

-- The loop from byte i in a state: the last state, and the position of the 'X', if it was found.
unfoldable pub recovery_loop : RecoveryState → ℕ → Bytes → RecoveryState × Option ℕ
unfolding recovery_step
recovery_loop st i [] = (st, none)
recovery_loop st i (c ∷ cs) =
    let next = recovery_step st c in
    let rest = recovery_loop next (i + 1) cs in
    if is_recovered next && not (is_recovered st) then (next, some i) else rest

unfoldable pub attempt_garbage_recovery : Bytes → Parser → Parser × ℕ
attempt_garbage_recovery buffer p =
    let (st, found) = recovery_loop scanning 0 buffer in
    elim found [
      | some i ↦ (
        record p {
          recovery_state = st;
          recovery_stats = record (p.recovery_stats) {
            recovery_count = inc64 (p.recovery_stats).recovery_count;
            bytes_skipped = add64 (p.recovery_stats).bytes_skipped (i - 4);
          };
        },
        if leb 4 i then i - 4 else 0,
      )
      | none ↦ (
        record p {
          recovery_state = st;
          recovery_stats = record (p.recovery_stats) {
            bytes_skipped = add64 (p.recovery_stats).bytes_skipped (length buffer);
          };
        },
        length buffer,
      )
    ]
