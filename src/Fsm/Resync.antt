-- ===== src/Fsm/Resync.antt =====
-- The scan of Fsm/Recovery.antt (feedhandler/src/parser/fsm_fix_parser.cpp) against the first position
-- of "8=FIX" in the buffer.
use scratch.Prelude.{
  ℕ, zero, suc, ◌+◌, ◌<◌, ◌==◌, length, [], ◌∷◌, ◌++◌, append-nil, true, false, ◌≡◌, refl, ap, ◌∙◌,
  arith, Bytes, if◌then◌else◌, Option, none, some, Option-cases, inl, inr, ◌⊎◌, inc64, add64, drop,
  Bool-cases, ltb, ◌&&◌,
}
use scratch.Fsm.State.{
  Parser, RecoveryState, scanning, found_8, found_equals, found_f, found_fi, recovered,
}
use scratch.Fsm.Recovery.{
  is_fix_message_start, is_recovered, recovery_loop, attempt_garbage_recovery,
}

-- `some i`, moved on by n positions.
abbrev pub moved : ℕ → Option ℕ → Option ℕ
moved n none = none
moved n (some i) = some (n + i)

-- The first position at which "8=FIX" stands.
unfoldable pub first_start : Bytes → Option ℕ
first_start [] = none
first_start (c ∷ cs) =
    let later = moved 1 (first_start cs) in if is_fix_message_start (c ∷ cs) then some 0 else later

-- What a state has read of the pattern.
abbrev seen : RecoveryState → Bytes
seen scanning = []
seen found_8 = b'8' ∷ []
seen found_equals = b'8' ∷ b'=' ∷ []
seen found_f = b'8' ∷ b'=' ∷ b'F' ∷ []
seen found_fi = b'8' ∷ b'=' ∷ b'F' ∷ b'I' ∷ []
seen recovered = []

moved-moved : (m n : ℕ) (o : Option ℕ) → moved m (moved n o) ≡ moved (m + n) o
moved-moved m n none = refl
moved-moved m n (some i) = ap some (omega arith)

-- A byte that does not go on with the pattern moves the first start behind what was read of it.
skip_scanning :
    (c : ℕ) (cs : Bytes) → (c == b'8') ≡ false → first_start (c ∷ cs) ≡ moved 1 (first_start cs)
unfolding first_start is_fix_message_start
skip_scanning c cs h = ground arith

skip_8 :
    (c : ℕ) (cs : Bytes)
    → (c == b'=') ≡ false
    → first_start (b'8' ∷ c ∷ cs) ≡ moved 1 (first_start (c ∷ cs))
unfolding is_fix_message_start first_start
skip_8 c cs h = rw h

skip_equals :
    (c : ℕ) (cs : Bytes)
    → (c == b'F') ≡ false
    → first_start (b'8' ∷ b'=' ∷ c ∷ cs) ≡ moved 2 (first_start (c ∷ cs))
unfolding is_fix_message_start first_start
skip_equals c cs h = rw h (moved-moved 1 1 _)

skip_f :
    (c : ℕ) (cs : Bytes)
    → (c == b'I') ≡ false
    → first_start (b'8' ∷ b'=' ∷ b'F' ∷ c ∷ cs) ≡ moved 3 (first_start (c ∷ cs))
unfolding is_fix_message_start first_start
skip_f c cs h = rw h (ap (moved 1) (moved-moved 1 1 _) ∙ moved-moved 1 2 _)

skip_fi :
    (c : ℕ) (cs : Bytes)
    → (c == b'X') ≡ false
    → first_start (b'8' ∷ b'=' ∷ b'F' ∷ b'I' ∷ c ∷ cs) ≡ moved 4 (first_start (c ∷ cs))
unfolding is_fix_message_start first_start
skip_fi c cs h =
    rw h (ap (moved 1) (ap (moved 1) (moved-moved 1 1 _) ∙ moved-moved 1 2 _) ∙ moved-moved 1 3 _)

start_here : (cs : Bytes) → first_start (b'8' ∷ b'=' ∷ b'F' ∷ b'I' ∷ b'X' ∷ cs) ≡ some 0
unfolding is_fix_message_start first_start
start_here cs = refl

no_start : (st : RecoveryState) → first_start (seen st) ≡ none
unfolding is_fix_message_start first_start
no_start scanning = refl
no_start found_8 = refl
no_start found_equals = refl
no_start found_f = refl
no_start found_fi = refl
no_start recovered = refl

-- In a state that has read a part of the pattern, the loop finds the 'X' of the first start in that
-- part and the rest.
recovery_loop_lem :
    (st : RecoveryState) (i j : ℕ) (cs : Bytes)
    → is_recovered st ≡ false
    → i ≡ j + length (seen st)
    → (recovery_loop st i cs).1 ≡ moved (j + 4) (first_start (seen st ++ cs))
unfolding recovery_loop
recovery_loop_lem st i j [] r e = rw (append-nil (seen st), no_start st)
recovery_loop_lem scanning i j (c ∷ cs) r e = ground (
  arith,
  skip_scanning c cs,
  recovery_loop_lem found_8 (i + 1) j cs refl,
  recovery_loop_lem scanning (i + 1) (j + 1) cs refl,
)
recovery_loop_lem found_8 i j (c ∷ cs) r e = ground (
  arith,
  skip_8 c cs,
  skip_scanning c cs,
  recovery_loop_lem found_equals (i + 1) j cs refl,
  recovery_loop_lem found_8 (i + 1) (j + 1) cs refl,
  recovery_loop_lem scanning (i + 1) (j + 2) cs refl,
)
recovery_loop_lem found_equals i j (c ∷ cs) r e = ground (
  arith,
  skip_equals c cs,
  skip_scanning c cs,
  recovery_loop_lem found_f (i + 1) j cs refl,
  recovery_loop_lem found_8 (i + 1) (j + 2) cs refl,
  recovery_loop_lem scanning (i + 1) (j + 3) cs refl,
)
recovery_loop_lem found_f i j (c ∷ cs) r e = ground (
  arith,
  skip_f c cs,
  skip_scanning c cs,
  recovery_loop_lem found_fi (i + 1) j cs refl,
  recovery_loop_lem found_8 (i + 1) (j + 3) cs refl,
  recovery_loop_lem scanning (i + 1) (j + 4) cs refl,
)
recovery_loop_lem found_fi i j (c ∷ cs) r e = ground (
  arith,
  skip_fi c cs,
  start_here cs,
  skip_scanning c cs,
  recovery_loop_lem found_8 (i + 1) (j + 4) cs refl,
  recovery_loop_lem scanning (i + 1) (j + 5) cs refl,
)
recovery_loop_lem recovered i j (c ∷ cs) r e = cc

-- The position of the first start, or the length where there is none.
abbrev pub skipped : Bytes → ℕ
skipped buffer = elim (first_start buffer) [ some k ↦ k | none ↦ length buffer ]

abbrev pub counted : Option ℕ → ℕ → ℕ
counted none n = n
counted (some k) n = inc64 n

recovery_loop_first :
    (buffer : Bytes) → (recovery_loop scanning 0 buffer).1 ≡ moved 4 (first_start buffer)
recovery_loop_first buffer = recovery_loop_lem scanning 0 0 buffer refl (omega arith)

-- The recovery returns the position of the first "8=FIX" in the buffer, or its length where there is
-- none, and adds that many bytes to those skipped; a recovery is counted if and only if one was found.
pub attempt_garbage_recovery_lem :
    (buffer : Bytes) (p : Parser)
    → let r = attempt_garbage_recovery buffer p in
      let old = p.recovery_stats in
      (r.1 ≡ skipped buffer)
      × (r.0.recovery_stats ≡ record old {
        recovery_count = counted (first_start buffer) old.recovery_count;
        bytes_skipped = add64 old.bytes_skipped (skipped buffer);
      })
unfolding attempt_garbage_recovery
attempt_garbage_recovery_lem buffer p = elim (Option-cases (first_start buffer)) [
  | inl e ↦ ground (arith, recovery_loop_first buffer)
  | inr (k, e) ↦ ground (arith, recovery_loop_first buffer)
]

first_start_before :
    (buffer : Bytes) (j : ℕ) → j < skipped buffer → is_fix_message_start (drop j buffer) ≡ false
unfolding first_start
first_start_before [] j h = absurd (omega arith)
first_start_before (c ∷ cs) zero h = ground arith
first_start_before (c ∷ cs) (suc j) h = ground (arith, first_start_before cs j)

skipped_nil : skipped [] ≡ 0
unfolding first_start
skipped_nil = refl

skipped_here : (c : ℕ) (cs : Bytes) → is_fix_message_start (c ∷ cs) ≡ true → skipped (c ∷ cs) ≡ 0
unfolding first_start
skipped_here c cs h = ground arith

skipped_further :
    (c : ℕ) (cs : Bytes)
    → is_fix_message_start (c ∷ cs) ≡ false
    → skipped (c ∷ cs) ≡ suc (skipped cs)
unfolding first_start
skipped_further c cs h = ground arith

first_start_at :
    (buffer : Bytes)
    → (is_fix_message_start (drop (skipped buffer) buffer) ≡ true)
      ⊎ (skipped buffer ≡ length buffer)
first_start_at [] = inr skipped_nil
first_start_at (c ∷ cs) = elim (Bool-cases (is_fix_message_start (c ∷ cs))) [
  | inl here ↦ inl (rw (skipped_here c cs here) here)
  | inr further ↦
      rw (skipped_further c cs further)
        (elim (first_start_at cs) [ inl e ↦ inl e | inr e ↦ inr (ap suc e) ])
]

-- No "8=FIX" stands before the position that the recovery returns, and either one stands there, or the
-- whole buffer is to be skipped, in which none stands then.
pub attempt_garbage_recovery_first :
    (buffer : Bytes) (p : Parser) (j : ℕ)
    → let r = attempt_garbage_recovery buffer p in
      ((ltb j r.1 && is_fix_message_start (drop j buffer)) ≡ false)
      × ((is_fix_message_start (drop r.1 buffer) ≡ true) ⊎ (r.1 ≡ length buffer))
attempt_garbage_recovery_first buffer p j =
    let e = (attempt_garbage_recovery_lem buffer p).0 in
    (rw e (ground (arith, first_start_before buffer j)), rw e (first_start_at buffer))
