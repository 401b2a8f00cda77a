-- ===== src/Fsm/Flags.antt =====
-- What does not steer the parser of feedhandler/src/parser/fsm_fix_parser.cpp: the recovery mode, and
-- the validity of a side.
use scratch.Prelude.{
  ℕ, ℤ, pos, eqb_ℤ, List, [], ◌∷◌, Bool, true, false, ◌≡◌, ◌≢◌, refl, sym, ap, ◌∙◌, arith, Bytes,
  eqb_ℤ_iff, Bool-cases, inl, inr,
}
use scratch.Doubles.{Doubles}
use scratch.Feed.Tick.{Tick, is_valid, fix_side_to_char}
use scratch.Number.Fast.{fast_atoi}
use scratch.Fsm.State.{
  State, wait_tag, read_tag, wait_value, read_value, complete, TickBuilder, Parser, RecoveryStats,
  RecoveryState, assign, end_field, process_char_in, tick_of, parse_char, parse,
}
use scratch.Fsm.Stream.{feed, parse-feed}

abbrev pub with_recovery : Bool → RecoveryStats → RecoveryState → Parser → Parser
with_recovery enabled stats state p = record p {
  garbage_recovery_enabled = enabled;
  recovery_stats = stats;
  recovery_state = state;
}

module _ (d : Doubles) (enabled : Bool) (stats : RecoveryStats) (state : RecoveryState) where
  end_field-with_recovery :
      (c : ℕ) (p : Parser)
      → end_field d c (with_recovery enabled stats state p)
        ≡ (with_recovery enabled stats state (end_field d c p).0, (end_field d c p).1)
  unfolding end_field
  end_field-with_recovery c p = ground arith

  process_char-with_recovery :
      (k : State) (c : ℕ) (p : Parser)
      → process_char_in d k c (with_recovery enabled stats state p) ≡ (
        with_recovery enabled stats state (process_char_in d k c p).0,
        (process_char_in d k c p).1,
      )
  unfolding process_char_in
  process_char-with_recovery wait_tag c p = ground arith
  process_char-with_recovery read_tag c p = ground arith
  process_char-with_recovery wait_value c p =
      ground (arith, end_field-with_recovery c (record p { state = read_value }))
  process_char-with_recovery read_value c p = ground (arith, end_field-with_recovery c p)
  process_char-with_recovery complete c p = ground arith

module _ (d : Doubles) (clock : ℕ → ℕ) (enabled : Bool) (stats : RecoveryStats)
    (state : RecoveryState) where
  abbrev pub recovering : Parser × List Tick → Parser × List Tick
  recovering (p, ticks) = (with_recovery enabled stats state p, ticks)

  parse_char-recovering :
      (c : ℕ) (s : Parser × List Tick)
      → parse_char d clock c (recovering s) ≡ recovering (parse_char d clock c s)
  unfolding parse_char
  parse_char-recovering c (p, ticks) =
      rw (process_char-with_recovery d enabled stats state p.state c p) (ground arith)

  feed-recovering :
      (cs : Bytes) (s : Parser × List Tick)
      → feed d clock cs (recovering s) ≡ recovering (feed d clock cs s)
  unfolding feed
  feed-recovering [] s = refl
  feed-recovering (c ∷ cs) s =
      ap (feed d clock cs) (parse_char-recovering c s) ∙ feed-recovering cs (parse_char d clock c s)

  -- Parsing takes no notice of garbage recovery: whether it is enabled, what was counted and where a
  -- scan stopped change no tick and no other part of the parser, and are themselves unchanged.
  pub parse-recovering :
      (cs : Bytes) (s : Parser × List Tick)
      → (parse d clock cs (recovering s)).0 ≡ recovering (parse d clock cs s).0
  parse-recovering cs s =
      ap (λ r. r.0) (parse-feed d clock cs (recovering s))
      ∙ feed-recovering cs s
      ∙ sym (ap (λ r. recovering r.0) (parse-feed d clock cs s))

fix_side_to_char_zero : (n : ℤ) → n ≢ pos 1 → n ≢ pos 2 → fix_side_to_char n ≡ 0
unfolding fix_side_to_char
fix_side_to_char_zero n h h' = elim (Bool-cases (eqb_ℤ n (pos 1))) [
  | inl e ↦ absurd (h ((eqb_ℤ_iff n (pos 1)).0 e))
  | inr e ↦ elim (Bool-cases (eqb_ℤ n (pos 2))) [
    | inl e' ↦ absurd (h' ((eqb_ℤ_iff n (pos 2)).0 e'))
    | inr e' ↦ rw e (rw e' refl)
  ]
]

is_valid_no_side : (t : Tick) → t.side ≡ 0 → is_valid t ≡ false
unfolding is_valid
is_valid_no_side t h = rw h (ground arith)

-- A side field other than 1 or 2 counts as a side, and the tick that is made of it is not valid.
pub assign_bad_side :
    (d : Doubles) (v : Bytes) (b : TickBuilder) (now : ℕ)
    → fast_atoi v ≢ pos 1
    → fast_atoi v ≢ pos 2
    → ((assign d (pos 54) v b).has_side ≡ true)
      × (is_valid (tick_of (assign d (pos 54) v b) now) ≡ false)
unfolding assign
assign_bad_side d v b now h h' = (
  refl,
  is_valid_no_side (tick_of (assign d (pos 54) v b) now) (fix_side_to_char_zero (fast_atoi v) h h'),
)
