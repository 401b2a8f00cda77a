-- ===== src/Simd/Sides.antt =====
-- The ticks that parse of feedhandler/src/parser/simd_fix_parser.cpp makes have no side.
use scratch.Prelude.{
  ℕ, leb, ℤ, List, [], ◌∷◌, ◌++◌, false, Bytes, ◌≡◌, refl, arith, All, Bool-cases, inl, inr, length,
  ltb, Option-cases,
}
use scratch.Doubles.{Doubles}
use scratch.Feed.Tick.{Tick, new_tick, is_valid}
use scratch.Views.Split.{find_char}
use scratch.Simd.Parser.{
  SimdFixParser, Run, on_tag, on_field, next_start, next_processed, next_run, soh, field_at,
  field_loop, parse, copied,
}
use scratch.Simd.Contents.{contents}
use scratch.Simd.Delimiters.{find_delimiters_avx2}

abbrev HasNoSide : Tick → Type 0
HasNoSide t = t.side ≡ 0

All-snoc :
    (ts : List Tick) (t : Tick) → All HasNoSide ts → HasNoSide t → All HasNoSide (ts ++ t ∷ [])
All-snoc [] t h e = (e, tt)
All-snoc (x ∷ ts) t (h, hs) e = (h, All-snoc ts t hs e)

is_valid-HasNoSide : (t : Tick) → HasNoSide t → is_valid t ≡ false
unfolding is_valid
is_valid-HasNoSide t e = ground arith

All-invalid : (ts : List Tick) → All HasNoSide ts → All (λ t. is_valid t ≡ false) ts
All-invalid [] h = tt
All-invalid (t ∷ ts) (h, hs) = (is_valid-HasNoSide t h, All-invalid ts hs)

abbrev IsSideless : Run → Type 0
IsSideless r = HasNoSide r.current_tick × All HasNoSide r.ticks

-- At the start of the program.
abbrev pub first_run : Run
first_run = record { current_tick = new_tick; times = 0; ticks = [] }

module _ (d : Doubles) (ten : d.Double) (negate : d.Double → d.Double) where
  module _ (clock : ℕ → ℕ) (shown : Bytes → Bytes) where
    on_tag-IsSideless :
        (tag : ℤ) (value : Bytes) (r : Run)
        → IsSideless r
        → IsSideless (on_tag d ten negate clock shown tag value r)
    unfolding on_tag new_tick
    on_tag-IsSideless tag value r h = ground (arith, All-snoc r.ticks r.current_tick)

    on_field-IsSideless :
        (field : Bytes) (r : Run)
        → IsSideless r
        → IsSideless (on_field d ten negate clock shown field r)
    unfolding on_field
    on_field-IsSideless field r h = elim (Option-cases (find_char b'=' field)) [
      | inl o ↦ rw o h
      | inr (k, o) ↦ rw o (on_tag-IsSideless _ _ r h)
    ]

    field_loop-IsSideless :
        (text : Bytes) (positions : List ℕ) (start processed : ℕ) (r : Run)
        → IsSideless r
        → IsSideless ((field_loop d ten negate clock shown text positions start processed r).1)
    unfolding field_loop
    field_loop-IsSideless text [] start processed r h = h
    field_loop-IsSideless text (position ∷ positions) start processed r h =
        field_loop-IsSideless text positions (next_start position start)
          (next_processed text position start processed)
          (next_run d ten negate clock shown text position start r)
          (elim (Bool-cases (leb position start)) [
            | inl e ↦ rw e h
            | inr e ↦ rw e (on_field-IsSideless (field_at text position start) r h)
          ])

    parse-IsSideless :
        (bytes : Bytes) (p : SimdFixParser) (r : Run)
        → IsSideless r
        → IsSideless ((parse d ten negate clock shown bytes p r).1)
    unfolding parse
    parse-IsSideless bytes p r h =
        let text = contents (copied bytes p) in
        elim (Bool-cases (ltb 0 (length bytes))) [
          | inl e ↦ rw e (field_loop-IsSideless text (find_delimiters_avx2 text soh) 0 0 r h)
          | inr e ↦ rw e h
        ]

    -- Calls of any parsers in any state, one after another.
    abbrev pub parse_calls : List (Bytes × SimdFixParser) → Run → Run
    parse_calls [] r = r
    parse_calls ((bytes, p) ∷ calls) r =
        parse_calls calls ((parse d ten negate clock shown bytes p r).1)

    parse_calls-IsSideless :
        (calls : List (Bytes × SimdFixParser)) (r : Run)
        → IsSideless r
        → IsSideless (parse_calls calls r)
    parse_calls-IsSideless [] r h = h
    parse_calls-IsSideless ((bytes, p) ∷ calls) r h =
        parse_calls-IsSideless calls ((parse d ten negate clock shown bytes p r).1)
          (parse-IsSideless bytes p r h)

    -- Whatever bytes are given to whichever parsers, in whatever state and order, since the program
    -- started: no tick that they emitted is valid, since no field sets a side.
    pub parse_calls_invalid :
        (calls : List (Bytes × SimdFixParser))
        → All (λ t. is_valid t ≡ false) ((parse_calls calls first_run).ticks)
    unfolding new_tick
    parse_calls_invalid calls =
        All-invalid ((parse_calls calls first_run).ticks)
          ((parse_calls-IsSideless calls first_run (refl, tt)).1)
