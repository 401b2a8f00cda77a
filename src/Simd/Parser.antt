-- ===== src/Simd/Parser.antt =====
-- SIMDFixParser of feedhandler/src/parser/simd_fix_parser.cpp and
-- feedhandler/include/parser/simd_fix_parser.hpp. The tick under construction is a static variable
-- of parse, which all parsers share: it is part of the run, not of a parser. `clock n` is the reading
-- of the clock at the n-th field 52. The symbol is set to a view of a string that is destroyed at
-- once; what is seen through the view is a parameter, `shown`.
use scratch.Prelude.{
  ℕ, ◌+◌, ◌-◌, ltb, leb, min, pos, ℤ, eqb_ℤ, List, [], ◌∷◌, ◌++◌, Option, none, some, if◌then◌else◌,
  length, take, drop, Bytes,
}
use scratch.Doubles.{Doubles}
use scratch.Feed.Tick.{Tick, new_tick}
use scratch.Net.Memory.{Memory, slice, copy_in}
use scratch.Views.Split.{find_char}
use scratch.Simd.Delimiters.{find_delimiters_avx2}
use scratch.Simd.Numbers.{simd_atoi, simd_atof_fixed, parse_timestamp_simd}

abbrev pub buffer_size : ℕ
buffer_size = 4096

-- '\x01'
abbrev pub soh : ℕ
soh = 1

pub record SimdFixParser : Type 0 where
  pub processing_buffer : Memory
  pub buffer_pos : ℕ

unfoldable pub new_simd_parser : SimdFixParser
new_simd_parser = record { processing_buffer = λ i. 0; buffer_pos = 0 }

unfoldable pub reset : SimdFixParser → SimdFixParser
reset p = record p { buffer_pos = 0 }

-- The static tick, the number of fields 52 read, and the vector of ticks.
pub record Run : Type 0 where
  pub current_tick : Tick
  pub times : ℕ
  pub ticks : List Tick

-- One round of the loop over the delimiters, by the variables it sets.
abbrev pub next_start : ℕ → ℕ → ℕ
next_start position start = if leb position start then start else position + 1

abbrev pub field_at : Bytes → ℕ → ℕ → Bytes
field_at text position start = take (position - start) (drop start text)

abbrev pub with_eq : Option ℕ → ℕ → ℕ → ℕ
with_eq none position processed = processed
with_eq (some eq_pos) position processed = position + 1

abbrev pub next_processed : Bytes → ℕ → ℕ → ℕ → ℕ
next_processed text position start processed =
    if leb position start
    then processed
    else with_eq (find_char b'=' (field_at text position start)) position processed

-- The bytes put into the buffer, of which only the front is read, are searched and parsed; what
-- is not processed moves to the front. The result is the number of bytes reported as consumed.
abbrev pub copied : Bytes → SimdFixParser → SimdFixParser
copied bytes p =
    let copy_size = min (length bytes) (buffer_size - p.buffer_pos) in
    record {
      processing_buffer = copy_in p.processing_buffer p.buffer_pos (take copy_size bytes);
      buffer_pos = p.buffer_pos + copy_size;
    }

abbrev pub moved : ℕ → SimdFixParser → SimdFixParser
moved processed p =
    if ltb processed p.buffer_pos
    then (let left = p.buffer_pos - processed in
        record {
          processing_buffer =
              copy_in p.processing_buffer 0 (slice p.processing_buffer processed left);
          buffer_pos = left;
        })
    else record p { buffer_pos = 0 }

module _ (d : Doubles) (ten : d.Double) (negate : d.Double → d.Double) where
  module _ (clock : ℕ → ℕ) (shown : Bytes → Bytes) where
    unfoldable pub on_tag : ℤ → Bytes → Run → Run
    unfolding new_tick parse_timestamp_simd
    on_tag tag value r =
        let t = r.current_tick in
        if eqb_ℤ tag (pos 55)
        then record r { current_tick = record t { symbol = shown value } }
        else if eqb_ℤ tag (pos 44)
        then record r { current_tick = record t { price = simd_atof_fixed d ten negate value } }
        else if eqb_ℤ tag (pos 38)
        then record r { current_tick = record t { qty = simd_atoi value } }
        else if eqb_ℤ tag (pos 52)
        then record r {
          current_tick = record t { timestamp = parse_timestamp_simd (clock r.times) value };
          times = r.times + 1;
        }
        else if eqb_ℤ tag (pos 10)
        then record r { current_tick = new_tick; ticks = r.ticks ++ t ∷ [] }
        else r

    -- A field split at its first '='; one without it does nothing.
    abbrev pub split_at : Option ℕ → Bytes → Run → Run
    split_at none field r = r
    split_at (some eq_pos) field r =
        on_tag (simd_atoi (take eq_pos field)) (drop (eq_pos + 1) field) r

    unfoldable pub on_field : Bytes → Run → Run
    on_field field r = split_at (find_char b'=' field) field r

    abbrev pub next_run : Bytes → ℕ → ℕ → Run → Run
    next_run text position start r =
        if leb position start then r else on_field (field_at text position start) r

    -- The loop over the delimiters: `processed` and the run at its end.
    unfoldable pub field_loop : Bytes → List ℕ → ℕ → ℕ → Run → ℕ × Run
    unfolding on_field
    field_loop text [] start processed r = (processed, r)
    field_loop text (position ∷ positions) start processed r =
        field_loop text positions (next_start position start)
          (next_processed text position start processed) (next_run text position start r)

    abbrev pub searched : SimdFixParser → Run → ℕ × Run
    searched p r =
        let text = slice p.processing_buffer 0 p.buffer_pos in
        field_loop text (find_delimiters_avx2 text soh) 0 0 r

    unfoldable pub parse : Bytes → SimdFixParser → Run → SimdFixParser × Run × ℕ
    unfolding field_loop find_delimiters_avx2
    parse bytes p r =
        if ltb 0 (length bytes)
        then (let q = copied bytes p in
            let found = searched q r in
            (
              moved (found.0) q,
              found.1,
              min (found.0) (min (length bytes) (buffer_size - p.buffer_pos)),
            ))
        else (p, r, 0)
