-- ===== src/Views/Agreement.antt =====
-- That feedhandler/src/parser/fsm_fix_parser.cpp and stringview_fix_parser.cpp read the same tick out
-- of a message.
use scratch.Prelude.{
  length-append, length-map, ℕ, ◌<◌, length, take, ℤ, pos, eqb_ℤ, List, [], ◌∷◌, ◌++◌, map, Option,
  none, some, Bool, true, false, ◌&&◌, if◌then◌else◌, Bytes, ◌≡◌, refl, sym, ap, ◌∙◌, arith, All,
}
use scratch.Doubles.{Doubles}
use scratch.Feed.Tick.{Tick, new_tick, copy_symbol}
use scratch.Fsm.State.{wait_tag, TickBuilder, Parser, empty_builder, parse}
use scratch.Fsm.Message.{Field, tag_of, print, print_all, assign_all, IsField, IsBody, emitted}
use scratch.Fsm.Message
use scratch.Views.Split.{split}
use scratch.Views.Fields.{find_field, scanned_field}
use scratch.Views.Extract.{fields_of}
use scratch.Views.Messages.{
  with_field, set_symbol, set_price, set_qty, set_side, max_fields, parse_message, tick_of_fields,
}
use scratch.Views.Printed.{seen, fields_of-print}
use scratch.Views.Variants.{parse_message-text}
use scratch.Views.Kept.{
  number_of, IsPlain, found, Once, take_all, value_or, kept, symbol_in, price_in, qty_in, side_in,
  symbol_read, price_read, qty_read, side_read, symbol_law, price_law, qty_law, side_law,
}

-- A message as a text.
abbrev pub text_of : Doubles → (ℕ → ℕ) → List Field → Field → Bytes
text_of d clock fs k = print_all d clock fs (print k [])

abbrev pub is_some : Option Bytes → Bool
is_some none = false
is_some (some v) = true

-- All four fields of a tick are there.
abbrev pub has_all : List Field → Bool
has_all fs =
    is_some (found (pos 55) fs)
    && is_some (found (pos 44) fs)
    && is_some (found (pos 38) fs)
    && is_some (found (pos 54) fs)

abbrev tick_of_values : Option Bytes → Option Bytes → Option Bytes → Option Bytes → ℕ → Tick
tick_of_values symbol price qty side now =
    let t = with_field side set_side (
      with_field qty set_qty
        (with_field price set_price (with_field symbol set_symbol new_tick))) in
    record t { timestamp = now }

module _ (d : Doubles) (clock : ℕ → ℕ) where
  emitted-tick :
      (symbol price qty side : Option Bytes) (b : TickBuilder) (ticks : List Tick)
      → symbol_in b ≡ value_or symbol_read (symbol_in empty_builder) symbol
      → price_in b ≡ value_or price_read (price_in empty_builder) price
      → qty_in b ≡ value_or qty_read (qty_in empty_builder) qty
      → side_in b ≡ value_or side_read (side_in empty_builder) side
      → emitted d clock b ticks ≡ (
          if is_some symbol && is_some price && is_some qty && is_some side
          then ticks ++ tick_of_values symbol price qty side (clock (length ticks)) ∷ []
          else ticks)
  unfolding new_tick copy_symbol
  emitted-tick none price qty side b ticks s p q e = ground arith
  emitted-tick (some v) none qty side b ticks s p q e = ground arith
  emitted-tick (some v) (some w) none side b ticks s p q e = ground arith
  emitted-tick (some v) (some w) (some x) none b ticks s p q e = ground arith
  emitted-tick (some v) (some w) (some x) (some y) b ticks s p q e =
      rw
        (
          ap (λ r. r.1) s,
          ap (λ r. r.1) p,
          ap (λ r. r.1) q,
          ap (λ r. r.1) e,
          ap (λ r. r.0) s,
          ap (λ r. r.0) p,
          ap (λ r. r.0) q,
          ap (λ r. r.0) e,
        )
        refl

  fields_of-text :
      (fs : List Field) (k : Field)
      → All (IsBody d clock) fs
      → All (IsPlain d) fs
      → IsField k
      → IsPlain d k
      → fields_of (split b'|' (text_of d clock fs k)) ≡ map seen fs ++ seen k ∷ []
  unfolding split scanned_field
  fields_of-text [] k body plain v w = fields_of-print k [] v w.bar w.positive
  fields_of-text (f ∷ fs) k body plain v w =
      fields_of-print f (text_of d clock fs k) body.0.0 plain.0.bar plain.0.positive
      ∙ ap (◌∷◌ (seen f)) (fields_of-text fs k body.1 plain.1 v w)

  find_field-checksum :
      (tag : ℤ) (fs : List Field) (k : Field)
      → eqb_ℤ (number_of k) tag ≡ false
      → find_field tag (map seen fs ++ seen k ∷ []) ≡ found tag fs
  unfolding find_field
  find_field-checksum tag [] k e = rw e refl
  find_field-checksum tag (f ∷ fs) k e =
      ap (λ r. if eqb_ℤ (number_of f) tag then some f.value else r) (find_field-checksum tag fs k e)

  -- A number that is 10 is no other.
  not_other :
      (n tag : ℤ) → eqb_ℤ n (pos 10) ≡ true → eqb_ℤ (pos 10) tag ≡ false → eqb_ℤ n tag ≡ false
  not_other n tag e h = ground arith

  tick_of_fields-found :
      (fs : List Field) (k : Field) (now : ℕ)
      → eqb_ℤ (number_of k) (pos 10) ≡ true
      → tick_of_fields (map seen fs ++ seen k ∷ []) now
        ≡ tick_of_values
            (found (pos 55) fs)
            (found (pos 44) fs)
            (found (pos 38) fs)
            (found (pos 54) fs)
            now
  tick_of_fields-found fs k now e =
      let skip = (λ (tag : ℤ) (h : eqb_ℤ (pos 10) tag ≡ false).
        find_field-checksum tag fs k (not_other (number_of k) tag e h)) in
      rw (skip (pos 55) refl, skip (pos 44) refl, skip (pos 38) refl, skip (pos 54) refl) refl

  view-text :
      (fs : List Field) (k : Field) (now : ℕ)
      → All (IsBody d clock) fs
      → All (IsPlain d) fs
      → IsField k
      → IsPlain d k
      → eqb_ℤ (number_of k) (pos 10) ≡ true
      → length fs < max_fields
      → parse_message (text_of d clock fs k) now
        ≡ tick_of_values
            (found (pos 55) fs)
            (found (pos 44) fs)
            (found (pos 38) fs)
            (found (pos 54) fs)
            now
  view-text fs k now body plain v w e few =
      let fields = map seen fs ++ seen k ∷ [] in
      parse_message-text (text_of d clock fs k) now
      ∙ ap (λ gs. tick_of_fields (take max_fields gs) now) (fields_of-text fs k body plain v w)
      ∙ ap (λ gs. tick_of_fields gs now)
          (take_all max_fields fields
            (omega (arith, length-append (map seen fs) (seen k ∷ []), length-map seen fs)))
      ∙ tick_of_fields-found fs k now e

  -- A message is any sequence of at most 31 well-formed fields, in any order, closed by a checksum
  -- field (tag 10), where '|' ends each field, tags are positive, and none of the tags 55, 44, 38 and
  -- 54 stands in two fields; its symbol is shorter than 64 bytes, and the conversion of its price to a
  -- double and back does not change it. On such a message, at a parser that waits for one, the
  -- streaming parser appends the very tick that the string-view parser makes of the whole text, where
  -- the message has all four of these tags, and else none.
  pub parse-parse_message :
      (fs : List Field) (k : Field) (p : Parser) (ticks : List Tick)
      → p.state ≡ wait_tag
      → p.tick_builder ≡ empty_builder
      → All (IsBody d clock) fs
      → All (IsPlain d) fs
      → (Once (pos 55) fs × Once (pos 44) fs) × (Once (pos 38) fs × Once (pos 54) fs)
      → IsField k
      → IsPlain d k
      → eqb_ℤ (number_of k) (pos 10) ≡ true
      → length fs < max_fields
      → (parse d clock (text_of d clock fs k) (p, ticks)).0.1 ≡ (
          if has_all fs
          then ticks ++ parse_message (text_of d clock fs k) (clock (length ticks)) ∷ []
          else ticks)
  parse-parse_message fs k p ticks s fresh body plain once v w e few =
      let b = assign_all d clock fs empty_builder in
      (Message.parse-print_all d clock fs k p ticks s body v e).0
      ∙ ap (λ start. emitted d clock (assign_all d clock fs start) ticks) fresh
      ∙ emitted-tick (found (pos 55) fs) (found (pos 44) fs) (found (pos 38) fs) (found (pos 54) fs)
          b ticks
          (kept d clock (pos 55) symbol_read symbol_in (symbol_law d) fs empty_builder plain
            once.0.0)
          (kept d clock (pos 44) price_read price_in (price_law d) fs empty_builder plain once.0.1)
          (kept d clock (pos 38) qty_read qty_in (qty_law d) fs empty_builder plain once.1.0)
          (kept d clock (pos 54) side_read side_in (side_law d) fs empty_builder plain once.1.1)
      ∙ ap (λ t. if has_all fs then ticks ++ t ∷ [] else ticks)
          (sym (view-text fs k (clock (length ticks)) body plain v w e few))
