-- ===== src/Fsm/Message.antt =====
-- Whole messages through the state machine of feedhandler/src/parser/fsm_fix_parser.cpp: the tick of
-- a message is what its fields assign, one after another.
use scratch.Prelude.{
  ℕ, ◌+◌, ◌≤◌, ◌<◌, ◌==◌, length, length-append, pos, eqb_ℤ, List, [], ◌∷◌, ◌++◌, append-nil,
  append_assoc, true, false, ◌≡◌, refl, ap, ◌∙◌, arith, Bytes, if◌then◌else◌, All,
}
use scratch.Doubles.{Doubles}
use scratch.Feed.Tick.{Tick}
use scratch.Number.Fast.{fast_atoi}
use scratch.Fsm.State.{
  wait_tag, read_tag, read_value, complete, TickBuilder, Parser, assign, end_field, is_tag_digit,
  is_delimiter, process_char_in, process_char, is_complete, tick_of, empty_builder, parse_char,
  parse, tag_limit, value_limit,
}
use scratch.Fsm.Stream.{feed, parse-feed}

-- One `tag=value` and its delimiter, as they stand in front of `rest`.
pub record Field : Type 0 where
  pub first : ℕ
  pub digits : Bytes
  pub value : Bytes
  pub delimiter : ℕ

abbrev pub tag_of : Field → Bytes
tag_of f = f.first ∷ f.digits

abbrev pub print : Field → Bytes → Bytes
print f rest = f.first ∷ (f.digits ++ b'=' ∷ (f.value ++ f.delimiter ∷ rest))

-- The tag is made of digits, the value of bytes that are no delimiters, both fit their buffers, and
-- the delimiter is not a newline.
pub record IsField (f : Field) : Type 0 where
  pub first_digit : is_tag_digit f.first ≡ true
  pub other_digits : All (λ c. is_tag_digit c ≡ true) f.digits
  pub tag_fits : length (tag_of f) ≤ tag_limit
  pub plain_value : All (λ c. is_delimiter c ≡ false) f.value
  pub value_fits : length f.value ≤ value_limit
  pub delimited : is_delimiter f.delimiter ≡ true
  pub not_newline : (f.delimiter == b'\n') ≡ false

module _ (d : Doubles) where
  start_step :
      (c : ℕ) (p : Parser)
      → p.state ≡ wait_tag
      → is_tag_digit c ≡ true
      → process_char d c p ≡ (record p { tag = c ∷ []; state = read_tag }, false)
  unfolding process_char_in
  start_step c p s h = ground arith

  digit_step :
      (c : ℕ) (p : Parser)
      → p.state ≡ read_tag
      → is_tag_digit c ≡ true
      → length p.tag < tag_limit
      → process_char d c p ≡ (record p { tag = p.tag ++ c ∷ [] }, false)
  unfolding process_char_in
  digit_step c p s h fits = ground arith

  equals_step :
      (p : Parser)
      → p.state ≡ read_tag
      → process_char d b'=' p
        ≡ (record p { current_tag = fast_atoi p.tag; value = []; state = read_value }, false)
  unfolding process_char_in
  equals_step p s = ground arith

  value_step :
      (c : ℕ) (p : Parser)
      → p.state ≡ read_value
      → is_delimiter c ≡ false
      → length p.value < value_limit
      → process_char d c p ≡ (record p { value = p.value ++ c ∷ [] }, false)
  unfolding process_char_in
  value_step c p s h fits = ground arith

  -- The parser after a field other than the checksum.
  abbrev after_field : Field → Parser → Parser
  after_field f p = record p {
    tag = tag_of f;
    tick_builder = assign d (fast_atoi (tag_of f)) f.value p.tick_builder;
    current_tag = pos 0;
    value = [];
    state = wait_tag;
  }

  end_step :
      (c : ℕ) (p : Parser)
      → p.state ≡ read_value
      → is_delimiter c ≡ true
      → (c == b'\n') ≡ false
      → eqb_ℤ p.current_tag (pos 10) ≡ false
      → process_char d c p ≡ (
        record p {
          tick_builder = assign d p.current_tag p.value p.tick_builder;
          current_tag = pos 0;
          value = [];
          state = wait_tag;
        },
        false,
      )
  unfolding process_char_in end_field
  end_step c p s h n t = ground arith

  checksum_step :
      (c : ℕ) (p : Parser)
      → p.state ≡ read_value
      → is_delimiter c ≡ true
      → eqb_ℤ p.current_tag (pos 10) ≡ true
      → process_char d c p ≡ (record p { state = complete; current_tag = pos 0 }, true)
  unfolding process_char_in end_field
  checksum_step c p s h t = ground arith

module _ (d : Doubles) (clock : ℕ → ℕ) where
  parse_char_quiet :
      (c : ℕ) (p q : Parser) (ticks : List Tick)
      → process_char d c p ≡ (q, false)
      → parse_char d clock c (p, ticks) ≡ (q, ticks)
  unfolding parse_char
  parse_char_quiet c p q ticks e = rw e

  feed_digits :
      (cs rest : Bytes) (p : Parser) (ticks : List Tick)
      → p.state ≡ read_tag
      → All (λ c. is_tag_digit c ≡ true) cs
      → length p.tag + length cs ≤ tag_limit
      → feed d clock (cs ++ rest) (p, ticks)
        ≡ feed d clock rest (record p { tag = p.tag ++ cs }, ticks)
  unfolding feed
  feed_digits [] rest p ticks s a h = rw append-nil
  feed_digits (c ∷ cs) rest p ticks s a h =
      ap (feed d clock (cs ++ rest)) (
        parse_char_quiet c p (record p { tag = p.tag ++ c ∷ [] }) ticks
          (digit_step d c p s a.0 (omega arith)))
      ∙ (feed_digits cs rest (record p { tag = p.tag ++ c ∷ [] }) ticks s a.1
            (omega (arith, length-append p.tag (c ∷ [])))
          ∙ rw append_assoc)

  feed_value :
      (cs rest : Bytes) (p : Parser) (ticks : List Tick)
      → p.state ≡ read_value
      → All (λ c. is_delimiter c ≡ false) cs
      → length p.value + length cs ≤ value_limit
      → feed d clock (cs ++ rest) (p, ticks)
        ≡ feed d clock rest (record p { value = p.value ++ cs }, ticks)
  unfolding feed
  feed_value [] rest p ticks s a h = rw append-nil
  feed_value (c ∷ cs) rest p ticks s a h =
      ap (feed d clock (cs ++ rest)) (
        parse_char_quiet c p (record p { value = p.value ++ c ∷ [] }) ticks
          (value_step d c p s a.0 (omega arith)))
      ∙ (feed_value cs rest (record p { value = p.value ++ c ∷ [] }) ticks s a.1
            (omega (arith, length-append p.value (c ∷ [])))
          ∙ rw append_assoc)

  -- The state in which the value of a field has been read.
  abbrev in_value : Field → Parser → Parser
  in_value f p = record p {
    tag = tag_of f;
    current_tag = fast_atoi (tag_of f);
    value = f.value;
    state = read_value;
  }

  feed_to_delimiter :
      (f : Field) (rest : Bytes) (p : Parser) (ticks : List Tick)
      → p.state ≡ wait_tag
      → IsField f
      → feed d clock (print f rest) (p, ticks)
        ≡ feed d clock (f.delimiter ∷ rest) (in_value f p, ticks)
  unfolding feed
  feed_to_delimiter f rest p ticks s v =
      let p₁ = record p { tag = f.first ∷ []; state = read_tag } in
      let p₂ = record p { tag = tag_of f; state = read_tag } in
      let p₃ = record p {
        tag = tag_of f;
        current_tag = fast_atoi (tag_of f);
        value = [];
        state = read_value;
      } in
      let after = f.value ++ f.delimiter ∷ rest in
      ap (feed d clock (f.digits ++ b'=' ∷ after))
        (parse_char_quiet f.first p p₁ ticks (start_step d f.first p s v.first_digit))
      ∙ feed_digits f.digits (b'=' ∷ after) p₁ ticks refl v.other_digits (omega (arith, v.tag_fits))
      ∙ ap (feed d clock after) (parse_char_quiet b'=' p₂ p₃ ticks (equals_step d p₂ refl))
      ∙ feed_value f.value (f.delimiter ∷ rest) p₃ ticks refl v.plain_value
          (omega (arith, v.value_fits))

  feed_field :
      (f : Field) (rest : Bytes) (p : Parser) (ticks : List Tick)
      → p.state ≡ wait_tag
      → IsField f
      → eqb_ℤ (fast_atoi (tag_of f)) (pos 10) ≡ false
      → feed d clock (print f rest) (p, ticks) ≡ feed d clock rest (after_field d f p, ticks)
  unfolding feed
  feed_field f rest p ticks s v t =
      feed_to_delimiter f rest p ticks s v
      ∙ ap (feed d clock rest) (
          parse_char_quiet f.delimiter (in_value f p) (after_field d f p) ticks
            (end_step d f.delimiter (in_value f p) refl v.delimited v.not_newline t))

  -- The fields of a message in their order, and what they assign.
  abbrev pub print_all : List Field → Bytes → Bytes
  print_all [] rest = rest
  print_all (f ∷ fs) rest = print f (print_all fs rest)

  abbrev pub assign_all : List Field → TickBuilder → TickBuilder
  assign_all [] b = b
  assign_all (f ∷ fs) b = assign_all fs (assign d (fast_atoi (tag_of f)) f.value b)

  abbrev pub IsBody : Field → Type 0
  IsBody f = IsField f × (eqb_ℤ (fast_atoi (tag_of f)) (pos 10) ≡ false)

  -- The end of a message: the tick, if all four of its fields were there, and a fresh builder.
  abbrev pub emitted : TickBuilder → List Tick → List Tick
  emitted b ticks = if is_complete b then ticks ++ tick_of b (clock (length ticks)) ∷ [] else ticks

  abbrev pub Ends : TickBuilder → List Tick → Parser × List Tick → Type 0
  Ends b ticks r =
      (r.1 ≡ emitted b ticks) × (r.0.state ≡ wait_tag) × (r.0.tick_builder ≡ empty_builder)

  feed_checksum :
      (f : Field) (p : Parser) (ticks : List Tick)
      → p.state ≡ wait_tag
      → IsField f
      → eqb_ℤ (fast_atoi (tag_of f)) (pos 10) ≡ true
      → Ends p.tick_builder ticks (feed d clock (print f []) (p, ticks))
  unfolding feed parse_char
  feed_checksum f p ticks s v t =
      rw (feed_to_delimiter f [] p ticks s v)
        (rw (checksum_step d f.delimiter (in_value f p) refl v.delimited t) (refl, refl, refl))

  feed_message :
      (fs : List Field) (k : Field) (p : Parser) (ticks : List Tick)
      → p.state ≡ wait_tag
      → All IsBody fs
      → IsField k
      → eqb_ℤ (fast_atoi (tag_of k)) (pos 10) ≡ true
      → Ends
          (assign_all fs p.tick_builder)
          ticks
          (feed d clock (print_all fs (print k [])) (p, ticks))
  feed_message [] k p ticks s b v t = feed_checksum k p ticks s v t
  feed_message (f ∷ fs) k p ticks s b v t =
      rw (feed_field f (print_all fs (print k [])) p ticks s b.0.0 b.0.1)
        (feed_message fs k (after_field d f p) ticks refl b.1 v t)

  -- A message is any sequence of well-formed fields, in any order, closed by a checksum field (tag
  -- 10). Parsing it from a parser that waits for a tag appends exactly the tick that its fields
  -- assign, where symbol, price, quantity and side have all been set, and else none; afterwards the
  -- parser waits for the next message with nothing assigned.
  pub parse-print_all :
      (fs : List Field) (k : Field) (p : Parser) (ticks : List Tick)
      → p.state ≡ wait_tag
      → All IsBody fs
      → IsField k
      → eqb_ℤ (fast_atoi (tag_of k)) (pos 10) ≡ true
      → Ends
          (assign_all fs p.tick_builder)
          ticks
          (parse d clock (print_all fs (print k [])) (p, ticks)).0
  parse-print_all fs k p ticks s b v t =
      rw (parse-feed d clock (print_all fs (print k [])) (p, ticks))
        (feed_message fs k p ticks s b v t)
