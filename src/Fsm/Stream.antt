-- ===== src/Fsm/Stream.antt =====
-- Fragmentation of the input of feedhandler/src/parser/fsm_fix_parser.cpp, and the memory that the
-- parser touches.
use scratch.Prelude.{
  ℕ, ◌+◌, ◌≤◌, ◌<◌, length, length-append, ℤ, List, [], ◌∷◌, ◌++◌, Bool, true, ◌≡◌, refl, sym, ap,
  ◌∙◌, arith, Bytes, ◌⊎◌, inl,
}
use scratch.Doubles.{Doubles}
use scratch.Feed.Tick.{Tick}
use scratch.Fsm.State.{
  State, wait_tag, read_tag, wait_value, read_value, complete, TickBuilder, Parser, new_parser,
  assign, end_field, process_char_in, parse_char, parse_loop, parse, tag_limit, value_limit,
  symbol_size,
}

abbrev pub joined : List Bytes → Bytes
joined [] = []
joined (f ∷ fs) = f ++ joined fs

module _ (d : Doubles) (clock : ℕ → ℕ) where
  -- The output after a list of bytes, one by one.
  unfoldable pub feed : Bytes → Parser × List Tick → Parser × List Tick
  feed [] s = s
  feed (c ∷ cs) s = feed cs (parse_char d clock c s)

  pub feed-append : (a b : Bytes) (s : Parser × List Tick) → feed (a ++ b) s ≡ feed b (feed a s)
  unfolding feed
  feed-append [] b s = refl
  feed-append (c ∷ a) b s = feed-append a b (parse_char d clock c s)

  parse_loop_lem :
      (i consumed : ℕ) (cs : Bytes) (s : Parser × List Tick)
      → consumed ≡ i
      → parse_loop d clock i consumed cs s ≡ (feed cs s, i + length cs)
  unfolding parse_loop feed
  parse_loop_lem i consumed [] s e = ground arith
  parse_loop_lem i consumed (c ∷ cs) s e =
      parse_loop_lem (i + 1) (i + 1) cs (parse_char d clock c s) refl
      ∙ ap (λ n. (feed cs (parse_char d clock c s), n)) (omega arith)

  pub parse-feed :
      (cs : Bytes) (s : Parser × List Tick) → parse d clock cs s ≡ (feed cs s, length cs)
  unfolding parse
  parse-feed cs s = parse_loop_lem 0 0 cs s refl ∙ ap (λ n. (feed cs s, n)) (omega arith)

  -- A sequence of calls of `parse`, on one fragment after another.
  unfoldable pub parse_fragments : List Bytes → Parser × List Tick → Parser × List Tick
  parse_fragments [] s = s
  parse_fragments (f ∷ fs) s = parse_fragments fs (parse d clock f s).0

  parse_fragments-feed :
      (fs : List Bytes) (s : Parser × List Tick) → parse_fragments fs s ≡ feed (joined fs) s
  unfolding parse_fragments feed
  parse_fragments-feed [] s = refl
  parse_fragments-feed (f ∷ fs) s =
      rw (parse-feed f s) (parse_fragments-feed fs (feed f s) ∙ sym (feed-append f (joined fs) s))

  -- However a stream is cut into fragments, parsing them one after another leaves the same parser
  -- and the same ticks as parsing the stream at once; and each call consumes its whole buffer.
  pub parse_fragments-parse :
      (fs : List Bytes) (s : Parser × List Tick)
      → (parse_fragments fs s ≡ (parse d clock (joined fs) s).0)
        × ((parse d clock (joined fs) s).1 ≡ length (joined fs))
  parse_fragments-parse fs s = (
    parse_fragments-feed fs s ∙ sym (ap (λ r. r.0) (parse-feed (joined fs) s)),
    ap (λ r. r.1) (parse-feed (joined fs) s),
  )

-- The parser between two bytes: each buffer has room for its terminating zero, and of the five
-- states only three occur.
pub record IsSafe (p : Parser) : Type 0 where
  pub tag_fits : length p.tag ≤ tag_limit
  pub value_fits : length p.value ≤ value_limit
  pub symbol_fits : length p.tick_builder.symbol < symbol_size
  pub state_is : (p.state ≡ wait_tag) ⊎ ((p.state ≡ read_tag) ⊎ (p.state ≡ read_value))

-- What holds right after a byte, before the message is finished off.
record Held (p : Parser) (done : Bool) : Type 0 where
  tag_fits : length p.tag ≤ tag_limit
  value_fits : length p.value ≤ value_limit
  symbol_fits : length p.tick_builder.symbol < symbol_size
  state_is :
      (p.state ≡ wait_tag) ⊎ ((p.state ≡ read_tag) ⊎ ((p.state ≡ read_value) ⊎ (done ≡ true)))

module _ (d : Doubles) where
  assign_fits :
      (t : ℤ) (v : Bytes) (b : TickBuilder)
      → length b.symbol < symbol_size
      → length (assign d t v b).symbol < symbol_size
  unfolding assign
  assign_fits t v b h = ground arith

  end_field-Held :
      (c : ℕ) (p : Parser)
      → length p.tag ≤ tag_limit
      → length p.value ≤ value_limit
      → length p.tick_builder.symbol < symbol_size
      → Held (end_field d c p).0 (end_field d c p).1
  unfolding end_field
  end_field-Held c p t v s = ground (arith, assign_fits p.current_tag p.value p.tick_builder)

  process_char-Held :
      (k : State) (c : ℕ) (p : Parser)
      → p.state ≡ k
      → IsSafe p
      → Held (process_char_in d k c p).0 (process_char_in d k c p).1
  unfolding process_char_in
  process_char-Held wait_tag c p e v = ground arith
  process_char-Held read_tag c p e v = ground (arith, length-append p.tag (c ∷ []))
  process_char-Held wait_value c p e v = ground arith
  process_char-Held read_value c p e v = ground (
    arith,
    length-append p.value (c ∷ []),
    end_field-Held c p v.tag_fits v.value_fits v.symbol_fits,
  )
  process_char-Held complete c p e v = ground arith

module _ (d : Doubles) (clock : ℕ → ℕ) where
  parse_char-IsSafe :
      (c : ℕ) (s : Parser × List Tick) → IsSafe s.0 → IsSafe (parse_char d clock c s).0
  unfolding parse_char
  parse_char-IsSafe c (p, ts) v = ground (arith, process_char-Held d p.state c p refl v)

  feed-IsSafe : (cs : Bytes) (s : Parser × List Tick) → IsSafe s.0 → IsSafe (feed d clock cs s).0
  unfolding feed
  feed-IsSafe [] s v = v
  feed-IsSafe (c ∷ cs) s v = feed-IsSafe cs (parse_char d clock c s) (parse_char-IsSafe c s v)

  -- Whatever bytes are parsed, from a parser within these bounds such as a new one, the three
  -- buffers never overflow: after any call the tag leaves room in its 16 bytes, the value in its
  -- 256, the symbol in its 64, each with a terminating zero. Between calls the parser is waiting
  -- for a tag, reading one, or reading a value.
  pub parse-IsSafe :
      (cs : Bytes) (ticks : List Tick) (p : Parser)
      → IsSafe p
      → IsSafe (parse d clock cs (p, ticks)).0.0
  parse-IsSafe cs ticks p v = rw (parse-feed d clock cs (p, ticks)) (feed-IsSafe cs (p, ticks) v)

pub new_parser-IsSafe : IsSafe new_parser
unfolding new_parser
new_parser-IsSafe = record {
  tag_fits = omega arith;
  value_fits = omega arith;
  symbol_fits = omega arith;
  state_is = inl refl;
}
