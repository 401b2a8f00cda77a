-- ===== src/Net/Delivery.antt =====
-- What of the incoming bytes reaches the parser in feedhandler/src/parser/streaming_fix_handler.cpp.
use scratch.Prelude.{
  ℕ, ◌/◌, ◌≤◌, ◌==◌, ltb, min, length, take, drop, List, [], ◌∷◌, true, ◌≡◌, refl, ap, sym, ◌∙◌,
  ◌++◌, arith, Bytes, Bool-cases, inl, inr, All, add64, zero, suc,
}
use scratch.Doubles.{Doubles}
use scratch.Feed.Tick.{Tick}
use scratch.Fsm.State.{Parser, parse}
use scratch.Fsm.Stream.{feed, parse-feed, feed-append, joined}
use scratch.Net.Memory.{slice, length-slice}
use scratch.Net.ReceiveBuffer.{
  ReceiveBuffer, buffer_size, write, readable_bytes, consume, available_write,
}
use scratch.Net.Fifo.{IsValid, contents, write-contents, consume-contents}
use scratch.Net.Streaming.{Handler, process_buffer, process_incoming_data, after_parse}

-- The buffer between two calls: valid, and read to its end.
pub record IsDrained (h : Handler) : Type 0 where
  pub valid : IsValid h.buffer
  pub drained : readable_bytes h.buffer ≡ 0

drop_all : (xs : Bytes) → drop (length xs) xs ≡ []
drop_all [] = refl
drop_all (x ∷ xs) = drop_all xs

take_all : (n : ℕ) (xs : Bytes) → length xs ≤ n → take n xs ≡ xs
take_all zero [] h = refl
take_all zero (x ∷ xs) h = absurd (omega arith)
take_all (suc n) [] h = refl
take_all (suc n) (x ∷ xs) h = ap (◌∷◌ x) (take_all n xs (omega arith))

length-contents : (b : ReceiveBuffer) → length (contents b) ≡ readable_bytes b
length-contents b = length-slice b.buffer b.read_pos (readable_bytes b)

-- Consuming all that is readable leaves nothing.
drain :
    (b : ReceiveBuffer)
    → IsValid b
    → IsValid (consume (readable_bytes b) b) × (readable_bytes (consume (readable_bytes b) b) ≡ 0)
drain b v =
    let c = consume-contents (readable_bytes b) b v in
    let nothing : contents (consume (readable_bytes b) b) ≡ [] =
      c.0 ∙ rw (length-contents b) at (drop_all (contents b)) in
    (c.1, sym (length-contents _) ∙ ap length nothing)

empty_contents : (b : ReceiveBuffer) → readable_bytes b ≡ 0 → contents b ≡ []
unfolding slice
empty_contents b e = rw e

take-min : (n : ℕ) (xs : Bytes) → take (min (length xs) n) xs ≡ take n xs
take-min zero [] = refl
take-min (suc n) [] = ground arith
take-min zero (x ∷ xs) = ground arith
take-min (suc n) (x ∷ xs) = ground (arith, take-min n xs)

taken :
    (bytes : Bytes) (b : ReceiveBuffer) (n : ℕ)
    → readable_bytes b ≡ 0
    → n ≡ min (length bytes) (available_write b)
    → contents b ++ take n bytes ≡ take (available_write b) bytes
taken bytes b n e e' = rw (empty_contents b e, e') (take-min (available_write b) bytes)

room :
    (h : Handler) (c : Bytes)
    → IsDrained h
    → length c ≤ buffer_size / 2
    → length c ≤ available_write h.buffer
unfolding available_write readable_bytes
room h c v small = omega arith

module _ (d : Doubles) (clock : ℕ → ℕ) where
  after_parse_lem :
      (h : Handler) (ticks : List Tick) (s : Parser × List Tick)
      → IsValid h.buffer
      → ltb 0 (readable_bytes h.buffer) ≡ true
      → let n = readable_bytes h.buffer in
        let r = (after_parse d clock n (length ticks) h ticks (s, n)).0 in
        IsDrained r.0
        × (◌≡◌ {A = Parser × List Tick} ((r.0).parser, r.1) s)
        × (((r.0).stats).buffer_compactions ≡ (h.stats).buffer_compactions)
  after_parse_lem h ticks (p, out) v some_bytes =
      let c = drain h.buffer v in
      rw some_bytes (record { valid = c.0; drained = c.1 }, refl, rw c.1 (ground arith))

  parse-contents :
      (b : ReceiveBuffer) (s : Parser × List Tick)
      → parse d clock (contents b) s ≡ (feed d clock (contents b) s, readable_bytes b)
  parse-contents b s =
      parse-feed d clock (contents b) s
      ∙ ap (λ n. (feed d clock (contents b) s, n)) (length-contents b)

  parse_nothing :
      (b : ReceiveBuffer) (s : Parser × List Tick)
      → readable_bytes b ≡ 0
      → (parse d clock (contents b) s).0 ≡ s
  unfolding feed
  parse_nothing b s e =
      ap (λ bs. (parse d clock bs s).0) (empty_contents b e)
      ∙ ap (λ r. r.0) (parse-feed d clock [] s)

  -- On a valid buffer process_buffer hands all that is readable to the parser and leaves the
  -- buffer valid and empty; the counter of compactions stays as it was, also when the buffer was
  -- compacted.
  pub process_buffer_lem :
      (h : Handler) (ticks : List Tick)
      → IsValid h.buffer
      → let r = (process_buffer d clock h ticks).0 in
        IsDrained r.0
        × (◌≡◌ {A = Parser × List Tick}
            ((r.0).parser, r.1)
            (parse d clock (contents h.buffer) (h.parser, ticks)).0)
        × (((r.0).stats).buffer_compactions ≡ (h.stats).buffer_compactions)
  unfolding process_buffer
  process_buffer_lem h ticks v = elim (Bool-cases (readable_bytes h.buffer == 0)) [
    | inl nothing ↦ rw nothing (
      record { valid = v; drained = ground arith },
      sym (parse_nothing h.buffer (h.parser, ticks) (ground arith)),
      refl,
    )
    | inr some_bytes ↦ rw some_bytes (
        rw (parse-contents h.buffer (h.parser, ticks)) (
          after_parse_lem h ticks (feed d clock (contents h.buffer) (h.parser, ticks)) v
            (ground arith)))
  ]

  -- What a call of process_incoming_data takes of the bytes that arrive: as many as there is room for
  -- behind the write position. They reach the parser in full, the rest is dropped; the buffer is
  -- drained again.
  pub process_incoming_data_lem :
      (bytes : Bytes) (h : Handler) (ticks : List Tick)
      → IsDrained h
      → let r = (process_incoming_data d clock bytes h ticks).0 in
        IsDrained r.0
        × (◌≡◌ {A = Parser × List Tick}
            ((r.0).parser, r.1)
            (parse d clock (take (available_write h.buffer) bytes) (h.parser, ticks)).0)
  unfolding process_incoming_data
  process_incoming_data_lem bytes h ticks v =
      let w = write-contents bytes h.buffer v.valid in
      let p =
        process_buffer_lem
          (record h {
            buffer = (write bytes h.buffer).0;
            stats = record (h.stats) {
              total_bytes_received = add64 (h.stats).total_bytes_received (write bytes h.buffer).1;
            };
          })
          ticks w.2 in
      let got : contents (write bytes h.buffer).0 ≡ take (available_write h.buffer) bytes =
        w.0 ∙ taken bytes h.buffer (write bytes h.buffer).1 v.drained w.1 in
      (p.0, p.1 ∙ ap (λ bs. (parse d clock bs (h.parser, ticks)).0) got)

  -- A sequence of received chunks.
  unfoldable pub deliver : List Bytes → Handler × List Tick → Handler × List Tick
  deliver [] s = s
  deliver (c ∷ cs) (h, ticks) = deliver cs (process_incoming_data d clock c h ticks).0

  chunk-parse :
      (c : Bytes) (h : Handler) (ticks : List Tick)
      → IsDrained h
      → length c ≤ buffer_size / 2
      → let r = (process_incoming_data d clock c h ticks).0 in
        IsDrained r.0
        × (◌≡◌ {A = Parser × List Tick} ((r.0).parser, r.1) (feed d clock c (h.parser, ticks)))
  chunk-parse c h ticks v small =
      let r = process_incoming_data_lem c h ticks v in
      (
        r.0,
        r.1
            ∙ ap (λ bs. (parse d clock bs (h.parser, ticks)).0)
                (take_all (available_write h.buffer) c (room h c v small))
            ∙ ap (λ x. x.0) (parse-feed d clock c (h.parser, ticks)),
      )

  -- From a drained handler, chunks of at most 4096 bytes each are never cut: the parser and the ticks
  -- end up as if the whole stream had been parsed at once, and the handler is drained again.
  pub deliver-parse :
      (cs : List Bytes) (h : Handler) (ticks : List Tick)
      → IsDrained h
      → All (λ c. length c ≤ buffer_size / 2) cs
      → let r = deliver cs (h, ticks) in
        IsDrained r.0
        × (◌≡◌ {A = Parser × List Tick}
            ((r.0).parser, r.1)
            (parse d clock (joined cs) (h.parser, ticks)).0)
  unfolding deliver feed
  deliver-parse [] h ticks v small =
      (v, sym (ap (λ x. x.0) (parse-feed d clock [] (h.parser, ticks))))
  deliver-parse (c ∷ cs) h ticks v small =
      let r = (process_incoming_data d clock c h ticks).0 in
      let one = chunk-parse c h ticks v small.0 in
      let rest = deliver-parse cs r.0 r.1 one.0 small.1 in
      (
        rest.0,
        rest.1
            ∙ ap (λ x. x.0) (parse-feed d clock (joined cs) ((r.0).parser, r.1))
            ∙ ap (feed d clock (joined cs)) one.1
            ∙ sym (feed-append d clock c (joined cs) (h.parser, ticks))
            ∙ sym (ap (λ x. x.0) (parse-feed d clock (c ++ joined cs) (h.parser, ticks))),
      )
