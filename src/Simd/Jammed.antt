-- ===== src/Simd/Jammed.antt =====
-- parse of feedhandler/src/parser/simd_fix_parser.cpp once its buffer is full of bytes that end no
-- field.
use scratch.Prelude.{
  ℕ, ◌+◌, ◌-◌, ◌≤◌, ◌==◌, min, List, [], ◌∷◌, ◌++◌, append_assoc, append-nil, false, length,
  length-append, length-take, take, Bytes, ◌≡◌, refl, sym, ap, ◌∙◌, arith, All,
}
use scratch.Doubles.{Doubles}
use scratch.Net.Memory.{length-slice}
use scratch.Simd.Parser.{buffer_size, soh, SimdFixParser, Run, parse}
use scratch.Simd.Fields.{keep_bytes, keep_bytes_grows, feed, feed_grows}
use scratch.Simd.Contents.{contents, open_field}
use scratch.Simd.Kept.{keep_bytes-append, keep_bytes_done}
use scratch.Simd.Stream.{IsReady, parse-IsParsed, parse_chunks}

abbrev pub NoSoh : Bytes → Type 0
NoSoh cs = All (λ c. (c == soh) ≡ false) cs

keep_bytes-NoSoh : (kept field cs : Bytes) → NoSoh cs → keep_bytes kept field cs ≡ kept ++ cs
keep_bytes-NoSoh kept field [] h = keep_bytes_done kept field ∙ sym (append-nil kept)
keep_bytes-NoSoh kept field (c ∷ cs) (h, hs) =
    keep_bytes_grows kept field c cs (ground arith)
    ∙ keep_bytes-NoSoh (kept ++ c ∷ []) (field ++ c ∷ []) cs hs
    ∙ append_assoc kept (c ∷ []) cs

length-contents : (p : SimdFixParser) → length (contents p) ≡ p.buffer_pos
length-contents p = length-slice p.processing_buffer 0 p.buffer_pos

full_size :
    (p q : SimdFixParser) (bytes : Bytes)
    → p.buffer_pos ≤ buffer_size
    → buffer_size ≤ p.buffer_pos + length bytes
    → contents q ≡ contents p ++ take (buffer_size - p.buffer_pos) bytes
    → q.buffer_pos ≡ buffer_size
full_size p q bytes within full e =
    let n : length (contents q)
        ≡ length (contents p) + min (buffer_size - p.buffer_pos) (length bytes) =
      ap length e
      ∙ length-append (contents p) (take (buffer_size - p.buffer_pos) bytes)
      ∙ ap (λ k. length (contents p) + k) (length-take (buffer_size - p.buffer_pos) bytes) in
    omega (arith, n, length-contents p, length-contents q)

module _ (d : Doubles) (ten : d.Double) (negate : d.Double → d.Double) where
  module _ (clock : ℕ → ℕ) (shown : Bytes → Bytes) where
    feed-NoSoh :
        (field cs : Bytes) (r : Run)
        → NoSoh cs
        → feed d ten negate clock shown field cs r ≡ (field ++ cs, r)
    unfolding feed
    feed-NoSoh field [] r h = ap (λ f. (f, r)) (sym (append-nil field))
    feed-NoSoh field (c ∷ cs) r (h, hs) =
        feed_grows d ten negate clock shown field c cs r (ground arith)
        ∙ feed-NoSoh (field ++ c ∷ []) cs r hs
        ∙ ap (λ f. (f, r)) (append_assoc field (c ∷ []) cs)

    -- A call that finds no delimiter only fills the buffer.
    parse-NoSoh :
        (bytes : Bytes) (p : SimdFixParser) (r : Run)
        → IsReady d ten negate clock shown p
        → NoSoh (take (buffer_size - p.buffer_pos) bytes)
        → (contents ((parse d ten negate clock shown bytes p r).0)
            ≡ contents p ++ take (buffer_size - p.buffer_pos) bytes)
          × ((parse d ten negate clock shown bytes p r).1 ≡ r)
    parse-NoSoh bytes p r h n =
        let one = parse-IsParsed d ten negate clock shown bytes p r h in
        let fits = take (buffer_size - p.buffer_pos) bytes in
        (
          one.left
              ∙ keep_bytes-append [] [] (contents p) fits
              ∙ keep_bytes-NoSoh (keep_bytes [] [] (contents p)) (open_field [] (contents p)) fits n
              ∙ ap (λ k. k ++ fits) h.kept.again,
          ap (λ (o : Bytes × Run). o.1)
              (one.fed ∙ feed-NoSoh (open_field [] (contents p)) fits r n),
        )

    -- Calls on a full buffer.
    parse_chunks-full :
        (chunks : List Bytes) (p : SimdFixParser) (r : Run)
        → IsReady d ten negate clock shown p
        → p.buffer_pos ≡ buffer_size
        → (contents ((parse_chunks d ten negate clock shown chunks p r).0) ≡ contents p)
          × ((parse_chunks d ten negate clock shown chunks p r).1 ≡ r)
    parse_chunks-full [] p r h full = (refl, refl)
    parse_chunks-full (bytes ∷ chunks) p r h full =
        let out = parse d ten negate clock shown bytes p r in
        let one = parse-IsParsed d ten negate clock shown bytes p r h in
        let none : take (buffer_size - p.buffer_pos) bytes ≡ [] = rw full refl in
        let same = parse-NoSoh bytes p r h (rw none tt) in
        let still : contents (out.0) ≡ contents p =
          same.0 ∙ ap (λ k. contents p ++ k) none ∙ append-nil (contents p) in
        let size : (out.0).buffer_pos ≡ buffer_size =
          sym (length-contents (out.0)) ∙ ap length still ∙ length-contents p ∙ full in
        let rest = parse_chunks-full chunks (out.0) (out.1) one.ready size in
        (rest.0 ∙ still, rest.1 ∙ same.1)

    consumed_none :
        (bytes : Bytes) (p : SimdFixParser) (r : Run)
        → IsReady d ten negate clock shown p
        → p.buffer_pos ≡ buffer_size
        → (parse d ten negate clock shown bytes p r).2 ≡ 0
    consumed_none bytes p r h full =
        omega (arith, (parse-IsParsed d ten negate clock shown bytes p r h).consumed)

    parse_chunks-IsReady :
        (chunks : List Bytes) (p : SimdFixParser) (r : Run)
        → IsReady d ten negate clock shown p
        → IsReady d ten negate clock shown ((parse_chunks d ten negate clock shown chunks p r).0)
    parse_chunks-IsReady [] p r h = h
    parse_chunks-IsReady (bytes ∷ chunks) p r h =
        let out = parse d ten negate clock shown bytes p r in
        parse_chunks-IsReady chunks (out.0) (out.1)
          ((parse-IsParsed d ten negate clock shown bytes p r h).ready)

    -- Bytes that fill the buffer of a parser that is ready, with no delimiter among those that fit,
    -- jam it for good: whatever is parsed afterwards, the buffer keeps its bytes, no tick is made or
    -- changed, and each further call reports that it consumed nothing.
    pub parse_jams :
        (bytes : Bytes) (chunks : List Bytes) (more : Bytes) (p : SimdFixParser) (r : Run)
        → IsReady d ten negate clock shown p
        → NoSoh (take (buffer_size - p.buffer_pos) bytes)
        → buffer_size ≤ p.buffer_pos + length bytes
        → (let s = parse_chunks d ten negate clock shown (bytes ∷ chunks) p r in
            (contents (s.0) ≡ contents p ++ take (buffer_size - p.buffer_pos) bytes)
            × (s.1 ≡ r)
            × ((parse d ten negate clock shown more (s.0) (s.1)).2 ≡ 0))
    parse_jams bytes chunks more p r h n full =
        let out = parse d ten negate clock shown bytes p r in
        let one = parse-NoSoh bytes p r h n in
        let ready = (parse-IsParsed d ten negate clock shown bytes p r h).ready in
        let size : (out.0).buffer_pos ≡ buffer_size =
          full_size p (out.0) bytes h.within full (one.0) in
        let rest = parse_chunks-full chunks (out.0) (out.1) ready size in
        let s = parse_chunks d ten negate clock shown chunks (out.0) (out.1) in
        (
          rest.0 ∙ one.0,
          rest.1 ∙ one.1,
          consumed_none more (s.0) (s.1) (parse_chunks-IsReady chunks (out.0) (out.1) ready)
              (sym (length-contents (s.0)) ∙ ap length (rest.0) ∙ length-contents (out.0) ∙ size),
        )
