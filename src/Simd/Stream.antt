-- ===== src/Simd/Stream.antt =====
-- parse of feedhandler/src/parser/simd_fix_parser.cpp on a stream that arrives in pieces.
use scratch.Prelude.{
  ℕ, zero, suc, ◌+◌, ◌-◌, ◌≤◌, ltb, min, List, [], ◌∷◌, ◌++◌, append-nil, true, length, take, drop,
  Bytes, ◌≡◌, refl, sym, ap, ◌∙◌, arith,
}
use scratch.Doubles.{Doubles}
use scratch.Net.Memory.{slice}
use scratch.Fsm.Stream.{joined}
use scratch.Simd.Delimiters.{find_delimiters-remaining_bytes}
use scratch.Simd.Parser.{
  buffer_size, soh, SimdFixParser, new_simd_parser, Run, copied, moved, searched, parse,
}
use scratch.Simd.Fields.{keep_bytes, feed, feed-append, field_loop_lem, Here}
use scratch.Simd.Contents.{contents, open_field, contents-copied, contents-moved}
use scratch.Simd.Kept.{feed_open, IsKept, IsKept-nil, kept-IsKept}

take_nil : (n : ℕ) → ◌≡◌ {A = Bytes} (take n []) []
take_nil zero = refl
take_nil (suc n) = refl

take_whole : (n : ℕ) (cs : Bytes) → length cs ≤ n → take n cs ≡ cs
take_whole zero [] h = refl
take_whole zero (c ∷ cs) h = absurd (omega arith)
take_whole (suc n) [] h = refl
take_whole (suc n) (c ∷ cs) h = ap (◌∷◌ c) (take_whole n cs (omega arith))

abbrev pub Outcome : Type 0
Outcome = SimdFixParser × Run × ℕ

module _ (d : Doubles) (ten : d.Double) (negate : d.Double → d.Double) where
  module _ (clock : ℕ → ℕ) (shown : Bytes → Bytes) where
    -- Within the buffer, with no field in it still to be taken into account.
    pub record IsReady (p : SimdFixParser) : Type 0 where
      pub within : p.buffer_pos ≤ buffer_size
      pub kept : IsKept d ten negate clock shown (contents p) (open_field [] (contents p))

    pub new_simd_parser-IsReady : IsReady new_simd_parser
    unfolding new_simd_parser slice open_field
    new_simd_parser-IsReady = record {
      within = omega arith;
      kept = IsKept-nil d ten negate clock shown;
    }

    -- What a parse leaves: the buffer is ready, the run and the open field are those of the machine
    -- on the bytes that fit, the buffer keeps what is behind the last field with a '=', and no more bytes are reported as consumed than fit.
    pub record IsParsed (bytes : Bytes) (p : SimdFixParser) (r : Run) (out : Outcome) : Type 0 where
      pub ready : IsReady (out.0)
      pub fed :
          (open_field [] (contents (out.0)), out.1)
          ≡ feed d ten negate clock shown
              (open_field [] (contents p))
              (take (buffer_size - p.buffer_pos) bytes)
              r
      pub left :
          contents (out.0)
          ≡ keep_bytes [] [] (contents p ++ take (buffer_size - p.buffer_pos) bytes)
      pub consumed : out.2 ≤ min (length bytes) (buffer_size - p.buffer_pos)

    start-Here : (text : Bytes) → Here text 0 0 0 [] [] text
    start-Here text = record {
      rest = refl;
      open_field = refl;
      unread = refl;
      field_size = refl;
      kept_size = refl;
      size = omega arith;
    }

    searched_lem :
        (p : SimdFixParser) (r : Run)
        → ((searched d ten negate clock shown p r).1
            ≡ (feed d ten negate clock shown [] (contents p) r).1)
          × (drop ((searched d ten negate clock shown p r).0) (contents p)
              ≡ keep_bytes [] [] (contents p))
          × ((searched d ten negate clock shown p r).0 ≤ length (contents p))
    searched_lem p r = rw ((find_delimiters-remaining_bytes soh (contents p)).0) (
        field_loop_lem d ten negate clock shown (contents p) 0 0 0 [] [] (contents p) r
          (start-Here (contents p)))

    moved_within : (n : ℕ) (q : SimdFixParser) → (moved n q).buffer_pos ≤ q.buffer_pos
    moved_within n q = ground arith

    moved-IsReady :
        (n : ℕ) (q : SimdFixParser)
        → q.buffer_pos ≤ buffer_size
        → contents (moved n q) ≡ keep_bytes [] [] (contents q)
        → IsReady (moved n q)
    moved-IsReady n q h kept =
        let k = kept-IsKept d ten negate clock shown (contents q) in
        record { within = omega (arith, moved_within n q); kept = rw (kept, k.opens) k }

    feed-copied :
        (bytes : Bytes) (p : SimdFixParser) (r : Run)
        → IsReady p
        → feed d ten negate clock shown [] (contents (copied bytes p)) r
          ≡ feed d ten negate clock shown
              (open_field [] (contents p))
              (take (buffer_size - p.buffer_pos) bytes)
              r
    feed-copied bytes p r h =
        ap (λ t. feed d ten negate clock shown [] t r) (contents-copied bytes p)
        ∙ feed-append d ten negate clock shown [] (contents p)
            (take (buffer_size - p.buffer_pos) bytes) r
        ∙ rw (h.kept.idle r) refl

    parse_some :
        (bytes : Bytes) (p : SimdFixParser) (r : Run)
        → IsReady p
        → ltb 0 (length bytes) ≡ true
        → IsParsed bytes p r (parse d ten negate clock shown bytes p r)
    unfolding parse
    parse_some bytes p r h some_bytes =
        let q = copied bytes p in
        let found = searched_lem q r in
        let n = (searched d ten negate clock shown q r).0 in
        let kept : contents (moved n q) ≡ keep_bytes [] [] (contents q) =
          contents-moved n q ∙ found.1 in
        rw some_bytes (record {
          ready = moved-IsReady n q (omega (arith, h.within)) kept;
          fed =
              rw (kept, (kept-IsKept d ten negate clock shown (contents q)).opens, found.0)
                (ap (λ f. (f, (feed d ten negate clock shown [] (contents q) r).1))
                    (sym (feed_open d ten negate clock shown [] (contents q) r))
                  ∙ feed-copied bytes p r h);
          left = kept ∙ ap (keep_bytes [] []) (contents-copied bytes p);
          consumed = omega arith;
        })

    -- Every call on a parser that is ready leaves it ready, whatever the bytes are.
    pub parse-IsParsed :
        (bytes : Bytes) (p : SimdFixParser) (r : Run)
        → IsReady p
        → IsParsed bytes p r (parse d ten negate clock shown bytes p r)
    unfolding parse feed
    parse-IsParsed [] p r h = record {
      ready = h;
      fed = rw (take_nil (buffer_size - p.buffer_pos)) refl;
      left = rw (take_nil (buffer_size - p.buffer_pos), append-nil (contents p)) (sym h.kept.again);
      consumed = omega arith;
    }
    parse-IsParsed (c ∷ cs) p r h = parse_some (c ∷ cs) p r h (ground arith)

    -- Calls one after another.
    abbrev pub parse_chunks : List Bytes → SimdFixParser → Run → SimdFixParser × Run
    parse_chunks [] p r = (p, r)
    parse_chunks (bytes ∷ chunks) p r =
        let out = parse d ten negate clock shown bytes p r in parse_chunks chunks (out.0) (out.1)

    -- Each chunk fits behind the bytes that the calls before it left.
    abbrev pub Fits : List Bytes → SimdFixParser → Run → Type 0
    Fits [] p r = Unit
    Fits (bytes ∷ chunks) p r =
        let out = parse d ten negate clock shown bytes p r in
        (p.buffer_pos + length bytes ≤ buffer_size) × Fits chunks (out.0) (out.1)

    -- From a parser that is ready, chunks that fit leave the run and the open field of the machine that
    -- takes one byte of the whole stream at a time, however the stream is cut; so no field is lost,
    -- cut or seen twice, and the parser is ready again.
    pub parse_chunks-feed :
        (chunks : List Bytes) (p : SimdFixParser) (r : Run)
        → IsReady p
        → Fits chunks p r
        → IsReady ((parse_chunks chunks p r).0)
          × ◌≡◌ {A = Bytes × Run}
              (open_field [] (contents ((parse_chunks chunks p r).0)), (parse_chunks chunks p r).1)
              (feed d ten negate clock shown (open_field [] (contents p)) (joined chunks) r)
    unfolding feed
    parse_chunks-feed [] p r h f = (h, refl)
    parse_chunks-feed (bytes ∷ chunks) p r h (f, fs) =
        let one = parse-IsParsed bytes p r h in
        let out = parse d ten negate clock shown bytes p r in
        let rest = parse_chunks-feed chunks (out.0) (out.1) one.ready fs in
        let whole : take (buffer_size - p.buffer_pos) bytes ≡ bytes =
          take_whole (buffer_size - p.buffer_pos) bytes (omega (arith, f)) in
        (
          rest.0,
          rest.1
              ∙ ap (λ (o : Bytes × Run). feed d ten negate clock shown (o.0) (joined chunks) (o.1))
                  (one.fed
                    ∙ ap (λ t. feed d ten negate clock shown (open_field [] (contents p)) t r)
                        whole)
              ∙ sym (
                  feed-append d ten negate clock shown (open_field [] (contents p)) bytes
                    (joined chunks) r),
        )
