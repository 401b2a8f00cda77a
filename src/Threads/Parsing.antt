-- ===== src/Threads/Parsing.antt =====
-- What the threads of feedhandler/src/threading/threaded_feedhandler.cpp parse, in every interleaving.
use scratch.Prelude.{
  ℕ, ◌+◌, length, length-append, List, [], ◌∷◌, ◌++◌, append-nil, append_assoc, some, Bool, true,
  false, not, ◌||◌, if◌then◌else◌, ◌≡◌, refl, sym, ap, ◌∙◌, arith, Bool-cases, inl, inr, Bytes,
}
use scratch.Doubles.{Doubles}
use scratch.Feed.Tick.{Tick}
use scratch.Fsm.State.{
  Parser, new_parser, set_garbage_recovery, process_char, parse_char, parse, is_complete, tick_of,
}
use scratch.Fsm.Stream.{joined, feed, feed-append, parse-feed}
use scratch.Threads.MessageQueue.{is_nil, try_push, front_of, try_pop, pop, new_queue, shutdown}
use scratch.Threads.FeedHandler.{
  Config, FeedHandler, Phase, absent, testing, popping, ended, terminated, is_terminated,
  new_feed_handler, Effect, start_running, start_parser, start_network, stop_running, stop_queue,
  join_network, join_parser, push_data, inject_data, reset_statistics, network_round, parser_test,
  parse_buffer, use_popped, parser_round, parser_step_in, Event, starts_running, starts_parser,
  starts_network, stops_running, stops_queue, joins_network, joins_parser, resets, network_steps,
  parser_steps, injects, pushes_data, live_step, step, run,
}

module _ (d : Doubles) (clock : ℕ → ℕ) where
  -- The clock of a parser whose output holds some ticks already.
  abbrev later : List Tick → ℕ → ℕ
  later past n = clock (length past + n)

  abbrev behind : List Tick → Parser × List Tick → Parser × List Tick
  behind past r = (r.0, past ++ r.1)

  parse_char-behind :
      (past : List Tick) (c : ℕ) (p : Parser) (ticks : List Tick)
      → parse_char d clock c (behind past (p, ticks))
        ≡ behind past (parse_char d (later past) c (p, ticks))
  unfolding parse_char
  parse_char-behind past c p ticks =
      let (q, done) = process_char d c p in
      let t = tick_of q.tick_builder (later past (length ticks)) in
      elim (Bool-cases done) [
        | inl finished ↦ elim (Bool-cases (is_complete q.tick_builder)) [
          | inl whole ↦
              rw (finished, whole, length-append past ticks, append_assoc past ticks (t ∷ [])) refl
          | inr partial ↦ rw (finished, partial) refl
        ]
        | inr unfinished ↦ rw unfinished refl
      ]

  feed-behind :
      (past : List Tick) (cs : Bytes) (r : Parser × List Tick)
      → feed d clock cs (behind past r) ≡ behind past (feed d (later past) cs r)
  unfolding feed
  feed-behind past [] r = refl
  feed-behind past (c ∷ cs) r =
      ap (feed d clock cs) (parse_char-behind past c r.0 r.1)
      ∙ feed-behind past cs (parse_char d (later past) c r)

  -- The parser of a handler, with the ticks parsed before.
  abbrev pub parser_of : FeedHandler → Parser × List Tick
  parser_of h = (h.parser, h.parsed)

  parse_buffer-feed :
      (buffer : Bytes) (h : FeedHandler)
      → parser_of (parse_buffer d clock buffer h) ≡ feed d clock buffer (parser_of h)
  unfolding parse_buffer
  parse_buffer-feed buffer h =
      ap (λ r. behind h.parsed r.0) (parse-feed d (later h.parsed) buffer (h.parser, []))
      ∙ sym (feed-behind h.parsed buffer (h.parser, []))
      ∙ ap (λ ts. feed d clock buffer (h.parser, ts)) (append-nil h.parsed)

  -- What a handler and the buffers behind it were and are.
  pub record Follows (h : FeedHandler) (o : Effect) : Type 0 where
    pub in_order : h.buffer_queue.queue ++ o.accepted ≡ o.taken ++ o.after.buffer_queue.queue
    pub parses : parser_of o.after ≡ feed d clock (joined o.taken) (parser_of h)

  same-Follows :
      (h g : FeedHandler)
      → g.buffer_queue.queue ≡ h.buffer_queue.queue
      → parser_of g ≡ parser_of h
      → Follows h (record { after = g; accepted = []; taken = [] })
  unfolding feed
  same-Follows h g q p = record { in_order = append-nil h.buffer_queue.queue ∙ sym q; parses = p }

  push_data-Follows : (bytes : Bytes) (h : FeedHandler) → Follows h (push_data bytes h)
  unfolding push_data try_push feed
  push_data-Follows bytes h = record {
    in_order = ground (arith, append-nil h.buffer_queue.queue);
    parses = refl;
  }

  front_of-Follows :
      (h : FeedHandler) (bs : List Bytes)
      → h.buffer_queue.queue ≡ bs
      → Follows h (use_popped d clock h (some (front_of h.buffer_queue bs)))
  unfolding parse_buffer
  front_of-Follows h [] e = same-Follows h (record h { phase = ended }) refl refl
  front_of-Follows h (b ∷ bs) e =
      let q = h.buffer_queue in
      let g = record h { buffer_queue = record q { queue = bs } } in
      record {
        in_order = append-nil h.buffer_queue.queue ∙ e;
        parses =
            parse_buffer-feed b g ∙ ap (λ cs. feed d clock cs (parser_of h)) (sym (append-nil b));
      }

  parser_round-Follows : (h : FeedHandler) → Follows h (parser_round d clock h)
  unfolding parser_round pop try_pop
  parser_round-Follows h =
      elim (Bool-cases (not (not (is_nil h.buffer_queue.queue) || h.buffer_queue.shut))) [
        | inl waits ↦ rw waits (same-Follows h h refl refl)
        | inr ready ↦ rw ready (front_of-Follows h h.buffer_queue.queue refl)
      ]

  parser_step-Follows : (k : Phase) (h : FeedHandler) → Follows h (parser_step_in d clock k h)
  unfolding parser_test
  parser_step-Follows absent h = same-Follows h h refl refl
  parser_step-Follows testing h = same-Follows h (parser_test h) (ground arith) (ground arith)
  parser_step-Follows popping h = parser_round-Follows h
  parser_step-Follows ended h = same-Follows h h refl refl
  parser_step-Follows terminated h = same-Follows h h refl refl

  either-Follows :
      (h : FeedHandler) (b : Bool) (o p : Effect)
      → Follows h o
      → Follows h p
      → Follows h (if b then o else p)
  either-Follows h true o p f g = f
  either-Follows h false o p f g = g

  live_step-Follows : (h : FeedHandler) (e : Event) → Follows h (live_step d clock h e)
  unfolding live_step start_running start_parser start_network stop_running stop_queue join_network
      join_parser network_round shutdown inject_data reset_statistics
  live_step-Follows h starts_running =
      same-Follows h (start_running h) (ground arith) (ground arith)
  live_step-Follows h starts_parser = same-Follows h (start_parser h) (ground arith) (ground arith)
  live_step-Follows h starts_network =
      same-Follows h (start_network h) (ground arith) (ground arith)
  live_step-Follows h joins_network = same-Follows h (join_network h) (ground arith) (ground arith)
  live_step-Follows h joins_parser = same-Follows h (join_parser h) (ground arith) (ground arith)
  live_step-Follows h stops_running = same-Follows h (stop_running h) (ground arith) (ground arith)
  live_step-Follows h stops_queue = same-Follows h (stop_queue h) refl refl
  live_step-Follows h resets = same-Follows h (reset_statistics h) refl refl
  live_step-Follows h network_steps = same-Follows h (network_round h) (ground arith) (ground arith)
  live_step-Follows h parser_steps = parser_step-Follows h.phase h
  live_step-Follows h (injects bytes) =
      either-Follows h (not h.running) (record { after = h; accepted = []; taken = [] })
        (push_data bytes h) (same-Follows h h refl refl) (push_data-Follows bytes h)
  live_step-Follows h (pushes_data bytes) = push_data-Follows bytes h

  step-Follows : (h : FeedHandler) (e : Event) → Follows h (step d clock h e)
  unfolding step
  step-Follows h e =
      either-Follows h (is_terminated h.phase) (record { after = h; accepted = []; taken = [] })
        (live_step d clock h e) (same-Follows h h refl refl) (live_step-Follows h e)

  joined-append : (a b : List Bytes) → joined (a ++ b) ≡ joined a ++ joined b
  joined-append [] b = refl
  joined-append (x ∷ a) b =
      ap (◌++◌ x) (joined-append a b) ∙ sym (append_assoc x (joined a) (joined b))

  pub run-Follows : (h : FeedHandler) (es : List Event) → Follows h (run d clock h es)
  unfolding run
  run-Follows h [] = same-Follows h h refl refl
  run-Follows h (e ∷ es) =
      let o = step d clock h e in
      let r = run d clock o.after es in
      let first = step-Follows h e in
      let rest = run-Follows o.after es in
      record {
        in_order =
            sym (append_assoc h.buffer_queue.queue o.accepted r.accepted)
            ∙ ap (λ bs. bs ++ r.accepted) first.in_order
            ∙ append_assoc o.taken o.after.buffer_queue.queue r.accepted
            ∙ ap (◌++◌ o.taken) rest.in_order
            ∙ sym (append_assoc o.taken r.taken r.after.buffer_queue.queue);
        parses =
            rest.parses
            ∙ ap (feed d clock (joined r.taken)) first.parses
            ∙ sym (feed-append d clock (joined o.taken) (joined r.taken) (parser_of h))
            ∙ ap (λ cs. feed d clock cs (parser_of h)) (sym (joined-append o.taken r.taken));
      }

  -- Whatever the threads do, in whatever interleaving, with starts, stops and injections under way,
  -- up to a start that finds a thread not joined, which ends the process: the buffers that the queue
  -- accepted are those that the parser thread took, followed by those still in the queue. The parser
  -- and the ticks are those of parsing the bytes of the buffers taken at once, as one stream.
  pub run-parse :
      (config : Config) (has_callback : Bool) (es : List Event)
      → let r = run d clock (new_feed_handler config has_callback) es in
        (r.accepted ≡ r.taken ++ r.after.buffer_queue.queue)
        × (parser_of r.after
            ≡ (parse d clock
                (joined r.taken)
                (set_garbage_recovery config.enable_garbage_recovery new_parser, [])).0)
  unfolding new_feed_handler new_queue
  run-parse config has_callback es =
      let h = new_feed_handler config has_callback in
      let r = run d clock h es in
      let f = run-Follows h es in
      (
        f.in_order,
        f.parses ∙ sym (ap (λ r. r.0) (parse-feed d clock (joined r.taken) (parser_of h))),
      )
