-- ===== src/Net/Streaming.antt =====
-- feedhandler/src/parser/streaming_fix_handler.cpp: the receive buffer in front of the parser.
use scratch.Prelude.{ℕ, ◌-◌, ◌==◌, ltb, length, List, if◌then◌else◌, ◌&&◌, Bytes, add64, inc64}
use scratch.Doubles.{Doubles}
use scratch.Feed.Tick.{Tick}
use scratch.Fsm.State.{Parser, parse, new_parser}
use scratch.Fsm.State
use scratch.Net.ReceiveBuffer.{
  ReceiveBuffer, buffer_size, write, readable_bytes, consume, available_write, new_buffer,
}
use scratch.Net.ReceiveBuffer
use scratch.Net.Fifo.{contents}

pub record Stats : Type 0 where
  pub total_bytes_received : ℕ
  pub total_messages_parsed : ℕ
  pub total_parse_calls : ℕ
  pub buffer_compactions : ℕ

pub record Handler : Type 0 where
  pub parser : Parser
  pub buffer : ReceiveBuffer
  pub stats : Stats

abbrev zero_stats : Stats
zero_stats = record {
  total_bytes_received = 0;
  total_messages_parsed = 0;
  total_parse_calls = 0;
  buffer_compactions = 0;
}

unfoldable pub new_handler : Handler
new_handler = record { parser = new_parser; buffer = new_buffer; stats = zero_stats }

unfoldable pub reset : Handler → Handler
reset h = record {
  parser = State.reset h.parser;
  buffer = ReceiveBuffer.reset h.buffer;
  stats = zero_stats;
}

module _ (d : Doubles) (clock : ℕ → ℕ) where
  -- What process_buffer does once there is something to read; `consumed` is what `parse` returned.
  abbrev pub after_parse :
      ℕ → ℕ → Handler → List Tick → (Parser × List Tick) × ℕ → (Handler × List Tick) × ℕ
  after_parse available before h ticks ((p, out), consumed) =
      let b = if ltb 0 consumed then consume consumed h.buffer else h.buffer in
      let compacted = ltb 0 consumed && ltb (readable_bytes b) (available - consumed) in
      let parsed = length out - before in
      (
        (
          record {
            parser = p;
            buffer = b;
            stats = record (h.stats) {
              buffer_compactions =
                  if compacted
                  then inc64 (h.stats).buffer_compactions
                  else (h.stats).buffer_compactions;
              total_parse_calls = inc64 (h.stats).total_parse_calls;
              total_messages_parsed = add64 (h.stats).total_messages_parsed parsed;
            };
          },
          out,
        ),
        parsed,
      )

  unfoldable pub process_buffer : Handler → List Tick → (Handler × List Tick) × ℕ
  process_buffer h ticks =
      let available = readable_bytes h.buffer in
      if available == 0
      then ((h, ticks), 0)
      else after_parse available (length ticks) h ticks
          (parse d clock (contents h.buffer) (h.parser, ticks))

  unfoldable pub process_incoming_data : Bytes → Handler → List Tick → (Handler × List Tick) × ℕ
  process_incoming_data bytes h ticks =
      let (b, written) = write bytes h.buffer in
      process_buffer
        (record h {
          buffer = b;
          stats = record (h.stats) {
            total_bytes_received = add64 (h.stats).total_bytes_received written;
          };
        })
        ticks
