-- ===== src/Net/Examples.antt =====
-- Runs of the receive buffer and of feedhandler/src/parser/streaming_fix_handler.cpp, with decimal
-- fixed point.
use scratch.Prelude.{ℕ, ◌+◌, ◌/◌, ◌≤◌, length, List, [], ◌∷◌, ◌≡◌, refl, arith, All, Bytes}
use scratch.Doubles.{fixed_point}
use scratch.Feed.Tick.{Tick}
use scratch.Fsm.State.{Parser, parse}
use scratch.Fsm.Stream.{joined}
use scratch.Net.ReceiveBuffer.{ReceiveBuffer, buffer_size, new_buffer, write, readable_bytes}
use scratch.Net.Fifo.{IsValid, write-contents}
use scratch.Net.Streaming.{Handler, new_handler}
use scratch.Net.Delivery.{IsDrained, deliver, deliver-parse}

abbrev clock : ℕ → ℕ
clock n = 1000 + n

-- 55=A|
abbrev text : Bytes
text = b'5' ∷ b'5' ∷ b'=' ∷ b'A' ∷ b'|' ∷ []

new_buffer-IsValid : IsValid new_buffer
unfolding new_buffer
new_buffer-IsValid = record {
  read_le_write = omega arith;
  write_fits = omega arith;
  read_low = omega arith;
}

abbrev written : ReceiveBuffer
written = (write text new_buffer).0

written-IsValid : IsValid written
written-IsValid = (write-contents text new_buffer new_buffer-IsValid).2

new_handler-IsDrained : IsDrained new_handler
unfolding new_handler new_buffer readable_bytes
new_handler-IsDrained = record { valid = new_buffer-IsValid; drained = refl }

abbrev filled : Handler
filled = record new_handler { buffer = written }

small_chunks : All (λ c. length c ≤ buffer_size / 2) (text ∷ text ∷ [])
small_chunks = (omega arith, (omega arith, tt))

deliver-parse_example :
    let r = deliver fixed_point clock (text ∷ text ∷ []) (new_handler, []) in
    IsDrained r.0
    × (◌≡◌ {A = Parser × List Tick}
        ((r.0).parser, r.1)
        (parse fixed_point clock (joined (text ∷ text ∷ [])) (new_handler.parser, [])).0)
deliver-parse_example =
    deliver-parse fixed_point clock (text ∷ text ∷ []) new_handler [] new_handler-IsDrained
      small_chunks
