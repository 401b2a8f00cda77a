-- ===== src/Net/ReceiveBuffer.antt =====
-- feedhandler/include/net/receive_buffer.hpp and feedhandler/src/net/receive_buffer.cpp.
use scratch.Prelude.{ℕ, ◌+◌, ◌-◌, ◌/◌, ltb, min, length, take, Bool, if◌then◌else◌, Bytes}
use scratch.Net.Memory.{Memory, slice, copy_in}

abbrev pub buffer_size : ℕ
buffer_size = 8192

pub record ReceiveBuffer : Type 0 where
  pub buffer : Memory
  pub write_pos : ℕ
  pub read_pos : ℕ

unfoldable pub new_buffer : ReceiveBuffer
new_buffer = record { buffer = λ i. 0; write_pos = 0; read_pos = 0 }

-- The bytes written, and their number.
unfoldable pub write : Bytes → ReceiveBuffer → ReceiveBuffer × ℕ
write bytes b =
    let to_write = min (length bytes) (buffer_size - b.write_pos) in
    (
      if ltb 0 to_write
          then record b {
            buffer = copy_in b.buffer b.write_pos (take to_write bytes);
            write_pos = b.write_pos + to_write;
          }
          else b,
      to_write,
    )

unfoldable pub readable_bytes : ReceiveBuffer → ℕ
readable_bytes b = b.write_pos - b.read_pos

-- Moves the readable bytes to the front once the read position is in the upper half.
unfoldable pub compact : ReceiveBuffer → ReceiveBuffer
compact b =
    if ltb (buffer_size / 2) b.read_pos
    then (let remaining = b.write_pos - b.read_pos in
        record {
          buffer =
              if ltb 0 remaining
              then copy_in b.buffer 0 (slice b.buffer b.read_pos remaining)
              else b.buffer;
          write_pos = remaining;
          read_pos = 0;
        })
    else b

unfoldable pub consume : ℕ → ReceiveBuffer → ReceiveBuffer
unfolding compact readable_bytes
consume len b = compact (record b { read_pos = b.read_pos + min len (readable_bytes b) })

unfoldable pub has_space : ReceiveBuffer → Bool
has_space b = ltb b.write_pos buffer_size

unfoldable pub available_write : ReceiveBuffer → ℕ
available_write b = buffer_size - b.write_pos

-- After bytes were received straight into write_buffer().
unfoldable pub advance_write : ℕ → ReceiveBuffer → ReceiveBuffer
advance_write len b = record b { write_pos = b.write_pos + len }

unfoldable pub reset : ReceiveBuffer → ReceiveBuffer
reset b = record { buffer = λ i. 0; write_pos = 0; read_pos = 0 }
