-- ===== src/Net/Fifo.antt =====
-- The receive buffer of feedhandler/src/net/receive_buffer.cpp as a queue of bytes.
use scratch.Prelude.{
  ℕ, zero, suc, ◌∷◌, ◌+◌, ◌-◌, ◌/◌, ◌≤◌, ltb, min, length, length-take, take, drop, [], false, ◌≡◌,
  refl, sym, ◌∙◌, ◌++◌, append-nil, arith, if◌then◌else◌, Bytes, Bool-cases, inl, inr,
}
use scratch.Net.Memory.{
  Memory, slice, copy_in, slice_eq, length-slice, slice-copy_in, slice-copy_in_append, drop-slice,
}
use scratch.Net.ReceiveBuffer.{
  ReceiveBuffer, buffer_size, write, readable_bytes, compact, consume, available_write,
}

-- The positions are in order and within the buffer, and the read position is not in the upper half.
pub record IsValid (b : ReceiveBuffer) : Type 0 where
  pub read_le_write : b.read_pos ≤ b.write_pos
  pub write_fits : b.write_pos ≤ buffer_size
  pub read_low : b.read_pos ≤ buffer_size / 2

-- What the reader sees at read_ptr().
abbrev pub contents : ReceiveBuffer → Bytes
contents b = slice b.buffer b.read_pos (readable_bytes b)

drop-min : (n : ℕ) (xs : Bytes) → drop (min n (length xs)) xs ≡ drop n xs
drop-min zero [] = refl
drop-min (suc n) [] = ground arith
drop-min zero (x ∷ xs) = ground arith
drop-min (suc n) (x ∷ xs) = ground (arith, drop-min n xs)

none_left : (n : ℕ) → ltb 0 n ≡ false → n ≡ 0
none_left n h = ground arith

appended :
    (bytes : Bytes) (b : ReceiveBuffer) (n : ℕ)
    → IsValid b
    → n ≤ length bytes
    → slice (copy_in b.buffer b.write_pos (take n bytes)) b.read_pos (b.write_pos + n - b.read_pos)
      ≡ slice b.buffer b.read_pos (b.write_pos - b.read_pos) ++ take n bytes
appended bytes b n v h =
    slice_eq _ b.read_pos b.read_pos (b.write_pos + n - b.read_pos)
      (b.write_pos + length (take n bytes) - b.read_pos) refl (omega (arith, length-take n bytes))
    ∙ slice-copy_in_append b.buffer b.read_pos b.write_pos (take n bytes) v.read_le_write

nothing_appended : (xs bytes : Bytes) (n : ℕ) → ltb 0 n ≡ false → xs ≡ xs ++ take n bytes
nothing_appended xs bytes n h = rw (none_left n h) (sym (append-nil xs))

-- A write into a valid buffer appends to the readable bytes as many of its bytes as there is room
-- for behind the write position, and returns their number. The buffer stays valid.
pub write-contents :
    (bytes : Bytes) (b : ReceiveBuffer)
    → IsValid b
    → let r = write bytes b in
      (contents r.0 ≡ contents b ++ take r.1 bytes)
      × (r.1 ≡ min (length bytes) (available_write b))
      × IsValid r.0
unfolding write readable_bytes available_write
write-contents bytes b v =
    let n = min (length bytes) (buffer_size - b.write_pos) in
    elim (Bool-cases (ltb 0 n)) [
      | inl some_bytes ↦ rw some_bytes (appended bytes b n v (omega arith), refl, ground arith)
      | inr nothing ↦ rw nothing (nothing_appended (contents b) bytes n nothing, refl, v)
    ]

no_bytes : (m m' : Memory) (s s' : ℕ) → slice m s 0 ≡ slice m' s' 0
unfolding slice
no_bytes m m' s s' = refl

front_copied :
    (b : ReceiveBuffer) (n : ℕ)
    → slice
        (if ltb 0 n then copy_in b.buffer 0 (slice b.buffer b.read_pos n) else b.buffer)
        0
        (n - 0)
      ≡ slice b.buffer b.read_pos n
front_copied b n = elim (Bool-cases (ltb 0 n)) [
  | inl some_bytes ↦
      let bytes = slice b.buffer b.read_pos n in
      rw some_bytes (
        slice_eq (copy_in b.buffer 0 bytes) 0 0 (n - 0) (length bytes) refl
          (omega (arith, length-slice b.buffer b.read_pos n))
        ∙ slice-copy_in b.buffer 0 bytes)
  | inr nothing ↦ rw (none_left n nothing) (no_bytes b.buffer b.buffer 0 b.read_pos)
]

compact-contents :
    (b : ReceiveBuffer)
    → b.read_pos ≤ b.write_pos
    → b.write_pos ≤ buffer_size
    → (contents (compact b) ≡ contents b) × IsValid (compact b)
unfolding compact readable_bytes
compact-contents b h h' = elim (Bool-cases (ltb (buffer_size / 2) b.read_pos)) [
  | inl high ↦ rw high (front_copied b (b.write_pos - b.read_pos), ground arith)
  | inr low ↦ rw low (refl, ground arith)
]

-- Consuming from a valid buffer drops that many of the readable bytes from the front, or all of
-- them if there are fewer, whether or not the buffer is compacted. The buffer stays valid.
pub consume-contents :
    (len : ℕ) (b : ReceiveBuffer)
    → IsValid b
    → (contents (consume len b) ≡ drop len (contents b)) × IsValid (consume len b)
unfolding consume readable_bytes
consume-contents len b v =
    let moved = record b { read_pos = b.read_pos + min len (b.write_pos - b.read_pos) } in
    let c = compact-contents moved (ground arith) v.write_fits in
    let n = b.write_pos - b.read_pos in
    let bytes = slice b.buffer b.read_pos n in
    let k = min len n in
    let dropped : drop k bytes ≡ drop len bytes =
      rw (length-slice b.buffer b.read_pos n) at (drop-min len bytes) in
    (
      c.0
          ∙ slice_eq b.buffer (b.read_pos + k) (b.read_pos + k) (b.write_pos - (b.read_pos + k))
              (n - k) refl (omega arith)
          ∙ sym (drop-slice b.buffer b.read_pos n k)
          ∙ dropped,
      c.1,
    )
