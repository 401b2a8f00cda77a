-- ===== src/Simd/Contents.antt =====
-- The buffer of SIMDFixParser, feedhandler/src/parser/simd_fix_parser.cpp, as the bytes in it: what
-- the copies of parse do to them.
use scratch.Prelude.{
  ℕ, zero, suc, ◌+◌, ◌-◌, ltb, min, [], ◌∷◌, ◌++◌, if◌then◌else◌, length, length-take, take, drop,
  Bytes, ◌≡◌, refl, sym, ap, ◌∙◌, arith, Bool-cases, inl, inr,
}
use scratch.Net.Memory.{
  slice, copy_in, slice_eq, length-slice, slice-copy_in, slice-copy_in_append, drop-slice,
}
use scratch.Simd.Parser.{buffer_size, SimdFixParser, copied, moved}
use scratch.Simd.Fields.{ends}

-- The bytes in the buffer.
abbrev pub contents : SimdFixParser → Bytes
contents p = slice p.processing_buffer 0 p.buffer_pos

-- The field that a text leaves open.
unfoldable pub open_field : Bytes → Bytes → Bytes
open_field field [] = field
open_field field (c ∷ cs) = open_field (if ends field c then [] else field ++ c ∷ []) cs

take-min : (n : ℕ) (cs : Bytes) → take (min (length cs) n) cs ≡ take n cs
take-min zero [] = refl
take-min (suc n) [] = let e : min (length {A = ℕ} []) (suc n) ≡ 0 = omega arith in rw e refl
take-min zero (c ∷ cs) = let e : min (length (c ∷ cs)) 0 ≡ 0 = omega arith in rw e refl
take-min (suc n) (c ∷ cs) =
    let e : min (length (c ∷ cs)) (suc n) ≡ suc (min (length cs) n) = omega arith in
    rw e (ap (◌∷◌ c) (take-min n cs))

pub contents-copied :
    (bytes : Bytes) (p : SimdFixParser)
    → contents (copied bytes p) ≡ contents p ++ take (buffer_size - p.buffer_pos) bytes
contents-copied bytes p =
    let part = take (min (length bytes) (buffer_size - p.buffer_pos)) bytes in
    slice_eq (copy_in p.processing_buffer p.buffer_pos part) 0 0
      (p.buffer_pos + min (length bytes) (buffer_size - p.buffer_pos))
      (p.buffer_pos + length part - 0) refl
      (omega (arith, length-take (min (length bytes) (buffer_size - p.buffer_pos)) bytes))
    ∙ slice-copy_in_append p.processing_buffer 0 p.buffer_pos part (omega arith)
    ∙ ap (λ xs. xs ++ part)
        (slice_eq p.processing_buffer 0 0 (p.buffer_pos - 0) p.buffer_pos refl (omega arith))
    ∙ ap (λ xs. contents p ++ xs) (take-min (buffer_size - p.buffer_pos) bytes)

none_left : (m : ℕ → ℕ) (s n : ℕ) → n ≡ 0 → slice m 0 0 ≡ slice m s n
unfolding slice
none_left m s n e = rw e refl

pub contents-moved : (n : ℕ) (p : SimdFixParser) → contents (moved n p) ≡ drop n (contents p)
contents-moved n p =
    let m = p.processing_buffer in
    let left = slice m n (p.buffer_pos - n) in
    elim (Bool-cases (ltb n p.buffer_pos)) [
      | inl e ↦ rw e (
          slice_eq (copy_in m 0 left) 0 0 (p.buffer_pos - n) (length left) refl
            (sym (length-slice m n (p.buffer_pos - n)))
          ∙ slice-copy_in m 0 left
          ∙ slice_eq m n (0 + n) (p.buffer_pos - n) (p.buffer_pos - n) (omega arith) refl
          ∙ sym (drop-slice m 0 p.buffer_pos n))
      | inr e ↦ rw e (
          none_left m (0 + n) (p.buffer_pos - n) (ground arith)
          ∙ sym (drop-slice m 0 p.buffer_pos n))
    ]
