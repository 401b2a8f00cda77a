-- ===== src/Number/Fast.antt =====
-- feedhandler/include/parser/fast_number_parser.hpp: FastNumberParser. A character range is the list
-- of its bytes. Signed arithmetic wraps as on two's complement hardware.
use scratch.Prelude.{
  ℕ, ◌+◌, ◌-◌, ◌*◌, ◌/◌, ◌%◌, ◌^◌, ◌==◌, ltb, leb, ℤ, pos, negsuc, ltb_ℤ, ◌+ℤ◌, ◌-ℤ◌, ◌*ℤ◌, [], ◌∷◌,
  Bool, true, false, ◌&&◌, if◌then◌else◌, Bytes, wrap32, wrap64,
}

unfoldable pub is_digit : ℕ → Bool
is_digit c = leb b'0' c && leb c b'9'

unfoldable pub digit_to_int : ℕ → ℕ
digit_to_int c = c - b'0'

abbrev pub int32_max : ℕ
int32_max = 2 ^ 31 - 1

abbrev pub uint32_max : ℕ
uint32_max = 2 ^ 32 - 1

-- The loop of fast_atoi from `result`, with the sign.
unfoldable pub atoi_loop : Bool → ℤ → Bytes → ℤ
unfolding is_digit digit_to_int
atoi_loop negative result [] = if negative then wrap32 (pos 0 -ℤ result) else result
atoi_loop negative result (c ∷ cs) =
    let rest = atoi_loop negative (wrap32 (wrap32 (result *ℤ pos 10) +ℤ pos (digit_to_int c))) cs in
    if is_digit c
    then (if ltb_ℤ (pos (int32_max / 10)) result
        then (if negative then negsuc int32_max else pos int32_max)
        else rest)
    else if negative
    then wrap32 (pos 0 -ℤ result)
    else result

-- A lone sign leaves no digit, for which the loop returns 0.
unfoldable pub fast_atoi : Bytes → ℤ
unfolding atoi_loop
fast_atoi [] = pos 0
fast_atoi (c ∷ cs) =
    if c == b'-'
    then atoi_loop true (pos 0) cs
    else if c == b'+'
    then atoi_loop false (pos 0) cs
    else atoi_loop false (pos 0) (c ∷ cs)

-- The loop of fast_atou from `result`.
unfoldable pub atou_loop : ℕ → Bytes → ℕ
unfolding is_digit digit_to_int
atou_loop result [] = result
atou_loop result (c ∷ cs) =
    let rest = atou_loop ((result * 10 + digit_to_int c) % 2 ^ 32) cs in
    if is_digit c then (if ltb (uint32_max / 10) result then uint32_max else rest) else result

unfoldable pub fast_atou : Bytes → ℕ
unfolding atou_loop
fast_atou cs = atou_loop 0 cs

-- The loop over the integer part: its value and the bytes behind it.
unfoldable pub integer_loop : ℤ → Bytes → ℤ × Bytes
unfolding is_digit digit_to_int
integer_loop part [] = (part, [])
integer_loop part (c ∷ cs) =
    let rest = integer_loop (wrap64 (wrap64 (part *ℤ pos 10) +ℤ pos (digit_to_int c))) cs in
    if is_digit c then rest else (part, c ∷ cs)

-- The loop over the fraction: its digits as a number and the power of ten that they stand over.
-- The bound keeps both below ten times `scale`.
unfoldable pub fraction_loop : ℕ → ℕ → ℕ → Bytes → ℕ × ℕ
unfolding is_digit digit_to_int
fraction_loop scale part fractional_scale [] = (part, fractional_scale)
fraction_loop scale part fractional_scale (c ∷ cs) =
    let rest = fraction_loop scale (part * 10 + digit_to_int c) (fractional_scale * 10) cs in
    if is_digit c && ltb fractional_scale scale then rest else (part, fractional_scale)

-- The part behind a decimal point, if there is one.
abbrev pub fraction_of : ℕ → Bytes → ℕ × ℕ
fraction_of scale [] = (0, 1)
fraction_of scale (c ∷ cs) = if c == b'.' then fraction_loop scale 0 1 cs else (0, 1)

-- The unsigned text behind the sign.
unfoldable pub atof_unsigned : ℕ → Bytes → ℤ
unfolding integer_loop fraction_loop
atof_unsigned scale cs =
    let (integer_part, rest) = integer_loop (pos 0) cs in
    let (fractional_part, fractional_scale) = fraction_of scale rest in
    wrap64 (
      wrap64 (integer_part *ℤ pos scale)
      +ℤ wrap64 (pos (fractional_part * (scale / fractional_scale))))

-- A lone sign leaves an empty text, whose value is 0.
unfoldable pub fast_atof_fixed : ℕ → Bytes → ℤ
unfolding atof_unsigned
fast_atof_fixed scale [] = pos 0
fast_atof_fixed scale (c ∷ cs) =
    if c == b'-'
    then wrap64 (pos 0 -ℤ atof_unsigned scale cs)
    else if c == b'+'
    then atof_unsigned scale cs
    else atof_unsigned scale (c ∷ cs)
