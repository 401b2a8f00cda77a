-- ===== src/Number/Decimal.antt =====
-- The decimal number that a text denotes, independently of the loops of
-- feedhandler/include/parser/fast_number_parser.hpp.
use scratch.Prelude.{
  ℕ, zero, suc, ◌+◌, ◌*◌, ◌-◌, ◌≤◌, ◌^◌, ◌==◌, ℤ, pos, sub_ℕ, [], ◌∷◌, ◌++◌, Bool, true, false, ◌≡◌,
  refl, if◌then◌else◌, Bytes, arith,
}
use scratch.Number.Fast.{is_digit}

-- The number of the leading digits, behind digits that make `r`.
abbrev pub value_from : ℕ → Bytes → ℕ
value_from r [] = r
value_from r (c ∷ cs) =
    let rest = value_from (r * 10 + (c - b'0')) cs in if is_digit c then rest else r

abbrev pub Digits : Bytes → Type 0
Digits [] = Unit
Digits (c ∷ cs) = (is_digit c ≡ true) × Digits cs

-- The sign and the digits of a text with an optional sign.
abbrev pub is_negative : Bytes → Bool
is_negative [] = false
is_negative (c ∷ cs) = c == b'-'

abbrev pub unsigned : Bytes → Bytes
unsigned [] = []
unsigned (c ∷ cs) = if c == b'-' then cs else if c == b'+' then cs else c ∷ cs

abbrev pub signed : Bool → ℕ → ℤ
signed negative n = if negative then sub_ℕ 0 n else pos n

-- The first `k` decimals, as a number of k digits.
abbrev pub decimals : ℕ → Bytes → ℕ
decimals zero cs = 0
decimals (suc k) [] = 0
decimals (suc k) (c ∷ cs) =
    let rest = decimals k cs in if is_digit c then (c - b'0') * 10 ^ k + rest else 0

pub le-value_from : (r : ℕ) (cs : Bytes) → r ≤ value_from r cs
le-value_from r [] = omega arith
le-value_from r (c ∷ cs) = ground (arith, le-value_from (r * 10 + (c - b'0')) cs)

pub value_from-append :
    (r : ℕ) (ds cs : Bytes) → Digits ds → value_from r (ds ++ cs) ≡ value_from (value_from r ds) cs
value_from-append r [] cs h = refl
value_from-append r (d ∷ ds) cs h =
    ground (arith, value_from-append (r * 10 + (d - b'0')) ds cs h.1)
