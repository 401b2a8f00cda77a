-- ===== src/Feed/Tick.antt =====
-- feedhandler/include/common/tick.hpp: market data ticks. A symbol is the text that its view shows;
-- the views of the source into shared buffers are not modelled.
use scratch.Prelude.{
  ℕ, ℤ, pos, ltb_ℤ, eqb_ℤ, ◌==◌, Bool, true, false, not, ◌&&◌, ◌||◌, if◌then◌else◌, Bytes, [], ◌∷◌,
  take,
}
use scratch.Doubles.{Doubles}

pub record Tick : Type 0 where
  pub symbol : Bytes
  pub price : ℤ
  pub qty : ℤ
  pub side : ℕ
  pub timestamp : ℕ

unfoldable pub new_tick : Tick
new_tick = record { symbol = []; price = pos 0; qty = pos 0; side = 0; timestamp = 0 }

abbrev is_nil : Bytes → Bool
is_nil [] = true
is_nil (c ∷ s) = false

unfoldable pub is_valid : Tick → Bool
is_valid t =
    not (is_nil t.symbol)
    && ltb_ℤ (pos 0) t.price
    && ltb_ℤ (pos 0) t.qty
    && (t.side == b'B' || t.side == b'S')

-- `std::min(src.size(), sizeof(symbol_storage_) - 1)` bytes are copied.
unfoldable pub copy_symbol : Bytes → Tick → Tick
copy_symbol src t = record t { symbol = take 63 src }

unfoldable pub fix_side_to_char : ℤ → ℕ
fix_side_to_char fix_side =
    if eqb_ℤ fix_side (pos 1) then b'B' else if eqb_ℤ fix_side (pos 2) then b'S' else 0

module _ (d : Doubles) where
  open d use {Double}

  unfoldable pub price_to_double : ℤ → Double
  price_to_double fixed_price = d.div (d.of_int64 fixed_price) d.ten_thousand

  unfoldable pub double_to_price : Double → ℤ
  double_to_price price = d.to_int64 (d.add (d.mul price d.ten_thousand) d.half)
