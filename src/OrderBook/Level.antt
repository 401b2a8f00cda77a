-- ===== src/OrderBook/Level.antt =====
-- orderbook/include/orderbook/price_level.hpp: one price level, with the wrap-around of its
-- quantity and counters.
use scratch.Prelude.{
  ℕ, ◌+◌, ◌-◌, ◌%◌, ◌^◌, Bool, ◌||◌, ◌&&◌, ℤ, pos, ◌+ℤ◌, ◌-ℤ◌, div_ℤ, ltb, leb, ◌==◌, ltb_ℤ, leb_ℤ,
  eqb_ℤ, if◌then◌else◌, wrap64,
}

pub record PriceLevel : Type 0 where
  pub price : ℤ
  pub quantity : ℤ
  pub order_count : ℕ

-- The default constructor.
abbrev pub empty_level : PriceLevel
empty_level = record { price = pos 0; quantity = pos 0; order_count = 0 }

abbrev pub price_level : ℤ → ℤ → ℕ → PriceLevel
price_level p q c = record { price = p; quantity = q; order_count = c }

unfoldable pub add_quantity : ℤ → ℕ → PriceLevel → PriceLevel
add_quantity qty orders l = record l {
  quantity = wrap64 (l.quantity +ℤ qty);
  order_count = (l.order_count + orders) % 2 ^ 32;
}

unfoldable pub remove_quantity : ℤ → ℕ → PriceLevel → PriceLevel × Bool
remove_quantity qty orders l =
    let quantity = wrap64 (l.quantity -ℤ qty) in
    (
      record l {
        quantity = quantity;
        order_count = if leb orders l.order_count then l.order_count - orders else 0;
      },
      leb_ℤ quantity (pos 0),
    )

unfoldable pub is_empty_level : PriceLevel → Bool
is_empty_level l = leb_ℤ l.quantity (pos 0) || l.order_count == 0

-- The count is converted to the signed type before the division.
unfoldable pub average_order_size : PriceLevel → ℤ
average_order_size l = if ltb 0 l.order_count then div_ℤ l.quantity l.order_count else pos 0

unfoldable pub level_eq : PriceLevel → PriceLevel → Bool
level_eq a b =
    eqb_ℤ a.price b.price && eqb_ℤ a.quantity b.quantity && a.order_count == b.order_count

unfoldable pub level_lt : PriceLevel → PriceLevel → Bool
level_lt a b = ltb_ℤ a.price b.price

unfoldable pub level_gt : PriceLevel → PriceLevel → Bool
level_gt a b = ltb_ℤ b.price a.price
