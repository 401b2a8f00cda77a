-- ===== src/Doubles.antt =====
-- The floating point that the sources use (double), as an interface: its carrier, the literals that
-- the sources write, the arithmetic, the test `<=`, and the conversions from and to int64_t.
use scratch.Prelude.{ℕ, ◌*◌, ◌+◌, ℤ, pos, pos_part, neg_part, sub_ℕ, div_ℤ, Bool, leb_ℤ}

pub record Doubles : Type 1 where
  pub Double : Type 0
  pub zero_point : Double
  pub half : Double
  pub hundred : Double
  pub ten_thousand : Double
  pub add : Double → Double → Double
  pub mul : Double → Double → Double
  pub div : Double → Double → Double
  pub le : Double → Double → Bool
  pub of_int64 : ℤ → Double
  pub to_int64 : Double → ℤ

-- Decimal fixed point with four digits, rounded towards zero: an instance to run the model with.
abbrev scale_down : ℕ → ℤ → ℤ
scale_down n x = div_ℤ x n

abbrev mul_fixed : ℤ → ℤ → ℤ
mul_fixed a b = scale_down 10000 (
    sub_ℕ (pos_part a * pos_part b + neg_part a * neg_part b)
      (pos_part a * neg_part b + neg_part a * pos_part b))

-- The divisor is positive wherever the sources divide.
abbrev div_fixed : ℤ → ℤ → ℤ
div_fixed a b = scale_down (pos_part b) (sub_ℕ (pos_part a * 10000) (neg_part a * 10000))

abbrev pub fixed_point : Doubles
fixed_point = record {
  Double = ℤ;
  zero_point = pos 0;
  half = pos 5000;
  hundred = pos 1000000;
  ten_thousand = pos 100000000;
  add = λ a b. sub_ℕ (pos_part a + pos_part b) (neg_part a + neg_part b);
  mul = mul_fixed;
  div = div_fixed;
  le = leb_ℤ;
  of_int64 = λ x. sub_ℕ (pos_part x * 10000) (neg_part x * 10000);
  to_int64 = scale_down 10000;
}
