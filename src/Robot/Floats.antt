-- ===== src/Robot/Floats.antt =====
-- The floating-point arithmetic of the compiler and its run-time library, as an interface: the
-- robot's code is translated for any such arithmetic.
use robotic_car_p3e.Prelude.{ℕ, ◌*◌, ◌^◌, ◌<◌, ◌≡◌, Bool, true, false}

-- The operations of a format. `dec n k` is the number nearest to n / 10^k: the value of a literal,
-- or, for k = 0, of a converted integer.
pub record Format : Type 1 where
  pub Number : Type 0
  pub dec : ℕ → ℕ → Number
  pub add : Number → Number → Number
  pub sub : Number → Number → Number
  pub mul : Number → Number → Number
  pub div : Number → Number → Number
  pub neg : Number → Number
  pub abs : Number → Number
  pub lt : Number → Number → Bool
  pub le : Number → Number → Bool
  pub eq : Number → Number → Bool

-- What IEEE 754 says of comparisons; NaN is neither less than nor greater than anything. Rounding
-- keeps the order, and the negative of a number that is not negative is not greater than another.
pub record IsIeee (f : Format) : Type 0 where
  pub lt_irrefl : (a : f.Number) → f.lt a a ≡ false
  pub lt_asym : (a b : f.Number) → f.lt a b ≡ true → f.lt b a ≡ false
  pub lt-dec : (m i n j : ℕ) → f.lt (f.dec m i) (f.dec n j) ≡ true → m * 10 ^ j < n * 10 ^ i
  pub lt-neg : (m i n j : ℕ) → f.lt (f.dec m i) (f.neg (f.dec n j)) ≡ false

-- `float` and `double`, the conversions between them, and the conversion of a `float` to
-- `uint16_t` and `uint32_t`.
pub record Arithmetic : Type 1 where
  pub single : Format
  pub double : Format
  pub widen : single.Number → double.Number
  pub narrow : double.Number → single.Number
  pub to_uint16 : single.Number → ℕ
  pub to_uint32 : single.Number → ℕ
