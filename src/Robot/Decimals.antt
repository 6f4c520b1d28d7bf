-- ===== src/Robot/Decimals.antt =====
-- An arithmetic for the runs of the robot: exact decimal fractions.
use robotic_car_p3e.Prelude.{
  ℕ, ◌+◌, ◌-◌, ◌*◌, ◌/◌, ◌%◌, ◌^◌, ◌<◌, ◌≡◌, Bool, true, false, ltb, leb, ◌==◌, arith,
}
use robotic_car_p3e.Robot.Floats.{Format, IsIeee, Arithmetic}

-- The number n / 10^k; there are no negative ones, and differences stop at 0.
abbrev Decimal : Type 0
Decimal = ℕ × ℕ

abbrev less : Decimal → Decimal → Bool
less (m, i) (n, j) = ltb (m * 10 ^ j) (n * 10 ^ i)

abbrev less_eq : Decimal → Decimal → Bool
less_eq (m, i) (n, j) = leb (m * 10 ^ j) (n * 10 ^ i)

abbrev same : Decimal → Decimal → Bool
same (m, i) (n, j) = m * 10 ^ j == n * 10 ^ i

abbrev sum : Decimal → Decimal → Decimal
sum (m, i) (n, j) = (m * 10 ^ j + n * 10 ^ i, i + j)

abbrev difference : Decimal → Decimal → Decimal
difference (m, i) (n, j) = (m * 10 ^ j - n * 10 ^ i, i + j)

abbrev product : Decimal → Decimal → Decimal
product (m, i) (n, j) = (m * n, i + j)

-- To three decimals.
abbrev quotient : Decimal → Decimal → Decimal
quotient (m, i) (n, j) = (m * 10 ^ j * 1000 / (n * 10 ^ i), 3)

abbrev pub decimals : Format
decimals = record {
  Number = Decimal;
  dec = λ n k. (n, k);
  add = sum;
  sub = difference;
  mul = product;
  div = quotient;
  neg = λ x. (0, 0);
  abs = λ x. x;
  lt = less;
  le = less_eq;
  eq = same;
}

less_irrefl : (x : Decimal) → less x x ≡ false
less_irrefl (m, i) = ground arith

less_asym : (x y : Decimal) → less x y ≡ true → less y x ≡ false
less_asym (m, i) (n, j) h = ground arith

less_sound : (m i n j : ℕ) → less (m, i) (n, j) ≡ true → m * 10 ^ j < n * 10 ^ i
less_sound m i n j h = ground arith

less_zero : (m i : ℕ) → less (m, i) (0, 0) ≡ false
less_zero m i = ground arith

pub decimals-IsIeee : IsIeee decimals
decimals-IsIeee = record {
  lt_irrefl = less_irrefl;
  lt_asym = less_asym;
  lt-dec = less_sound;
  lt-neg = λ m i n j. less_zero m i;
}

abbrev whole : Decimal → ℕ
whole (m, i) = m / 10 ^ i

abbrev pub arithmetic : Arithmetic
arithmetic = record {
  single = decimals;
  double = decimals;
  widen = λ x. x;
  narrow = λ x. x;
  to_uint16 = λ x. whole x % 2 ^ 16;
  to_uint32 = λ x. whole x % 2 ^ 32;
}
