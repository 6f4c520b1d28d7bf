-- ===== src/Telemetry/Decimal.antt =====
-- Integers as `%d` prints them and `sscanf` reads them. A value that does not fit an `int` is
-- undefined behaviour in C and is left unbounded here.
use robotic_car_p3e.Prelude.{
  ℕ, zero, suc, ◌+◌, ◌-◌, ◌*◌, ◌/◌, ◌%◌, ◌<◌, ◌≡◌, refl, ap, ◌∙◌, Bool, true, false, Option, none,
  some, List, [], ◌∷◌, leb, ◌==◌, ◌&&◌, ◌||◌, if◌then◌else◌, arith, ℤ, pos, negsuc, Bool-cases, inl,
  inr,
}

abbrev pub is_digit : ℕ → Bool
is_digit c = leb b'0' c && leb c b'9'

abbrev pub is_space : ℕ → Bool
is_space c = c == b' ' || (leb 9 c && leb c 13)

-- The digits of a number, with the given text behind them; the fuel bounds how many there are.
unfoldable pub print_before : ℕ → ℕ → List ℕ → List ℕ
print_before zero n rest = rest
print_before (suc fuel) n rest =
    let more = print_before fuel (n / 10) ((n % 10 + b'0') ∷ rest) in
    if n / 10 == 0 then (n % 10 + b'0') ∷ rest else more

-- A number has no more digits than its own value, and one at least.
unfoldable pub print_ℕ : ℕ → List ℕ → List ℕ
unfolding print_before
print_ℕ n rest = print_before (suc n) n rest

-- `%d` of `snprintf`, with the given text behind it.
unfoldable pub print_int : ℤ → List ℕ → List ℕ
print_int (pos n) rest = print_ℕ n rest
print_int (negsuc n) rest = b'-' ∷ print_ℕ (n + 1) rest

-- The value of the digits at the front of a text, read on from the given value.
unfoldable pub read_digits : ℕ → List ℕ → ℕ
read_digits value [] = value
read_digits value (c ∷ cs) =
    let more = read_digits (value * 10 + (c - b'0')) cs in if is_digit c then more else value

abbrev pub starts_with_digit : List ℕ → Bool
starts_with_digit [] = false
starts_with_digit (c ∷ cs) = is_digit c

abbrev pub negated : ℕ → ℤ
negated zero = pos 0
negated (suc n) = negsuc n

-- An unsigned and a signed number at the front of a text.
unfoldable pub scan_ℕ : List ℕ → Option ℕ
scan_ℕ s = if starts_with_digit s then some (read_digits 0 s) else none

abbrev pub signed : (ℕ → ℤ) → Option ℕ → Option ℤ
signed sign none = none
signed sign (some n) = some (sign n)

unfoldable pub scan_signed : List ℕ → Option ℤ
scan_signed [] = none
scan_signed (c ∷ cs) =
    if c == b'-'
    then signed negated (scan_ℕ cs)
    else if c == b'+'
    then signed pos (scan_ℕ cs)
    else signed pos (scan_ℕ (c ∷ cs))

unfoldable pub skip_spaces : List ℕ → List ℕ
skip_spaces [] = []
skip_spaces (c ∷ cs) = let rest = skip_spaces cs in if is_space c then rest else c ∷ cs

-- `%d` of `sscanf`.
unfoldable pub scan_int : List ℕ → Option ℤ
unfolding skip_spaces scan_signed
scan_int s = scan_signed (skip_spaces s)

-- Reading on over printed digits comes to appending them to the value.
abbrev pow10 : ℕ → ℕ → ℕ
pow10 zero n = 1
pow10 (suc fuel) n = let more = 10 * pow10 fuel (n / 10) in if n / 10 == 0 then 10 else more

read_digits-print_before :
    (fuel n value : ℕ) (rest : List ℕ)
    → n < fuel
    → read_digits value (print_before fuel n rest) ≡ read_digits (value * pow10 fuel n + n) rest
unfolding read_digits print_before
read_digits-print_before zero n value rest h = absurd (omega arith)
read_digits-print_before (suc fuel) n value rest h = elim (Bool-cases (n / 10 == 0)) [
  | inl e ↦ rw e (ground arith)
  | inr e ↦ rw e (
      read_digits-print_before fuel (n / 10) value ((n % 10 + b'0') ∷ rest) (ground arith)
      ∙ ground arith)
]

starts-print_before :
    (fuel n : ℕ) (rest : List ℕ)
    → starts_with_digit rest ≡ true
    → starts_with_digit (print_before fuel n rest) ≡ true
unfolding print_before
starts-print_before zero n rest h = h
starts-print_before (suc fuel) n rest h =
    ground (arith, starts-print_before fuel (n / 10) ((n % 10 + b'0') ∷ rest))

starts-print_ℕ : (n : ℕ) (rest : List ℕ) → starts_with_digit (print_ℕ n rest) ≡ true
unfolding print_ℕ
starts-print_ℕ n rest = ground (arith, starts-print_before n (n / 10) ((n % 10 + b'0') ∷ rest))

read_digits-stop :
    (value : ℕ) (rest : List ℕ) → starts_with_digit rest ≡ false → read_digits value rest ≡ value
unfolding read_digits
read_digits-stop value [] h = refl
read_digits-stop value (c ∷ cs) h = rw h

pub read_digits-print_ℕ :
    (n : ℕ) (rest : List ℕ) → starts_with_digit rest ≡ false → read_digits 0 (print_ℕ n rest) ≡ n
unfolding print_ℕ
read_digits-print_ℕ n rest h =
    read_digits-print_before (suc n) n 0 rest (omega arith)
    ∙ read_digits-stop _ rest h
    ∙ omega arith

scan_int_of_digit :
    (s : List ℕ) → starts_with_digit s ≡ true → scan_int s ≡ some (pos (read_digits 0 s))
unfolding scan_int scan_ℕ
scan_int_of_digit [] h = cc
scan_int_of_digit (c ∷ cs) h = ground arith

scan_int_of_minus :
    (s : List ℕ)
    → starts_with_digit s ≡ true
    → scan_int (b'-' ∷ s) ≡ some (negated (read_digits 0 s))
unfolding scan_int scan_ℕ
scan_int_of_minus s h = ground arith

-- What `%d` prints, `%d` reads back, whatever stands behind it that is not a digit.
pub scan_int-print_int :
    (z : ℤ) (rest : List ℕ) → starts_with_digit rest ≡ false → scan_int (print_int z rest) ≡ some z
unfolding print_int
scan_int-print_int (pos n) rest h =
    scan_int_of_digit (print_ℕ n rest) (starts-print_ℕ n rest)
    ∙ ap (λ k. some (pos k)) (read_digits-print_ℕ n rest h)
scan_int-print_int (negsuc n) rest h =
    let next : n + 1 ≡ suc n = omega arith in
    scan_int_of_minus (print_ℕ (n + 1) rest) (starts-print_ℕ (n + 1) rest)
    ∙ ap (λ k. some (negated k)) (read_digits-print_ℕ (n + 1) rest h ∙ next)
