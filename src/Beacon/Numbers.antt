-- ===== src/Beacon/Numbers.antt =====
-- wifi/udp_beacon/picow_udp_beacon.c: the numbers in the packets.
use robotic_car_p3e.Prelude.{
  ℕ, zero, suc, ◌+◌, ◌^◌, ◌≤◌, ◌<◌, ◌≡◌, refl, ap, ap₂, ◌∙◌, true, Option, some, List, [], ◌∷◌,
  ◌++◌, map, if◌then◌else◌, length, drop, replicate, write, write-split, take-all, ℤ, pos, is_zero,
  arith, Bool-cases, inl, inr,
}
use robotic_car_p3e.Telemetry.Decimal.{print_ℕ, print_int, scan_int, scan_int-print_int}
use robotic_car_p3e.Telemetry.Parse.{c_string}
use robotic_car_p3e.Telemetry.Directions.{ten_to, length-print_ℕ}
use robotic_car_p3e.Http.Cutting.{is_free, c_string-append, is_free-print_before}
use robotic_car_p3e.Beacon.Packets.{payload, run_udp_beacon}

-- The number that a receiver reads in a packet.
abbrev pub number_in : List ℕ → Option ℤ
number_in packet = scan_int (c_string packet)

-- So many numbers from one on.
abbrev pub numbers_from : ℕ → ℕ → List (Option ℤ)
numbers_from n zero = []
numbers_from n (suc k) = some (pos n) ∷ numbers_from (n + 1) k

abbrev pub count_sent : List ℤ → ℕ
count_sent [] = 0
count_sent (er ∷ ers) = if is_zero er then suc (count_sent ers) else count_sent ers

drop-replicate : (k n : ℕ) → k < n → (m : ℕ) × (drop {A = ℕ} k (replicate n 0) ≡ 0 ∷ replicate m 0)
drop-replicate zero zero h = absurd (omega arith)
drop-replicate zero (suc n) h = (n, refl)
drop-replicate (suc k) zero h = absurd (omega arith)
drop-replicate (suc k) (suc n) h = drop-replicate k n (omega arith)

-- The text of a number, with the end of the line.
abbrev text_of : ℕ → List ℕ
text_of n = print_int (pos n) (b'\n' ∷ [])

is_free-text_of : (n : ℕ) → is_free b' ' (text_of n) ≡ true
unfolding print_int print_ℕ
is_free-text_of n = is_free-print_before (suc n) n (b'\n' ∷ []) refl

length-text_of : (n : ℕ) → n < ten_to 10 → length (text_of n) ≤ 11
unfolding print_int
length-text_of n h = length-print_ℕ n 9 (b'\n' ∷ []) h

number_in-payload : (n : ℕ) → n < ten_to 10 → number_in (payload n) ≡ some (pos n)
unfolding payload
number_in-payload n h =
    let short = length-text_of n h in
    let whole = take-all (text_of n) 126 (omega (arith, short)) in
    let (m, zeros) = drop-replicate (0 + length (text_of n)) 128 (omega (arith, short)) in
    let fits : 0 + length (text_of n) ≤ length {A = ℕ} (replicate 128 0) = omega (arith, short) in
    ap number_in (
      ap (write (replicate 128 0) 0) whole
      ∙ write-split (replicate 128 0) 0 (text_of n) fits
      ∙ ap (λ r. text_of n ++ r) zeros)
    ∙ ap scan_int (c_string-append b' ' (text_of n) (replicate m 0) (is_free-text_of n))
    ∙ scan_int-print_int (pos n) (b'\n' ∷ []) refl

ten_digits : 2 ^ 31 < ten_to 10
ten_digits = omega arith

-- A receiver reads consecutive numbers in the packets, one for each that is sent, whichever of the
-- others fail, as long as the counter fits an `int`.
pub run_udp_beacon-numbers :
    (ers : List ℤ) (n : ℕ)
    → n + length ers < 2 ^ 31
    → map number_in (run_udp_beacon ers n) ≡ numbers_from n (count_sent ers)
unfolding run_udp_beacon
run_udp_beacon-numbers [] n h = refl
run_udp_beacon-numbers (er ∷ ers) n h = elim (Bool-cases (is_zero er)) [
  | inl e ↦ rw e (
      ap₂ (λ x xs. x ∷ xs) (number_in-payload n (omega (arith, ten_digits)))
        (run_udp_beacon-numbers ers (n + 1) (omega arith)))
  | inr e ↦ rw e (run_udp_beacon-numbers ers n (omega arith))
]
