-- ===== src/Telemetry/Directions.antt =====
-- buddy1/buddy1.c: the texts that `tcp_server_recv` can make a direction of, and how long the
-- message around one is.
use robotic_car_p3e.Prelude.{
  ℕ, zero, suc, ◌+◌, ◌*◌, ◌/◌, ◌%◌, ◌≤◌, ◌<◌, ◌≡◌, refl, Bool, true, false, not, List, [], ◌∷◌,
  ◌==◌, leb, ◌&&◌, if◌then◌else◌, codes, length, arith,
}
use robotic_car_p3e.Telemetry.Decimal.{print_before, print_ℕ, is_space}
use robotic_car_p3e.Telemetry.Parse.{contains, movement_of, turn_of, direction_of}

-- No semicolon and no zero byte.
abbrev pub is_clean : List ℕ → Bool
is_clean [] = true
is_clean (c ∷ cs) = not (c == b';') && (not (c == 0) && is_clean cs)

-- What the dashboard's format reads as a whole: no more than 39 characters, none of which ends the
-- field or the string, the first of which is no white space.
abbrev pub is_readable : List ℕ → Bool
is_readable [] = true
is_readable (c ∷ cs) = not (is_space c) && (is_clean (c ∷ cs) && leb (length (c ∷ cs)) 39)

if-elim {ℓ ℓ'} :
    {A : Type ℓ} (P : A → Type ℓ') (b : Bool) {x y : A} → P x → P y → P (if b then x else y)
if-elim P true p q = p
if-elim P false p q = q

movement-elim {ℓ} :
    (P : List ℕ → Type ℓ) (s : List ℕ)
    → P (codes "Forward")
    → P (codes "Backward")
    → P (codes "Stopped")
    → P []
    → P (movement_of s)
unfolding movement_of
movement-elim P s f b t e = if-elim P (contains (codes "Forward") s) f (
    if-elim P (contains (codes "Backward") s) b
      (if-elim P (contains (codes "Stop Movement") s) t e))

turn-elim {ℓ} :
    (P : List ℕ → Type ℓ) (s : List ℕ)
    → P (codes "Left")
    → P (codes "Right")
    → P (codes "Stopped")
    → P []
    → P (turn_of s)
unfolding turn_of
turn-elim P s f b t e =
    if-elim P (contains (codes "Left") s) f
      (if-elim P (contains (codes "Right") s) b (if-elim P (contains (codes "Stop Turning") s) t e))

abbrev Readable : List ℕ → List ℕ → Type 0
Readable m t = is_readable (direction_of m t) ≡ true

turn-Readable_elim :
    (m s : List ℕ)
    → Readable m (codes "Left")
    → Readable m (codes "Right")
    → Readable m (codes "Stopped")
    → Readable m []
    → Readable m (turn_of s)
turn-Readable_elim m s = turn-elim (Readable m) s

-- Every direction that the server stores is readable.
pub direction_of-Readable : (s : List ℕ) → Readable (movement_of s) (turn_of s)
unfolding direction_of
direction_of-Readable s =
    movement-elim (λ m. Readable m (turn_of s)) s
      (turn-Readable_elim (codes "Forward") s refl refl refl refl)
      (turn-Readable_elim (codes "Backward") s refl refl refl refl)
      (turn-Readable_elim (codes "Stopped") s refl refl refl refl)
      (turn-Readable_elim [] s refl refl refl refl)

-- Numbers of so many digits.
abbrev pub ten_to : ℕ → ℕ
ten_to zero = 1
ten_to (suc k) = 10 * ten_to k

length-print_before :
    (fuel n k : ℕ) (rest : List ℕ)
    → n < ten_to (suc k)
    → length (print_before fuel n rest) ≤ suc k + length rest
unfolding print_before
length-print_before zero n k rest h = omega arith
length-print_before (suc fuel) n zero rest h = ground arith
length-print_before (suc fuel) n (suc k) rest h =
    let d = (n % 10 + b'0') ∷ rest in ground (arith, length-print_before fuel (n / 10) k d)

pub length-print_ℕ :
    (n k : ℕ) (rest : List ℕ) → n < ten_to (suc k) → length (print_ℕ n rest) ≤ suc k + length rest
unfolding print_ℕ
length-print_ℕ n k rest h = length-print_before (suc n) n k rest h
