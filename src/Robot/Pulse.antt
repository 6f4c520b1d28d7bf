-- ===== src/Robot/Pulse.antt =====
-- buddy5/buddy5.c: `getPulse`, which measures an echo by looking at the pin. Nothing calls it.
use robotic_car_p3e.Prelude.{
  ℕ, ◌+◌, ◌-◌, ◌%◌, ◌^◌, ◌≤◌, ◌<◌, ◌≡◌, ◌≢◌, refl, ap, ◌∙◌, Bool, true, false, Option, none, some,
  List, [], ◌∷◌, ◌++◌, length, ltb, arith,
}
use robotic_car_p3e.Robot.Sensors.{minus64}

-- A look at the echo pin: whether it is high, and the time that is read next.
pub data Look : Type 0 where
  look : Bool → ℕ → Look

-- What it waits for an edge, in microseconds.
abbrev pub timeout_us : ℕ
timeout_us = 5000

abbrev pub deadline : ℕ → ℕ
deadline now = (now + timeout_us) % 2 ^ 64

-- The loop until the echo ends; `none` while it still waits.
unfoldable pub wait_low : ℕ → ℕ → List Look → Option ℕ
wait_low pulse_start timeout [] = none
wait_low pulse_start timeout (look high now ∷ ls) = elim high [
  | true ↦ elim (ltb timeout now) [ true ↦ some 0 | false ↦ wait_low pulse_start timeout ls ]
  | false ↦ some (minus64 now pulse_start)
]

-- The loop until the echo begins.
unfoldable pub wait_high : ℕ → List Look → Option ℕ
wait_high timeout [] = none
wait_high timeout (look high now ∷ ls) = elim high [
  | true ↦ wait_low now (deadline now) ls
  | false ↦ elim (ltb timeout now) [ true ↦ some 0 | false ↦ wait_high timeout ls ]
]

-- `getPulse`, with the time behind the trigger pulse.
unfoldable pub get_pulse : ℕ → List Look → Option ℕ
unfolding wait_high
get_pulse start_wait looks = wait_high (deadline start_wait) looks

-- The clock goes on from look to look, and no deadline wraps around.
abbrev pub Ticks : ℕ → List Look → Type 0
Ticks t [] = t + timeout_us < 2 ^ 64
Ticks t (look high now ∷ ls) = (t < now) × Ticks now ls

Ticks-bound : (t : ℕ) (ls : List Look) → Ticks t ls → t + timeout_us < 2 ^ 64
Ticks-bound t [] k = k
Ticks-bound t (look high now ∷ ls) k = omega (arith, k.0, Ticks-bound now ls k.1)

wait_low_ends :
    (pulse_start timeout t : ℕ) (ls : List Look)
    → Ticks t ls
    → t ≤ timeout
    → timeout < t + length ls
    → wait_low pulse_start timeout ls ≢ none
unfolding wait_low
wait_low_ends pulse_start timeout t [] k early long = absurd (omega arith)
wait_low_ends pulse_start timeout t (look high now ∷ ls) k early long =
    ground (arith, k, wait_low_ends pulse_start timeout now ls k.1)

wait_high_ends :
    (timeout t : ℕ) (ls : List Look)
    → Ticks t ls
    → t ≤ timeout
    → timeout + timeout_us + 1 < t + length ls
    → wait_high timeout ls ≢ none
unfolding wait_high
wait_high_ends timeout t [] k early long = absurd (omega arith)
wait_high_ends timeout t (look high now ∷ ls) k early long = ground (
  arith,
  k,
  Ticks-bound now ls k.1,
  wait_high_ends timeout now ls k.1,
  wait_low_ends now (deadline now) now ls k.1,
)

-- It ends, whatever the pin does: where the clock goes on by a microsecond or more from look to look,
-- 10002 looks are enough.
pub get_pulse_ends :
    (start_wait : ℕ) (looks : List Look)
    → Ticks start_wait looks
    → 10001 < length looks
    → get_pulse start_wait looks ≢ none
unfolding get_pulse
get_pulse_ends start_wait looks k long =
    wait_high_ends (deadline start_wait) start_wait looks k
      (omega (arith, Ticks-bound start_wait looks k))
      (omega (arith, Ticks-bound start_wait looks k))

-- Looks that all see the pin at one level, none behind the deadline.
abbrev pub Quiet : Bool → ℕ → List Look → Type 0
Quiet level timeout [] = Unit
Quiet level timeout (look high now ∷ ls) = (high ≡ level) × (now ≤ timeout) × Quiet level timeout ls

wait_low-Quiet :
    (pulse_start timeout : ℕ) (during ls : List Look)
    → Quiet true timeout during
    → wait_low pulse_start timeout (during ++ ls) ≡ wait_low pulse_start timeout ls
unfolding wait_low
wait_low-Quiet pulse_start timeout [] ls q = refl
wait_low-Quiet pulse_start timeout (look high now ∷ during) ls q =
    ground (arith, q, wait_low-Quiet pulse_start timeout during ls q.2)

wait_high-Quiet :
    (timeout : ℕ) (before ls : List Look)
    → Quiet false timeout before
    → wait_high timeout (before ++ ls) ≡ wait_high timeout ls
unfolding wait_high
wait_high-Quiet timeout [] ls q = refl
wait_high-Quiet timeout (look high now ∷ before) ls q =
    ground (arith, q, wait_high-Quiet timeout before ls q.2)

wait_low_end :
    (pulse_start timeout fall : ℕ) (rest : List Look)
    → pulse_start ≤ fall
    → fall < 2 ^ 64
    → wait_low pulse_start timeout (look false fall ∷ rest) ≡ some (fall - pulse_start)
unfolding wait_low
wait_low_end pulse_start timeout fall rest order short = ap some (omega arith)

wait_high_end :
    (timeout rise : ℕ) (ls : List Look)
    → wait_high timeout (look true rise ∷ ls) ≡ wait_low rise (deadline rise) ls
unfolding wait_high
wait_high_end timeout rise ls = refl

-- Where the echo begins and ends in time, the result is the time from the first look that sees it to
-- the first one behind that does not, whatever is seen afterwards.
pub get_pulse-echo :
    (start_wait rise fall : ℕ) (before during rest : List Look)
    → Quiet false (deadline start_wait) before
    → Quiet true (deadline rise) during
    → rise ≤ fall
    → fall < 2 ^ 64
    → get_pulse start_wait (before ++ (look true rise ∷ (during ++ (look false fall ∷ rest))))
      ≡ some (fall - rise)
unfolding get_pulse
get_pulse-echo start_wait rise fall before during rest low high order short =
    wait_high-Quiet (deadline start_wait) before _ low
    ∙ wait_high_end (deadline start_wait) rise _
    ∙ wait_low-Quiet rise (deadline rise) during _ high
    ∙ wait_low_end rise (deadline rise) fall rest order short
