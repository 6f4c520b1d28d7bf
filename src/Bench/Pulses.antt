-- ===== src/Bench/Pulses.antt =====
-- buddy5/buddy5_ir.c: what the encoders count.
use robotic_car_p3e.Prelude.{
  ℕ, ◌+◌, ◌≡◌, refl, ap, ◌∙◌, List, [], ◌∷◌, ◌==◌, if◌then◌else◌, length, arith,
}
use robotic_car_p3e.Robot.Floats.{Arithmetic}
use robotic_car_p3e.Robot.Sensors.{left_encoder_pin, right_encoder_pin}
use robotic_car_p3e.Bench.Encoders.{
  Encoders, count_pulse, encoder_callback, pulses, right_pulse, right_encoder_callback,
  right_callbacks,
}

-- How many of the edges are at a pin.
abbrev pub count_at : ℕ → List (ℕ × ℕ) → ℕ
count_at pin [] = 0
count_at pin ((gpio, now) ∷ ps) = if gpio == pin then count_at pin ps + 1 else count_at pin ps

-- The time of the last edge at a pin, or the given one.
abbrev pub last_at : ℕ → ℕ → List (ℕ × ℕ) → ℕ
last_at pin t [] = t
last_at pin t ((gpio, now) ∷ ps) = last_at pin (if gpio == pin then now else t) ps

module _ (a : Arithmetic) where
  -- Each wheel counts the edges at its own pin, and remembers the time of the last, whatever comes in
  -- between at the other.
  pub pulses-count :
      (ps : List (ℕ × ℕ)) (e : Encoders a)
      → ((pulses a ps e).left.pulse_count ≡ e.left.pulse_count + count_at left_encoder_pin ps)
        × ((pulses a ps e).left.last_pulse_time
            ≡ last_at left_encoder_pin e.left.last_pulse_time ps)
        × ((pulses a ps e).right.pulse_count ≡ e.right.pulse_count + count_at right_encoder_pin ps)
        × ((pulses a ps e).right.last_pulse_time
            ≡ last_at right_encoder_pin e.right.last_pulse_time ps)
  unfolding pulses encoder_callback count_pulse
  pulses-count [] e = (omega arith, refl, omega arith, refl)
  pulses-count ((gpio, now) ∷ ps) e =
      let (lc, lt, rc, rt) = pulses-count ps (encoder_callback a gpio now e) in
      (
        ground arith,
        lt ∙ ap (λ k. last_at left_encoder_pin k ps) (ground arith),
        ground arith,
        rt ∙ ap (λ k. last_at right_encoder_pin k ps) (ground arith),
      )

  -- A wheel whose first pulse `right_encoder_callback` takes never gets a speed: however many pulses
  -- come, it counts them, and its speed and the time of its last pulse stay as they are.
  pub right_callbacks-speed :
      (ts : List ℕ) (e : Encoders a)
      → e.right.last_pulse_time ≡ 0
      → ((right_callbacks a ts e).right.speed_cm_s ≡ e.right.speed_cm_s)
        × ((right_callbacks a ts e).right.last_pulse_time ≡ 0)
        × ((right_callbacks a ts e).right.pulse_count ≡ e.right.pulse_count + length ts)
  unfolding right_callbacks right_encoder_callback right_pulse
  right_callbacks-speed [] e h = (refl, h, omega arith)
  right_callbacks-speed (now ∷ ts) e h =
      let silent : (right_pulse a now e.right).last_pulse_time ≡ 0 = ground arith in
      let same : (right_pulse a now e.right).speed_cm_s ≡ e.right.speed_cm_s = ground arith in
      let more : (right_pulse a now e.right).pulse_count ≡ e.right.pulse_count + 1 = ground arith in
      let (speed, time, count) = right_callbacks-speed ts (right_encoder_callback a now e) silent in
      (speed ∙ same, time, omega (arith, count, more))
