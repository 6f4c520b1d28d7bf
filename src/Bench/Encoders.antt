-- ===== src/Bench/Encoders.antt =====
-- buddy5/buddy5_ir.c: the wheel encoders. It is buddy5.c with a smaller wheel and without the
-- ultrasonic sensor.
use robotic_car_p3e.Prelude.{ℕ, ◌+◌, not, List, [], ◌∷◌, ◌==◌, if◌then◌else◌}
use robotic_car_p3e.Robot.Floats.{Arithmetic}
use robotic_car_p3e.Robot.Sensors.{Wheel, Float, minus64, left_encoder_pin, right_encoder_pin}

module _ (a : Arithmetic) where
  abbrev pub wheel_diameter_cm : Float a
  wheel_diameter_cm = a.narrow (a.double.dec 25 1)

  abbrev pub wheel_circumference_cm : Float a
  wheel_circumference_cm =
      a.narrow (a.double.mul (a.double.dec 314159265358979323846 20) (a.widen wheel_diameter_cm))

  -- The circumference over `SLOTS_PER_REVOLUTION`.
  unfoldable pub distance_per_pulse_cm : Float a
  distance_per_pulse_cm = a.single.div wheel_circumference_cm (a.single.dec 20 0)

  -- The globals of the file.
  pub record Encoders : Type 0 where
    pub left : Wheel a
    pub right : Wheel a
    pub last_distance_check_time : ℕ

  -- `initializeBuddy5Components`, but for the pins.
  unfoldable pub initialize_buddy5_components : ℕ → Encoders → Encoders
  initialize_buddy5_components now e = record e { last_distance_check_time = now }

  -- The speed from the time between two pulses.
  abbrev pub pulse_speed : ℕ → ℕ → Float a
  pulse_speed current_time last = a.single.div distance_per_pulse_cm (
      a.narrow (a.double.div (a.double.dec (minus64 current_time last) 0) (a.double.dec 1000000 0)))

  -- A pulse of a wheel.
  unfoldable pub count_pulse : ℕ → Wheel a → Wheel a
  count_pulse current_time w = record w {
    pulse_count = w.pulse_count + 1;
    incremental_distance = a.single.add w.incremental_distance distance_per_pulse_cm;
    total_distance = a.single.add w.total_distance distance_per_pulse_cm;
    speed_cm_s =
        if not (w.last_pulse_time == 0)
        then pulse_speed current_time w.last_pulse_time
        else w.speed_cm_s;
    last_pulse_time = current_time;
  }

  unfoldable pub encoder_callback : ℕ → ℕ → Encoders → Encoders
  unfolding count_pulse
  encoder_callback gpio now e =
      if gpio == left_encoder_pin
      then record e { left = count_pulse now e.left }
      else if gpio == right_encoder_pin
      then record e { right = count_pulse now e.right }
      else e

  -- The edges at the encoders' pins, with their times.
  unfoldable pub pulses : List (ℕ × ℕ) → Encoders → Encoders
  unfolding encoder_callback
  pulses [] e = e
  pulses ((gpio, now) ∷ ps) e = pulses ps (encoder_callback gpio now e)

  -- A pulse as `right_encoder_callback`, which no pin is connected to, takes it.
  unfoldable pub right_pulse : ℕ → Wheel a → Wheel a
  right_pulse now w =
      let counted = record w {
        pulse_count = w.pulse_count + 1;
        incremental_distance = a.single.add w.incremental_distance distance_per_pulse_cm;
      } in
      if not (w.last_pulse_time == 0)
      then record counted { speed_cm_s = pulse_speed now w.last_pulse_time; last_pulse_time = now }
      else counted

  unfoldable pub right_encoder_callback : ℕ → Encoders → Encoders
  unfolding right_pulse
  right_encoder_callback now e = record e { right = right_pulse now e.right }

  unfoldable pub right_callbacks : List ℕ → Encoders → Encoders
  unfolding right_encoder_callback
  right_callbacks [] e = e
  right_callbacks (now ∷ ts) e = right_callbacks ts (right_encoder_callback now e)
