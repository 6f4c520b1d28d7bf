-- ===== src/Robot/Distance.antt =====
-- buddy5/buddy5.c: the filter, the measurement of a distance and the buzzer.
use robotic_car_p3e.Prelude.{
  ℕ, ◌*◌, Bool, true, false, not, ◌&&◌, ◌||◌, Option, none, some, List, [], ◌∷◌, ltb, leb,
  if◌then◌else◌,
}
use robotic_car_p3e.Robot.Floats.{Arithmetic}
use robotic_car_p3e.Robot.Sensors.{
  Edges, Kalman, Sensors, Float, Double, minus64, gpio_interrupt_handler,
}

-- The interval between two measurements and the duration of a beep, in microseconds.
abbrev pub check_interval_us : ℕ
check_interval_us = 200 * 1000

abbrev pub beep_us : ℕ
beep_us = 200000

-- What can happen while `get_cm` waits: an interrupt, at a pin, with its edges and the time; or a
-- round of the loop, which tests the flag and then whether the time is up.
pub data Poll : Type 0 where
  interrupt : ℕ → Edges → ℕ → Poll
  look : Bool → Poll

-- How the waiting ends, or that it goes on.
pub data Wait : Type 0 where
  measured timed_out waiting : Wait

module _ (a : Arithmetic) where
  abbrev pub min_distance_cm : Double a
  min_distance_cm = a.double.dec 20 1

  abbrev pub max_distance_cm : Double a
  max_distance_cm = a.double.dec 4000 1

  abbrev pub positive_or : Double a → Double a → Double a
  positive_or v d = if a.double.lt (a.double.dec 0 0) v then v else d

  -- `kalman_init`, where `calloc` succeeds.
  unfoldable pub kalman_init : Double a → Double a → Double a → Double a → Kalman a
  kalman_init q r p initial_value = record {
    q = positive_or q (a.double.dec 10 1);
    r = positive_or r (a.double.dec 5 1);
    x = initial_value;
    p = positive_or p (a.double.dec 10 1);
    k = a.double.dec 0 0;
  }

  -- The two assignments that keep the estimate within the limits.
  unfoldable pub clamp_estimate : Double a → Double a
  clamp_estimate x =
      let low = if a.double.lt x min_distance_cm then min_distance_cm else x in
      if a.double.lt max_distance_cm low then max_distance_cm else low

  abbrev pub new_q : Double a → Kalman a → Double a
  new_q innovation s =
      if a.double.lt (a.double.dec 100 1) (a.double.abs innovation)
      then a.double.mul s.q (a.double.dec 20 1)
      else a.double.dec 10 1

  abbrev pub new_x : Double a → Double a → Double a → Kalman a → Double a
  new_x measurement innovation gain s =
      if a.double.lt (a.double.abs innovation) (a.double.dec 500 1)
      then a.double.add s.x (a.double.mul gain innovation)
      else a.double.add (a.double.mul (a.double.dec 7 1) measurement)
          (a.double.mul (a.double.dec 3 1) s.x)

  -- The update by a measurement within the limits.
  unfoldable pub kalman_step : Double a → Kalman a → Kalman a
  unfolding clamp_estimate
  kalman_step measurement s =
      let innovation = a.double.sub measurement s.x in
      let q' = new_q innovation s in
      let p' = a.double.add s.p q' in
      let gain = a.double.div p' (a.double.add p' s.r) in
      record {
        q = q';
        r = s.r;
        x = clamp_estimate (new_x measurement innovation gain s);
        p = a.double.mul (a.double.sub (a.double.dec 1 0) gain) p';
        k = gain;
      }

  unfoldable pub kalman_update : Option (Kalman a) → Double a → Option (Kalman a)
  kalman_update none measurement = none
  kalman_update (some s) measurement =
      if a.double.lt measurement min_distance_cm || a.double.lt max_distance_cm measurement
      then some s
      else some (kalman_step measurement s)

  -- The loop that waits for a measurement.
  unfoldable pub wait_pulse : List Poll → Sensors a → Sensors a × Wait
  wait_pulse [] s = (s, waiting)
  wait_pulse (interrupt gpio events now ∷ ps) s =
      wait_pulse ps (gpio_interrupt_handler a gpio events now s)
  wait_pulse (look late ∷ ps) s = elim s.measurement_valid [
    | true ↦ (s, measured)
    | false ↦ elim late [ true ↦ (s, timed_out) | false ↦ wait_pulse ps s ]
  ]

  -- The distance of a pulse width.
  abbrev pub pulse_distance : ℕ → Double a
  pulse_distance width =
      a.double.div (a.double.mul (a.double.dec width 0) (a.double.dec 343 4)) (a.double.dec 20 1)

  abbrev pub estimate : Option (Kalman a) → Float a
  estimate none = a.narrow (a.double.dec 0 1)
  estimate (some s) = a.narrow s.x

  -- The end of `get_cm`; `none` while the loop still waits.
  unfoldable pub read_pulse : Sensors a × Wait → Option (Sensors a × Float a)
  unfolding kalman_update
  read_pulse (s, measured) =
      let updated = kalman_update s.distance_filter (pulse_distance s.pulse_width) in
      some (record s { distance_filter = updated }, estimate updated)
  read_pulse (s, timed_out) = some (s, estimate s.distance_filter)
  read_pulse (s, waiting) = none

  -- `get_cm`, given what happens while it waits.
  unfoldable pub get_cm : List Poll → Sensors a → Option (Sensors a × Float a)
  get_cm polls s = elim s.distance_filter [
    | none ↦ some (s, a.narrow (a.double.dec 0 1))
    | some filter ↦
        read_pulse (wait_pulse polls (record s { measurement_valid = false; pulse_width = 0 }))
  ]

  -- What a distance means for the obstacle flag and the buzzer.
  unfoldable pub judge_distance : ℕ → Float a → Sensors a → Sensors a
  judge_distance current_time distance s =
      if not (a.double.eq (a.widen distance) (a.double.dec 0 1))
        && a.double.lt (a.widen distance) (a.double.dec 150 1)
      then if not s.buzzer_on
        then record s {
          obstacle_detected = true;
          buzzer_pin = true;
          buzzer_on = true;
          buzzer_start_time = current_time;
        }
        else record s { obstacle_detected = true }
      else record s { obstacle_detected = false }

  -- The buzzer is turned off 200 ms after it was turned on.
  unfoldable pub end_beep : ℕ → Sensors a → Sensors a
  end_beep current_time s =
      if s.buzzer_on && leb beep_us (minus64 current_time s.buzzer_start_time)
      then record s { buzzer_pin = false; buzzer_on = false }
      else s

  -- The rest of `measure_distance_and_buzz` behind the call of `get_cm`.
  unfoldable pub after_measuring : ℕ → Option (Sensors a × Float a) → Option (Sensors a)
  unfolding judge_distance end_beep
  after_measuring current_time none = none
  after_measuring current_time (some (s, distance)) =
      some (end_beep current_time (judge_distance current_time distance s))

  unfoldable pub measure_distance_and_buzz : ℕ → List Poll → Sensors a → Option (Sensors a)
  unfolding after_measuring get_cm end_beep
  measure_distance_and_buzz current_time polls s =
      if ltb check_interval_us (minus64 current_time s.last_distance_check_time)
      then after_measuring current_time
          (get_cm polls (record s { last_distance_check_time = current_time }))
      else some (end_beep current_time s)

  -- `initialize_buddy5_components`, but for the pins.
  unfoldable pub initialize_buddy5_components : ℕ → Sensors a → Sensors a
  unfolding kalman_init
  initialize_buddy5_components now s = record s {
    distance_filter = some (
        kalman_init (a.double.dec 10 1) (a.double.dec 5 1) (a.double.dec 10 1)
          (a.double.dec 200 1));
    last_distance_check_time = now;
  }
