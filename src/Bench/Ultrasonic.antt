-- ===== src/Bench/Ultrasonic.antt =====
-- buddy5/buddy5_ultrasonic.c: the measurement of a distance and its filter. The pin ECHOPIN, which no file declares, is an argument, and so is what happens while
-- `getPulse` waits.
use robotic_car_p3e.Prelude.{
  ℕ, ◌-◌, Bool, true, false, not, ◌||◌, Option, none, some, List, [], ◌∷◌, ltb, ◌==◌, if◌then◌else◌,
}
use robotic_car_p3e.Robot.Floats.{Arithmetic}
use robotic_car_p3e.Robot.Sensors.{Edges, Kalman, Double, measurement_timeout_us}
use robotic_car_p3e.Robot.Distance.{Poll, interrupt, look, Wait, measured, timed_out, waiting}

-- The globals of the file; the time in microseconds.
pub record Sonar : Type 0 where
  pub start_time : ℕ
  pub pulse_width : ℕ
  pub obstacle_detected : Bool
  pub measurement_valid : Bool

-- An interrupt at a pin, with its edges, at the given time.
unfoldable pub get_echo_pulse : ℕ → ℕ → Edges → ℕ → Sonar → Sonar
get_echo_pulse echopin gpio events now s =
    if gpio == echopin
    then if events.rise
      then record s { start_time = now; measurement_valid = false }
      else if events.fall
      then if ltb s.start_time now
        then record s {
          pulse_width = now - s.start_time;
          measurement_valid = ltb (now - s.start_time) measurement_timeout_us;
        }
        else s
      else s
    else s

-- The loop of `getPulse`.
unfoldable pub wait_echo : ℕ → List Poll → Sonar → Sonar × Wait
wait_echo echopin [] s = (s, waiting)
wait_echo echopin (interrupt gpio events now ∷ ps) s =
    wait_echo echopin ps (get_echo_pulse echopin gpio events now s)
wait_echo echopin (look late ∷ ps) s = elim s.measurement_valid [
  | true ↦ (s, measured)
  | false ↦ elim late [ true ↦ (s, timed_out) | false ↦ wait_echo echopin ps s ]
]

abbrev pub pulse_of : Sonar × Wait → Option (Sonar × ℕ)
pulse_of (s, measured) = some (s, s.pulse_width)
pulse_of (s, timed_out) = some (s, 0)
pulse_of (s, waiting) = none

-- `getPulse`; `none` while its loop still waits.
unfoldable pub get_pulse : ℕ → List Poll → Sonar → Option (Sonar × ℕ)
unfolding wait_echo
get_pulse echopin polls s =
    pulse_of (wait_echo echopin polls (record s { measurement_valid = false; pulse_width = 0 }))

module _ (a : Arithmetic) where
  abbrev pub ten_cm : Double a
  ten_cm = a.double.dec 100 1

  abbrev pub min_distance_cm : Double a
  min_distance_cm = a.double.dec 20 1

  abbrev pub max_distance_cm : Double a
  max_distance_cm = a.double.dec 4000 1

  abbrev pub positive_or : Double a → Double a → Double a
  positive_or v default = if a.double.lt (a.double.dec 0 0) v then v else default

  -- `kalman_init`, where `calloc` succeeds.
  unfoldable pub kalman_init : Double a → Double a → Double a → Double a → Kalman a
  kalman_init q r p initial_value = record {
    q = positive_or q (a.double.dec 10 1);
    r = positive_or r (a.double.dec 5 1);
    p = positive_or p (a.double.dec 10 1);
    x = initial_value;
    k = a.double.dec 0 0;
  }

  -- The process noise behind an innovation.
  abbrev pub adapt_q : Double a → Double a → Double a
  adapt_q innovation q =
      if a.double.lt (a.double.dec 100 1) (a.double.abs innovation)
      then a.double.mul q (a.double.dec 20 1)
      else a.double.dec 10 1

  -- The estimate behind a measurement, before it is bounded.
  abbrev pub move_x : Double a → Double a → Double a → Double a → Double a
  move_x measurement innovation k x =
      if a.double.lt (a.double.abs innovation) (a.double.dec 500 1)
      then a.double.add x (a.double.mul k innovation)
      else a.double.add (a.double.mul (a.double.dec 7 1) measurement)
          (a.double.mul (a.double.dec 3 1) x)

  abbrev pub raise : Double a → Double a
  raise x = if a.double.lt x min_distance_cm then min_distance_cm else x

  abbrev pub lower : Double a → Double a
  lower x = if a.double.lt max_distance_cm x then max_distance_cm else x

  -- `kalman_update` where there is a filter, assignment by assignment.
  unfoldable pub updated : Double a → Kalman a → Kalman a
  updated measurement s =
      let innovation = a.double.sub measurement s.x in
      let s1 = record s { q = adapt_q innovation s.q } in
      let s2 = record s1 { p = a.double.add s1.p s1.q } in
      let s3 = record s2 { k = a.double.div s2.p (a.double.add s2.p s2.r) } in
      let s4 = record s3 { x = move_x measurement innovation s3.k s3.x } in
      let s5 = record s4 { x = raise s4.x } in
      let s6 = record s5 { x = lower s5.x } in
      let s7 = record s6 { p = a.double.mul (a.double.sub (a.double.dec 1 0) s6.k) s6.p } in
      if a.double.lt measurement min_distance_cm || a.double.lt max_distance_cm measurement
      then s
      else s7

  -- The distance of a pulse length.
  abbrev pub measurement_of : ℕ → Double a
  measurement_of pulse_length =
      a.double.div (a.double.mul (a.double.dec pulse_length 0) (a.double.dec 343 4))
        (a.double.dec 20 1)

  -- The rest of `getCm` behind `getPulse`: the globals, the filter and the result.
  unfoldable pub judge_pulse : Kalman a → Sonar → ℕ → Sonar × Kalman a × Double a
  unfolding updated
  judge_pulse f s pulse_length =
      let measurement = measurement_of pulse_length in
      let f' = updated measurement f in
      let near = a.double.lt measurement ten_cm || a.double.lt f'.x ten_cm in
      if pulse_length == 0 || not s.measurement_valid
      then (record s { obstacle_detected = a.double.lt f.x ten_cm }, f, f.x)
      else (record s { obstacle_detected = near }, f', f'.x)

  abbrev pub judged : Kalman a → Option (Sonar × ℕ) → Option (Sonar × Kalman a × Double a)
  judged f none = none
  judged f (some (s, pulse_length)) = some (judge_pulse f s pulse_length)

  -- `getCm` with a filter; `none` while `getPulse` waits. No interrupt comes between the end of its
  -- loop and the test of the flag.
  unfoldable pub get_cm : ℕ → List Poll → Kalman a → Sonar → Option (Sonar × Kalman a × Double a)
  unfolding get_pulse judge_pulse
  get_cm echopin polls f s = judged f (get_pulse echopin polls s)
