-- ===== src/Robot/Sensors.antt =====
-- buddy5/buddy5.c: the globals of the ultrasonic sensor, the buzzer and the wheel encoders, and the
-- interrupt handlers.
use robotic_car_p3e.Prelude.{
  ℕ, ◌+◌, ◌-◌, ◌%◌, ◌^◌, Bool, false, not, ◌&&◌, ◌||◌, Option, none, ltb, ◌==◌, if◌then◌else◌,
}
use robotic_car_p3e.Robot.Floats.{Arithmetic}

abbrev pub trig_pin : ℕ
trig_pin = 4

abbrev pub echo_pin : ℕ
echo_pin = 5

abbrev pub left_encoder_pin : ℕ
left_encoder_pin = 8

abbrev pub right_encoder_pin : ℕ
right_encoder_pin = 0

abbrev pub measurement_timeout_us : ℕ
measurement_timeout_us = 25000

-- Subtraction of `uint64_t`.
abbrev pub minus64 : ℕ → ℕ → ℕ
minus64 a b = (a + 2 ^ 64 - b) % 2 ^ 64

-- The edges that an interrupt reports, `events & GPIO_IRQ_EDGE_RISE` and `_FALL`.
pub record Edges : Type 0 where
  pub rise : Bool
  pub fall : Bool

module _ (a : Arithmetic) where
  abbrev pub Float : Type 0
  Float = a.single.Number

  abbrev pub Double : Type 0
  Double = a.double.Number

  -- `kalman_state`.
  pub record Kalman : Type 0 where
    pub q : Double
    pub r : Double
    pub x : Double
    pub p : Double
    pub k : Double

  -- The globals of one encoder. Counts are natural numbers: an overflow of `int` is undefined.
  pub record Wheel : Type 0 where
    pub pulse_count : ℕ
    pub incremental_distance : Float
    pub total_distance : Float
    pub speed_cm_s : Float
    pub last_pulse_time : ℕ

  -- All globals of the file, and the level at the buzzer's pin.
  pub record Sensors : Type 0 where
    pub left : Wheel
    pub right : Wheel
    pub distance_filter : Option Kalman
    pub start_time : ℕ
    pub pulse_width : ℕ
    pub measurement_valid : Bool
    pub last_distance_check_time : ℕ
    pub obstacle_detected : Bool
    pub buzzer_on : Bool
    pub buzzer_start_time : ℕ
    pub buzzer_pin : Bool

  abbrev pub wheel_diameter_cm : Float
  wheel_diameter_cm = a.narrow (a.double.dec 66 1)

  -- `M_PI * WHEEL_DIAMETER_CM`.
  abbrev pub wheel_circumference_cm : Float
  wheel_circumference_cm =
      a.narrow (a.double.mul (a.double.dec 314159265358979323846 20) (a.widen wheel_diameter_cm))

  unfoldable pub distance_per_pulse_cm : Float
  distance_per_pulse_cm = a.single.div wheel_circumference_cm (a.single.dec 20 0)

  abbrev pub still_wheel : Wheel
  still_wheel = record {
    pulse_count = 0;
    incremental_distance = a.single.dec 0 0;
    total_distance = a.single.dec 0 0;
    speed_cm_s = a.single.dec 0 0;
    last_pulse_time = 0;
  }

  -- The initial values of the globals.
  unfoldable pub sensors_at_start : Sensors
  sensors_at_start = record {
    left = still_wheel;
    right = still_wheel;
    distance_filter = none;
    start_time = 0;
    pulse_width = 0;
    measurement_valid = false;
    last_distance_check_time = 0;
    obstacle_detected = false;
    buzzer_on = false;
    buzzer_start_time = 0;
    buzzer_pin = false;
  }

  -- The speed from the time between two pulses.
  abbrev pub pulse_speed : ℕ → ℕ → Float
  pulse_speed current_time last = a.single.div distance_per_pulse_cm (
      a.narrow (a.double.div (a.double.dec (minus64 current_time last) 0) (a.double.dec 1000000 0)))

  -- A pulse of a wheel.
  unfoldable pub count_pulse : ℕ → Wheel → Wheel
  count_pulse current_time w = record w {
    pulse_count = w.pulse_count + 1;
    incremental_distance = a.single.add w.incremental_distance distance_per_pulse_cm;
    total_distance = a.single.add w.total_distance distance_per_pulse_cm;
    speed_cm_s =
        if not (w.last_pulse_time == 0)
        then pulse_speed current_time w.last_pulse_time
        else w.speed_cm_s;
    last_pulse_time = current_time;
  }

  -- An edge at the echo pin, at a time in microseconds.
  unfoldable pub echo_edge : Edges → ℕ → Sensors → Sensors
  echo_edge events now s =
      if events.rise
      then record s { start_time = now; measurement_valid = false }
      else if events.fall && ltb s.start_time now
      then record s {
        pulse_width = now - s.start_time;
        measurement_valid = ltb (now - s.start_time) measurement_timeout_us;
      }
      else s

  unfoldable pub get_echo_pulse : ℕ → Edges → ℕ → Sensors → Sensors
  unfolding echo_edge
  get_echo_pulse gpio events now s = if gpio == echo_pin then echo_edge events now s else s

  unfoldable pub encoder_callback : ℕ → ℕ → Sensors → Sensors
  unfolding count_pulse
  encoder_callback gpio now s =
      if gpio == left_encoder_pin
      then record s { left = count_pulse now s.left }
      else if gpio == right_encoder_pin
      then record s { right = count_pulse now s.right }
      else s

  -- The handler that is installed for all three pins. `now` is the time that it reads.
  unfoldable pub gpio_interrupt_handler : ℕ → Edges → ℕ → Sensors → Sensors
  unfolding echo_edge count_pulse
  gpio_interrupt_handler gpio events now s =
      if gpio == echo_pin
      then echo_edge events now s
      else if gpio == left_encoder_pin || gpio == right_encoder_pin
      then if gpio == left_encoder_pin
        then record s { left = count_pulse now s.left }
        else record s { right = count_pulse now s.right }
      else s

  -- `right_encoder_callback`, which no pin is connected to.
  unfoldable pub right_encoder_callback : ℕ → Sensors → Sensors
  right_encoder_callback now s =
      let w = s.right in
      let counted = record w {
        pulse_count = w.pulse_count + 1;
        incremental_distance = a.single.add w.incremental_distance distance_per_pulse_cm;
      } in
      if not (w.last_pulse_time == 0)
      then record s {
        right = record counted {
          speed_cm_s = pulse_speed now w.last_pulse_time;
          last_pulse_time = now;
        };
      }
      else record s { right = counted }
