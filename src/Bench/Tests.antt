-- ===== src/Bench/Tests.antt =====
-- Runs of the sensors' test programs.
use robotic_car_p3e.Prelude.{ℕ, refl, true, false, some, List, [], ◌∷◌}
use robotic_car_p3e.Robot.Decimals.{arithmetic}
use robotic_car_p3e.Robot.Sensors.{
  Kalman, Sensors, echo_pin, left_encoder_pin, right_encoder_pin, sensors_at_start, still_wheel,
}
use robotic_car_p3e.Robot.Distance.{Poll, interrupt, look}
use robotic_car_p3e.Robot.Distance as Distance
use robotic_car_p3e.Bench.Ultrasonic.{Sonar, get_cm}
use robotic_car_p3e.Bench.Measuring.{AgreesOn, get_cm-agrees}
use robotic_car_p3e.Bench.Encoders.{Encoders}

abbrev filter : Kalman arithmetic
filter = record { q = (10, 1); r = (5, 1); x = (200, 1); p = (10, 1); k = (0, 0) }

abbrev quiet : Sonar
quiet = record {
  start_time = 0;
  pulse_width = 0;
  obstacle_detected = false;
  measurement_valid = false;
}

abbrev ready : Sensors arithmetic
ready = record (sensors_at_start arithmetic) { distance_filter = some filter }

-- An echo of 400 microseconds, which is less than 7 centimetres.
abbrev echo : List Poll
echo =
    interrupt echo_pin (record { rise = true; fall = false }) 1000
    ∷ look false
    ∷ interrupt echo_pin (record { rise = false; fall = true }) 1400
    ∷ look false
    ∷ []

agrees_example :
    AgreesOn arithmetic filter
      (get_cm arithmetic echo_pin echo filter quiet)
      (Distance.get_cm arithmetic echo ready)
unfolding sensors_at_start
agrees_example = get_cm-agrees arithmetic echo filter quiet ready refl refl

-- No echo comes: the estimate is kept.
abbrev silence : List Poll
silence = look false ∷ look true ∷ []

abbrev wheels : Encoders arithmetic
wheels = record {
  left = still_wheel arithmetic;
  right = still_wheel arithmetic;
  last_distance_check_time = 0;
}

abbrev edges : List (ℕ × ℕ)
edges = (left_encoder_pin, 1000) ∷ (right_encoder_pin, 1500) ∷ (left_encoder_pin, 2000) ∷ []

abbrev times : List ℕ
times = 1000 ∷ 2000 ∷ []
