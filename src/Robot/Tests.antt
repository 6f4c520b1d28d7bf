-- ===== src/Robot/Tests.antt =====
-- Runs of the robot, with exact decimal fractions for the numbers.
use robotic_car_p3e.Prelude.{ℕ, ◌≡◌, refl, true, false, Option, none, some, List, [], ◌∷◌, arith}
use robotic_car_p3e.Robot.Sensors.{
  Edges, Kalman, Sensors, sensors_at_start, distance_per_pulse_cm, count_pulse, echo_edge, echo_pin,
  get_echo_pulse, encoder_callback, gpio_interrupt_handler,
}
use robotic_car_p3e.Robot.Distance.{
  Poll, interrupt, look, estimate, pulse_distance, clamp_estimate, kalman_init, kalman_step,
  kalman_update, wait_pulse, read_pulse, get_cm, judge_distance, end_beep, after_measuring,
  measure_distance_and_buzz, initialize_buddy5_components,
}
use robotic_car_p3e.Robot.Motors.{
  drive_at_start, duty_level, set_pwm_duty_cycle, pwm_divider16, setup_pwm, clamp_integral,
  clamp_duty, compute_pid, adjust_left_motor_speed, set_motor_direction, motor_control_init,
  start_turning, turning_complete,
}
use robotic_car_p3e.Robot.Main.{
  Robot, moving_forward, turning_right, stopped, Inputs, reset_distance_counters, start_up,
  stop_motors, move_forward, turn_right, move_distance, act, print_due, finish_round, after_check,
  loop_round, Event, pulse, round, happen, history,
}
use robotic_car_p3e.Robot.Ranging.{get_cm-echo}
use robotic_car_p3e.Robot.Pid.{IsDuty, IsIntegral, compute_pid_lem}
use robotic_car_p3e.Robot.States.{Step, Obeys}
use robotic_car_p3e.Robot.Journey.{loop_round-Step, history-start_up}
use robotic_car_p3e.Robot.Decimals.{decimals-IsIeee, arithmetic}

-- The definitions that a run computes with.
runs : ℕ
unfolding sensors_at_start distance_per_pulse_cm count_pulse echo_edge get_echo_pulse
    encoder_callback gpio_interrupt_handler clamp_estimate kalman_init kalman_step kalman_update
    wait_pulse read_pulse get_cm judge_distance end_beep after_measuring measure_distance_and_buzz
    initialize_buddy5_components drive_at_start duty_level set_pwm_duty_cycle pwm_divider16
    setup_pwm clamp_integral clamp_duty compute_pid adjust_left_motor_speed set_motor_direction
    motor_control_init start_turning turning_complete reset_distance_counters start_up move_forward
    turn_right move_distance act print_due finish_round after_check loop_round happen history
runs = 0

abbrev rising : Edges
rising = record { rise = true; fall = false }

abbrev ready : Sensors arithmetic
ready = initialize_buddy5_components arithmetic 0 (sensors_at_start arithmetic)

abbrev first_filter : Kalman arithmetic
first_filter = kalman_init arithmetic (10, 1) (5, 1) (10, 1) (200, 1)

-- A loop that looks twice, the second time too late, with a pulse of the left wheel in between.
abbrev no_echo : List Poll
no_echo = look false ∷ interrupt 8 rising 700 ∷ look true ∷ []

-- A pulse of the left wheel.
abbrev left_pulse : Poll
left_pulse = interrupt 8 rising 2000

abbrev echo_filter : Option (Kalman arithmetic)
echo_filter = kalman_update arithmetic (some first_filter) (pulse_distance arithmetic 2000)

echo_example :
    (r : Sensors arithmetic) × (get_cm arithmetic
        (look false
          ∷ left_pulse
          ∷ interrupt echo_pin rising 1000
          ∷ left_pulse
          ∷ look false
          ∷ interrupt echo_pin (record { rise = false; fall = true }) 3000
          ∷ left_pulse
          ∷ look true
          ∷ [])
        ready
      ≡ some (r, estimate arithmetic echo_filter))
    × (r.pulse_width ≡ 2000)
    × (r.distance_filter ≡ echo_filter)
unfolding runs
echo_example =
    get_cm-echo arithmetic ready first_filter 1000 3000 (look false ∷ left_pulse ∷ [])
      (left_pulse ∷ look false ∷ []) (left_pulse ∷ []) [] true refl (refl, refl, (refl, tt))
      (refl, (refl, refl, tt)) (refl, tt) (omega arith) (omega arith)

pid_example :
    IsDuty arithmetic (compute_pid arithmetic (305, 1) (297, 1) (0, 0) (0, 0)).duty_cycle
    × IsIntegral arithmetic (compute_pid arithmetic (305, 1) (297, 1) (0, 0) (0, 0)).integral
pid_example = compute_pid_lem arithmetic decimals-IsIeee (305, 1) (297, 1) (0, 0) (0, 0)

-- A near wall, seen by a filter whose estimate is 10 cm.
abbrev near : Sensors arithmetic
near = record ready { distance_filter = some (record first_filter { x = (100, 1) }) }

abbrev quiet : Inputs
quiet = record {
  check_time = 300000;
  check_polls = no_echo;
  polls = no_echo;
  print_time = 300400;
  turn_time = 300500;
}

abbrev or_else : Sensors arithmetic → Option (Sensors arithmetic) → Sensors arithmetic
or_else s none = s
or_else s (some t) = t

abbrev beeping : Sensors arithmetic
beeping = or_else near (measure_distance_and_buzz arithmetic 300000 no_echo near)

abbrev or_robot : Robot arithmetic → Option (Robot arithmetic) → Robot arithmetic
or_robot r none = r
or_robot r (some t) = t

abbrev begin : Robot arithmetic
begin = start_up arithmetic 125000000 0

abbrev at_wall : Robot arithmetic
at_wall = record begin { sensors = near }

step_example : Step moving_forward turning_right
unfolding runs
step_example =
    loop_round-Step arithmetic quiet at_wall (or_robot begin (loop_round arithmetic quiet at_wall))
      refl

abbrev trip : List Event
trip = round quiet ∷ pulse 0 rising 310000 ∷ pulse 0 rising 340000 ∷ round quiet ∷ []

abbrev arrived_robot : Robot arithmetic
arrived_robot = or_robot begin (history arithmetic trip begin)

motors_example : Obeys arithmetic arrived_robot.current_state arrived_robot.drive
unfolding runs
motors_example = history-start_up arithmetic 125000000 0 trip arrived_robot refl

abbrev parked : Robot arithmetic
parked = record begin { drive = stop_motors arithmetic begin.drive; current_state = stopped }

parked-Obeys : Obeys arithmetic stopped parked.drive
unfolding runs
parked-Obeys = record {
  pin1 = refl;
  pin2 = refl;
  pin3 = refl;
  pin4 = refl;
  left_duty = refl;
  right_duty = refl;
  left_level = refl;
  right_level = refl;
}
