-- ===== src/Robot/Main.antt =====
-- main.c: the states of the robot and the rounds of its loop. Delays and printing are left out; an
-- interrupt comes between two rounds, or while the loop waits for an echo.
use robotic_car_p3e.Prelude.{
  ℕ, ◌+◌, ◌-◌, ◌/◌, ◌%◌, ◌^◌, Bool, true, Option, none, some, List, [], ◌∷◌, leb, if◌then◌else◌,
}
use robotic_car_p3e.Robot.Floats.{Arithmetic}
use robotic_car_p3e.Robot.Sensors.{
  Edges, Float, Sensors, Wheel, gpio_interrupt_handler, sensors_at_start,
}
use robotic_car_p3e.Robot.Distance.{
  Poll, get_cm, measure_distance_and_buzz, initialize_buddy5_components,
}
use robotic_car_p3e.Robot.Motors.{
  Drive, drive_at_start, dir_pin1, dir_pin2, dir_pin3, dir_pin4, set_pwm_duty_cycle, set_both,
  set_motor_direction, adjust_left_motor_speed, motor_control_init, start_turning_right,
  turning_complete,
}

pub data RobotState : Type 0 where
  moving_forward turning_right moving_forward_distance stopped : RobotState

-- What a round reads from outside: the times of `measureDistanceAndBuzz`, of the test whether to
-- print, and of the turn, and what happens in the two waits for an echo.
pub record Inputs : Type 0 where
  pub check_time : ℕ
  pub check_polls : List Poll
  pub polls : List Poll
  pub print_time : ℕ
  pub turn_time : ℕ

-- The time in milliseconds as `uint32_t`, and the test whether 500 have passed.
abbrev pub to_ms : ℕ → ℕ
to_ms us = us / 1000 % 2 ^ 32

unfoldable pub print_due : ℕ → ℕ → Bool
print_due current_time last = leb 500 ((current_time + 2 ^ 32 - last) % 2 ^ 32)

module _ (a : Arithmetic) where
  pub record Robot : Type 0 where
    pub sensors : Sensors a
    pub drive : Drive a
    pub current_state : RobotState
    pub last_print_time : ℕ

  abbrev pub target_distance_cm : Float a
  target_distance_cm = a.single.dec 900 1

  abbrev pub threshold_cm : Float a
  threshold_cm = a.single.dec 15 0

  abbrev pub reset_wheel : Wheel a → Wheel a
  reset_wheel w = record w {
    pulse_count = 0;
    incremental_distance = a.single.dec 0 0;
    total_distance = a.single.dec 0 0;
  }

  unfoldable pub reset_distance_counters : Sensors a → Sensors a
  reset_distance_counters s = record s { left = reset_wheel s.left; right = reset_wheel s.right }

  abbrev pub reset_pid : Drive a → Drive a
  reset_pid d = record d { integral_left = a.single.dec 0 0; prev_error_left = a.single.dec 0 0 }

  -- The duty cycles of straight driving, and of standing still.
  abbrev pub drive_straight : Drive a → Drive a
  drive_straight d = set_both a (a.single.dec 94 2) (a.single.dec 99 2) d

  abbrev pub stop_motors : Drive a → Drive a
  stop_motors d = set_both a (a.single.dec 0 0) (a.single.dec 0 0) d

  -- `main` up to its loop: the clock's frequency, and the time of the initialisation.
  unfoldable pub start_up : ℕ → ℕ → Robot
  unfolding motor_control_init initialize_buddy5_components set_pwm_duty_cycle sensors_at_start
      drive_at_start
  start_up f_sys now = record {
    sensors = initialize_buddy5_components a now (sensors_at_start a);
    drive = drive_straight (reset_pid (motor_control_init a f_sys (drive_at_start a)));
    current_state = moving_forward;
    last_print_time = 0;
  }

  -- The case STATE_MOVING_FORWARD.
  unfoldable pub move_forward : ℕ → Float a → Robot → Robot
  unfolding set_pwm_duty_cycle
  move_forward turn_time current_distance r =
      if a.single.le current_distance threshold_cm
      then record r {
        drive = start_turning_right a turn_time (reset_pid (stop_motors r.drive));
        current_state = turning_right;
      }
      else record r { drive = adjust_left_motor_speed a r.sensors r.drive }

  -- The two motors' directions and duty cycles behind a turn.
  abbrev pub leave_turn : Drive a → Drive a
  leave_turn d = drive_straight (
      set_motor_direction a dir_pin3 dir_pin4 true (set_motor_direction a dir_pin1 dir_pin2 true d))

  -- The case STATE_TURNING_RIGHT.
  unfoldable pub turn_right : ℕ → Robot → Robot
  unfolding turning_complete set_pwm_duty_cycle reset_distance_counters
  turn_right turn_time r =
      let (d, done) = turning_complete a turn_time r.drive in
      if done
      then record r {
        sensors = reset_distance_counters r.sensors;
        drive = leave_turn d;
        current_state = moving_forward_distance;
      }
      else record r { drive = d }

  -- The case STATE_MOVING_FORWARD_DISTANCE.
  unfoldable pub move_distance : Robot → Robot
  unfolding set_pwm_duty_cycle
  move_distance r =
      if a.single.le target_distance_cm r.sensors.right.incremental_distance
      then record r { drive = stop_motors r.drive; current_state = stopped }
      else r

  -- The switch over the states.
  unfoldable pub act : RobotState → ℕ → Float a → Robot → Robot
  unfolding move_forward turn_right move_distance set_pwm_duty_cycle
  act moving_forward turn_time current_distance r = move_forward turn_time current_distance r
  act turning_right turn_time current_distance r = turn_right turn_time r
  act moving_forward_distance turn_time current_distance r = move_distance r
  act stopped turn_time current_distance r = record r { drive = stop_motors r.drive }

  -- The rest of a round behind the measurement.
  unfoldable pub finish_round : Inputs → Robot → Option (Sensors a × Float a) → Option Robot
  unfolding act print_due
  finish_round i r none = none
  finish_round i r (some (s, distance)) =
      let now = to_ms i.print_time in
      let printed = if print_due now r.last_print_time then now else r.last_print_time in
      some (
        act r.current_state i.turn_time distance
          (record r { sensors = s; last_print_time = printed }))

  -- The rest behind `measureDistanceAndBuzz`.
  unfoldable pub after_check : Inputs → Robot → Option (Sensors a) → Option Robot
  unfolding finish_round get_cm
  after_check i r none = none
  after_check i r (some s) = finish_round i (record r { sensors = s }) (get_cm a i.polls s)

  -- One round of the loop; `none` while it waits for an echo.
  unfoldable pub loop_round : Inputs → Robot → Option Robot
  unfolding after_check measure_distance_and_buzz
  loop_round i r =
      after_check i r (measure_distance_and_buzz a i.check_time i.check_polls r.sensors)

-- What happens to the robot: an interrupt, or a round.
pub data Event : Type 0 where
  pulse : ℕ → Edges → ℕ → Event
  round : Inputs → Event

module _ (a : Arithmetic) where
  unfoldable pub happen : Event → Robot a → Option (Robot a)
  unfolding gpio_interrupt_handler loop_round
  happen (pulse gpio events now) r =
      some (record r { sensors = gpio_interrupt_handler a gpio events now r.sensors })
  happen (round i) r = loop_round a i r

  -- A history of the robot, as far as no wait is left open.
  unfoldable pub history : List Event → Robot a → Option (Robot a)
  unfolding happen
  history [] r = some r
  history (e ∷ es) r = elim (happen e r) [ none ↦ none | some r' ↦ history es r' ]
