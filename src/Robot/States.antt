-- ===== src/Robot/States.antt =====
-- main.c: how the robot's state moves, and that the motors do what the state says.
use robotic_car_p3e.Prelude.{
  ℕ, ◌^◌, ◌<◌, ◌≡◌, Bool, true, false, not, leb, if◌then◌else◌, arith, Bool-cases, inl, inr,
}
use robotic_car_p3e.Robot.Floats.{Arithmetic}
use robotic_car_p3e.Robot.Sensors.{Float, minus64}
use robotic_car_p3e.Robot.Motors.{
  Drive, pwm_pin, pwm_pin1, dir_pin1, dir_pin2, dir_pin3, dir_pin4, duty_level, set_pwm_duty_cycle,
  set_motor_direction, turn_duration, adjust_left_motor_speed, start_turning, turning_complete,
}
use robotic_car_p3e.Robot.Main.{
  RobotState, moving_forward, turning_right, moving_forward_distance, stopped, Robot, threshold_cm,
  target_distance_cm, move_forward, turn_right, move_distance, act, print_due,
}

-- The moves of the state in a round.
pub data Step : RobotState → RobotState → Type 0 where
  stay : (s : RobotState) → Step s s
  obstacle : Step moving_forward turning_right
  turned : Step turning_right moving_forward_distance
  arrived : Step moving_forward_distance stopped

-- At any time in 32 bits: behind the test for the first message of a round, which brings the time of
-- the last message up to date, the same test for the second message fails.
pub print_due-print_due :
    (now last : ℕ) → now < 2 ^ 32 → print_due now (if print_due now last then now else last) ≡ false
unfolding print_due
print_due-print_due now last h = ground arith

module _ (a : Arithmetic) where
  pub act-Step :
      (st : RobotState) (turn_time : ℕ) (distance : Float a) (r : Robot a)
      → r.current_state ≡ st
      → Step st (act a st turn_time distance r).current_state
  unfolding act move_forward turn_right move_distance turning_complete
  act-Step moving_forward turn_time distance r h =
      elim (Bool-cases (a.single.le distance (threshold_cm a))) [
        | inl e ↦ rw e obstacle
        | inr e ↦ rw (e, h) (stay moving_forward)
      ]
  act-Step turning_right turn_time distance r h =
      elim (Bool-cases (leb turn_duration (minus64 turn_time r.drive.turning_start_time))) [
        | inl e ↦ rw e turned
        | inr e ↦ rw (e, h) (stay turning_right)
      ]
  act-Step moving_forward_distance turn_time distance r h =
      elim (Bool-cases (a.single.le (target_distance_cm a) r.sensors.right.incremental_distance)) [
        | inl e ↦ rw e arrived
        | inr e ↦ rw (e, h) (stay moving_forward_distance)
      ]
  act-Step stopped turn_time distance r h = rw h (stay stopped)

  -- How the outputs and the duty cycles of a drive stand.
  pub record Stands (left_forward right_forward : Bool) (left right : Float a) (d : Drive a)
      : Type 0 where
    pub pin1 : d.output dir_pin1 ≡ left_forward
    pub pin2 : d.output dir_pin2 ≡ not left_forward
    pub pin3 : d.output dir_pin3 ≡ right_forward
    pub pin4 : d.output dir_pin4 ≡ not right_forward
    pub left_duty : d.left_motor_duty_cycle ≡ left
    pub right_duty : d.right_motor_duty_cycle ≡ right
    pub left_level : d.level pwm_pin ≡ duty_level a left
    pub right_level : d.level pwm_pin1 ≡ duty_level a right

  -- What the motors do in each state.
  abbrev pub Obeys : RobotState → Drive a → Type 0
  Obeys moving_forward d = Stands true true d.left_motor_duty_cycle (a.single.dec 99 2) d
  Obeys turning_right d = Stands true false (a.single.dec 55 2) (a.single.dec 55 2) d
  Obeys moving_forward_distance d = Stands true true (a.single.dec 94 2) (a.single.dec 99 2) d
  Obeys stopped d = Stands true true (a.single.dec 0 0) (a.single.dec 0 0) d

  move_forward-Obeys :
      (turn_time : ℕ) (distance : Float a) (r : Robot a)
      → r.current_state ≡ moving_forward
      → Obeys moving_forward r.drive
      → Obeys
          (move_forward a turn_time distance r).current_state
          (move_forward a turn_time distance r).drive
  unfolding move_forward start_turning set_pwm_duty_cycle set_motor_direction
      adjust_left_motor_speed
  move_forward-Obeys turn_time distance r at h = ground arith

  turn_right-Obeys :
      (turn_time : ℕ) (r : Robot a)
      → r.current_state ≡ turning_right
      → Obeys turning_right r.drive
      → Obeys (turn_right a turn_time r).current_state (turn_right a turn_time r).drive
  unfolding turn_right turning_complete set_pwm_duty_cycle set_motor_direction
  turn_right-Obeys turn_time r at h = ground arith

  move_distance-Obeys :
      (r : Robot a)
      → r.current_state ≡ moving_forward_distance
      → Obeys moving_forward_distance r.drive
      → Obeys (move_distance a r).current_state (move_distance a r).drive
  unfolding move_distance set_pwm_duty_cycle
  move_distance-Obeys r at h = ground arith

  pub act-Obeys :
      (st : RobotState) (turn_time : ℕ) (distance : Float a) (r : Robot a)
      → r.current_state ≡ st
      → Obeys st r.drive
      → Obeys (act a st turn_time distance r).current_state (act a st turn_time distance r).drive
  unfolding act set_pwm_duty_cycle
  act-Obeys moving_forward turn_time distance r at h = move_forward-Obeys turn_time distance r at h
  act-Obeys turning_right turn_time distance r at h = turn_right-Obeys turn_time r at h
  act-Obeys moving_forward_distance turn_time distance r at h = move_distance-Obeys r at h
  act-Obeys stopped turn_time distance r at h = ground arith
