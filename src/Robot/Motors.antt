-- ===== src/Robot/Motors.antt =====
-- buddy2/buddy2.c: the motors. The state is the levels of the pins and the file's globals.
use robotic_car_p3e.Prelude.{
  ℕ, ◌*◌, ◌/◌, ◌%◌, ◌^◌, Bool, true, false, not, leb, ◌==◌, if◌then◌else◌,
}
use robotic_car_p3e.Robot.Floats.{Arithmetic}
use robotic_car_p3e.Robot.Sensors.{Float, Sensors, minus64}

abbrev pub pwm_pin : ℕ
pwm_pin = 2

abbrev pub pwm_pin1 : ℕ
pwm_pin1 = 3

abbrev pub dir_pin1 : ℕ
dir_pin1 = 17

abbrev pub dir_pin2 : ℕ
dir_pin2 = 16

abbrev pub dir_pin3 : ℕ
dir_pin3 = 14

abbrev pub dir_pin4 : ℕ
dir_pin4 = 15

abbrev pub pwm_wrap_value : ℕ
pwm_wrap_value = 65535

-- The duration of a turn in microseconds.
abbrev pub turn_duration : ℕ
turn_duration = 1000000

-- A table of pins with one entry changed.
abbrev pub put {ℓ} : {A : Type ℓ} → ℕ → A → (ℕ → A) → ℕ → A
put pin v f k = if k == pin then v else f k

module _ (a : Arithmetic) where
  -- The levels of the PWM channels and of the outputs by pin, the dividers of the channels' clocks
  -- in sixteenths, and the globals.
  pub record Drive : Type 0 where
    pub level : ℕ → ℕ
    pub divider16 : ℕ → ℕ
    pub enabled : ℕ → Bool
    pub output : ℕ → Bool
    pub left_motor_duty_cycle : Float a
    pub right_motor_duty_cycle : Float a
    pub integral_left : Float a
    pub prev_error_left : Float a
    pub turning_start_time : ℕ

  -- The globals' initial values, with all outputs off.
  unfoldable pub drive_at_start : Drive
  drive_at_start = record {
    level = λ k. 0;
    divider16 = λ k. 16;
    enabled = λ k. false;
    output = λ k. false;
    left_motor_duty_cycle = a.single.dec 0 0;
    right_motor_duty_cycle = a.single.dec 0 0;
    integral_left = a.single.dec 0 0;
    prev_error_left = a.single.dec 0 0;
    turning_start_time = 0;
  }

  -- The level of a duty cycle.
  unfoldable pub duty_level : Float a → ℕ
  duty_level duty_cycle = a.to_uint16 (a.single.mul duty_cycle (a.single.dec pwm_wrap_value 0))

  -- `set_pwm_duty_cycle`. On another pin the code only changes its own parameter.
  unfoldable pub set_pwm_duty_cycle : ℕ → Float a → Drive → Drive
  unfolding duty_level
  set_pwm_duty_cycle pin duty_cycle d =
      let e = record d { level = put pin (duty_level duty_cycle) d.level } in
      if pin == pwm_pin
      then record e { left_motor_duty_cycle = duty_cycle }
      else if pin == pwm_pin1
      then record e { right_motor_duty_cycle = duty_cycle }
      else e

  abbrev pub estimate_speed_from_duty_cycle : Float a → Float a
  estimate_speed_from_duty_cycle duty_cycle = a.single.mul duty_cycle (a.single.dec 1000 1)

  -- The divider for a clock and a frequency, in sixteenths.
  unfoldable pub pwm_divider16 : ℕ → Float a → ℕ
  pwm_divider16 f_sys freq =
      let divider16 = a.to_uint32 (
        a.single.div (a.single.dec (f_sys * 16 % 2 ^ 32) 0)
          (a.single.mul freq (a.single.dec pwm_wrap_value 0))) in
      if divider16 / 16 == 0 then 16 else divider16

  -- `setup_pwm`; `f_sys` is the frequency of the system's clock.
  unfoldable pub setup_pwm : ℕ → ℕ → Float a → Float a → Drive → Drive
  unfolding duty_level pwm_divider16
  setup_pwm f_sys gpio freq duty_cycle d = record d {
    divider16 = put gpio (pwm_divider16 f_sys freq) d.divider16;
    level = put gpio (duty_level duty_cycle) d.level;
    enabled = put gpio true d.enabled;
  }

  -- The two clamps of `compute_pid`.
  unfoldable pub clamp_integral : Float a → Float a
  clamp_integral x =
      let max = a.single.dec 10000 1 in
      let high = if a.single.lt max x then max else x in
      if a.single.lt high (a.single.neg max) then a.single.neg max else high

  unfoldable pub clamp_duty : Float a → Float a
  clamp_duty x =
      if a.single.lt (a.single.dec 99 2) x
      then a.single.dec 99 2
      else if a.single.lt x (a.single.dec 0 0)
      then a.single.dec 0 0
      else x

  abbrev pub kp : Float a
  kp = a.single.dec 30 1

  abbrev pub ki : Float a
  ki = a.single.dec 20 1

  abbrev pub kd : Float a
  kd = a.single.dec 2 2

  -- What `compute_pid` returns, and what it leaves in `*integral` and `*prev_error`.
  pub record Control : Type 0 where
    pub duty_cycle : Float a
    pub integral : Float a
    pub prev_error : Float a

  unfoldable pub compute_pid : Float a → Float a → Float a → Float a → Control
  unfolding clamp_integral clamp_duty
  compute_pid target_speed current_speed integral prev_error =
      let f = a.single in
      let error = f.sub target_speed current_speed in
      let integral' = clamp_integral (f.add integral error) in
      let derivative = f.sub error prev_error in
      record {
        duty_cycle =
            clamp_duty (f.add (f.add (f.mul kp error) (f.mul ki integral')) (f.mul kd derivative));
        integral = integral';
        prev_error = error;
      }

  -- The speed that the left motor is to reach.
  abbrev pub target_speed_left : Sensors a → Drive → Float a
  target_speed_left s d =
      if a.single.lt s.right.speed_cm_s (a.single.dec 10 1)
      then estimate_speed_from_duty_cycle d.right_motor_duty_cycle
      else s.right.speed_cm_s

  unfoldable pub adjust_left_motor_speed : Sensors a → Drive → Drive
  unfolding set_pwm_duty_cycle compute_pid
  adjust_left_motor_speed s d =
      if s.obstacle_detected
      then d
      else let c =
          compute_pid (target_speed_left s d) s.left.speed_cm_s d.integral_left d.prev_error_left in
        set_pwm_duty_cycle pwm_pin c.duty_cycle
          (record d { integral_left = c.integral; prev_error_left = c.prev_error })

  unfoldable pub set_motor_direction : ℕ → ℕ → Bool → Drive → Drive
  set_motor_direction pin1 pin2 forward d = record d {
    output = put pin2 (not forward) (put pin1 forward d.output);
  }

  abbrev pub forward_motor_left : Drive → Drive
  forward_motor_left d = set_motor_direction dir_pin1 dir_pin2 true d

  abbrev pub forward_motor_right : Drive → Drive
  forward_motor_right d = set_motor_direction dir_pin3 dir_pin4 true d

  abbrev pub reverse_motor_left : Drive → Drive
  reverse_motor_left d = set_motor_direction dir_pin1 dir_pin2 false d

  abbrev pub reverse_motor_right : Drive → Drive
  reverse_motor_right d = set_motor_direction dir_pin3 dir_pin4 false d

  -- Both motors at a duty cycle.
  abbrev pub set_both : Float a → Float a → Drive → Drive
  set_both left right d = set_pwm_duty_cycle pwm_pin1 right (set_pwm_duty_cycle pwm_pin left d)

  unfoldable pub motor_control_init : ℕ → Drive → Drive
  unfolding setup_pwm set_motor_direction
  motor_control_init f_sys d =
      let freq = a.single.dec 1000 1 in
      let half = a.single.dec 5 1 in
      forward_motor_right (
        forward_motor_left
          (setup_pwm f_sys pwm_pin1 freq half (setup_pwm f_sys pwm_pin freq half d)))

  unfoldable pub start_turning : ℕ → Drive → Drive
  unfolding set_motor_direction set_pwm_duty_cycle
  start_turning now d =
      let turn_speed = a.single.dec 55 2 in
      record (set_both turn_speed turn_speed (reverse_motor_right (forward_motor_left d))) {
        turning_start_time = now;
      }

  unfoldable pub turning_complete : ℕ → Drive → Drive × Bool
  unfolding set_pwm_duty_cycle
  turning_complete now d =
      if leb turn_duration (minus64 now d.turning_start_time)
      then (set_both (a.single.dec 0 0) (a.single.dec 0 0) d, true)
      else (d, false)

  abbrev pub start_turning_right : ℕ → Drive → Drive
  start_turning_right now d = start_turning now d
