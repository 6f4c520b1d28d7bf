-- ===== src/Robot/Journey.antt =====
-- main.c: what holds along every history of the robot.
use mathlib.Core.Path.{subst}
use robotic_car_p3e.Prelude.{
  ℕ, ◌≤◌, ◌≡◌, refl, sym, ap, Option, none, some, List, [], ◌∷◌, arith, Option-cases, inl, inr,
  if◌then◌else◌,
}
use robotic_car_p3e.Robot.Floats.{Arithmetic}
use robotic_car_p3e.Robot.Sensors.{Float, Sensors}
use robotic_car_p3e.Robot.Distance.{get_cm}
use robotic_car_p3e.Robot.Motors.{
  duty_level, set_pwm_duty_cycle, setup_pwm, set_motor_direction, motor_control_init,
}
use robotic_car_p3e.Robot.Main.{
  RobotState, moving_forward, turning_right, moving_forward_distance, stopped, Inputs, Robot, to_ms,
  print_due, start_up, act, finish_round, after_check, loop_round, Event, pulse, round, happen,
  history,
}
use robotic_car_p3e.Robot.States.{Step, stay, obstacle, turned, arrived, act-Step, Obeys, act-Obeys}

-- How far the robot has come.
abbrev pub rank : RobotState → ℕ
rank moving_forward = 0
rank turning_right = 1
rank moving_forward_distance = 2
rank stopped = 3

rank-Step : (s t : RobotState) → Step s t → rank s ≤ rank t
rank-Step s t (stay u) = omega arith
rank-Step s t obstacle = omega arith
rank-Step s t turned = omega arith
rank-Step s t arrived = omega arith

rank-stopped : (s : RobotState) → 3 ≤ rank s → s ≡ stopped
rank-stopped moving_forward h = absurd (omega arith)
rank-stopped turning_right h = absurd (omega arith)
rank-stopped moving_forward_distance h = absurd (omega arith)
rank-stopped stopped h = refl

module _ (a : Arithmetic) where
  abbrev printed : Inputs → Robot a → ℕ
  printed i r =
      if print_due (to_ms i.print_time) r.last_print_time
      then to_ms i.print_time
      else r.last_print_time

  -- A round that comes to its end does what its state says, on newly measured sensors.
  abbrev Acts : Inputs → Robot a → Robot a → Type 0
  Acts i r r' =
      (distance : Float a) × (s : Sensors a) × (t : ℕ) × (r'
        ≡ act a r.current_state i.turn_time distance
            (record r { sensors = s; last_print_time = t }))

  finish_round-Acts :
      (i : Inputs) (r r' : Robot a) (o : Option (Sensors a × Float a))
      → finish_round a i r o ≡ some r'
      → Acts i r r'
  unfolding finish_round
  finish_round-Acts i r r' none h = cc
  finish_round-Acts i r r' (some (s, distance)) h = (distance, s, printed i r, ground arith)

  after_check-Acts :
      (i : Inputs) (r r' : Robot a) (o : Option (Sensors a))
      → after_check a i r o ≡ some r'
      → Acts i r r'
  unfolding after_check
  after_check-Acts i r r' none h = cc
  after_check-Acts i r r' (some s) h =
      finish_round-Acts i (record r { sensors = s }) r' (get_cm a i.polls s) h

  loop_round-Acts : (i : Inputs) (r r' : Robot a) → loop_round a i r ≡ some r' → Acts i r r'
  unfolding loop_round
  loop_round-Acts i r r' h = after_check-Acts i r r' _ h

  -- A round of the loop leaves the state as it is, or takes the one step that the state allows.
  pub loop_round-Step :
      (i : Inputs) (r r' : Robot a)
      → loop_round a i r ≡ some r'
      → Step r.current_state r'.current_state
  loop_round-Step i r r' h =
      let (distance, s, t, e) = loop_round-Acts i r r' h in
      subst (λ u. Step r.current_state u) (sym (ap (λ (x : Robot a). x.current_state) e))
        (act-Step a r.current_state i.turn_time distance
          (record r { sensors = s; last_print_time = t }) refl)

  loop_round-Obeys :
      (i : Inputs) (r r' : Robot a)
      → loop_round a i r ≡ some r'
      → Obeys a r.current_state r.drive
      → Obeys a r'.current_state r'.drive
  loop_round-Obeys i r r' h ok =
      let (distance, s, t, e) = loop_round-Acts i r r' h in
      subst (λ (x : Robot a). Obeys a x.current_state x.drive) (sym e)
        (act-Obeys a r.current_state i.turn_time distance
          (record r { sensors = s; last_print_time = t }) refl ok)

  happen-Obeys :
      (e : Event) (r r' : Robot a)
      → happen a e r ≡ some r'
      → Obeys a r.current_state r.drive
      → (Obeys a r'.current_state r'.drive) × (rank r.current_state ≤ rank r'.current_state)
  unfolding happen
  happen-Obeys (pulse gpio events now) r r' h ok = ground arith
  happen-Obeys (round i) r r' h ok =
      (loop_round-Obeys i r r' h ok, rank-Step _ _ (loop_round-Step i r r' h))

  -- Along every history, the motors do what the robot's state says, if they did so at its
  -- beginning, and the robot never goes back to a state that it has left.
  pub history-Obeys :
      (es : List Event) (r r' : Robot a)
      → history a es r ≡ some r'
      → Obeys a r.current_state r.drive
      → (Obeys a r'.current_state r'.drive) × (rank r.current_state ≤ rank r'.current_state)
  unfolding history
  history-Obeys [] r r' h ok = ground arith
  history-Obeys (e ∷ es) r r' h ok = elim (Option-cases (happen a e r)) [
    | inl n ↦ absurd (ground arith)
    | inr (m, n) ↦
        let (next, up) = happen-Obeys e r m n ok in
        let (last, up') = history-Obeys es m r' (ground arith) next in
        (last, omega (arith, up, up'))
  ]

  start_up-Obeys : (f_sys now : ℕ) → Obeys a moving_forward (start_up a f_sys now).drive
  unfolding start_up motor_control_init setup_pwm set_motor_direction set_pwm_duty_cycle duty_level
  start_up-Obeys f_sys now = ground arith

  -- Whatever happens from the start on, the motors do what the robot's state says: both wheels turn
  -- forward while it drives, left forward and right backward at 0.55 while it turns, and both duty
  -- cycles are 0 once it has stopped.
  pub history-start_up :
      (f_sys now : ℕ) (es : List Event) (r : Robot a)
      → history a es (start_up a f_sys now) ≡ some r
      → Obeys a r.current_state r.drive
  unfolding start_up
  history-start_up f_sys now es r h =
      let (ok, up) = history-Obeys es (start_up a f_sys now) r h (start_up-Obeys f_sys now) in ok

  -- A robot that has stopped with its motors off stays so, whatever happens.
  pub history-stopped :
      (es : List Event) (r r' : Robot a)
      → history a es r ≡ some r'
      → r.current_state ≡ stopped
      → Obeys a stopped r.drive
      → (r'.current_state ≡ stopped) × Obeys a stopped r'.drive
  history-stopped es r r' h at off =
      let (ok, up) = history-Obeys es r r' h (subst (λ s. Obeys a s r.drive) (sym at) off) in
      let still = rank-stopped r'.current_state (omega (arith, up, ap rank at)) in
      (still, subst (λ s. Obeys a s r'.drive) still ok)
