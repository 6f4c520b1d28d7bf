-- ===== src/Bench/Measuring.antt =====
-- buddy5/buddy5_ultrasonic.c: what a measurement gives, and that it is the robot's.
use robotic_car_p3e.Prelude.{
  ℕ, ◌<◌, ◌≡◌, refl, sym, ap, ◌∙◌, Bool, true, false, not, ◌||◌, Option, none, some, List, [], ◌∷◌,
  ◌==◌, arith, Bool-cases, inl, inr,
}
use robotic_car_p3e.Robot.Floats.{Arithmetic, IsIeee}
use robotic_car_p3e.Robot.Sensors.{
  Edges, Kalman, Double, Sensors, echo_pin, echo_edge, gpio_interrupt_handler,
}
use robotic_car_p3e.Robot.Distance.{
  Poll, interrupt, look, Wait, measured, timed_out, waiting, pulse_distance, wait_pulse, read_pulse,
  kalman_update, estimate,
}
use robotic_car_p3e.Robot.Distance as Distance
use robotic_car_p3e.Robot.Ranging.{IsWithin, kalman_update-FilterFits}
use robotic_car_p3e.Bench.Ultrasonic.{
  Sonar, get_echo_pulse, wait_echo, pulse_of, ten_cm, updated, judge_pulse, judged, get_cm,
  kalman_init,
}

or-true : (x y : Bool) → y ≡ true → (x || y) ≡ true
or-true true y h = refl
or-true false y h = h

module _ (a : Arithmetic) where
  -- The globals that both files have agree, and a valid measurement is of a positive width.
  record IsSame (s : Sonar) (r : Sensors a) : Type 0 where
    start : s.start_time ≡ r.start_time
    width : s.pulse_width ≡ r.pulse_width
    valid : s.measurement_valid ≡ r.measurement_valid
    positive : s.measurement_valid ≡ true → 0 < s.pulse_width

  get_echo_pulse-IsSame :
      (gpio : ℕ) (events : Edges) (now : ℕ) (s : Sonar) (r : Sensors a)
      → IsSame s r
      → IsSame
          (get_echo_pulse echo_pin gpio events now s)
          (gpio_interrupt_handler a gpio events now r)
  unfolding get_echo_pulse gpio_interrupt_handler echo_edge
  get_echo_pulse-IsSame gpio events now s r h = ground arith

  -- What `getCm` of the test program makes of the end of the wait, and the robot's.
  abbrev pub AgreesOn :
      Kalman a
      → Option (Sonar × Kalman a × Double a)
      → Option (Sensors a × a.single.Number)
      → Type 0
  AgreesOn f none none = Unit {0}
  AgreesOn f (some (s, f', d)) (some (r, x)) =
      (r.distance_filter ≡ some f') × (x ≡ a.narrow d) × (d ≡ f'.x)
  AgreesOn f _ _ = ⊥

  handler-keeps_filter :
      (gpio : ℕ) (events : Edges) (now : ℕ) (r : Sensors a)
      → (gpio_interrupt_handler a gpio events now r).distance_filter ≡ r.distance_filter
  unfolding gpio_interrupt_handler echo_edge
  handler-keeps_filter gpio events now r = ground arith

  abbrev ends_robot : Bool → Bool → Sensors a → Sensors a × Wait → Sensors a × Wait
  ends_robot valid late r rest = elim valid [
    | true ↦ (r, measured)
    | false ↦ elim late [ true ↦ (r, timed_out) | false ↦ rest ]
  ]

  abbrev ends_bench : Bool → Bool → Sonar → Sonar × Wait → Sonar × Wait
  ends_bench valid late s rest = elim valid [
    | true ↦ (s, measured)
    | false ↦ elim late [ true ↦ (s, timed_out) | false ↦ rest ]
  ]

  timed_out-agrees :
      (f : Kalman a) (s : Sonar) (r : Sensors a)
      → r.distance_filter ≡ some f
      → AgreesOn f (judged a f (pulse_of (s, timed_out))) (read_pulse a (r, timed_out))
  unfolding judge_pulse read_pulse
  timed_out-agrees f s r known = (known, ap (estimate a) known, refl)

  judge_pulse-valid :
      (f : Kalman a) (s : Sonar) (width : ℕ)
      → s.measurement_valid ≡ true
      → 0 < width
      → ((judge_pulse a f s width).1 ≡ updated a (pulse_distance a width) f)
        × ((judge_pulse a f s width).2 ≡ (updated a (pulse_distance a width) f).x)
  unfolding judge_pulse
  judge_pulse-valid f s width valid wide =
      let some_width : (width == 0) ≡ false = ground arith in
      (rw (some_width, valid) refl, rw (some_width, valid) refl)

  kalman_step-updated :
      (f : Kalman a) (m : Double a)
      → (a.double.lt m (Distance.min_distance_cm a) || a.double.lt (Distance.max_distance_cm a) m)
        ≡ false
      → updated a m f ≡ Distance.kalman_step a m f
  unfolding updated Distance.kalman_step Distance.clamp_estimate
  kalman_step-updated f m e = rw e refl

  outside-updated :
      (f : Kalman a) (m : Double a)
      → (a.double.lt m (Distance.min_distance_cm a) || a.double.lt (Distance.max_distance_cm a) m)
        ≡ true
      → updated a m f ≡ f
  unfolding updated
  outside-updated f m e = rw e refl

  kalman_init-same : (q r p x : Double a) → kalman_init a q r p x ≡ Distance.kalman_init a q r p x
  unfolding kalman_init Distance.kalman_init
  kalman_init-same q r p x = refl

  kalman_update-updated :
      (f : Kalman a) (m : Double a) → kalman_update a (some f) m ≡ some (updated a m f)
  unfolding kalman_update
  kalman_update-updated f m =
      elim (Bool-cases (
        a.double.lt m (Distance.min_distance_cm a) || a.double.lt (Distance.max_distance_cm a) m)) [
          | inl e ↦ rw e (ap some (sym (outside-updated f m e)))
          | inr e ↦ rw e (ap some (sym (kalman_step-updated f m e)))
        ]

  measured-agrees :
      (f : Kalman a) (s : Sonar) (r : Sensors a)
      → IsSame s r
      → s.measurement_valid ≡ true
      → r.distance_filter ≡ some f
      → AgreesOn f (judged a f (pulse_of (s, measured))) (read_pulse a (r, measured))
  unfolding read_pulse
  measured-agrees f s r h valid known =
      let wide = h.positive valid in
      let m = pulse_distance a s.pulse_width in
      let (filter, result) = judge_pulse-valid f s s.pulse_width valid wide in
      let robots =
        ap (λ o. kalman_update a o (pulse_distance a r.pulse_width)) known
        ∙ ap (λ w. kalman_update a (some f) (pulse_distance a w)) (sym h.width)
        ∙ kalman_update-updated f m in
      (
        robots ∙ ap some (sym filter),
        ap (estimate a) robots ∙ ap a.narrow (sym result),
        result ∙ ap (λ (k : Kalman a). k.x) (sym filter),
      )

  look-agrees :
      (f : Kalman a) (s : Sonar) (r : Sensors a) (late vs vr : Bool) (rest : Sonar × Wait)
      (rest' : Sensors a × Wait)
      → IsSame s r
      → r.distance_filter ≡ some f
      → s.measurement_valid ≡ vs
      → vs ≡ vr
      → AgreesOn f (judged a f (pulse_of rest)) (read_pulse a rest')
      → AgreesOn f
          (judged a f (pulse_of (ends_bench vs late s rest)))
          (read_pulse a (ends_robot vr late r rest'))
  look-agrees f s r late true true rest rest' h known e same ih = measured-agrees f s r h e known
  look-agrees f s r late true false rest rest' h known e same ih = cc
  look-agrees f s r late false true rest rest' h known e same ih = cc
  look-agrees f s r true false false rest rest' h known e same ih = timed_out-agrees f s r known
  look-agrees f s r false false false rest rest' h known e same ih = ih

  wait-agrees :
      (polls : List Poll) (f : Kalman a) (s : Sonar) (r : Sensors a)
      → IsSame s r
      → r.distance_filter ≡ some f
      → AgreesOn f
          (judged a f (pulse_of (wait_echo echo_pin polls s)))
          (read_pulse a (wait_pulse a polls r))
  unfolding wait_echo wait_pulse read_pulse
  wait-agrees [] f s r h known = tt
  wait-agrees (interrupt gpio events now ∷ ps) f s r h known =
      wait-agrees ps f (get_echo_pulse echo_pin gpio events now s)
        (gpio_interrupt_handler a gpio events now r) (get_echo_pulse-IsSame gpio events now s r h)
        (handler-keeps_filter gpio events now r ∙ known)
  wait-agrees (look late ∷ ps) f s r h known =
      look-agrees f s r late s.measurement_valid r.measurement_valid (wait_echo echo_pin ps s)
        (wait_pulse a ps r) h known refl h.valid (wait-agrees ps f s r h known)

  robot-get_cm :
      (polls : List Poll) (f : Kalman a) (r : Sensors a)
      → r.distance_filter ≡ some f
      → Distance.get_cm a polls r
        ≡ read_pulse a
            (wait_pulse a polls (record r { measurement_valid = false; pulse_width = 0 }))
  unfolding Distance.get_cm
  robot-get_cm polls f r known = ground arith

  -- The measurement of the test program is the robot's: with the same start of an echo and the same
  -- filter, whatever happens while they wait, both still wait, or both return, and then with the
  -- same new filter, whose estimate is the result, rounded to a `float` by the robot.
  pub get_cm-agrees :
      (polls : List Poll) (f : Kalman a) (s : Sonar) (r : Sensors a)
      → s.start_time ≡ r.start_time
      → r.distance_filter ≡ some f
      → AgreesOn f (get_cm a echo_pin polls f s) (Distance.get_cm a polls r)
  unfolding get_cm
  get_cm-agrees polls f s r start known = rw (robot-get_cm polls f r known) (
      wait-agrees polls f (record s { measurement_valid = false; pulse_width = 0 })
        (record r { measurement_valid = false; pulse_width = 0 })
        (record { start = start; width = refl; valid = refl; positive = λ e. cc }) known)

  updated-IsWithin :
      IsIeee a.double
      → (m : Double a) (f : Kalman a) → IsWithin a f.x
      → IsWithin a (updated a m f).x
  updated-IsWithin ieee m f h =
      rw (kalman_update-updated f m) at (kalman_update-FilterFits a ieee (some f) m h)

  -- What is judged near is flagged, and the result lies within the limits.
  abbrev pub IsFlagged : Sonar × Kalman a × Double a → Type 0
  IsFlagged (s, f, d) =
      IsWithin a d × (d ≡ f.x) × (a.double.lt d (ten_cm a) ≡ true → s.obstacle_detected ≡ true)

  judge_pulse-IsFlagged :
      IsIeee a.double
      → (f : Kalman a) (s : Sonar) (width : ℕ) → IsWithin a f.x
      → IsFlagged (judge_pulse a f s width)
  unfolding judge_pulse
  judge_pulse-IsFlagged ieee f s width h =
      elim (Bool-cases ((width == 0) || not s.measurement_valid)) [
        | inl e ↦ rw e (h, refl, λ near. near)
        | inr e ↦
            rw e
              (updated-IsWithin ieee (pulse_distance a width) f h, refl, λ near. or-true _ _ near)
      ]

  -- For numbers as in IEEE 754: whenever `getCm` returns, its result is the filter's estimate and
  -- lies within 2 and 400 centimetres, if the estimate did so before, and the flag for an obstacle
  -- is set where the result is less than 10 centimetres.
  pub get_cm-IsFlagged :
      IsIeee a.double
      → (echopin : ℕ) (polls : List Poll) (f : Kalman a) (s : Sonar)
        (r : Sonar × Kalman a × Double a)
      → IsWithin a f.x
      → get_cm a echopin polls f s ≡ some r
      → IsFlagged r
  unfolding get_cm
  get_cm-IsFlagged ieee echopin polls f s r h e = judged-IsFlagged _ r e
    where
      judged-IsFlagged :
          (o : Option (Sonar × ℕ)) (q : Sonar × Kalman a × Double a)
          → judged a f o ≡ some q
          → IsFlagged q
      judged-IsFlagged none q p = cc
      judged-IsFlagged (some (t, width)) q p =
          let same : judge_pulse a f t width ≡ q = cc in
          rw (sym same) (judge_pulse-IsFlagged ieee f t width h)
