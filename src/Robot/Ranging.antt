-- ===== src/Robot/Ranging.antt =====
-- buddy5/buddy5.c: what the interrupt handlers, the filter and the measurement come to.
use robotic_car_p3e.Prelude.{
  ◌==◌, ◌++◌, ap, ◌∙◌, ℕ, ◌+◌, ◌-◌, ◌<◌, ◌≡◌, refl, Bool, true, false, Option, none, some, List, [],
  ◌∷◌, if◌then◌else◌, arith, Bool-cases, Option-cases, inl, inr,
}
use robotic_car_p3e.Robot.Floats.{IsIeee, Arithmetic}
use robotic_car_p3e.Robot.Sensors.{
  Edges, Kalman, Sensors, Float, Double, minus64, gpio_interrupt_handler, get_echo_pulse,
  encoder_callback, echo_edge, echo_pin, measurement_timeout_us,
}
use robotic_car_p3e.Robot.Distance.{
  Poll, interrupt, look, min_distance_cm, max_distance_cm, clamp_estimate, kalman_step,
  kalman_update, wait_pulse, read_pulse, get_cm, estimate, pulse_distance, judge_distance, end_beep,
  after_measuring, measure_distance_and_buzz, beep_us,
}

-- A wait loop that looks at the clock once its time is up.
abbrev pub has_late : List Poll → Bool
has_late [] = false
has_late (interrupt gpio events now ∷ ps) = has_late ps
has_late (look late ∷ ps) = if late then true else has_late ps

module _ (a : Arithmetic) where
  -- The one handler that is installed does what the two separate handlers do, one after the other,
  -- at every pin.
  pub gpio_interrupt_handler_lem :
      (gpio : ℕ) (events : Edges) (now : ℕ) (s : Sensors a)
      → gpio_interrupt_handler a gpio events now s
        ≡ encoder_callback a gpio now (get_echo_pulse a gpio events now s)
  unfolding gpio_interrupt_handler get_echo_pulse encoder_callback
  gpio_interrupt_handler_lem gpio events now s = ground arith

  -- Within the limits of the sensor, which a NaN passes as well.
  pub record IsWithin (x : Double a) : Type 0 where
    pub low : a.double.lt x (min_distance_cm a) ≡ false
    pub high : a.double.lt (max_distance_cm a) x ≡ false

  clamp_estimate-IsWithin : IsIeee a.double → (x : Double a) → IsWithin (clamp_estimate a x)
  unfolding clamp_estimate
  clamp_estimate-IsWithin ieee x =
      let f = a.double in
      elim (Bool-cases (f.lt (max_distance_cm a) (min_distance_cm a))) [
        | inl e ↦ absurd (omega (arith, ieee.lt-dec 4000 1 20 1 e))
        | inr e ↦ elim (Bool-cases (f.lt x (min_distance_cm a))) [
          | inl low ↦ rw (low, e) (record { low = ieee.lt_irrefl _; high = e })
          | inr low ↦ elim (Bool-cases (f.lt (max_distance_cm a) x)) [
            | inl high ↦ rw (low, high) (record { low = e; high = ieee.lt_irrefl _ })
            | inr high ↦ rw (low, high) (record { low = low; high = high })
          ]
        ]
      ]

  -- An estimate within the limits, where there is a filter.
  abbrev pub FilterFits : Option (Kalman a) → Type 0
  FilterFits none = Unit {0}
  FilterFits (some f) = IsWithin f.x

  kalman_step-IsWithin :
      IsIeee a.double → (m : Double a) (f : Kalman a) → IsWithin (kalman_step a m f).x
  unfolding kalman_step
  kalman_step-IsWithin ieee m f = clamp_estimate-IsWithin ieee _

  -- For numbers as in IEEE 754, whatever is measured, NaN included, the filter's estimate stays
  -- within 2 and 400 centimetres, if it was so before.
  pub kalman_update-FilterFits :
      IsIeee a.double
      → (f : Option (Kalman a)) (m : Double a) → FilterFits f
      → FilterFits (kalman_update a f m)
  unfolding kalman_update
  kalman_update-FilterFits ieee none m h = tt
  kalman_update-FilterFits ieee (some f) m h = ground (arith, kalman_step-IsWithin ieee m f)

  wait_pulse-total :
      (polls : List Poll) (s : Sensors a)
      → has_late polls ≡ true
      → (r : Sensors a × Float a) × (read_pulse a (wait_pulse a polls s) ≡ some r)
  unfolding wait_pulse read_pulse
  wait_pulse-total [] s h = cc
  wait_pulse-total (interrupt gpio events now ∷ ps) s h =
      wait_pulse-total ps (gpio_interrupt_handler a gpio events now s) h
  wait_pulse-total (look late ∷ ps) s h = elim (Bool-cases s.measurement_valid) [
    | inl e ↦ rw e (_, refl)
    | inr e ↦ elim (Bool-cases late) [
      | inl l ↦ rw (e, l) (_, refl)
      | inr l ↦ rw (e, l) (wait_pulse-total ps _ (ground arith))
    ]
  ]

  -- `get_cm` returns if a round of its loop sees that the time is up, whatever interrupts come in
  -- before.
  pub get_cm-total :
      (polls : List Poll) (s : Sensors a)
      → has_late polls ≡ true
      → (r : Sensors a × Float a) × (get_cm a polls s ≡ some r)
  unfolding get_cm
  get_cm-total polls s h = elim (Option-cases s.distance_filter) [
    | inl e ↦ rw e (_, refl)
    | inr (f, e) ↦ rw e (wait_pulse-total polls _ h)
  ]

  -- What does not touch the measurement: interrupts of other pins, and, while no measurement is
  -- valid, rounds of the loop before the time is up.
  abbrev pub Others : Bool → List Poll → Type 0
  Others valid [] = Unit {0}
  Others valid (interrupt gpio events now ∷ ps) = ((gpio == echo_pin) ≡ false) × Others valid ps
  Others valid (look late ∷ ps) = (late ≡ false) × (valid ≡ false) × Others valid ps

  -- Two states that agree on the measurement.
  record Agree (s t : Sensors a) : Type 0 where
    start : t.start_time ≡ s.start_time
    width : t.pulse_width ≡ s.pulse_width
    flag : t.measurement_valid ≡ s.measurement_valid
    filter : t.distance_filter ≡ s.distance_filter

  other-Agree :
      (gpio : ℕ) (events : Edges) (now : ℕ) (s : Sensors a)
      → (gpio == echo_pin) ≡ false
      → Agree s (gpio_interrupt_handler a gpio events now s)
  unfolding gpio_interrupt_handler
  other-Agree gpio events now s h = ground arith

  wait_pulse-Others :
      (valid : Bool) (ps qs : List Poll) (s : Sensors a)
      → Others valid ps
      → s.measurement_valid ≡ valid
      → (t : Sensors a) × (wait_pulse a (ps ++ qs) s ≡ wait_pulse a qs t) × Agree s t
  unfolding wait_pulse
  wait_pulse-Others valid [] qs s o h =
      (s, refl, record { start = refl; width = refl; flag = refl; filter = refl })
  wait_pulse-Others valid (interrupt gpio events now ∷ ps) qs s (other, o) h =
      let u = gpio_interrupt_handler a gpio events now s in
      let g = other-Agree gpio events now s other in
      let (t, e, k) = wait_pulse-Others valid ps qs u o (g.flag ∙ h) in
      (
        t,
        e,
        record {
          start = k.start ∙ g.start;
          width = k.width ∙ g.width;
          flag = k.flag ∙ g.flag;
          filter = k.filter ∙ g.filter;
        },
      )
  wait_pulse-Others valid (look late ∷ ps) qs s (soon, invalid, o) h =
      let (t, e, k) = wait_pulse-Others valid ps qs s o h in (t, rw (h, invalid, soon) e, k)

  abbrev pub rise : Edges
  rise = record { rise = true; fall = false }

  abbrev pub fall : Edges
  fall = record { rise = false; fall = true }

  edge-rise :
      (t0 : ℕ) (s : Sensors a)
      → gpio_interrupt_handler a echo_pin rise t0 s
        ≡ record s { start_time = t0; measurement_valid = false }
  unfolding gpio_interrupt_handler echo_edge
  edge-rise t0 s = refl

  edge-fall :
      (t0 t1 : ℕ) (s : Sensors a)
      → s.start_time ≡ t0
      → t0 < t1
      → t1 < t0 + measurement_timeout_us
      → gpio_interrupt_handler a echo_pin fall t1 s
        ≡ record s { pulse_width = t1 - t0; measurement_valid = true }
  unfolding gpio_interrupt_handler echo_edge
  edge-fall t0 t1 s h order short = ground arith

  read-measured :
      (late : Bool) (more : List Poll) (v : Sensors a) (f : Kalman a) (w : ℕ)
      → v.measurement_valid ≡ true
      → v.distance_filter ≡ some f
      → v.pulse_width ≡ w
      → let updated = kalman_update a (some f) (pulse_distance a w) in
        read_pulse a (wait_pulse a (look late ∷ more) v)
        ≡ some (record v { distance_filter = updated }, estimate a updated)
  unfolding read_pulse wait_pulse
  read-measured late more v f w valid known wide = rw (valid, known, wide) refl

  get_cm-filter :
      (polls : List Poll) (s : Sensors a) (f : Kalman a)
      → s.distance_filter ≡ some f
      → get_cm a polls s
        ≡ read_pulse a
            (wait_pulse a polls (record s { measurement_valid = false; pulse_width = 0 }))
  unfolding get_cm
  get_cm-filter polls s f known = rw known refl

  -- An echo of less than 25 milliseconds is measured, whatever rounds the loop makes before the time
  -- is up and before the echo has ended, and whatever other interrupts come: the filter is updated by
  -- the distance of the time between the echo's two edges, and its new estimate is what is returned.
  pub get_cm-echo :
      (s : Sensors a) (f : Kalman a) (t0 t1 : ℕ) (before during behind more : List Poll)
      (late : Bool)
      → s.distance_filter ≡ some f
      → Others false before
      → Others false during
      → Others true behind
      → t0 < t1
      → t1 < t0 + measurement_timeout_us
      → let updated = kalman_update a (some f) (pulse_distance a (t1 - t0)) in
        (r : Sensors a) × (get_cm a
            (before
              ++ (interrupt echo_pin rise t0
                  ∷ (during ++ (interrupt echo_pin fall t1 ∷ (behind ++ (look late ∷ more))))))
            s
          ≡ some (r, estimate a updated))
        × (r.pulse_width ≡ t1 - t0)
        × (r.distance_filter ≡ updated)
  unfolding wait_pulse
  get_cm-echo s f t0 t1 before during behind more late known ob od oe order short =
      let s0 : Sensors a = record s { measurement_valid = false; pulse_width = 0 } in
      let (t, to_rise, k) = wait_pulse-Others false before _ s0 ob refl in
      let risen = gpio_interrupt_handler a echo_pin rise t0 t in
      let up = edge-rise t0 t in
      let (u, to_fall, l) =
        wait_pulse-Others false during _ risen od
          (ap (λ (q : Sensors a). q.measurement_valid) up) in
      let fallen = gpio_interrupt_handler a echo_pin fall t1 u in
      let down =
        edge-fall t0 t1 u (l.start ∙ ap (λ (q : Sensors a). q.start_time) up) order short in
      let (v, to_look, m) =
        wait_pulse-Others true behind _ fallen oe
          (ap (λ (q : Sensors a). q.measurement_valid) down) in
      let width = m.width ∙ ap (λ (q : Sensors a). q.pulse_width) down in
      let valid = m.flag ∙ ap (λ (q : Sensors a). q.measurement_valid) down in
      let filter =
        m.filter
        ∙ ap (λ (q : Sensors a). q.distance_filter) down
        ∙ l.filter
        ∙ ap (λ (q : Sensors a). q.distance_filter) up
        ∙ k.filter
        ∙ known in
      (
        record v { distance_filter = kalman_update a (some f) (pulse_distance a (t1 - t0)) },
        get_cm-filter _ s f known
            ∙ ap (read_pulse a) (to_rise ∙ to_fall ∙ to_look)
            ∙ read-measured late more v f (t1 - t0) valid filter width,
        width,
        refl,
      )

  end_beep-short :
      (now : ℕ) (s : Sensors a)
      → (end_beep a now s).buzzer_on ≡ true
      → minus64 now (end_beep a now s).buzzer_start_time < beep_us
  unfolding end_beep
  end_beep-short now s h = ground arith

  after_measuring-short :
      (now : ℕ) (o : Option (Sensors a × Float a)) (s : Sensors a)
      → after_measuring a now o ≡ some s
      → s.buzzer_on ≡ true
      → minus64 now s.buzzer_start_time < beep_us
  unfolding after_measuring
  after_measuring-short now none s h on = cc
  after_measuring-short now (some (t, d)) s h on =
      ground (arith, end_beep-short now (judge_distance a now d t))

  -- Behind every call of `measureDistanceAndBuzz` the buzzer is on only if it was turned on less
  -- than 200 milliseconds before the time that the call has read.
  pub measure_distance_and_buzz-short :
      (now : ℕ) (polls : List Poll) (s s' : Sensors a)
      → measure_distance_and_buzz a now polls s ≡ some s'
      → s'.buzzer_on ≡ true
      → minus64 now s'.buzzer_start_time < beep_us
  unfolding measure_distance_and_buzz
  measure_distance_and_buzz-short now polls s s' h on = ground (
    arith,
    end_beep-short now s,
    after_measuring-short now (get_cm a polls (record s { last_distance_check_time = now })) s',
  )
