-- ===== src/Robot/Upkeep.antt =====
-- buddy5/buddy5.c and main.c: the invariant of the sensors' globals, kept by every interrupt and
-- every round.
use mathlib.Core.Path.{subst}
use robotic_car_p3e.Prelude.{
  ℕ, zero, suc, ◌+◌, ◌<◌, ◌≡◌, sym, ap, ◌∙◌, true, false, Option, none, some, List, [], ◌∷◌, arith,
  Option-cases, inl, inr,
}
use robotic_car_p3e.Robot.Floats.{IsIeee, Arithmetic}
use robotic_car_p3e.Robot.Sensors.{
  Edges, Kalman, Sensors, Wheel, Float, gpio_interrupt_handler, echo_edge, count_pulse,
  distance_per_pulse_cm, measurement_timeout_us,
}
use robotic_car_p3e.Robot.Distance.{
  Poll, interrupt, look, Wait, measured, timed_out, waiting, wait_pulse, read_pulse, get_cm,
  pulse_distance, judge_distance, end_beep, after_measuring, measure_distance_and_buzz,
}
use robotic_car_p3e.Robot.Ranging.{FilterFits, kalman_update-FilterFits}

module _ (a : Arithmetic) where
  -- The distance of so many pulses: the distance of one, added up.
  abbrev pub travelled : ℕ → Float a
  travelled zero = a.single.dec 0 0
  travelled (suc n) = a.single.add (travelled n) (distance_per_pulse_cm a)

  -- Both distances of a wheel are what its pulses come to.
  pub record WheelFits (w : Wheel a) : Type 0 where
    pub way : w.incremental_distance ≡ travelled w.pulse_count
    pub total : w.total_distance ≡ travelled w.pulse_count

  -- The flag of a measurement says that the pulse took some time, and less than the limit.
  pub record IsValid (s : Sensors a) : Type 0 where
    pub left_wheel : WheelFits s.left
    pub right_wheel : WheelFits s.right
    pub echo :
        s.measurement_valid ≡ true → (0 < s.pulse_width) × (s.pulse_width < measurement_timeout_us)
    pub beep : s.buzzer_pin ≡ s.buzzer_on
    pub filter : FilterFits a s.distance_filter

  count_pulse-WheelFits : (now : ℕ) (w : Wheel a) → WheelFits w → WheelFits (count_pulse a now w)
  unfolding count_pulse
  count_pulse-WheelFits now w h =
      let next : w.pulse_count + 1 ≡ suc w.pulse_count = omega arith in
      let step = ap travelled (sym next) in
      record {
        way = ap (λ d. a.single.add d (distance_per_pulse_cm a)) h.way ∙ step;
        total = ap (λ d. a.single.add d (distance_per_pulse_cm a)) h.total ∙ step;
      }

  echo_edge-IsValid :
      (events : Edges) (now : ℕ) (s : Sensors a) → IsValid s → IsValid (echo_edge a events now s)
  unfolding echo_edge
  echo_edge-IsValid events now s h = ground arith

  pub gpio_interrupt_handler-IsValid :
      (gpio : ℕ) (events : Edges) (now : ℕ) (s : Sensors a)
      → IsValid s
      → IsValid (gpio_interrupt_handler a gpio events now s)
  unfolding gpio_interrupt_handler
  gpio_interrupt_handler-IsValid gpio events now s h = ground (
    arith,
    echo_edge-IsValid events now s h,
    count_pulse-WheelFits now s.left h.left_wheel,
    count_pulse-WheelFits now s.right h.right_wheel,
  )

  wait_pulse-IsValid :
      (polls : List Poll) (s : Sensors a) → IsValid s → IsValid (wait_pulse a polls s).0
  unfolding wait_pulse
  wait_pulse-IsValid [] s h = h
  wait_pulse-IsValid (interrupt gpio events now ∷ ps) s h =
      wait_pulse-IsValid ps _ (gpio_interrupt_handler-IsValid gpio events now s h)
  wait_pulse-IsValid (look late ∷ ps) s h = ground (arith, wait_pulse-IsValid ps s h)

  -- The state in which the waiting begins.
  abbrev ready : Sensors a → Sensors a
  ready s = record s { measurement_valid = false; pulse_width = 0 }

  ready-IsValid : (s : Sensors a) → IsValid s → IsValid (ready s)
  ready-IsValid s h = ground arith

  get_cm-none :
      (polls : List Poll) (s : Sensors a)
      → s.distance_filter ≡ none
      → get_cm a polls s ≡ some (s, a.narrow (a.double.dec 0 1))
  unfolding get_cm
  get_cm-none polls s h = ground arith

  get_cm-some :
      (polls : List Poll) (s : Sensors a) (f : Kalman a)
      → s.distance_filter ≡ some f
      → get_cm a polls s ≡ read_pulse a (wait_pulse a polls (ready s))
  unfolding get_cm
  get_cm-some polls s f h = ground arith

  module _ (ieee : IsIeee a.double) where
    -- What a measurement returns, if it does.
    abbrev pub Keeps : Option (Sensors a × Float a) → Type 0
    Keeps none = Unit {0}
    Keeps (some (s, d)) = IsValid s

    read_pulse-Keeps : (r : Sensors a × Wait) → IsValid r.0 → Keeps (read_pulse a r)
    unfolding read_pulse
    read_pulse-Keeps (s, measured) h = record {
      left_wheel = h.left_wheel;
      right_wheel = h.right_wheel;
      echo = h.echo;
      beep = h.beep;
      filter =
          kalman_update-FilterFits a ieee s.distance_filter (pulse_distance a s.pulse_width)
            h.filter;
    }
    read_pulse-Keeps (s, timed_out) h = h
    read_pulse-Keeps (s, waiting) h = tt

    pub get_cm-Keeps : (polls : List Poll) (s : Sensors a) → IsValid s → Keeps (get_cm a polls s)
    get_cm-Keeps polls s h = elim (Option-cases s.distance_filter) [
      | inl e ↦ subst Keeps (sym (get_cm-none polls s e)) h
      | inr (f, e) ↦
          subst Keeps (sym (get_cm-some polls s f e))
            (read_pulse-Keeps _ (wait_pulse-IsValid polls (ready s) (ready-IsValid s h)))
    ]

    judge_distance-IsValid :
        (now : ℕ) (d : Float a) (s : Sensors a) → IsValid s → IsValid (judge_distance a now d s)
    unfolding judge_distance
    judge_distance-IsValid now d s h = ground arith

    end_beep-IsValid : (now : ℕ) (s : Sensors a) → IsValid s → IsValid (end_beep a now s)
    unfolding end_beep
    end_beep-IsValid now s h = ground arith

    -- What a call of `measureDistanceAndBuzz` leaves, if it returns.
    abbrev pub Leaves : Option (Sensors a) → Type 0
    Leaves none = Unit {0}
    Leaves (some s) = IsValid s

    after_measuring-Leaves :
        (now : ℕ) (o : Option (Sensors a × Float a)) → Keeps o → Leaves (after_measuring a now o)
    unfolding after_measuring
    after_measuring-Leaves now none h = tt
    after_measuring-Leaves now (some (s, d)) h =
        end_beep-IsValid now _ (judge_distance-IsValid now d s h)

    checked-IsValid :
        (now : ℕ) (s : Sensors a)
        → IsValid s
        → IsValid (record s { last_distance_check_time = now })
    checked-IsValid now s h = ground arith

    pub measure_distance_and_buzz-Leaves :
        (now : ℕ) (polls : List Poll) (s : Sensors a)
        → IsValid s
        → Leaves (measure_distance_and_buzz a now polls s)
    unfolding measure_distance_and_buzz
    measure_distance_and_buzz-Leaves now polls s h = ground (
      arith,
      end_beep-IsValid now s h,
      after_measuring-Leaves now _ (get_cm-Keeps polls _ (checked-IsValid now s h)),
    )
