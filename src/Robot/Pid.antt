-- ===== src/Robot/Pid.antt =====
-- buddy2/buddy2.c: the bounds that the PID controller and the PWM set-up keep.
use robotic_car_p3e.Prelude.{ℕ, ◌*◌, ◌/◌, ◌^◌, ◌≤◌, ◌≡◌, false, arith, Bool-cases, inl, inr}
use robotic_car_p3e.Robot.Floats.{Format, IsIeee, Arithmetic}
use robotic_car_p3e.Robot.Sensors.{Float}
use robotic_car_p3e.Robot.Motors.{clamp_integral, clamp_duty, compute_pid, pwm_divider16}

-- A literal is not less than one that is not greater.
pub lt_false :
    (f : Format)
    → IsIeee f
    → (m i n j : ℕ) → n * 10 ^ i ≤ m * 10 ^ j
    → f.lt (f.dec m i) (f.dec n j) ≡ false
lt_false f ieee m i n j h = elim (Bool-cases (f.lt (f.dec m i) (f.dec n j))) [
  | inl e ↦ absurd (omega (arith, ieee.lt-dec m i n j e))
  | inr e ↦ e
]

module _ (a : Arithmetic) where
  -- A duty cycle between 0 and 0.99, which a NaN passes as well.
  pub record IsDuty (x : Float a) : Type 0 where
    pub low : a.single.lt x (a.single.dec 0 0) ≡ false
    pub high : a.single.lt (a.single.dec 99 2) x ≡ false

  -- An accumulated error between -1000 and 1000, which a NaN passes as well.
  pub record IsIntegral (x : Float a) : Type 0 where
    pub low : a.single.lt x (a.single.neg (a.single.dec 10000 1)) ≡ false
    pub high : a.single.lt (a.single.dec 10000 1) x ≡ false

  module _ (ieee : IsIeee a.single) where
    -- A literal between 0 and 0.99.
    pub dec-IsDuty : (m i : ℕ) → m * 10 ^ 2 ≤ 99 * 10 ^ i → IsDuty (a.single.dec m i)
    dec-IsDuty m i h = record {
      low = lt_false a.single ieee m i 0 0 (omega arith);
      high = lt_false a.single ieee 99 2 m i h;
    }

    clamp_duty-IsDuty : (x : Float a) → IsDuty (clamp_duty a x)
    unfolding clamp_duty
    clamp_duty-IsDuty x = elim (Bool-cases (a.single.lt (a.single.dec 99 2) x)) [
      | inl e ↦ rw e (dec-IsDuty 99 2 (omega arith))
      | inr e ↦ elim (Bool-cases (a.single.lt x (a.single.dec 0 0))) [
        | inl l ↦ rw (e, l) (dec-IsDuty 0 0 (omega arith))
        | inr l ↦ rw (e, l) (record { low = l; high = e })
      ]
    ]

    clamp_integral-IsIntegral : (x : Float a) → IsIntegral (clamp_integral a x)
    unfolding clamp_integral
    clamp_integral-IsIntegral x =
        let max = a.single.dec 10000 1 in
        let least = ieee.lt-neg 10000 1 10000 1 in
        elim (Bool-cases (a.single.lt max x)) [
          | inl e ↦ rw (e, least) (record { low = least; high = ieee.lt_irrefl max })
          | inr e ↦ elim (Bool-cases (a.single.lt x (a.single.neg max))) [
            | inl l ↦ rw (e, l) (record { low = ieee.lt_irrefl _; high = negative })
            | inr l ↦ rw (e, l) (record { low = l; high = e })
          ]
        ]
      where
        negative : a.single.lt (a.single.dec 10000 1) (a.single.neg (a.single.dec 10000 1)) ≡ false
        negative = ieee.lt-neg 10000 1 10000 1

    -- For numbers as in IEEE 754, whatever the speeds are, NaN included, the controller's duty cycle
    -- is neither below 0 nor above 0.99, and the accumulated error is neither below -1000 nor above
    -- 1000.
    pub compute_pid_lem :
        (target_speed current_speed integral prev_error : Float a)
        → let c = compute_pid a target_speed current_speed integral prev_error in
          IsDuty c.duty_cycle × IsIntegral c.integral
    unfolding compute_pid
    compute_pid_lem target_speed current_speed integral prev_error =
        (clamp_duty-IsDuty _, clamp_integral-IsIntegral _)

  -- The integer part of the clock's divider is never 0.
  pub pwm_divider16_le : (f_sys : ℕ) (freq : Float a) → 1 ≤ pwm_divider16 a f_sys freq / 16
  unfolding pwm_divider16
  pwm_divider16_le f_sys freq = ground arith
