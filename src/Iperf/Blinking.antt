-- ===== src/Iperf/Blinking.antt =====
-- wifi/iperf/picow_iperf.c: the LED, and the key that ends the program.
use robotic_car_p3e.Prelude.{
  ℕ, ◌+◌, ◌≤◌, ◌<◌, ◌≡◌, refl, ap, ◌∙◌, Bool, true, false, not, List, [], ◌∷◌, ◌++◌, ltb,
  if◌then◌else◌, ℤ, pos, is_zero, tests, Bool-cases, inl, inr,
}
use robotic_car_p3e.Iperf.Station.{
  Station, fresh_station, Round, Write, Run, returned, led_interval_us, inverted, key_pressed_func,
  key_pressed_worker_func, press_all, with_write, loop, main,
}

-- In each round, the time that is read first is not after the one that is read later.
abbrev pub IsClock : List Round → Type 0
IsClock [] = Unit {0}
IsClock (r ∷ rs) = (r.now ≤ r.later) × IsClock rs

-- From the given time and value on: each write changes the LED, and comes more than a second behind
-- the one before.
abbrev pub Blinks : ℕ → Bool → List Write → Type 0
Blinks earliest on [] = Unit {0}
Blinks earliest on (w ∷ ws) =
    (earliest < w.time) × (w.value ≡ not on) × Blinks (w.time + led_interval_us) w.value ws

press_all-led_time : (ks : List ℤ) (s : Station) → (press_all ks s).led_time ≡ s.led_time
unfolding press_all key_pressed_worker_func
press_all-led_time [] s = refl
press_all-led_time (k ∷ ks) s = elim (Bool-cases (key_pressed_func k)) [
  | inl stop ↦ rw (stop, press_all) (press_all-led_time ks (key_pressed_worker_func s))
  | inr other ↦ rw (other, press_all) (press_all-led_time ks s)
]

press_all-led_on : (ks : List ℤ) (s : Station) → (press_all ks s).led_on ≡ s.led_on
unfolding press_all key_pressed_worker_func
press_all-led_on [] s = refl
press_all-led_on (k ∷ ks) s = elim (Bool-cases (key_pressed_func k)) [
  | inl stop ↦ rw (stop, press_all) (press_all-led_on ks (key_pressed_worker_func s))
  | inr other ↦ rw (other, press_all) (press_all-led_on ks s)
]

module _ (link_down : Bool → ℕ → Bool) where
  loop-Blinks :
      (rs : List Round) (s : Station) (earliest : ℕ) (on : Bool)
      → IsClock rs
      → s.led_time ≡ earliest
      → s.led_on ≡ on
      → Blinks earliest on (loop link_down rs s).writes
  unfolding loop
  loop-Blinks [] s earliest on c time value = tt
  loop-Blinks (r ∷ rs) s earliest on (within, c) time value =
      elim (Bool-cases (link_down s.sta_mode r.air)) [
        | inl down ↦ rw down tt
        | inr up ↦ elim (Bool-cases (ltb s.led_time r.now)) [
          | inr early ↦
              rw (up, early)
                (loop-Blinks rs (press_all r.keys s) earliest on c
                  (press_all-led_time r.keys s ∙ time) (press_all-led_on r.keys s ∙ value))
          | inl due ↦ elim (Bool-cases r.reads_back) [
            | inl good ↦
                let lit = inverted r.later s in
                rw (up, due, good)
                  (
                    omega (tests, due, time),
                    ap not value,
                    loop-Blinks rs (press_all r.keys lit) (r.later + led_interval_us) (not s.led_on)
                        c (press_all-led_time r.keys lit) (press_all-led_on r.keys lit),
                  )
            | inr bad ↦ rw (up, due, bad) (omega (tests, due, time), ap not value, tt)
          ]
        ]
      ]

  -- However the program runs: it turns the LED off first, and then on and off in turn, more than a
  -- second apart.
  pub main-Blinks :
      (init_err connect_err : ℤ) (keys : List ℤ) (rs : List Round)
      → IsClock rs
      → Blinks 0 true (main link_down init_err connect_err keys rs).writes
  unfolding main
  main-Blinks init_err connect_err keys rs c =
      let enabled = record fresh_station { driver_up = true; sta_mode = true } in
      elim (Bool-cases (is_zero init_err)) [
        | inr failed ↦ rw failed tt
        | inl up ↦ elim (Bool-cases (is_zero connect_err)) [
          | inr alone ↦ rw (up, alone) tt
          | inl joined ↦
              rw (up, joined)
                (loop-Blinks rs (press_all keys enabled) 0 true c (press_all-led_time keys enabled)
                  (press_all-led_on keys enabled))
        ]
      ]

-- One of the keys is the one that ends the program.
abbrev pub has_d : List ℤ → Bool
has_d [] = false
has_d (k ∷ ks) = if key_pressed_func k then true else has_d ks

-- The LED is read back as it shows, in every round.
abbrev pub AllReadBack : List Round → Type 0
AllReadBack [] = Unit {0}
AllReadBack (r ∷ rs) = (r.reads_back ≡ true) × AllReadBack rs

press_all-off : (ks : List ℤ) (s : Station) → s.sta_mode ≡ false → (press_all ks s).sta_mode ≡ false
unfolding press_all key_pressed_worker_func
press_all-off [] s off = off
press_all-off (k ∷ ks) s off = elim (Bool-cases (key_pressed_func k)) [
  | inl stop ↦ rw (stop, press_all) (press_all-off ks (key_pressed_worker_func s) refl)
  | inr other ↦ rw (other, press_all) (press_all-off ks s off)
]

press_all-d : (ks : List ℤ) (s : Station) → has_d ks ≡ true → (press_all ks s).sta_mode ≡ false
unfolding press_all key_pressed_worker_func
press_all-d [] s d = cc
press_all-d (k ∷ ks) s d = elim (Bool-cases (key_pressed_func k)) [
  | inl stop ↦ rw (stop, press_all) (press_all-off ks (key_pressed_worker_func s) refl)
  | inr other ↦ rw (other, press_all) (press_all-d ks s (rw other at d))
]

-- The run is over, as the program means it.
pub record IsOver (run : Run) : Type 0 where
  pub ending : run.ending ≡ returned 0
  pub driver : run.station.driver_up ≡ false

IsOver-with_write : (w : Write) (run : Run) → IsOver run → IsOver (with_write w run)
IsOver-with_write w run h = record { ending = h.ending; driver = h.driver }

module _ (link_down : Bool → ℕ → Bool) (off_down : (air : ℕ) → link_down false air ≡ true) where
  loop-off :
      (r : Round) (rs : List Round) (s : Station)
      → s.sta_mode ≡ false
      → IsOver (loop link_down (r ∷ rs) s)
  unfolding loop
  loop-off r rs s off =
      let down : link_down s.sta_mode r.air ≡ true =
        ap (λ on. link_down on r.air) off ∙ off_down r.air in
      rw down (record { ending = refl; driver = refl })

  -- What goes on behind the round goes on behind its LED.
  loop-cons :
      (r : Round) (rs : List Round) (s : Station)
      → r.reads_back ≡ true
      → ((t : Station) → IsOver (loop link_down rs (press_all r.keys t)))
      → IsOver (loop link_down (r ∷ rs) s)
  unfolding loop
  loop-cons r rs s good rest =
      let lit = inverted r.later s in
      let w : Write = record { time = r.later; value = lit.led_on } in
      elim (Bool-cases (link_down s.sta_mode r.air)) [
        | inl down ↦ rw down (record { ending = refl; driver = refl })
        | inr up ↦ elim (Bool-cases (ltb s.led_time r.now)) [
          | inl due ↦
              rw (up, due, good)
                (IsOver-with_write w (loop link_down rs (press_all r.keys lit)) (rest lit))
          | inr early ↦ rw (up, early) (rest s)
        ]
      ]

  loop-pressed :
      (before : List Round) (pressed next : Round) (rs : List Round) (s : Station)
      → AllReadBack (before ++ pressed ∷ [])
      → has_d pressed.keys ≡ true
      → IsOver (loop link_down (before ++ pressed ∷ next ∷ rs) s)
  loop-pressed [] pressed next rs s (good, more) d =
      loop-cons pressed (next ∷ rs) s good
        (λ t. loop-off next rs (press_all pressed.keys t) (press_all-d pressed.keys t d))
  loop-pressed (r ∷ before) pressed next rs s (good, more) d =
      loop-cons r (before ++ pressed ∷ next ∷ rs) s good
        (λ t. loop-pressed before pressed next rs (press_all r.keys t) more d)

  -- If the program is connected, a `d` that is pressed in some round ends it in the next round at the
  -- latest: it returns 0 and leaves the driver down. The link is down without the station mode, and
  -- the LED is read back as it shows.
  pub main-pressed :
      (keys : List ℤ) (before : List Round) (pressed next : Round) (rs : List Round)
      → AllReadBack (before ++ pressed ∷ [])
      → has_d pressed.keys ≡ true
      → IsOver (main link_down (pos 0) (pos 0) keys (before ++ pressed ∷ next ∷ rs))
  unfolding main
  main-pressed keys before pressed next rs good d =
      loop-pressed before pressed next rs
        (press_all keys (record fresh_station { driver_up = true; sta_mode = true })) good d
