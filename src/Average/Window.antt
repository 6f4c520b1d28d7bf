-- ===== src/Average/Window.antt =====
-- wifi/freertos/ping/picow_freertos_ping.c: which readings the averages are of.
use robotic_car_p3e.Prelude.{
  ℕ, zero, suc, ◌+◌, ◌-◌, ◌%◌, ◌<◌, ◌≡◌, ◌≢◌, refl, ap, ap₂, ◌∙◌, Bool, true, false, List, [], ◌∷◌,
  if◌then◌else◌, length, get_or, set, replicate, length-set, get_or-set_self, get_or-set_ne, min,
  arith,
}
use robotic_car_p3e.Robot.Floats.{Format}
use robotic_car_p3e.Average.Tasks.{
  Task, moving_avg, simple_avg, Float, float_zero, Moving, Simple, fresh_moving, moving_avg_task,
  simple_avg_task, receive_readings,
}

module _ (f : Format) where
  -- The sum that the task keeps, from the readings alone, the latest first: each reading is added,
  -- and the tenth before it subtracted first.
  abbrev pub window_sum : List (Float f) → Float f
  window_sum [] = float_zero f
  window_sum (x ∷ xs) = f.add (f.sub (window_sum xs) (get_or xs 9 (float_zero f))) x

  -- The task behind the given readings, the latest first.
  abbrev pub behind : List (Float f) → Moving f
  behind [] = fresh_moving f
  behind (x ∷ xs) = moving_avg_task f x (behind xs)

  -- The buffer holds the last ten readings, each at its place, and zeros where there are none.
  record IsWindow (xs : List (Float f)) (m : Moving f) : Type 0 where
    index : m.index ≡ length xs % 10
    count : m.count ≡ min (length xs) 10
    size : length m.buffer ≡ 10
    sum : m.sum ≡ window_sum xs
    slot :
        (j : ℕ)
        → j < 10
        → get_or m.buffer ((length xs + 9 - j) % 10) (float_zero f) ≡ get_or xs j (float_zero f)

  get_or-zeros : (n k : ℕ) → get_or (replicate n (float_zero f)) k (float_zero f) ≡ float_zero f
  get_or-zeros zero k = refl
  get_or-zeros (suc n) zero = refl
  get_or-zeros (suc n) (suc k) = get_or-zeros n k

  -- The reading that a round subtracts.
  oldest :
      (xs : List (Float f)) (m : Moving f)
      → IsWindow xs m
      → get_or m.buffer m.index (float_zero f) ≡ get_or xs 9 (float_zero f)
  oldest xs m h =
      let here : m.index ≡ (length xs + 9 - 9) % 10 = omega (arith, h.index) in
      ap (λ i. get_or m.buffer i (float_zero f)) here ∙ h.slot 9 (omega arith)

  moving_avg_task-IsWindow :
      (x : Float f) (xs : List (Float f)) (m : Moving f)
      → IsWindow xs m
      → IsWindow (x ∷ xs) (moving_avg_task f x m)
  unfolding moving_avg_task
  moving_avg_task-IsWindow x xs m h = record {
    index = omega (arith, h.index);
    count = ground (arith, h.count);
    size = length-set m.buffer m.index x ∙ h.size;
    sum = ap₂ (λ s o. f.add (f.sub s o) x) h.sum (oldest xs m h);
    slot = slot;
  }
    where
      slot :
          (j : ℕ)
          → j < 10
          → get_or (set m.buffer m.index x) ((suc (length xs) + 9 - j) % 10) (float_zero f)
            ≡ get_or (x ∷ xs) j (float_zero f)
      slot zero low =
          let here : (suc (length xs) + 9 - 0) % 10 ≡ m.index = omega (arith, h.index) in
          ap (λ i. get_or (set m.buffer m.index x) i (float_zero f)) here
          ∙ get_or-set_self m.buffer m.index x (float_zero f) (omega (arith, h.index, h.size))
      slot (suc i) low =
          let here : (suc (length xs) + 9 - suc i) % 10 ≡ (length xs + 9 - i) % 10 = omega arith in
          let other : m.index ≢ (length xs + 9 - i) % 10 = λ e. omega (arith, h.index) in
          ap (λ k. get_or (set m.buffer m.index x) k (float_zero f)) here
          ∙ get_or-set_ne m.buffer m.index ((length xs + 9 - i) % 10) x (float_zero f) other
          ∙ h.slot i (omega arith)

  behind-IsWindow : (xs : List (Float f)) → IsWindow xs (behind xs)
  behind-IsWindow [] = record {
    index = refl;
    count = omega arith;
    size = refl;
    sum = refl;
    slot = λ j low. get_or-zeros 10 ((0 + 9 - j) % 10);
  }
  behind-IsWindow (x ∷ xs) = moving_avg_task-IsWindow x xs (behind xs) (behind-IsWindow xs)

  -- Behind any readings, the moving average is the sum that adds each reading and subtracts the
  -- tenth before it, or zero where there is none, divided by the number of readings, ten at most.
  pub moving_avg_task-window :
      (x : Float f) (xs : List (Float f))
      → (behind (x ∷ xs)).average ≡ f.div (window_sum (x ∷ xs)) (f.dec (min (length (x ∷ xs)) 10) 0)
  unfolding moving_avg_task
  moving_avg_task-window x xs =
      let h = behind-IsWindow (x ∷ xs) in ap₂ (λ s n. f.div s (f.dec n 0)) h.sum h.count

  -- The readings that go to a task, in their order.
  abbrev is_task : Task → Task → Bool
  is_task moving_avg moving_avg = true
  is_task simple_avg simple_avg = true
  is_task _ _ = false

  abbrev pub readings_of : Task → List (Task × Float f) → List (Float f)
  readings_of task [] = []
  readings_of task ((to, x) ∷ rs) =
      if is_task task to then x ∷ readings_of task rs else readings_of task rs

  abbrev pub all_moving : List (Float f) → Moving f → Moving f
  all_moving [] m = m
  all_moving (x ∷ xs) m = all_moving xs (moving_avg_task f x m)

  abbrev pub all_simple : List (Float f) → Simple f → Simple f
  all_simple [] s = s
  all_simple (x ∷ xs) s = all_simple xs (simple_avg_task f x s)

  -- Each reading goes to one of the two tasks and not to the other: the averages are of two parts of
  -- the readings, which together are all of them.
  pub receive_readings-parts :
      (rs : List (Task × Float f)) (m : Moving f) (s : Simple f)
      → (receive_readings f rs (m, s)
          ≡ (all_moving (readings_of moving_avg rs) m, all_simple (readings_of simple_avg rs) s))
        × (length (readings_of moving_avg rs) + length (readings_of simple_avg rs) ≡ length rs)
  unfolding receive_readings
  receive_readings-parts [] m s = (refl, refl)
  receive_readings-parts ((moving_avg, x) ∷ rs) m s =
      let (parts, sizes) = receive_readings-parts rs (moving_avg_task f x m) s in
      (parts, omega (arith, sizes))
  receive_readings-parts ((simple_avg, x) ∷ rs) m s =
      let (parts, sizes) = receive_readings-parts rs m (simple_avg_task f x s) in
      (parts, omega (arith, sizes))
