-- ===== src/Average/Drain.antt =====
-- wifi/freertos/ping/picow_freertos_ping.c: the tasks never wait for one another in a circle.
use robotic_car_p3e.Prelude.{
  ℕ, zero, suc, ◌+◌, ◌*◌, ◌<◌, ◌≡◌, refl, ap, ap₂, Option, none, some, List, [], ◌∷◌, ◌++◌, length,
  arith,
}
use robotic_car_p3e.Robot.Floats.{Format}
use robotic_car_p3e.Average.Tasks.{Float}
use robotic_car_p3e.Average.Flow.{measured_at, measured_by, measured}
use robotic_car_p3e.Average.Pipeline.{
  Message, Stage, delayed, at_reading, at_message, Turn, temp, moving, simple, print, System,
  run_temp, run_moving, run_simple, run_print, run_task, schedule,
}

-- What is left to do for a reading: 6 turns, less those that are done.
abbrev pub stage_work : {A : Type 0} → Stage A → ℕ
stage_work delayed = 0
stage_work (at_reading x) = 6
stage_work (at_message x) = 2

abbrev pub unsent_work : {A : Type 0} → Option A → ℕ
unsent_work none = 0
unsent_work (some a) = 2

module _ (f : Format) where
  abbrev pub work : System f → ℕ
  work s =
      stage_work s.stage
      + 3 * length s.temp_queue
      + unsent_work s.moving_unsent
      + unsent_work s.simple_unsent
      + length s.print_queue

  -- A turn that does a step of the work.
  abbrev Useful : System f → Type 0
  Useful s = (t : Turn) × (suc (work (run_task f t s)) ≡ work s) × (measured_by f t s ≡ [])

  can_print :
      (s : System f) (m : Message (Float f)) (ms : List (Message (Float f)))
      → s.print_queue ≡ m ∷ ms
      → Useful s
  unfolding run_task run_print
  can_print s m ms queue = (print, ground arith, refl)

  -- With nothing to print, a task that has a message can send it.
  can_moving :
      (s : System f) (a : Float f) → s.print_queue ≡ [] → s.moving_unsent ≡ some a → Useful s
  unfolding run_task run_moving
  can_moving s a empty unsent = (moving, ground arith, refl)

  can_simple :
      (s : System f) (a : Float f) → s.print_queue ≡ [] → s.simple_unsent ≡ some a → Useful s
  unfolding run_task run_simple
  can_simple s a empty unsent = (simple, ground arith, refl)

  can_message :
      (s : System f) (x : Float f) → s.print_queue ≡ [] → s.stage ≡ at_message x → Useful s
  unfolding run_task run_temp
  can_message s x empty stage = (temp 0, ground arith, ap (measured_at f 0) stage)

  -- With no average to send, a reading can be taken.
  can_take :
      (s : System f) (x : Float f) (xs : List (Float f))
      → s.moving_unsent ≡ none
      → s.temp_queue ≡ x ∷ xs
      → Useful s
  unfolding run_task run_moving
  can_take s x xs idle queue = (moving, ground arith, refl)

  can_reading : (s : System f) (x : Float f) → s.temp_queue ≡ [] → s.stage ≡ at_reading x → Useful s
  unfolding run_task run_temp
  can_reading s x empty stage = (temp 0, ground arith, ap (measured_at f 0) stage)

  -- The parts of a state that say which task can go on.
  find_turn :
      (ms : List (Message (Float f))) (a b : Option (Float f)) (st : Stage (Float f))
      (xs : List (Float f)) (s : System f)
      → s.print_queue ≡ ms
      → s.moving_unsent ≡ a
      → s.simple_unsent ≡ b
      → s.stage ≡ st
      → s.temp_queue ≡ xs
      → 0 < work s
      → Useful s
  find_turn (m ∷ ms) a b st xs s em ea eb est exs h = can_print s m ms em
  find_turn [] (some a) b st xs s em ea eb est exs h = can_moving s a em ea
  find_turn [] none (some b) st xs s em ea eb est exs h = can_simple s b em eb
  find_turn [] none none (at_message x) xs s em ea eb est exs h = can_message s x em est
  find_turn [] none none (at_reading y) [] s em ea eb est exs h = can_reading s y exs est
  find_turn [] none none (at_reading y) (x ∷ xs) s em ea eb est exs h = can_take s x xs ea exs
  find_turn [] none none delayed (x ∷ xs) s em ea eb est exs h = can_take s x xs ea exs
  find_turn [] none none delayed [] s em ea eb est exs h = absurd (ground arith)

  some_turn : (s : System f) → 0 < work s → Useful s
  some_turn s h =
      find_turn s.print_queue s.moving_unsent s.simple_unsent s.stage s.temp_queue s refl refl refl
        refl refl h

  drain :
      (n : ℕ) (s : System f)
      → work s ≡ n
      → (ts : List Turn) × (length ts ≡ n) × (measured f ts s ≡ []) × (work (schedule f ts s) ≡ 0)
  unfolding schedule
  drain zero s h = ([], refl, refl, h)
  drain (suc n) s h =
      let (t, less, nothing) = some_turn s (omega arith) in
      let (ts, count, later, done) = drain n (run_task f t s) (omega arith) in
      (t ∷ ts, ap suc count, ap₂ (λ xs ys. xs ++ ys) nothing later, done)

  -- Nothing is under way.
  pub record IsDrained (s : System f) : Type 0 where
    pub delay : s.stage ≡ delayed
    pub readings : s.temp_queue ≡ []
    pub moving_average : s.moving_unsent ≡ none
    pub simple_average : s.simple_unsent ≡ none
    pub messages : s.print_queue ≡ []

  work-IsDrained : (s : System f) → work s ≡ 0 → IsDrained s
  work-IsDrained s h = record {
    delay = ground arith;
    readings = ground arith;
    moving_average = ground arith;
    simple_average = ground arith;
    messages = ground arith;
  }

  -- Whatever state the tasks are in, turns that do not read the sensor lead to one in which nothing is
  -- under way, at most six for a reading.
  pub schedule-IsDrained :
      (s : System f)
      → (ts : List Turn) × (length ts ≡ work s)
        × (measured f ts s ≡ [])
        × IsDrained (schedule f ts s)
  schedule-IsDrained s =
      let (ts, count, nothing, done) = drain (work s) s refl in
      (ts, count, nothing, work-IsDrained (schedule f ts s) done)
