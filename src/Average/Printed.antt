-- ===== src/Average/Printed.antt =====
-- wifi/freertos/ping/picow_freertos_ping.c: what is printed in the end.
use mathlib.Core.List.{append-nil, append_assoc}
use robotic_car_p3e.Prelude.{
  ℕ, ◌≡◌, refl, ap, ap₂, sym, ◌∙◌, Option, none, some, List, [], ◌∷◌, ◌++◌, length,
}
use robotic_car_p3e.Robot.Floats.{Format}
use robotic_car_p3e.Average.Tasks.{Task, moving_avg, simple_avg, Float, fresh_moving, fresh_simple}
use robotic_car_p3e.Average.Window.{readings_of}
use robotic_car_p3e.Average.Messages.{
  temperatures, moving_averages, simple_averages, values, averages_of, means_of, untold, held,
  unqueued,
}
use robotic_car_p3e.Average.Pipeline.{
  Message, Stage, delayed, at_reading, at_message, Turn, temp, moving, simple, print, System,
  start_up, run_temp, run_moving, run_simple, run_print, run_task, schedule,
}
use robotic_car_p3e.Average.Flow.{
  sent, Handles, start_up-Handles, measured_at, measured_by, measured,
}
use robotic_car_p3e.Average.Turns.{
  run_temp-delayed, run_temp-at_reading, run_temp-at_message, run_moving-send, run_simple-send,
  run_moving-take, run_simple-take, run_print-Handles,
}
use robotic_car_p3e.Average.Drain.{work, IsDrained, schedule-IsDrained}

module _ (f : Format) where
  -- Some of the readings so far have been received, each by one of the averaging tasks.
  abbrev HandlesSome : List (Float f) → System f → Type 0
  HandlesSome zs s = (rs : List (Task × Float f)) × Handles f zs rs s

  nothing_read :
      (zs : List (Float f)) (rs : List (Task × Float f)) (s : System f)
      → Handles f zs rs s
      → HandlesSome (zs ++ []) s
  nothing_read zs rs s h = (rs, rw append-nil h)

  module _ (zs : List (Float f)) (rs : List (Task × Float f)) (s : System f)
      (h : Handles f zs rs s) where
    run_temp-HandlesSome :
        (raw : ℕ) (st : Stage (Float f))
        → s.stage ≡ st
        → HandlesSome (zs ++ measured_at f raw st) (run_temp f raw st s)
    run_temp-HandlesSome raw delayed e = (rs, run_temp-delayed f zs rs s h raw e)
    run_temp-HandlesSome raw (at_reading x) e =
        nothing_read zs rs (run_temp f raw (at_reading x) s)
          (run_temp-at_reading f zs rs s h raw x e)
    run_temp-HandlesSome raw (at_message x) e =
        nothing_read zs rs (run_temp f raw (at_message x) s)
          (run_temp-at_message f zs rs s h raw x e)

    run_moving-HandlesSome :
        (a : Option (Float f)) (xs : List (Float f))
        → s.moving_unsent ≡ a
        → s.temp_queue ≡ xs
        → HandlesSome zs (run_moving f a xs s)
    unfolding run_moving
    run_moving-HandlesSome (some a) xs unsent queue = (rs, run_moving-send f zs rs s h a xs unsent)
    run_moving-HandlesSome none [] unsent queue = (rs, h)
    run_moving-HandlesSome none (x ∷ xs) unsent queue =
        (rs ++ (moving_avg, x) ∷ [], run_moving-take f zs rs s h x xs unsent queue)

    run_simple-HandlesSome :
        (a : Option (Float f)) (xs : List (Float f))
        → s.simple_unsent ≡ a
        → s.temp_queue ≡ xs
        → HandlesSome zs (run_simple f a xs s)
    unfolding run_simple
    run_simple-HandlesSome (some a) xs unsent queue = (rs, run_simple-send f zs rs s h a xs unsent)
    run_simple-HandlesSome none [] unsent queue = (rs, h)
    run_simple-HandlesSome none (x ∷ xs) unsent queue =
        (rs ++ (simple_avg, x) ∷ [], run_simple-take f zs rs s h x xs unsent queue)

  run_task-HandlesSome :
      (t : Turn) (zs : List (Float f)) (s : System f)
      → HandlesSome zs s
      → HandlesSome (zs ++ measured_by f t s) (run_task f t s)
  unfolding run_task
  run_task-HandlesSome (temp raw) zs s (rs, h) = run_temp-HandlesSome zs rs s h raw s.stage refl
  run_task-HandlesSome moving zs s (rs, h) =
      let (rs', h') = run_moving-HandlesSome zs rs s h s.moving_unsent s.temp_queue refl refl in
      nothing_read zs rs' (run_moving f s.moving_unsent s.temp_queue s) h'
  run_task-HandlesSome simple zs s (rs, h) =
      let (rs', h') = run_simple-HandlesSome zs rs s h s.simple_unsent s.temp_queue refl refl in
      nothing_read zs rs' (run_simple f s.simple_unsent s.temp_queue s) h'
  run_task-HandlesSome print zs s (rs, h) =
      nothing_read zs rs (run_print f s.print_queue s)
        (run_print-Handles f zs rs s h s.print_queue refl)

  schedule-HandlesSome :
      (ts : List Turn) (zs : List (Float f)) (s : System f)
      → HandlesSome zs s
      → HandlesSome (zs ++ measured f ts s) (schedule f ts s)
  unfolding schedule
  schedule-HandlesSome [] zs s h = nothing_read zs h.0 s h.1
  schedule-HandlesSome (t ∷ ts) zs s h =
      rw (← append_assoc zs (measured_by f t s) (measured f ts (run_task f t s))) (
        schedule-HandlesSome ts (zs ++ measured_by f t s) (run_task f t s)
          (run_task-HandlesSome t zs s h))

  -- Whatever order the tasks run in from the start on: some of the readings have been received, each
  -- by one of the averaging tasks; the others wait, in their order. The messages so far, with those
  -- that a task still holds, are the readings in their order and, for each task, the averages behind
  -- each of the readings that it has received.
  pub schedule-Handles :
      (ts : List Turn)
      → (rs : List (Task × Float f)) × Handles f
          (measured f ts (start_up f))
          rs
          (schedule f ts (start_up f))
  schedule-Handles ts = schedule-HandlesSome ts [] (start_up f) ([], start_up-Handles f)

  -- What is printed of the given readings, of which each goes to one averaging task.
  pub record Prints (rs : List (Task × Float f)) (ms : List (Message (Float f))) : Type 0 where
    pub readings : temperatures ms ≡ values rs
    pub movings : moving_averages ms ≡ averages_of f (readings_of f moving_avg rs) (fresh_moving f)
    pub simples : simple_averages ms ≡ means_of f (readings_of f simple_avg rs) (fresh_simple f)

  drained-Prints :
      (zs : List (Float f)) (rs : List (Task × Float f)) (s : System f)
      → Handles f zs rs s
      → IsDrained f s
      → (zs ≡ values rs) × Prints rs s.printed
  drained-Prints zs rs s h d =
      let all : sent f s ≡ s.printed = ap (λ q. s.printed ++ q) d.messages ∙ append-nil _ in
      (
        h.readings
            ∙ ap₂ (λ q st. values rs ++ (q ++ unqueued st)) d.readings d.delay
            ∙ append-nil _,
        record {
          readings =
              sym (append-nil _)
              ∙ ap₂ (λ ms st. temperatures ms ++ untold st) (sym all) (sym d.delay)
              ∙ h.told
              ∙ ap (λ q. values rs ++ q) d.readings
              ∙ append-nil _;
          movings =
              sym (append-nil _)
              ∙ ap₂ (λ ms a. moving_averages ms ++ held a) (sym all) (sym d.moving_average)
              ∙ h.movings;
          simples =
              sym (append-nil _)
              ∙ ap₂ (λ ms a. simple_averages ms ++ held a) (sym all) (sym d.simple_average)
              ∙ h.simples;
        },
      )

  -- Whatever order the tasks have run in from the start on, there are turns that do not read the
  -- sensor, as many as `work` says, which lead to a state in which nothing is under way and everything
  -- is printed: the readings so far in their order, and for each averaging task the averages behind
  -- each of its readings, where each reading has gone to exactly one of the two, as both receive from
  -- one queue.
  pub schedule-Prints :
      (ts : List Turn)
      → (us : List Turn) × (rs : List (Task × Float f)) × (length us
          ≡ work f (schedule f ts (start_up f)))
        × IsDrained f (schedule f us (schedule f ts (start_up f)))
        × (values rs ≡ measured f ts (start_up f))
        × Prints rs (schedule f us (schedule f ts (start_up f))).printed
  schedule-Prints ts =
      let s = schedule f ts (start_up f) in
      let (us, count, nothing, done) = schedule-IsDrained f s in
      let (rs, h) = schedule-HandlesSome us (measured f ts (start_up f)) s (schedule-Handles ts) in
      let (all, prints) =
        drained-Prints (measured f ts (start_up f) ++ measured f us s) rs (schedule f us s) h
          done in
      (
        us,
        rs,
        count,
        done,
        sym all ∙ ap (λ zs. measured f ts (start_up f) ++ zs) nothing ∙ append-nil _,
        prints,
      )
