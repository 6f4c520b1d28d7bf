-- ===== src/Average/Turns.antt =====
-- wifi/freertos/ping/picow_freertos_ping.c: each task keeps account of the readings.
use mathlib.Core.List.{append-nil, append_assoc}
use robotic_car_p3e.Prelude.{
  ℕ, ◌≡◌, refl, ap, ap₂, sym, ◌∙◌, Bool-cases, inl, inr, Option, none, some, List, [], ◌∷◌, ◌++◌,
}
use robotic_car_p3e.Robot.Floats.{Format}
use robotic_car_p3e.Average.Tasks.{
  Task, moving_avg, simple_avg, Float, fresh_moving, fresh_simple, moving_avg_task, simple_avg_task,
  read_temperature,
}
use robotic_car_p3e.Average.Window.{readings_of, all_moving, all_simple}
use robotic_car_p3e.Average.Messages.{
  temperatures, moving_averages, simple_averages, unqueued, untold, held, values, flow, averages_of,
  means_of, averages_of-append, means_of-append, all_moving-append, all_simple-append,
  readings_of-same, moving_readings-simple, simple_readings-moving,
}
use robotic_car_p3e.Average.Pipeline.{
  Message, temperature_reading, moving_average, simple_average, Stage, delayed, at_reading,
  at_message, System, has_room, run_temp, run_moving, run_simple, run_print,
}
use robotic_car_p3e.Average.Flow.{sent, Handles}

module _ (f : Format) where
  module _ (zs : List (Float f)) (rs : List (Task × Float f)) (s : System f)
      (h : Handles f zs rs s) where
    readings_at :
        (st : Stage (Float f)) → s.stage ≡ st → zs ≡ values rs ++ (s.temp_queue ++ unqueued st)
    readings_at st e = h.readings ∙ ap (λ t. values rs ++ (s.temp_queue ++ unqueued t)) e

    told_at :
        (st : Stage (Float f))
        → s.stage ≡ st
        → temperatures (sent f s) ++ untold st ≡ values rs ++ s.temp_queue
    told_at st e = ap (λ t. temperatures (sent f s) ++ untold t) (sym e) ∙ h.told

    movings_at :
        (a : Option (Float f))
        → s.moving_unsent ≡ a
        → moving_averages (sent f s) ++ held a
          ≡ averages_of f (readings_of f moving_avg rs) (fresh_moving f)
    movings_at a e = ap (λ b. moving_averages (sent f s) ++ held b) (sym e) ∙ h.movings

    simples_at :
        (a : Option (Float f))
        → s.simple_unsent ≡ a
        → simple_averages (sent f s) ++ held a
          ≡ means_of f (readings_of f simple_avg rs) (fresh_simple f)
    simples_at a e = ap (λ b. simple_averages (sent f s) ++ held b) (sym e) ∙ h.simples

    -- A message that is sent f stands behind the others.
    told_sent :
        (m : Message (Float f))
        → temperatures (s.printed ++ (s.print_queue ++ m ∷ []))
          ≡ temperatures (sent f s) ++ temperatures (m ∷ [])
    told_sent m = simp flow

    movings_sent :
        (m : Message (Float f))
        → moving_averages (s.printed ++ (s.print_queue ++ m ∷ []))
          ≡ moving_averages (sent f s) ++ moving_averages (m ∷ [])
    movings_sent m = simp flow

    simples_sent :
        (m : Message (Float f))
        → simple_averages (s.printed ++ (s.print_queue ++ m ∷ []))
          ≡ simple_averages (sent f s) ++ simple_averages (m ∷ [])
    simples_sent m = simp flow

    pub run_temp-delayed :
        (raw : ℕ)
        → s.stage ≡ delayed
        → Handles f (zs ++ read_temperature f raw ∷ []) rs (run_temp f raw delayed s)
    unfolding run_temp
    run_temp-delayed raw e = record {
      readings = ap (λ l. l ++ read_temperature f raw ∷ []) (readings_at delayed e) ∙ simp flow;
      told = told_at delayed e;
      movings = h.movings;
      simples = h.simples;
      moving_state = h.moving_state;
      simple_state = h.simple_state;
    }

    pub run_temp-at_reading :
        (raw : ℕ) (x : Float f)
        → s.stage ≡ at_reading x
        → Handles f zs rs (run_temp f raw (at_reading x) s)
    unfolding run_temp
    run_temp-at_reading raw x e = elim (Bool-cases (has_room s.temp_queue)) [
      | inl room ↦ rw room (record {
        readings = readings_at (at_reading x) e ∙ simp flow;
        told = ap (λ l. l ++ x ∷ []) (sym (append-nil _) ∙ told_at (at_reading x) e) ∙ simp flow;
        movings = h.movings;
        simples = h.simples;
        moving_state = h.moving_state;
        simple_state = h.simple_state;
      })
      | inr full ↦ rw full h
    ]

    pub run_temp-at_message :
        (raw : ℕ) (x : Float f)
        → s.stage ≡ at_message x
        → Handles f zs rs (run_temp f raw (at_message x) s)
    unfolding run_temp
    run_temp-at_message raw x e = elim (Bool-cases (has_room s.print_queue)) [
      | inl room ↦ rw room (record {
        readings = readings_at (at_message x) e;
        told =
            ap (λ l. l ++ []) (told_sent (temperature_reading x) ∙ told_at (at_message x) e)
            ∙ append-nil _;
        movings =
            ap (λ l. l ++ held s.moving_unsent)
              (movings_sent (temperature_reading x) ∙ append-nil _)
            ∙ h.movings;
        simples =
            ap (λ l. l ++ held s.simple_unsent)
              (simples_sent (temperature_reading x) ∙ append-nil _)
            ∙ h.simples;
        moving_state = h.moving_state;
        simple_state = h.simple_state;
      })
      | inr full ↦ rw full h
    ]

    pub run_moving-send :
        (a : Float f) (queue : List (Float f))
        → s.moving_unsent ≡ some a
        → Handles f zs rs (run_moving f (some a) queue s)
    unfolding run_moving
    run_moving-send a queue e = elim (Bool-cases (has_room s.print_queue)) [
      | inl room ↦ rw room (record {
        readings = h.readings;
        told = ap (λ l. l ++ untold s.stage) (told_sent (moving_average a) ∙ append-nil _) ∙ h.told;
        movings =
            ap (λ l. l ++ []) (movings_sent (moving_average a) ∙ movings_at (some a) e)
            ∙ append-nil _;
        simples =
            ap (λ l. l ++ held s.simple_unsent) (simples_sent (moving_average a) ∙ append-nil _)
            ∙ h.simples;
        moving_state = h.moving_state;
        simple_state = h.simple_state;
      })
      | inr full ↦ rw full h
    ]

    pub run_simple-send :
        (a : Float f) (queue : List (Float f))
        → s.simple_unsent ≡ some a
        → Handles f zs rs (run_simple f (some a) queue s)
    unfolding run_simple
    run_simple-send a queue e = elim (Bool-cases (has_room s.print_queue)) [
      | inl room ↦ rw room (record {
        readings = h.readings;
        told = ap (λ l. l ++ untold s.stage) (told_sent (simple_average a) ∙ append-nil _) ∙ h.told;
        movings =
            ap (λ l. l ++ held s.moving_unsent) (movings_sent (simple_average a) ∙ append-nil _)
            ∙ h.movings;
        simples =
            ap (λ l. l ++ []) (simples_sent (simple_average a) ∙ simples_at (some a) e)
            ∙ append-nil _;
        moving_state = h.moving_state;
        simple_state = h.simple_state;
      })
      | inr full ↦ rw full h
    ]

    -- A reading leaves the queue for one of the averaging tasks.
    readings_taken :
        (to : Task) (x : Float f) (xs : List (Float f))
        → s.temp_queue ≡ x ∷ xs
        → zs ≡ values (rs ++ (to, x) ∷ []) ++ (xs ++ unqueued s.stage)
    readings_taken to x xs e =
        h.readings ∙ ap (λ q. values rs ++ (q ++ unqueued s.stage)) e ∙ simp flow

    told_taken :
        (to : Task) (x : Float f) (xs : List (Float f))
        → s.temp_queue ≡ x ∷ xs
        → temperatures (sent f s) ++ untold s.stage ≡ values (rs ++ (to, x) ∷ []) ++ xs
    told_taken to x xs e = h.told ∙ ap (λ q. values rs ++ q) e ∙ simp flow

    pub run_moving-take :
        (x : Float f) (xs : List (Float f))
        → s.moving_unsent ≡ none
        → s.temp_queue ≡ x ∷ xs
        → Handles f zs (rs ++ (moving_avg, x) ∷ []) (run_moving f none (x ∷ xs) s)
    unfolding run_moving
    run_moving-take x xs idle e =
        let mine = readings_of-same f moving_avg rs x in
        let other = simple_readings-moving f rs x in
        record {
          readings = readings_taken moving_avg x xs e;
          told = told_taken moving_avg x xs e;
          movings =
              ap₂ (λ l m. l ++ (moving_avg_task f x m).average ∷ [])
                (sym (append-nil _) ∙ movings_at none idle) h.moving_state
              ∙ sym (averages_of-append f (readings_of f moving_avg rs) x (fresh_moving f))
              ∙ ap (λ l. averages_of f l (fresh_moving f)) (sym mine);
          simples = h.simples ∙ ap (λ l. means_of f l (fresh_simple f)) (sym other);
          moving_state =
              ap (moving_avg_task f x) h.moving_state
              ∙ sym (all_moving-append f (readings_of f moving_avg rs) x (fresh_moving f))
              ∙ ap (λ l. all_moving f l (fresh_moving f)) (sym mine);
          simple_state = h.simple_state ∙ ap (λ l. all_simple f l (fresh_simple f)) (sym other);
        }

    pub run_simple-take :
        (x : Float f) (xs : List (Float f))
        → s.simple_unsent ≡ none
        → s.temp_queue ≡ x ∷ xs
        → Handles f zs (rs ++ (simple_avg, x) ∷ []) (run_simple f none (x ∷ xs) s)
    unfolding run_simple
    run_simple-take x xs idle e =
        let mine = readings_of-same f simple_avg rs x in
        let other = moving_readings-simple f rs x in
        record {
          readings = readings_taken simple_avg x xs e;
          told = told_taken simple_avg x xs e;
          movings = h.movings ∙ ap (λ l. averages_of f l (fresh_moving f)) (sym other);
          simples =
              ap₂ (λ l t. l ++ (simple_avg_task f x t).mean ∷ [])
                (sym (append-nil _) ∙ simples_at none idle) h.simple_state
              ∙ sym (means_of-append f (readings_of f simple_avg rs) x (fresh_simple f))
              ∙ ap (λ l. means_of f l (fresh_simple f)) (sym mine);
          moving_state = h.moving_state ∙ ap (λ l. all_moving f l (fresh_moving f)) (sym other);
          simple_state =
              ap (simple_avg_task f x) h.simple_state
              ∙ sym (all_simple-append f (readings_of f simple_avg rs) x (fresh_simple f))
              ∙ ap (λ l. all_simple f l (fresh_simple f)) (sym mine);
        }

    pub run_print-Handles :
        (ms : List (Message (Float f))) → s.print_queue ≡ ms → Handles f zs rs (run_print f ms s)
    unfolding run_print
    run_print-Handles [] e = h
    run_print-Handles (m ∷ ms) e =
        let same : (s.printed ++ m ∷ []) ++ ms ≡ sent f s =
          simp append_assoc refl ∙ ap (λ q. s.printed ++ q) (sym e) in
        record {
          readings = h.readings;
          told = ap (λ l. temperatures l ++ untold s.stage) same ∙ h.told;
          movings = ap (λ l. moving_averages l ++ held s.moving_unsent) same ∙ h.movings;
          simples = ap (λ l. simple_averages l ++ held s.simple_unsent) same ∙ h.simples;
          moving_state = h.moving_state;
          simple_state = h.simple_state;
        }
