-- ===== src/Average/Flow.antt =====
-- wifi/freertos/ping/picow_freertos_ping.c: what becomes of the readings in the queues.

use robotic_car_p3e.Prelude.{ℕ, ◌≡◌, refl, List, [], ◌∷◌, ◌++◌}
use robotic_car_p3e.Robot.Floats.{Format}
use robotic_car_p3e.Average.Tasks.{
  Task, moving_avg, simple_avg, Float, fresh_moving, fresh_simple, read_temperature,
}
use robotic_car_p3e.Average.Window.{readings_of, all_moving, all_simple}
use robotic_car_p3e.Average.Messages.{
  temperatures, moving_averages, simple_averages, unqueued, untold, held, values, averages_of,
  means_of,
}
use robotic_car_p3e.Average.Pipeline.{
  Message, Stage, delayed, at_reading, at_message, Turn, temp, moving, simple, print, System,
  start_up, run_task,
}

module _ (f : Format) where
  -- The messages so far, in their order: those that are printed, and those that wait for it.
  abbrev pub sent : System f → List (Message (Float f))
  sent s = s.printed ++ s.print_queue

  -- What a state makes of the readings that have been taken from the sensor, of which some have been
  -- received, each by one of the averaging tasks.
  pub record Handles (zs : List (Float f)) (rs : List (Task × Float f)) (s : System f)
      : Type 0 where
    pub readings : zs ≡ values rs ++ (s.temp_queue ++ unqueued s.stage)
    pub told : temperatures (sent s) ++ untold s.stage ≡ values rs ++ s.temp_queue
    pub movings :
        moving_averages (sent s) ++ held s.moving_unsent
        ≡ averages_of f (readings_of f moving_avg rs) (fresh_moving f)
    pub simples :
        simple_averages (sent s) ++ held s.simple_unsent
        ≡ means_of f (readings_of f simple_avg rs) (fresh_simple f)
    pub moving_state : s.moving_task ≡ all_moving f (readings_of f moving_avg rs) (fresh_moving f)
    pub simple_state : s.simple_task ≡ all_simple f (readings_of f simple_avg rs) (fresh_simple f)

  pub start_up-Handles : Handles [] [] (start_up f)
  start_up-Handles = record {
    readings = refl;
    told = refl;
    movings = refl;
    simples = refl;
    moving_state = refl;
    simple_state = refl;
  }

  -- A reading that a turn takes from the sensor.
  abbrev pub measured_at : ℕ → Stage (Float f) → List (Float f)
  measured_at raw delayed = read_temperature f raw ∷ []
  measured_at raw (at_reading x) = []
  measured_at raw (at_message x) = []

  abbrev pub measured_by : Turn → System f → List (Float f)
  measured_by (temp raw) s = measured_at raw s.stage
  measured_by moving s = []
  measured_by simple s = []
  measured_by print s = []

  abbrev pub measured : List Turn → System f → List (Float f)
  measured [] s = []
  measured (t ∷ ts) s = measured_by t s ++ measured ts (run_task f t s)
