-- ===== src/Average/Messages.antt =====
-- wifi/freertos/ping/picow_freertos_ping.c: the numbers in the messages, and the readings they are of.
use mathlib.Core.List.{append-nil, append_assoc, map-append}
use robotic_car_p3e.Prelude.{◌≡◌, refl, ap, Option, none, some, List, [], ◌∷◌, ◌++◌}
use robotic_car_p3e.Robot.Floats.{Format}
use robotic_car_p3e.Average.Tasks.{
  Task, moving_avg, simple_avg, Float, Moving, Simple, moving_avg_task, simple_avg_task,
}
use robotic_car_p3e.Average.Window.{readings_of, all_moving, all_simple}
use robotic_car_p3e.Average.Pipeline.{
  Message, temperature_reading, moving_average, simple_average, Stage, delayed, at_reading,
  at_message,
}

module _ {A : Type 0} where
  -- The numbers in the messages of one kind.
  abbrev pub temperatures : List (Message A) → List A
  temperatures [] = []
  temperatures (temperature_reading x ∷ ms) = x ∷ temperatures ms
  temperatures (moving_average x ∷ ms) = temperatures ms
  temperatures (simple_average x ∷ ms) = temperatures ms

  abbrev pub moving_averages : List (Message A) → List A
  moving_averages [] = []
  moving_averages (temperature_reading x ∷ ms) = moving_averages ms
  moving_averages (moving_average x ∷ ms) = x ∷ moving_averages ms
  moving_averages (simple_average x ∷ ms) = moving_averages ms

  abbrev pub simple_averages : List (Message A) → List A
  simple_averages [] = []
  simple_averages (temperature_reading x ∷ ms) = simple_averages ms
  simple_averages (moving_average x ∷ ms) = simple_averages ms
  simple_averages (simple_average x ∷ ms) = x ∷ simple_averages ms

  pub temperatures-append :
      (xs ys : List (Message A)) → temperatures (xs ++ ys) ≡ temperatures xs ++ temperatures ys
  temperatures-append [] ys = refl
  temperatures-append (temperature_reading x ∷ xs) ys = ap (λ r. x ∷ r) (temperatures-append xs ys)
  temperatures-append (moving_average x ∷ xs) ys = temperatures-append xs ys
  temperatures-append (simple_average x ∷ xs) ys = temperatures-append xs ys

  pub moving_averages-append :
      (xs ys : List (Message A))
      → moving_averages (xs ++ ys) ≡ moving_averages xs ++ moving_averages ys
  moving_averages-append [] ys = refl
  moving_averages-append (temperature_reading x ∷ xs) ys = moving_averages-append xs ys
  moving_averages-append (moving_average x ∷ xs) ys = ap (λ r. x ∷ r) (moving_averages-append xs ys)
  moving_averages-append (simple_average x ∷ xs) ys = moving_averages-append xs ys

  pub simple_averages-append :
      (xs ys : List (Message A))
      → simple_averages (xs ++ ys) ≡ simple_averages xs ++ simple_averages ys
  simple_averages-append [] ys = refl
  simple_averages-append (temperature_reading x ∷ xs) ys = simple_averages-append xs ys
  simple_averages-append (moving_average x ∷ xs) ys = simple_averages-append xs ys
  simple_averages-append (simple_average x ∷ xs) ys = ap (λ r. x ∷ r) (simple_averages-append xs ys)

  -- What a task still holds.
  abbrev pub unqueued : Stage A → List A
  unqueued delayed = []
  unqueued (at_reading x) = x ∷ []
  unqueued (at_message x) = []

  abbrev pub untold : Stage A → List A
  untold delayed = []
  untold (at_reading x) = []
  untold (at_message x) = x ∷ []

  abbrev pub held : Option A → List A
  held none = []
  held (some a) = a ∷ []

  abbrev pub values : List (Task × A) → List A
  values [] = []
  values ((to, x) ∷ rs) = x ∷ values rs

  pub values-append : (rs ts : List (Task × A)) → values (rs ++ ts) ≡ values rs ++ values ts
  values-append [] ts = refl
  values-append ((to, x) ∷ rs) ts = ap (λ r. x ∷ r) (values-append rs ts)

pub ruleset flow = (
  append-nil, append_assoc, temperatures-append, moving_averages-append, simple_averages-append,
  values-append,
)

module _ (f : Format) where
  -- The averages behind each of the readings.
  abbrev pub averages_of : List (Float f) → Moving f → List (Float f)
  averages_of [] m = []
  averages_of (x ∷ xs) m = (moving_avg_task f x m).average ∷ averages_of xs (moving_avg_task f x m)

  abbrev pub means_of : List (Float f) → Simple f → List (Float f)
  means_of [] s = []
  means_of (x ∷ xs) s = (simple_avg_task f x s).mean ∷ means_of xs (simple_avg_task f x s)

  pub averages_of-append :
      (xs : List (Float f)) (x : Float f) (m : Moving f)
      → averages_of (xs ++ x ∷ []) m
        ≡ averages_of xs m ++ (moving_avg_task f x (all_moving f xs m)).average ∷ []
  averages_of-append [] x m = refl
  averages_of-append (y ∷ xs) x m =
      ap (λ r. (moving_avg_task f y m).average ∷ r)
        (averages_of-append xs x (moving_avg_task f y m))

  pub means_of-append :
      (xs : List (Float f)) (x : Float f) (s : Simple f)
      → means_of (xs ++ x ∷ []) s
        ≡ means_of xs s ++ (simple_avg_task f x (all_simple f xs s)).mean ∷ []
  means_of-append [] x s = refl
  means_of-append (y ∷ xs) x s =
      ap (λ r. (simple_avg_task f y s).mean ∷ r) (means_of-append xs x (simple_avg_task f y s))

  pub all_moving-append :
      (xs : List (Float f)) (x : Float f) (m : Moving f)
      → all_moving f (xs ++ x ∷ []) m ≡ moving_avg_task f x (all_moving f xs m)
  all_moving-append [] x m = refl
  all_moving-append (y ∷ xs) x m = all_moving-append xs x (moving_avg_task f y m)

  pub all_simple-append :
      (xs : List (Float f)) (x : Float f) (s : Simple f)
      → all_simple f (xs ++ x ∷ []) s ≡ simple_avg_task f x (all_simple f xs s)
  all_simple-append [] x s = refl
  all_simple-append (y ∷ xs) x s = all_simple-append xs x (simple_avg_task f y s)

  -- A reading that goes to one task, behind others.
  pub readings_of-same :
      (task : Task) (rs : List (Task × Float f)) (x : Float f)
      → readings_of f task (rs ++ (task, x) ∷ []) ≡ readings_of f task rs ++ x ∷ []
  readings_of-same moving_avg [] x = refl
  readings_of-same simple_avg [] x = refl
  readings_of-same moving_avg ((moving_avg, y) ∷ rs) x =
      ap (λ r. y ∷ r) (readings_of-same moving_avg rs x)
  readings_of-same moving_avg ((simple_avg, y) ∷ rs) x = readings_of-same moving_avg rs x
  readings_of-same simple_avg ((moving_avg, y) ∷ rs) x = readings_of-same simple_avg rs x
  readings_of-same simple_avg ((simple_avg, y) ∷ rs) x =
      ap (λ r. y ∷ r) (readings_of-same simple_avg rs x)

  pub moving_readings-simple :
      (rs : List (Task × Float f)) (x : Float f)
      → readings_of f moving_avg (rs ++ (simple_avg, x) ∷ []) ≡ readings_of f moving_avg rs
  moving_readings-simple [] x = refl
  moving_readings-simple ((moving_avg, y) ∷ rs) x = ap (λ r. y ∷ r) (moving_readings-simple rs x)
  moving_readings-simple ((simple_avg, y) ∷ rs) x = moving_readings-simple rs x

  pub simple_readings-moving :
      (rs : List (Task × Float f)) (x : Float f)
      → readings_of f simple_avg (rs ++ (moving_avg, x) ∷ []) ≡ readings_of f simple_avg rs
  simple_readings-moving [] x = refl
  simple_readings-moving ((moving_avg, y) ∷ rs) x = simple_readings-moving rs x
  simple_readings-moving ((simple_avg, y) ∷ rs) x = ap (λ r. y ∷ r) (simple_readings-moving rs x)
