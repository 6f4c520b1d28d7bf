-- ===== src/Average/Tests.antt =====
-- Averages of a few readings.
use robotic_car_p3e.Prelude.{◌≡◌, refl, List, [], ◌∷◌, length, min}
use robotic_car_p3e.Robot.Decimals.{decimals}
use robotic_car_p3e.Average.Tasks.{Task, moving_avg, simple_avg, Float}
use robotic_car_p3e.Average.Pipeline.{Turn, temp, moving, simple, schedule, start_up}
use robotic_car_p3e.Average.Messages.{values}
use robotic_car_p3e.Average.Flow.{measured}
use robotic_car_p3e.Average.Drain.{IsDrained, work}
use robotic_car_p3e.Average.Printed.{Prints, schedule-Prints}
use robotic_car_p3e.Average.Window.{behind, window_sum, moving_avg_task-window}

-- 27 degrees are read where the sensor gives 0.706 volts.
abbrev warm : Float decimals
warm = (270, 1)

window_example :
    (behind decimals (warm ∷ warm ∷ [])).average
    ≡ decimals.div
        (window_sum decimals (warm ∷ warm ∷ []))
        (decimals.dec (min (length (warm ∷ warm ∷ [])) 10) 0)
window_example = moving_avg_task-window decimals warm (warm ∷ [])

abbrev shared : List (Task × Float decimals)
shared = (moving_avg, warm) ∷ (simple_avg, (280, 1)) ∷ (moving_avg, (290, 1)) ∷ []

-- Two readings; each averaging task receives one before anything is printed.
abbrev turns : List Turn
turns = temp 876 ∷ temp 0 ∷ moving ∷ temp 0 ∷ temp 870 ∷ temp 0 ∷ simple ∷ []

printed_example :
    (us : List Turn) × (rs : List (Task × Float decimals)) × (length us
      ≡ work decimals (schedule decimals turns (start_up decimals)))
    × IsDrained decimals (schedule decimals us (schedule decimals turns (start_up decimals)))
    × (values rs ≡ measured decimals turns (start_up decimals))
    × Prints decimals rs
        (schedule decimals us (schedule decimals turns (start_up decimals))).printed
printed_example = schedule-Prints decimals turns

-- What the sensor has given: 876 is read at about 27 degrees.
two_measured : length (measured decimals turns (start_up decimals)) ≡ 2
unfolding schedule
two_measured = refl
