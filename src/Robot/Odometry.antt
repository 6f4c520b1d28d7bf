-- ===== src/Robot/Odometry.antt =====
-- main.c: the invariant of the whole robot along its histories.
use robotic_car_p3e.Prelude.{Option, none, some}
use robotic_car_p3e.Robot.Floats.{IsIeee, Arithmetic}
use robotic_car_p3e.Robot.Sensors.{Sensors}
use robotic_car_p3e.Robot.Pid.{IsDuty}
use robotic_car_p3e.Robot.Upkeep.{IsValid}
use robotic_car_p3e.Robot.Main.{Robot}

module _ (a : Arithmetic) (single : IsIeee a.single) (double : IsIeee a.double) where
  -- The sensors' invariant, and duty cycles between 0 and 0.99.
  pub record RobotFits (r : Robot a) : Type 0 where
    pub sensors : IsValid a r.sensors
    pub left : IsDuty a r.drive.left_motor_duty_cycle
    pub right : IsDuty a r.drive.right_motor_duty_cycle

  -- What a round leaves, if it comes to its end.
  abbrev Ends : Option (Robot a) → Type 0
  Ends none = Unit {0}
  Ends (some r) = RobotFits r
