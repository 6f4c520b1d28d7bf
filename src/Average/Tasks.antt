-- ===== src/Average/Tasks.antt =====
-- wifi/freertos/ping/picow_freertos_ping.c: the reading of the temperature and the tasks that average
-- it, for any floating-point arithmetic. What the tasks print is not modelled.
use robotic_car_p3e.Prelude.{ℕ, ◌+◌, ◌%◌, List, [], ◌∷◌, ltb, if◌then◌else◌, get_or, set, replicate}
use robotic_car_p3e.Robot.Floats.{Format}

-- `BUFFER_SIZE`.
abbrev pub window_size : ℕ
window_size = 10

-- Which task `xQueueReceive` gives a reading to.
pub data Task : Type 0 where
  moving_avg simple_avg : Task

module _ (f : Format) where
  abbrev pub Float : Type 0
  Float = f.Number

  abbrev pub float_zero : Float
  float_zero = f.dec 0 0

  -- `read_temperature`, given what the ADC reads.
  unfoldable pub read_temperature : ℕ → Float
  read_temperature raw =
      let conversion_factor = f.div (f.dec 33 1) (f.dec 4096 0) in
      let voltage = f.mul (f.dec raw 0) conversion_factor in
      f.sub (f.dec 270 1) (f.div (f.sub voltage (f.dec 706 3)) (f.dec 1721 6))

  -- The locals of `moving_avg_task`, with the average of the last round.
  pub record Moving : Type 0 where
    pub buffer : List Float
    pub index : ℕ
    pub count : ℕ
    pub sum : Float
    pub average : Float

  abbrev pub fresh_moving : Moving
  fresh_moving = record {
    buffer = replicate window_size float_zero;
    index = 0;
    count = 0;
    sum = float_zero;
    average = float_zero;
  }

  -- A round of `moving_avg_task`.
  unfoldable pub moving_avg_task : Float → Moving → Moving
  moving_avg_task reading m =
      let less = f.sub m.sum (get_or m.buffer m.index float_zero) in
      let total = f.add less reading in
      let counted = if ltb m.count window_size then m.count + 1 else m.count in
      record {
        buffer = set m.buffer m.index reading;
        index = (m.index + 1) % window_size;
        count = counted;
        sum = total;
        average = f.div total (f.dec counted 0);
      }

  -- The locals of `simple_avg_task`, with the average of the last round.
  pub record Simple : Type 0 where
    pub total_sum : Float
    pub total_count : ℕ
    pub mean : Float

  abbrev pub fresh_simple : Simple
  fresh_simple = record { total_sum = float_zero; total_count = 0; mean = float_zero }

  -- A round of `simple_avg_task`.
  unfoldable pub simple_avg_task : Float → Simple → Simple
  simple_avg_task reading s =
      let total = f.add s.total_sum reading in
      record {
        total_sum = total;
        total_count = s.total_count + 1;
        mean = f.div total (f.dec (s.total_count + 1) 0);
      }

  -- Both tasks wait on one queue: a reading goes to the one that the scheduler lets receive it.
  unfoldable pub receive_reading : Task → Float → Moving × Simple → Moving × Simple
  unfolding moving_avg_task simple_avg_task
  receive_reading moving_avg reading (m, s) = (moving_avg_task reading m, s)
  receive_reading simple_avg reading (m, s) = (m, simple_avg_task reading s)

  unfoldable pub receive_readings : List (Task × Float) → Moving × Simple → Moving × Simple
  unfolding receive_reading
  receive_readings [] tasks = tasks
  receive_readings ((to, reading) ∷ rs) tasks =
      receive_readings rs (receive_reading to reading tasks)
