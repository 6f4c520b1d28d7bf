-- ===== src/Average/Pipeline.antt =====
-- wifi/freertos/ping/picow_freertos_ping.c: the four tasks and the two queues between them. A task
-- runs up to its next call that may block; one that finds its queue full, or empty, stays where it
-- is. What `snprintf` makes of a message is left out: its kind and its number are kept.
use robotic_car_p3e.Prelude.{
  ℕ, Option, none, some, List, [], ◌∷◌, ◌++◌, Bool, ltb, if◌then◌else◌, length,
}
use robotic_car_p3e.Robot.Floats.{Format}
use robotic_car_p3e.Average.Tasks.{
  Float, Moving, Simple, fresh_moving, fresh_simple, read_temperature, moving_avg_task,
  simple_avg_task,
}

-- The length of both queues, and whether one has room.
abbrev pub queue_length : ℕ
queue_length = 10

abbrev pub has_room : {A : Type 0} → List A → Bool
has_room queue = ltb (length queue) queue_length

pub data Message (A : Type 0) : Type 0 where
  temperature_reading moving_average simple_average : A → Message A

-- Where `temp_task` stands: in its delay, or at the sending of a reading, or of the message of one.
pub data Stage (A : Type 0) : Type 0 where
  delayed : Stage A
  at_reading at_message : A → Stage A

-- Which task runs; the one that reads the sensor with what the ADC gives.
pub data Turn : Type 0 where
  temp : ℕ → Turn
  moving simple print : Turn

module _ (f : Format) where
  -- The queues, what has been printed, and the tasks; an average that is not yet sent stands beside
  -- its task.
  pub record System : Type 0 where
    pub temp_queue : List (Float f)
    pub print_queue : List (Message (Float f))
    pub printed : List (Message (Float f))
    pub stage : Stage (Float f)
    pub moving_task : Moving f
    pub moving_unsent : Option (Float f)
    pub simple_task : Simple f
    pub simple_unsent : Option (Float f)

  abbrev pub start_up : System
  start_up = record {
    temp_queue = [];
    print_queue = [];
    printed = [];
    stage = delayed;
    moving_task = fresh_moving f;
    moving_unsent = none;
    simple_task = fresh_simple f;
    simple_unsent = none;
  }

  -- `temp_task` at the given stage.
  unfoldable pub run_temp : ℕ → Stage (Float f) → System → System
  run_temp raw delayed s = record s { stage = at_reading (read_temperature f raw) }
  run_temp raw (at_reading x) s =
      if has_room s.temp_queue
      then record s { temp_queue = s.temp_queue ++ x ∷ []; stage = at_message x }
      else s
  run_temp raw (at_message x) s =
      if has_room s.print_queue
      then record s { print_queue = s.print_queue ++ temperature_reading x ∷ []; stage = delayed }
      else s

  -- `moving_avg_task`, with an average to send, or with none, and the queue that it waits at.
  unfoldable pub run_moving : Option (Float f) → List (Float f) → System → System
  run_moving (some a) queue s =
      if has_room s.print_queue
      then record s { print_queue = s.print_queue ++ moving_average a ∷ []; moving_unsent = none }
      else s
  run_moving none [] s = s
  run_moving none (x ∷ xs) s =
      let m = moving_avg_task f x s.moving_task in
      record s { temp_queue = xs; moving_task = m; moving_unsent = some m.average }

  -- `simple_avg_task`.
  unfoldable pub run_simple : Option (Float f) → List (Float f) → System → System
  run_simple (some a) queue s =
      if has_room s.print_queue
      then record s { print_queue = s.print_queue ++ simple_average a ∷ []; simple_unsent = none }
      else s
  run_simple none [] s = s
  run_simple none (x ∷ xs) s =
      let t = simple_avg_task f x s.simple_task in
      record s { temp_queue = xs; simple_task = t; simple_unsent = some t.mean }

  -- `print_task`, with the queue that it waits at.
  unfoldable pub run_print : List (Message (Float f)) → System → System
  run_print [] s = s
  run_print (m ∷ ms) s = record s { print_queue = ms; printed = s.printed ++ m ∷ [] }

  unfoldable pub run_task : Turn → System → System
  unfolding run_temp run_moving run_simple run_print
  run_task (temp raw) s = run_temp raw s.stage s
  run_task moving s = run_moving s.moving_unsent s.temp_queue s
  run_task simple s = run_simple s.simple_unsent s.temp_queue s
  run_task print s = run_print s.print_queue s

  -- The tasks as the scheduler lets them run.
  unfoldable pub schedule : List Turn → System → System
  unfolding run_task
  schedule [] s = s
  schedule (t ∷ ts) s = schedule ts (run_task t s)
