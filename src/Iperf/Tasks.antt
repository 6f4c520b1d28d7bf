-- ===== src/Iperf/Tasks.antt =====
-- wifi/freertos/iperf/picow_freertos_iperf.c: the count, the LED's task and the main task.
use robotic_car_p3e.Prelude.{
  ℕ, zero, suc, ◌+◌, ◌/◌, ◌%◌, ◌^◌, Bool, not, List, [], ◌∷◌, if◌then◌else◌, ℤ, is_zero,
}

unfoldable pub iperf_report : ℕ → ℕ → ℕ
iperf_report total_iperf_megabytes bytes_transferred =
    let mbytes = bytes_transferred / 1024 / 1024 in (total_iperf_megabytes + mbytes) % 2 ^ 32

-- What `blink_task` writes to the LED in so many rounds, given `on`.
unfoldable pub blink_task : ℕ → Bool → List Bool
blink_task zero on = []
blink_task (suc n) on = on ∷ blink_task n (not on)

-- How `main_task` ends, if it does: by a return, which FreeRTOS forbids, or by `exit`.
pub data TaskEnding : Type 0 where
  serving returned : TaskEnding
  exited : ℕ → TaskEnding

unfoldable pub main_task : ℤ → ℤ → TaskEnding
main_task init_err connect_err =
    if is_zero init_err then (if is_zero connect_err then serving else exited 1) else returned
