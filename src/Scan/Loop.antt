-- ===== src/Scan/Loop.antt =====
-- wifi/wifi_scan/picow_wifi_scan.c: the loop of `main`. What the driver and the clock give is an
-- argument; what `scan_result` prints of a network is left out.
use robotic_car_p3e.Prelude.{
  ℕ, ◌+◌, Bool, true, false, Option, none, some, List, [], ◌∷◌, ◌++◌, ltb, if◌then◌else◌, ℤ, pos,
  is_zero,
}

-- `make_timeout_time_ms(10000)`, in microseconds.
abbrev pub scan_interval_us : ℕ
scan_interval_us = 10000000

-- The variables of the loop; `nil_time` is 0.
pub record Scanner : Type 0 where
  pub scan_time : ℕ
  pub scan_in_progress : Bool

abbrev pub fresh_scanner : Scanner
fresh_scanner = record { scan_time = 0; scan_in_progress = false }

-- A round: the time as it is read first and, where it is read again, later; what `cyw43_wifi_scan`
-- returns, and what `cyw43_wifi_scan_active` says.
pub record Round : Type 0 where
  pub now : ℕ
  pub later : ℕ
  pub scan_err : ℤ
  pub is_active : Bool

-- A call of the driver: `cyw43_wifi_scan`, with the times before and behind it and whether the scan
-- begins, or `cyw43_wifi_scan_active`, with its answer.
pub data Call : Type 0 where
  scan : ℕ → ℕ → Bool → Call
  scan_active : Bool → Call

-- The scan is tried, where none is in progress.
unfoldable pub try_scan : Round → Scanner → Scanner
try_scan r s =
    if is_zero r.scan_err
    then record s { scan_in_progress = true }
    else record s { scan_time = r.later + scan_interval_us }

unfoldable pub await_scan : Round → Scanner → Scanner
await_scan r s =
    if r.is_active
    then s
    else record { scan_time = r.later + scan_interval_us; scan_in_progress = false }

-- The body of the loop: the variables behind it, and its calls of the driver.
unfoldable pub scan_round : Round → Scanner → Scanner × List Call
unfolding try_scan await_scan
scan_round r s =
    if ltb s.scan_time r.now
    then if s.scan_in_progress
      then (await_scan r s, scan_active r.is_active ∷ [])
      else (try_scan r s, scan r.now r.later (is_zero r.scan_err) ∷ [])
    else (s, [])

-- Rounds of the loop.
unfoldable pub scan_loop : List Round → Scanner → Scanner × List Call
unfolding scan_round
scan_loop [] s = (s, [])
scan_loop (r ∷ rs) s =
    let (s', calls) = scan_round r s in let (s'', more) = scan_loop rs s' in (s'', calls ++ more)

-- `main`: what it returns, if it does, and its calls of the driver behind the start-up.
unfoldable pub main : ℤ → List Round → Option ℤ × List Call
unfolding scan_loop
main init_err rs =
    let calls = (scan_loop rs fresh_scanner).1 in
    if is_zero init_err then (none, calls) else (some (pos 1), [])
