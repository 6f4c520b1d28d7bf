-- ===== src/Iperf/Totals.antt =====
-- wifi/iperf/picow_iperf.c: how far the count is from the number of bytes.
use robotic_car_p3e.Prelude.{ℕ, ◌+◌, ◌-◌, ◌*◌, ◌^◌, ◌≤◌, ◌<◌, List, [], ◌∷◌, length, arith}
use robotic_car_p3e.Iperf.Reports.{iperf_report, iperf_reports}

abbrev pub sum : List ℕ → ℕ
sum [] = 0
sum (n ∷ ns) = n + sum ns

abbrev megabyte : ℕ
megabyte = 1048576

iperf_report_bounds :
    (total bytes : ℕ)
    → total * megabyte + bytes < 2 ^ 52
    → (iperf_report total bytes * megabyte ≤ total * megabyte + bytes)
      × (total * megabyte + bytes < iperf_report total bytes * megabyte + megabyte)
unfolding iperf_report
iperf_report_bounds total bytes h = (omega arith, omega arith)

counted :
    (ns : List ℕ) (total : ℕ)
    → total * megabyte + sum ns < 2 ^ 52
    → (iperf_reports ns total * megabyte ≤ total * megabyte + sum ns)
      × (total * megabyte + sum ns ≤ iperf_reports ns total * megabyte + length ns * 1048575)
unfolding iperf_reports
counted [] total h = (omega arith, omega arith)
counted (n ∷ ns) total h =
    let (low, high) = iperf_report_bounds total n (omega arith) in
    let (less, more) = counted ns (iperf_report total n) (omega arith) in (omega arith, omega arith)

-- As long as fewer than 2^52 bytes are transferred in all, the count in megabytes is not above the
-- number of bytes, and below it by less than a megabyte for each transfer.
pub iperf_reports-sum :
    (transfers : List ℕ)
    → sum transfers < 2 ^ 52
    → (iperf_reports transfers 0 * 2 ^ 20 ≤ sum transfers)
      × (sum transfers ≤ iperf_reports transfers 0 * 2 ^ 20 + length transfers * (2 ^ 20 - 1))
iperf_reports-sum transfers h =
    let (low, high) = counted transfers 0 (omega arith) in (omega arith, omega arith)
