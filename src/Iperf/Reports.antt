-- ===== src/Iperf/Reports.antt =====
-- wifi/iperf/picow_iperf.c: the count of `iperf_report`, which lwIP calls behind each transfer.
use robotic_car_p3e.Prelude.{ℕ, ◌+◌, ◌/◌, ◌%◌, ◌^◌, List, [], ◌∷◌}

-- `total_iperf_megabytes`, given how many bytes a transfer had.
unfoldable pub iperf_report : ℕ → ℕ → ℕ
iperf_report total_iperf_megabytes bytes_transferred =
    let mbytes = bytes_transferred / 1024 / 1024 in (total_iperf_megabytes + mbytes) % 2 ^ 32

unfoldable pub iperf_reports : List ℕ → ℕ → ℕ
unfolding iperf_report
iperf_reports [] total = total
iperf_reports (bytes ∷ transfers) total = iperf_reports transfers (iperf_report total bytes)
