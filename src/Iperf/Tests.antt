-- ===== src/Iperf/Tests.antt =====
-- Runs of the programs that measure the speed of the Wi-Fi.
use robotic_car_p3e.Prelude.{
  ℕ, ◌+◌, ◌-◌, ◌*◌, ◌^◌, ◌≤◌, ◌≡◌, refl, Bool, true, not, List, [], ◌∷◌, ◌++◌, length, ℤ, pos,
  negsuc, arith,
}
use robotic_car_p3e.Iperf.Reports.{iperf_reports}
use robotic_car_p3e.Iperf.Totals.{sum, iperf_reports-sum}
use robotic_car_p3e.Iperf.Station.{Round, key_pressed_func, main}
use robotic_car_p3e.Iperf.Blinking.{IsOver, main-pressed}

-- 1.5, 0.5 and 3 megabytes are counted as 4.
abbrev transfers : List ℕ
transfers = 1572864 ∷ 524288 ∷ 3145728 ∷ []

totals : iperf_reports transfers 0 ≡ 4
unfolding iperf_reports
totals = refl

sum_example :
    (iperf_reports transfers 0 * 2 ^ 20 ≤ sum transfers)
    × (sum transfers ≤ iperf_reports transfers 0 * 2 ^ 20 + length transfers * (2 ^ 20 - 1))
sum_example = iperf_reports-sum transfers (omega arith)

-- A link that is up in the station mode.
abbrev link_down : Bool → ℕ → Bool
link_down on air = not on

abbrev round : ℕ → List ℤ → Round
round now keys = record { air = 0; now = now; later = now + 10; reads_back = true; keys = keys }

abbrev waiting : Round
waiting = round 500000 (negsuc 0 ∷ [])

abbrev pressed : Round
pressed = round 2500000 (pos b'x' ∷ pos b'd' ∷ [])

pressed_example :
    IsOver (main link_down (pos 0) (pos 0) [] ((waiting ∷ []) ++ pressed ∷ round 3600000 [] ∷ []))
unfolding key_pressed_func
pressed_example =
    main-pressed link_down (λ air. refl) [] (waiting ∷ []) pressed (round 3600000 []) []
      (refl, (refl, tt)) refl
