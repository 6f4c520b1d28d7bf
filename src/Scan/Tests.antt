-- ===== src/Scan/Tests.antt =====
-- Runs of the scanning program.
use robotic_car_p3e.Prelude.{
  ℕ, ◌+◌, ◌<◌, ◌≡◌, refl, Bool, true, false, none, List, [], ◌∷◌, ◌++◌, pos, negsuc, arith,
}
use robotic_car_p3e.Scan.Loop.{Scanner, Round, scan, scan_active, main, scan_loop}
use robotic_car_p3e.Scan.Attempts.{
  IsOrderly, AllSpacedLater, main-scans, count_scans, scan_loop-retries,
}

-- A round at the given second.
abbrev at : ℕ → Bool → Round
at now active = record { now = now; later = now + 10; scan_err = pos 0; is_active = active }

abbrev refused : Round
refused = record { now = 1000000; later = 1000010; scan_err = negsuc 4; is_active = false }

abbrev rounds : List Round
rounds =
    refused
    ∷ at 2000000 false
    ∷ at 12000000 false
    ∷ at 13000000 true
    ∷ at 14000000 false
    ∷ at 25000000 false
    ∷ []

-- The second round comes too early; the fourth and the fifth ask the driver.
rounds_example : main (pos 0) rounds ≡ (
  none,
  scan 1000000 1000010 false
      ∷ scan 12000000 12000010 true
      ∷ scan_active true
      ∷ scan_active false
      ∷ scan 25000000 25000010 true
      ∷ [],
)
unfolding main
rounds_example = refl

scans_example : IsOrderly false (main (pos 0) rounds).1 × AllSpacedLater (main (pos 0) rounds).1
scans_example = main-scans (pos 0) rounds (omega arith)

abbrev scanning : Scanner
scanning = record { scan_time = 0; scan_in_progress = true }

retries_example :
    0
    < count_scans
        (scan_loop
          (at 1000000 false ∷ (at 5000000 false ∷ [] ++ at 12000000 false ∷ []))
          scanning).1
retries_example =
    scan_loop-retries (at 1000000 false) (at 5000000 false ∷ []) (at 12000000 false) scanning refl
      (omega arith) refl (omega arith)
