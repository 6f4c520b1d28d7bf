-- ===== src/Beacon/Tests.antt =====
-- Packets of the beacon.
use robotic_car_p3e.Prelude.{◌≡◌, List, [], ◌∷◌, map, ℤ, pos, negsuc, arith}
use robotic_car_p3e.Beacon.Packets.{run_udp_beacon}
use robotic_car_p3e.Beacon.Numbers.{number_in, numbers_from, count_sent, run_udp_beacon-numbers}

-- The second packet is not sent.
abbrev results : List ℤ
results = pos 0 ∷ negsuc 0 ∷ pos 0 ∷ []

beacon_example : map number_in (run_udp_beacon results 0) ≡ numbers_from 0 (count_sent results)
beacon_example = run_udp_beacon-numbers results 0 (omega arith)
