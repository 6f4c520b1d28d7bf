-- ===== src/Heartbeat/Tests.antt =====
-- Runs of the client that sends a message at intervals.
use robotic_car_p3e.Prelude.{ℕ, ◌+◌, false, true, some, List, [], ◌∷◌, pos, arith}
use robotic_car_p3e.Heartbeat.Client.{Client, Event, connected, Tick, run_tcp_client_test}
use robotic_car_p3e.Heartbeat.Intervals.{AllSpaced, run_tcp_client_test-AllSpaced}

-- A second passes in each round.
abbrev round : ℕ → List Event → Tick
round now events = record { events = events; now = now; later = now + 10; write_err = pos 0 }

abbrev ticks : List Tick
ticks = round 1000000 (connected 300000 (pos 0) ∷ []) ∷ round 2000000 [] ∷ []

spaced_example : AllSpaced 0 (run_tcp_client_test (pos 0) (some 1) (pos 0) ticks).messages
spaced_example =
    run_tcp_client_test-AllSpaced (pos 0) (some 1) (pos 0) ticks
      ((omega arith, omega arith), omega arith, (omega arith, omega arith, tt))

abbrev opened : Client
opened = record {
  tcp_pcb = some 1;
  buffer_len = 0;
  sent_len = 0;
  complete = false;
  run_count = 0;
  connected = true;
  last_message_time = 0;
}
