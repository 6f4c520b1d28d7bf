-- ===== src/Echo/Tests.antt =====
-- Runs of the TCP client.
use robotic_car_p3e.Prelude.{
  ℕ, ◌≡◌, refl, none, leb, if◌then◌else◌, length, List, [], ◌∷◌, ◌++◌, some, replicate, arith,
}
use robotic_car_p3e.Echo.Client.{
  Client, err_ok, tcp_client_init, tcp_client_open, finished, waiting, run_tcp_client_test,
  test_iterations,
}
use robotic_car_p3e.Echo.Finish.{rounds, run_tcp_client_test-rounds}
use robotic_car_p3e.Echo.Packets.{receive_all, receive_all-concat}

-- The definitions that a run computes with.
runs : ℕ
unfolding tcp_client_init tcp_client_open
runs = 0

abbrev opened : Client
opened = (tcp_client_open (some 1) err_ok tcp_client_init).0

-- A buffer in three packets.
abbrev packets : List (List ℕ)
packets = replicate 1000 1 ∷ replicate 1000 2 ∷ replicate 48 3 ∷ []

packets_example :
    (receive_all err_ok packets opened).1
    ≡ (replicate 1000 1 ++ (replicate 1000 2 ++ replicate 48 3)) ∷ []
unfolding runs
packets_example =
    receive_all-concat err_ok packets opened (omega arith, (omega arith, (omega arith, tt))) refl
      (omega arith) refl

-- Two of the ten rounds.
abbrev buffers : List (List ℕ)
buffers = replicate 2048 5 ∷ replicate 2048 6 ∷ []

two_rounds_example :
    (t : Client) × (run_tcp_client_test err_ok (some 1) err_ok (rounds buffers)
      ≡ (if leb test_iterations (length buffers) then finished t else waiting t))
    × (t.run_count ≡ length buffers)
    × (t.tcp_pcb ≡ (if leb test_iterations (length buffers) then none else some 1))
two_rounds_example =
    run_tcp_client_test-rounds err_ok 1 buffers (omega arith, (omega arith, tt)) (omega arith)
