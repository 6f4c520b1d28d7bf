-- ===== src/Ntp/Run.antt =====
-- wifi/ntp_client/picow_ntp_client.c: the program around the client.
use robotic_car_p3e.Prelude.{ℕ, Option, none, some, List, [], ◌∷◌, ◌++◌, if◌then◌else◌, ℤ, is_zero}
use robotic_car_p3e.Ntp.Client.{Client, Event, round, callback, is_due, ntp_init, happen, history}

-- The time at which `run_ntp_test` looks the server up, where an event is a round that does so.
unfoldable pub lookup_at : Event → Client → List ℕ
unfolding is_due
lookup_at (round r) s = if is_due r.now s then r.now ∷ [] else []
lookup_at (callback c) s = []

unfoldable pub lookups : List Event → Client → List ℕ
unfolding lookup_at
lookups [] s = []
lookups (e ∷ es) s = lookup_at e s ++ lookups es (happen e s)

-- How the program ends, if it does, or the state that it has come to.
pub data Exit : Type 0 where
  exited : ℕ → Exit
  going_on : Client → Exit

-- `run_ntp_test`, which returns only where there is no control block.
unfoldable pub run_ntp_test : Option ℕ → List Event → Option Client
unfolding ntp_init history
run_ntp_test pcb es = elim (ntp_init pcb) [ none ↦ none | some s ↦ some (history es s) ]

-- `main`, given what `cyw43_arch_init`, `cyw43_arch_wifi_connect_timeout_ms` and `udp_new_ip_type`
-- return.
unfoldable pub main : ℤ → ℤ → Option ℕ → List Event → Exit
unfolding run_ntp_test
main init_err wifi_err pcb es =
    let ran : Exit = elim (run_ntp_test pcb es) [ none ↦ exited 0 | some s ↦ going_on s ] in
    if is_zero init_err then (if is_zero wifi_err then ran else exited 1) else exited 1
