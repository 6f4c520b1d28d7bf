-- ===== src/Tls/Tests.antt =====
-- Runs of the TLS client.
use robotic_car_p3e.Prelude.{
  ℕ, ◌≡◌, ◌↔◌, refl, true, false, some, none, List, [], ◌∷◌, pos, negsuc, codes,
}
use robotic_car_p3e.Tls.Client.{
  Codes, Event, polled, resolved, connected, received, returned, err_inprogress, tls_client_init,
  run_tls_client_test,
}
use robotic_car_p3e.Tls.Runs.{first_end, expected, run_tls_client_test_lem}
use robotic_car_p3e.Tls.Programs.{Answers, exited, verify_main}
use robotic_car_p3e.Tls.Verdicts.{IsBegun, verify_main-exited}

abbrev sdk : Codes
sdk = record { timeout_error = negsuc 0; generic_error = negsuc 1 }

abbrev request : List ℕ
request = codes "GET /api/ip HTTP/1.1"

abbrev page : List ℕ
page = codes "HTTP/1.1 200 OK"

-- A name without address counts as a passed test.
no_address :
    run_tls_client_test sdk
      (pos 0)
      (pos 0)
      err_inprogress
      (some 1)
      request
      15
      (resolved (pos 0) none ∷ [])
    ≡ returned true
unfolding run_tls_client_test
no_address = refl

runs_example :
    run_tls_client_test sdk (pos 0) (pos 0) err_inprogress (some 1) request 15 (
      resolved (pos 0) (some 7)
      ∷ connected (pos 0) (pos 0)
      ∷ received (some page)
      ∷ received none
      ∷ [])
    ≡ expected
        (pos 0)
        err_inprogress
        (resolved (pos 0) (some 7)
          ∷ connected (pos 0) (pos 0)
          ∷ received (some page)
          ∷ received none
          ∷ [])
        (record (tls_client_init request 15) { pcb = some 1 })
runs_example =
    run_tls_client_test_lem sdk (pos 0) (pos 0) err_inprogress 1 request 15
      (resolved (pos 0) (some 7)
        ∷ connected (pos 0) (pos 0)
        ∷ received (some page)
        ∷ received none
        ∷ [])
      refl refl

-- The name has no address, and then the server does not answer in time.
abbrev answers : List Event → Answers
answers es = record {
  close_err = pos 0;
  connect_err = pos 0;
  dns_err = err_inprogress;
  pcb = some 1;
  events = es;
}

abbrev begun : (es : List Event) → IsBegun (answers es)
begun es = record { handle = 1; has_block = refl; looks_up = refl }

unreachable_example :
    (verify_main sdk (pos 0) (pos 0) (answers (resolved (pos 0) none ∷ [])) (answers (polled ∷ []))
      ≡ exited 0)
    ↔ ((first_end (resolved (pos 0) none ∷ []) ≡ some true)
        × (first_end (polled ∷ []) ≡ some false))
unreachable_example =
    verify_main-exited sdk refl refl (answers (resolved (pos 0) none ∷ [])) (answers (polled ∷ []))
      (begun (resolved (pos 0) none ∷ [])) (begun (polled ∷ []))

-- The test of the certificates passes though the server is never reached.
unreachable_passes :
    verify_main sdk (pos 0) (pos 0) (answers (resolved (pos 0) none ∷ [])) (answers (polled ∷ []))
    ≡ exited 0
unreachable_passes =
    (verify_main-exited sdk refl refl (answers (resolved (pos 0) none ∷ [])) (answers (polled ∷ []))
        (begun (resolved (pos 0) none ∷ [])) (begun (polled ∷ []))).1
      (refl, refl)
