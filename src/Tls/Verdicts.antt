-- ===== src/Tls/Verdicts.antt =====
-- wifi/tls_client/picow_tls_client.c and wifi/tls_client/tls_verify.c: when the programs succeed.
use robotic_car_p3e.Prelude.{
  ℕ, ◌≡◌, ◌↔◌, refl, ap₂, ◌∙◌, Bool, true, false, not, ◌&&◌, Option, none, some, List, pos, is_zero,
  arith,
}
use robotic_car_p3e.Tls.Client.{Codes, Client, tls_client_init, run_tls_client_test, err_inprogress}
use robotic_car_p3e.Tls.Runs.{first_end, verdict, run_tls_client_test_lem}
use robotic_car_p3e.Tls.Programs.{
  Answers, exited, exit_of, behind_run, run_test, client_main, verify, verify_main, api_request,
  boot_request, timeout_secs,
}

-- The client has its control block, and the lookup of the name goes on in the background.
pub record IsBegun (a : Answers) : Type 0 where
  pub handle : ℕ
  pub has_block : a.pcb ≡ some handle
  pub looks_up : a.dns_err ≡ err_inprogress

module _ (k : Codes) (timeout : is_zero k.timeout_error ≡ false)
    (generic : is_zero k.generic_error ≡ false) where
  run_test_lem :
      (request : List ℕ) (a : Answers)
      → IsBegun a
      → (s : Client) × (run_test k request a ≡ verdict s (first_end a.events))
  unfolding run_test
  run_test_lem request a h =
      let start = record (tls_client_init request timeout_secs) { pcb = some h.handle } in
      (
        start,
        ap₂
              (λ e p.
                run_tls_client_test k a.close_err a.connect_err e p request timeout_secs a.events)
              h.looks_up h.has_block
            ∙ run_tls_client_test_lem k a.close_err a.connect_err err_inprogress h.handle request
                timeout_secs a.events timeout generic,
      )

  -- The program ends with 0 exactly if the first event that ends its run is none of the errors and no
  -- timeout.
  pub client_main-exited :
      (a : Answers)
      → IsBegun a
      → (client_main k (pos 0) (pos 0) a ≡ exited 0) ↔ (first_end a.events ≡ some true)
  unfolding client_main
  client_main-exited a h =
      let (s, run) = run_test_lem api_request a h in rw run (passes s (first_end a.events))
    where
      passes :
          (s : Client) (o : Option Bool)
          → (behind_run (verdict s o) exit_of ≡ exited 0) ↔ (o ≡ some true)
      passes s none = (λ e. cc, λ e. cc)
      passes s (some true) = (λ e. refl, λ e. refl)
      passes s (some false) = (λ e. ground arith, λ e. cc)

  -- Once the Wi-Fi is up and both clients have a control block and look the name up in the
  -- background, the program for the certificates ends with 0 exactly if the first event that ends the
  -- run with the right certificate is no error and no timeout, and the one that ends the run with the
  -- wrong certificate is an error or a timeout, be it of the certificate or not. The SDK's codes for a
  -- timeout and a generic error are not 0.
  pub verify_main-exited :
      (good bad : Answers)
      → IsBegun good
      → IsBegun bad
      → (verify_main k (pos 0) (pos 0) good bad ≡ exited 0)
        ↔ ((first_end good.events ≡ some true) × (first_end bad.events ≡ some false))
  unfolding verify_main verify
  verify_main-exited good bad g b =
      let (s, run) = run_test_lem boot_request good g in
      let (t, run') = run_test_lem boot_request bad b in
      rw (run, run') (passes s t (first_end good.events) (first_end bad.events))
    where
      passes :
          (s t : Client) (o p : Option Bool)
          → (behind_run
                (verdict s o)
                (λ pass1. behind_run (verdict t p) (λ pass2. exit_of (pass1 && not pass2)))
              ≡ exited 0)
            ↔ ((o ≡ some true) × (p ≡ some false))
      passes s t none p = (λ e. cc, λ e. cc)
      passes s t (some true) none = (λ e. cc, λ e. cc)
      passes s t (some false) none = (λ e. cc, λ e. cc)
      passes s t (some true) (some true) = (λ e. ground arith, λ e. cc)
      passes s t (some false) (some true) = (λ e. ground arith, λ e. cc)
      passes s t (some true) (some false) = (λ e. (refl, refl), λ e. refl)
      passes s t (some false) (some false) = (λ e. ground arith, λ e. cc)
