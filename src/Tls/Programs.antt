-- ===== src/Tls/Programs.antt =====
-- wifi/tls_client/picow_tls_client.c and wifi/tls_client/tls_verify.c: the programs that run the
-- client. The certificates go to mbedtls, and are left out.
use robotic_car_p3e.Prelude.{
  ℕ, Bool, not, ◌&&◌, Option, List, [], ◌∷◌, ◌++◌, if◌then◌else◌, ℤ, is_zero, codes,
}
use robotic_car_p3e.Tls.Client.{
  Codes, Event, Run, returned, waiting, undefined, run_tls_client_test,
}

-- `TLS_CLIENT_TIMEOUT_SECS`.
abbrev pub timeout_secs : ℕ
timeout_secs = 15

-- What lwIP gives in a run: the results of `altcp_close`, `altcp_connect`, `dns_gethostbyname` and
-- `altcp_tls_new`, and what happens to the client.
pub record Answers : Type 0 where
  pub close_err : ℤ
  pub connect_err : ℤ
  pub dns_err : ℤ
  pub pcb : Option ℕ
  pub events : List Event

-- How a program ends, if it does: with a result, or in a call that C leaves undefined.
pub data Exit : Type 0 where
  exited : ℕ → Exit
  still_running in_undefined : Exit

abbrev pub new_line : List ℕ
new_line = b'\r' ∷ b'\n' ∷ []

-- `TLS_CLIENT_HTTP_REQUEST` of each of the programs.
abbrev pub api_request : List ℕ
api_request =
    codes "GET /api/ip HTTP/1.1"
    ++ (new_line
        ++ (codes "Host: worldtimeapi.org"
            ++ (new_line ++ (codes "Connection: close" ++ (new_line ++ new_line)))))

abbrev pub boot_request : List ℕ
boot_request =
    codes "GET /net_install/boot.sig HTTP/1.1"
    ++ (new_line
        ++ (codes "Host: fw-download-alias1.raspberrypi.com"
            ++ (new_line ++ (codes "Connection: close" ++ (new_line ++ new_line)))))

unfoldable pub run_test : Codes → List ℕ → Answers → Run
unfolding run_tls_client_test
run_test k request a =
    run_tls_client_test k a.close_err a.connect_err a.dns_err a.pcb request timeout_secs a.events

abbrev pub exit_of : Bool → Exit
exit_of pass = exited (if pass then 0 else 1)

-- What follows a run.
abbrev pub behind_run : Run → (Bool → Exit) → Exit
behind_run (returned b) next = next b
behind_run (waiting s) next = still_running
behind_run undefined next = in_undefined

-- `main` of picow_tls_client.c, given what `cyw43_arch_init` and
-- `cyw43_arch_wifi_connect_timeout_ms` return.
unfoldable pub client_main : Codes → ℤ → ℤ → Answers → Exit
unfolding run_test
client_main k init_err wifi_err a =
    if is_zero init_err
    then if is_zero wifi_err then behind_run (run_test k api_request a) exit_of else exited 1
    else exited 1

-- The two tests of tls_verify.c: the one with the right certificate passes if the run does, the one
-- with the wrong certificate if it does not.
unfoldable pub verify : Codes → Answers → Answers → Exit
unfolding run_test
verify k good bad =
    behind_run (run_test k boot_request good)
      (λ pass1. behind_run (run_test k boot_request bad) (λ pass2. exit_of (pass1 && not pass2)))

-- `main` of tls_verify.c.
unfoldable pub verify_main : Codes → ℤ → ℤ → Answers → Answers → Exit
unfolding verify
verify_main k init_err wifi_err good bad =
    if is_zero init_err then if is_zero wifi_err then verify k good bad else exited 1 else exited 1
