-- ===== src/Http/Redirect.antt =====
-- wifi/access_point/picow_access_point.c, `tcp_server_recv`: requests for another path than the
-- LED's.
use robotic_car_p3e.Prelude.{
  ℕ, ◌+◌, ◌-◌, ◌≤◌, ◌≡◌, refl, ap, ◌∙◌, Bool, true, false, Option, none, some, List, [], ◌∷◌, ◌++◌,
  codes, length, set, drop, take, write, length-append, length-set, length-write, arith, ℤ,
}
use robotic_car_p3e.Telemetry.Parse.{starts_with}
use robotic_car_p3e.Http.Request.{
  http_get, led_test, request_at, cut_space, cut_at, cut_request, request_of, params_of,
  test_server_content, response_redirect,
}
use robotic_car_p3e.Http.Connection.{
  Connection, headers_size, print_into, going_on, write_body, send, respond, answer, on_get,
  on_request, store, tcp_server_recv,
}
use robotic_car_p3e.Http.Cutting.{starts_with-cut_request}
use robotic_car_p3e.Http.Pages.{take-print_into, all_written}

length-cut_space : (space : Option ℕ) (s : List ℕ) → length (cut_space space s) ≡ length s
length-cut_space none s = refl
length-cut_space (some i) s = length-set s (request_at + i) 0

length-cut_at : (mark space : Option ℕ) (s : List ℕ) → length (cut_at mark space s).0 ≡ length s
length-cut_at none space s = refl
length-cut_at (some i) space s =
    length-cut_space space (set s (request_at + i) 0) ∙ length-set s (request_at + i) 0

pub length-cut_request : (s : List ℕ) → length (cut_request s).0 ≡ length s
unfolding cut_request
length-cut_request s = length-cut_at _ _ s

pub length-response_redirect : (gw : List ℕ) → length gw ≤ 15 → length (response_redirect gw) ≤ 127
unfolding response_redirect
length-response_redirect gw h = omega (arith, length-append {0} gw (led_test ++ codes "\n\n"))

-- The connection behind a redirection.
abbrev pub redirected : List ℕ → Connection → Connection
redirected head c = record c {
  sent_len = 0;
  headers = print_into c.headers (headers_size - 1) head;
  header_len = length head;
  result_len = 0;
}

answer-redirect :
    (close_err : ℤ) (gw : List ℕ) (led : Bool) (c : Connection)
    → length c.headers ≡ headers_size
    → length gw ≤ 15
    → answer (all_written close_err) gw c (led, [])
      ≡ going_on led (response_redirect gw ∷ []) (redirected (response_redirect gw) c)
unfolding answer respond send write_body
answer-redirect close_err gw led c hs short =
    ap (λ h. going_on led (h ∷ []) (redirected (response_redirect gw) c))
      (take-print_into c.headers (response_redirect gw) 127 hs (length-response_redirect gw short))

-- What the code makes of another path.
test_server_content-other :
    (led : Bool) (request : List ℕ) (params : Option (List ℕ))
    → starts_with led_test request ≡ false
    → test_server_content led request params ≡ (led, [])
unfolding test_server_content
test_server_content-other led request params h = rw h refl

on_request-redirect :
    (close_err : ℤ) (gw : List ℕ) (led : Bool) (c : Connection)
    → length c.headers ≡ headers_size
    → length gw ≤ 15
    → starts_with http_get c.headers ≡ true
    → starts_with led_test (drop request_at c.headers) ≡ false
    → on_request (all_written close_err) gw led c
      ≡ going_on led
          (response_redirect gw ∷ [])
          (redirected (response_redirect gw) (record c { headers = (cut_request c.headers).0 }))
unfolding on_request on_get
on_request-redirect close_err gw led c hs short get other =
    let r = all_written close_err in
    let c' = record c { headers = (cut_request c.headers).0 } in
    let content =
      test_server_content-other led (request_of c'.headers)
        (params_of c'.headers (cut_request c.headers).1)
        (starts_with-cut_request c.headers ∙ other) in
    rw get (
      ap (answer r gw c') content
      ∙ answer-redirect close_err gw led c' (length-cut_request c.headers ∙ hs) short)

-- A GET of any other path than one that begins with the LED's is redirected to the LED's page on
-- the gateway and leaves the LED as it is; only the redirection is counted as not yet acknowledged.
-- The request is read in the buffer of the headers behind the copy of the packet; the gateway's
-- address has at most 15 characters, and lwIP takes what is written.
pub tcp_server_recv-redirect :
    (close_err : ℤ) (gw : List ℕ) (led : Bool) (c : Connection) (b : ℕ) (bs : List ℕ)
    → length c.headers ≡ headers_size
    → length gw ≤ 15
    → starts_with http_get (write c.headers 0 (take 127 (b ∷ bs))) ≡ true
    → starts_with led_test (drop request_at (write c.headers 0 (take 127 (b ∷ bs)))) ≡ false
    → (c' : Connection) × (tcp_server_recv (all_written close_err) gw led (some (b ∷ bs)) c
        ≡ going_on led (response_redirect gw ∷ []) c')
      × (c'.sent_len ≡ 0)
      × (c'.header_len ≡ length (response_redirect gw))
      × (c'.result_len ≡ 0)
unfolding tcp_server_recv
tcp_server_recv-redirect close_err gw led c b bs hs short get other =
    let c' = store (b ∷ bs) c in
    (
      redirected (response_redirect gw) (record c' { headers = (cut_request c'.headers).0 }),
      on_request-redirect close_err gw led c' (length-write c.headers 0 (take 127 (b ∷ bs)) ∙ hs)
          short get other,
      refl,
      refl,
      refl,
    )
