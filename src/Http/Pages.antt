-- ===== src/Http/Pages.antt =====
-- wifi/access_point/picow_access_point.c, `tcp_server_recv`: what a request does to the LED and what
-- it is answered with.
use robotic_car_p3e.Prelude.{
  ℕ, zero, suc, ◌+◌, ◌-◌, ◌≤◌, ◌<◌, ◌≡◌, refl, sym, ap, ap₂, ◌∙◌, Bool, true, false, not, some,
  List, [], ◌∷◌, ◌++◌, if◌then◌else◌, codes, length, drop, take, write, length-append, length-take,
  length-write, arith, ℤ, pos, negsuc, ◌^◌, is_zero, write-split, take-append_exact, take-all,
}
use mathlib.Core.List.{append_assoc}
use robotic_car_p3e.Telemetry.Decimal.{print_ℕ, print_int, scan_int-print_int}
use robotic_car_p3e.Telemetry.Directions.{length-print_ℕ}
use robotic_car_p3e.Telemetry.Parse.{starts_with}
use robotic_car_p3e.Telemetry.Dashboard.{literal}
use robotic_car_p3e.Http.Request.{
  http_get, index_of, cut_request, request_of, params_of, led_param, led_after, led_body,
  test_server_content, response_headers,
}
use robotic_car_p3e.Http.Connection.{
  Connection, Answers, headers_size, result_size, err_ok, print_into, going_on, write_body, send,
  respond, answer, on_get, on_request, tcp_server_recv,
}
use robotic_car_p3e.Http.Cutting.{
  is_free, index_of-append, set-append, c_string-append, is_free-print_int,
}

-- What `snprintf` puts into a buffer with room for it is what `tcp_write` sends.
pub take-print_into :
    (buf text : List ℕ) (room : ℕ)
    → length buf ≡ room + 1
    → length text ≤ room
    → take (length text) (print_into buf room text) ≡ text
take-print_into buf text room size fits =
    let whole : print_into buf room text ≡ write buf 0 (text ++ 0 ∷ []) =
      ap (λ t. write buf 0 (t ++ 0 ∷ [])) (take-all text room fits) in
    let more = length-append {0} text (0 ∷ []) in
    ap (take (length text))
      (whole ∙ write-split buf 0 (text ++ 0 ∷ []) (omega (arith, more)) ∙ append_assoc text _ _)
    ∙ take-append_exact text _ (length text) refl

abbrev pub led_request : List ℕ → List ℕ → List ℕ
led_request number rest = codes "GET /ledtest?" ++ (codes "led=" ++ (number ++ b' ' ∷ rest))

-- The headers once they are cut.
abbrev led_cut : List ℕ → List ℕ → List ℕ
led_cut number rest = codes "GET /ledtest" ++ 0 ∷ (codes "led=" ++ (number ++ 0 ∷ rest))

cut_request-led :
    (number rest : List ℕ)
    → is_free b' ' number ≡ true
    → cut_request (led_request number rest) ≡ (led_cut number rest, some 13)
unfolding cut_request index_of
cut_request-led number rest free =
    let at = index_of-append b' ' number rest (omega arith) free in
    rw at (
      ap (λ s. (s, some 13))
        (set-append (codes "GET /ledtest" ++ 0 ∷ (codes "led=" ++ number)) rest b' ' 0 _
          (omega arith)))

-- lwIP takes what it is given to write.
abbrev pub all_written : ℤ → Answers
all_written close_err = record { close_err = close_err; header_err = err_ok; body_err = err_ok }

-- The connection behind a page.
abbrev pub served : List ℕ → List ℕ → Connection → Connection
served head body c = record c {
  sent_len = 0;
  headers = print_into c.headers (headers_size - 1) head;
  result = print_into c.result (result_size - 1) body;
  header_len = length head;
  result_len = length body;
}

abbrev pub page_head : Bool → List ℕ
page_head led = response_headers 200 (length (led_body led))

answer-page :
    (close_err : ℤ) (gw : List ℕ) (c : Connection) (led : Bool)
    → length c.headers ≡ headers_size
    → length c.result ≡ result_size
    → answer (all_written close_err) gw c (led, led_body led)
      ≡ going_on led (page_head led ∷ led_body led ∷ []) (served (page_head led) (led_body led) c)
unfolding answer respond send write_body print_ℕ led_body response_headers
answer-page close_err gw c true hs rs =
    ap₂ (λ h b. going_on true (h ∷ b ∷ []) (served (page_head true) (led_body true) c))
      (take-print_into c.headers (page_head true) 127 hs (omega arith))
      (take-print_into c.result (led_body true) 255 rs (omega arith))
answer-page close_err gw c false hs rs =
    ap₂ (λ h b. going_on false (h ∷ b ∷ []) (served (page_head false) (led_body false) c))
      (take-print_into c.headers (page_head false) 127 hs (omega arith))
      (take-print_into c.result (led_body false) 255 rs (omega arith))

take-past :
    (p rest : List ℕ) (x n : ℕ)
    → length p < n
    → take n (p ++ x ∷ rest) ≡ p ++ x ∷ take (n - length p - 1) rest
take-past [] rest x zero h = absurd (omega arith)
take-past [] rest x (suc n) h = ap (λ k. x ∷ take k rest) (omega arith)
take-past (y ∷ ys) rest x zero h = absurd (omega arith)
take-past (y ∷ ys) rest x (suc n) h =
    let shift : n - length ys - 1 ≡ suc n - suc (length ys) - 1 = omega arith in
    ap (λ r. y ∷ r) (take-past ys rest x n (omega arith) ∙ ap (λ k. ys ++ x ∷ take k rest) shift)

-- A packet whose front fits is in the headers' buffer up to there.
stored :
    (headers p rest : List ℕ) (x n : ℕ)
    → length p < n
    → n ≤ length headers
    → (junk : List ℕ) × (write headers 0 (take n (p ++ x ∷ rest)) ≡ p ++ x ∷ junk)
stored headers p rest x n short fits =
    let front = take (n - length p - 1) rest in
    let size = length-append {0} p (x ∷ front) in
    let front_size = length-take (n - length p - 1) rest in
    let all_size : 0 + length (p ++ x ∷ front) ≤ length headers = omega (arith, size, front_size) in
    (
      front ++ drop (0 + length (p ++ x ∷ front)) headers,
      ap (write headers 0) (take-past p rest x n short)
          ∙ write-split headers 0 (p ++ x ∷ front) all_size
          ∙ append_assoc p (x ∷ front) _,
    )

abbrev led_front : List ℕ → List ℕ
led_front number = codes "GET /ledtest?" ++ (codes "led=" ++ number)

-- What the parameter says of the LED.
abbrev pub lit_by : ℤ → Bool
lit_by z = not (is_zero z)

test_server_content-led :
    (led : Bool) (z : ℤ) (rest : List ℕ)
    → test_server_content led
        (request_of (led_cut (print_int z []) rest))
        (params_of (led_cut (print_int z []) rest) (some 13))
      ≡ (lit_by z, led_body (lit_by z))
unfolding test_server_content led_after led_param literal
test_server_content-led led z rest =
    let word = c_string-append b' ' (print_int z []) rest (is_free-print_int z) in
    rw (word, scan_int-print_int z [] refl) refl

-- The headers and the page that answer a request for the LED.
abbrev pub led_answer : Bool → List (List ℕ)
led_answer led = page_head led ∷ led_body led ∷ []

on_request-led :
    (close_err z : ℤ) (gw : List ℕ) (led : Bool) (c : Connection) (rest : List ℕ)
    → length c.headers ≡ headers_size
    → length c.result ≡ result_size
    → c.headers ≡ led_request (print_int z []) rest
    → on_request (all_written close_err) gw led c
      ≡ going_on (lit_by z) (led_answer (lit_by z)) (
          served
            (page_head (lit_by z))
            (led_body (lit_by z))
            (record c { headers = led_cut (print_int z []) rest }))
unfolding on_request on_get
on_request-led close_err z gw led c rest hs rs e =
    let r = all_written close_err in
    let c' = record c { headers = led_cut (print_int z []) rest } in
    ap
      (λ h. if starts_with http_get h then on_get r gw led c (cut_request h) else going_on led [] c)
      e
    ∙ ap (on_get r gw led c) (cut_request-led (print_int z []) rest (is_free-print_int z))
    ∙ ap (answer r gw c') (test_server_content-led led z rest)
    ∙ answer-page close_err gw c' (lit_by z)
        (omega (
          arith,
          ap length e,
          length-append {0} (print_int z []) (b' ' ∷ rest),
          length-append {0} (print_int z []) (0 ∷ rest),
        ))
        rs

-- A number of type `int`.
abbrev pub IsInt : ℤ → Type 0
IsInt (pos n) = n < 2 ^ 31
IsInt (negsuc n) = n < 2 ^ 31

IsInt-short : (z : ℤ) → IsInt z → length (print_int z []) < 110
unfolding print_int
IsInt-short (pos n) h = omega (arith, length-print_ℕ n 9 [] (omega (arith, h)))
IsInt-short (negsuc n) h = omega (arith, length-print_ℕ (n + 1) 9 [] (omega (arith, h)))

-- A packet that asks for the LED with a number of type `int` sets it, on exactly if the number is not
-- 0, and is answered with the headers of a page of that length and the page for the new state; all of
-- it counts as not yet acknowledged. Whatever stands behind the space that ends the number is as long
-- as it likes, and lwIP takes what is written.
pub tcp_server_recv-led :
    (close_err z : ℤ) (gw : List ℕ) (led : Bool) (c : Connection) (rest : List ℕ)
    → length c.headers ≡ headers_size
    → length c.result ≡ result_size
    → IsInt z
    → (c' : Connection) × (tcp_server_recv
          (all_written close_err)
          gw
          led
          (some (led_request (print_int z []) rest))
          c
        ≡ going_on (lit_by z) (led_answer (lit_by z)) c')
      × (c'.sent_len ≡ 0)
      × (c'.header_len ≡ length (page_head (lit_by z)))
      × (c'.result_len ≡ length (led_body (lit_by z)))
unfolding tcp_server_recv
tcp_server_recv-led close_err z gw led c rest hs rs fits =
    let short = IsInt-short z fits in
    let number = print_int z [] in
    let (junk, e) = stored c.headers (led_front number) rest b' ' 127 (omega arith) (omega arith) in
    let c' = record c { headers = led_request number junk } in
    let size : length (led_request number junk) ≡ headers_size =
      sym (ap length e)
      ∙ length-write c.headers 0 (take 127 (led_front number ++ b' ' ∷ rest))
      ∙ hs in
    (
      served (page_head (lit_by z)) (led_body (lit_by z))
          (record c { headers = led_cut number junk }),
      ap (λ h. on_request (all_written close_err) gw led (record c { headers = h })) e
          ∙ on_request-led close_err z gw led c' junk size rs refl,
      refl,
      refl,
      refl,
    )
