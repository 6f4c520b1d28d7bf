-- ===== src/Http/Histories.antt =====
-- wifi/access_point/picow_access_point.c: what a connection keeps through all its callbacks, and when
-- it is closed.
use robotic_car_p3e.Prelude.{
  ℕ, ◌+◌, ◌≤◌, ◌<◌, ◌≡◌, refl, ◌∙◌, Bool, Option, none, some, List, [], ◌∷◌, ◌++◌, ◌==◌, leb,
  length, take, length-take, length-write, arith, ℤ, pos, negsuc, is_zero, Bool-cases, inl, inr,
  ltb,
}
use robotic_car_p3e.Telemetry.Parse.{starts_with}
use robotic_car_p3e.Http.Request.{
  http_get, cut_request, test_server_content, request_of, params_of, response_headers,
  response_redirect,
}
use robotic_car_p3e.Http.Connection.{
  Connection, Answers, Event, received, sent, polled, failed, fresh_connection,
  tcp_close_client_connection, tcp_server_sent, tcp_server_poll, tcp_server_err, write_body, send,
  respond, with_result, answer, on_get, on_request, store, tcp_server_recv, happen, history,
  print_into,
}
use robotic_car_p3e.Http.Buffers.{Ends, write-Ends, print_into-Ends, cut_request-Ends}
use robotic_car_p3e.Http.Redirect.{length-response_redirect}

-- The headers' buffer has its size and ends in a zero byte, the page's has its size, both lengths
-- fit, and something that was written is not yet acknowledged, unless nothing was.
pub record IsValid (c : Connection) : Type 0 where
  pub ends : Ends c.headers
  pub size : length c.result ≡ 256
  pub head : c.header_len ≤ 127
  pub page : c.result_len ≤ 255
  pub waiting : 0 < c.header_len → c.sent_len < c.header_len + c.result_len

-- The same of a connection that is not closed.
abbrev pub AllValid : Option Connection → Type 0
AllValid none = Unit {0}
AllValid (some c) = IsValid c

send-IsValid :
    (r : Answers) (led : Bool) (c : Connection)
    → Ends c.headers
    → length c.result ≡ 256
    → c.header_len ≤ 127
    → c.result_len ≤ 255
    → AllValid (send r led c).connection
unfolding send write_body tcp_close_client_connection
send-IsValid r led c ends size head page = elim (Bool-cases (is_zero r.header_err)) [
  | inr e ↦ rw e tt
  | inl e ↦ rw e (elim (Bool-cases (c.result_len == 0)) [
    | inl z ↦ rw z (kept)
    | inr z ↦
        rw z (elim (Bool-cases (is_zero r.body_err)) [ inl y ↦ rw y (kept) | inr y ↦ rw y tt ])
  ])
]
  where
    kept : IsValid (record c { sent_len = 0 })
    kept = record { ends = ends; size = size; head = head; page = page; waiting = λ h. omega arith }

respond-IsValid :
    (r : Answers) (gw : List ℕ) (led : Bool) (c : Connection)
    → length gw ≤ 15
    → Ends c.headers
    → length c.result ≡ 256
    → AllValid (respond r gw led c).connection
unfolding respond tcp_close_client_connection
respond-IsValid r gw led c short ends size = elim (Bool-cases (ltb 255 c.result_len)) [
  | inl e ↦ rw e tt
  | inr e ↦ rw e (elim (Bool-cases (c.result_len == 0)) [
    | inl z ↦ rw z (
        send-IsValid r led (with_head (response_redirect gw))
          (print_into-Ends c.headers (response_redirect gw) ends) size
          (length-response_redirect gw short) (ground arith))
    | inr z ↦ rw z (elim (Bool-cases (ltb 127 (length page))) [
      | inl y ↦ rw y tt
      | inr y ↦ rw y (
          send-IsValid r led (with_head page) (print_into-Ends c.headers page ends) size
            (ground arith) (ground arith))
    ])
  ])
]
  where
    page : List ℕ
    page = response_headers 200 c.result_len

    with_head : List ℕ → Connection
    with_head head = record c { headers = print_into c.headers 127 head; header_len = length head }

answer-IsValid :
    (r : Answers) (gw : List ℕ) (c : Connection) (content : Bool × List ℕ)
    → length gw ≤ 15
    → Ends c.headers
    → length c.result ≡ 256
    → AllValid (answer r gw c content).connection
unfolding answer
answer-IsValid r gw c (led, []) short ends size =
    respond-IsValid r gw led (with_result [] c) short ends size
answer-IsValid r gw c (led, b ∷ bs) short ends size =
    respond-IsValid r gw led (with_result (b ∷ bs) c) short ends
      (length-write c.result 0 (take 255 (b ∷ bs) ++ 0 ∷ []) ∙ size)

on_request-IsValid :
    (r : Answers) (gw : List ℕ) (led : Bool) (c : Connection)
    → length gw ≤ 15
    → IsValid c
    → AllValid (on_request r gw led c).connection
unfolding on_request on_get
on_request-IsValid r gw led c short v = elim (Bool-cases (starts_with http_get c.headers)) [
  | inl e ↦ rw e (
      answer-IsValid r gw _
        (test_server_content led (request_of (cut_request c.headers).0)
          (params_of (cut_request c.headers).0 (cut_request c.headers).1))
        short (cut_request-Ends c.headers v.ends) v.size)
  | inr e ↦ rw e v
]

store-IsValid : (payload : List ℕ) (c : Connection) → IsValid c → IsValid (store payload c)
store-IsValid payload c v = record {
  ends = write-Ends c.headers (take 127 payload) v.ends (omega (arith, length-take 127 payload));
  size = v.size;
  head = v.head;
  page = v.page;
  waiting = v.waiting;
}

tcp_server_recv-IsValid :
    (r : Answers) (gw : List ℕ) (led : Bool) (payload : Option (List ℕ)) (c : Connection)
    → length gw ≤ 15
    → IsValid c
    → AllValid (tcp_server_recv r gw led payload c).connection
unfolding tcp_server_recv tcp_close_client_connection
tcp_server_recv-IsValid r gw led none c short v = tt
tcp_server_recv-IsValid r gw led (some []) c short v = v
tcp_server_recv-IsValid r gw led (some (b ∷ bs)) c short v =
    on_request-IsValid r gw led (store (b ∷ bs) c) short (store-IsValid (b ∷ bs) c v)

tcp_server_sent-IsValid :
    (close_err : ℤ) (led : Bool) (len : ℕ) (c : Connection)
    → IsValid c
    → AllValid (tcp_server_sent close_err led len c).connection
unfolding tcp_server_sent tcp_close_client_connection
tcp_server_sent-IsValid close_err led len c v =
    elim (Bool-cases (leb (c.header_len + c.result_len) (c.sent_len + len))) [
      | inl e ↦ rw e tt
      | inr e ↦ rw e (record {
        ends = v.ends;
        size = v.size;
        head = v.head;
        page = v.page;
        waiting = λ h. ground arith;
      })
    ]

tcp_server_err-IsValid :
    (close_err err : ℤ) (led : Bool) (c : Connection)
    → IsValid c
    → AllValid (tcp_server_err close_err led err c).connection
unfolding tcp_server_err tcp_close_client_connection
tcp_server_err-IsValid close_err (pos n) led c v = tt
tcp_server_err-IsValid close_err (negsuc n) led c v = elim (Bool-cases (n == 12)) [
  | inl e ↦ rw e v
  | inr e ↦ rw e tt
]

happen-IsValid :
    (gw : List ℕ) (led : Bool) (e : Event) (c : Connection)
    → length gw ≤ 15
    → IsValid c
    → AllValid (happen gw led e c).connection
unfolding happen tcp_server_poll tcp_close_client_connection
happen-IsValid gw led (received r payload) c short v =
    tcp_server_recv-IsValid r gw led payload c short v
happen-IsValid gw led (sent close_err len) c short v = tcp_server_sent-IsValid close_err led len c v
happen-IsValid gw led (polled close_err) c short v = tt
happen-IsValid gw led (failed close_err err) c short v =
    tcp_server_err-IsValid close_err err led c v

history-AllValid_from :
    (gw : List ℕ) (led : Bool) (es : List Event) (o : Option Connection)
    → length gw ≤ 15
    → AllValid o
    → AllValid (history gw led es o).0
unfolding history
history-AllValid_from gw led [] none short v = tt
history-AllValid_from gw led (e ∷ es) none short v = tt
history-AllValid_from gw led [] (some c) short v = v
history-AllValid_from gw led (e ∷ es) (some c) short v =
    history-AllValid_from gw (happen gw led e c).led es (happen gw led e c).connection short
      (happen-IsValid gw led e c short v)

-- Whatever lwIP calls an accepted connection for, in whatever order and with whatever answers, until
-- it is closed: the buffer of the headers keeps its size and the zero byte at its end, so that no
-- search for a character leaves it, both lengths stay within their buffers, and a connection that
-- has written something waits for an acknowledgement. The gateway's address has at most 15
-- characters.
pub history-AllValid :
    (gw : List ℕ) (led : Bool) (es : List Event) (pcb : ℕ)
    → length gw ≤ 15
    → AllValid (history gw led es (some (fresh_connection pcb))).0
history-AllValid gw led es pcb short =
    history-AllValid_from gw led es (some (fresh_connection pcb)) short (record {
      ends = record { size = refl; last = refl };
      size = refl;
      head = omega arith;
      page = omega arith;
      waiting = λ h. omega arith;
    })
