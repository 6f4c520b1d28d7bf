-- ===== src/Http/Connection.antt =====
-- wifi/access_point/picow_access_point.c: a client's connection and its callbacks. What lwIP's
-- calls return is an argument, and what is written to the client is a result.
use robotic_car_p3e.Prelude.{
  ℕ, ◌+◌, ◌-◌, Bool, false, Option, none, some, List, [], ◌∷◌, ◌++◌, ◌==◌, ltb, leb, if◌then◌else◌,
  length, take, replicate, write, ℤ, pos, negsuc, is_zero,
}
use robotic_car_p3e.Telemetry.Parse.{starts_with}
use robotic_car_p3e.Http.Request.{
  http_get, cut_request, request_of, params_of, test_server_content, response_headers,
  response_redirect,
}

abbrev pub headers_size : ℕ
headers_size = 128

abbrev pub result_size : ℕ
result_size = 256

abbrev pub err_ok : ℤ
err_ok = pos 0

abbrev pub err_mem : ℤ
err_mem = negsuc 0

abbrev pub err_val : ℤ
err_val = negsuc 5

abbrev pub err_abrt : ℤ
err_abrt = negsuc 12

abbrev pub err_clsd : ℤ
err_clsd = negsuc 14

-- `TCP_CONNECT_STATE_T`; the control block is a handle. The gateway's address stands in the server.
pub record Connection : Type 0 where
  pub pcb : ℕ
  pub sent_len : ℕ
  pub headers : List ℕ
  pub result : List ℕ
  pub header_len : ℕ
  pub result_len : ℕ

-- What a callback leaves: the connection, unless it is closed and its state freed, the LED, the
-- returned error, and what is queued for the client.
pub record Outcome : Type 0 where
  pub connection : Option Connection
  pub led : Bool
  pub error : ℤ
  pub written : List (List ℕ)

-- `calloc` in `tcp_server_accept`.
abbrev pub fresh_connection : ℕ → Connection
fresh_connection pcb = record {
  pcb = pcb;
  sent_len = 0;
  headers = replicate headers_size 0;
  result = replicate result_size 0;
  header_len = 0;
  result_len = 0;
}

-- `tcp_server_accept`: the new connection, if there is one, and the returned error.
unfoldable pub tcp_server_accept : ℤ → Option ℕ → Bool → Option Connection × ℤ
tcp_server_accept err none allocated = (none, err_val)
tcp_server_accept err (some pcb) allocated =
    if is_zero err
    then (if allocated then (some (fresh_connection pcb), err_ok) else (none, err_mem))
    else (none, err_val)

-- What a call of lwIP's is answered with: the results of `tcp_close`, and of `tcp_write` for the
-- headers and for the page.
pub record Answers : Type 0 where
  pub close_err : ℤ
  pub header_err : ℤ
  pub body_err : ℤ

-- `tcp_close_client_connection`, with what has been written before.
unfoldable pub tcp_close_client_connection : ℤ → Bool → List (List ℕ) → ℤ → Outcome
tcp_close_client_connection close_err led written err = record {
  connection = none;
  led = led;
  error = if is_zero close_err then err else err_abrt;
  written = written;
}

abbrev pub going_on : Bool → List (List ℕ) → Connection → Outcome
going_on led written c = record {
  connection = some c;
  led = led;
  error = err_ok;
  written = written;
}

unfoldable pub tcp_server_sent : ℤ → Bool → ℕ → Connection → Outcome
unfolding tcp_close_client_connection
tcp_server_sent close_err led len c =
    if leb (c.header_len + c.result_len) (c.sent_len + len)
    then tcp_close_client_connection close_err led [] err_ok
    else going_on led [] (record c { sent_len = c.sent_len + len })

unfoldable pub tcp_server_poll : ℤ → Bool → Connection → Outcome
unfolding tcp_close_client_connection
tcp_server_poll close_err led c = tcp_close_client_connection close_err led [] err_ok

abbrev pub is_abort : ℤ → Bool
is_abort (pos n) = false
is_abort (negsuc n) = n == 12

unfoldable pub tcp_server_err : ℤ → Bool → ℤ → Connection → Outcome
unfolding tcp_close_client_connection
tcp_server_err close_err led err c =
    if is_abort err then going_on led [] c else tcp_close_client_connection close_err led [] err

-- `snprintf` into a buffer of so many bytes.
abbrev pub print_into : List ℕ → ℕ → List ℕ → List ℕ
print_into buf room text = write buf 0 (take room text ++ 0 ∷ [])

-- Behind the headers: the page, if there is one.
unfoldable pub write_body : Answers → Bool → Connection → Outcome
unfolding tcp_close_client_connection
write_body r led c =
    let headers = take c.header_len c.headers in
    if c.result_len == 0
    then going_on led (headers ∷ []) c
    else if is_zero r.body_err
    then going_on led (headers ∷ take c.result_len c.result ∷ []) c
    else tcp_close_client_connection r.close_err led (headers ∷ []) r.body_err

-- Both `tcp_write`s.
unfoldable pub send : Answers → Bool → Connection → Outcome
unfolding tcp_close_client_connection write_body
send r led c =
    if is_zero r.header_err
    then write_body r led (record c { sent_len = 0 })
    else tcp_close_client_connection r.close_err led [] r.header_err

-- The headers in front of a page, or a redirection, whose length is not tested.
unfoldable pub respond : Answers → List ℕ → Bool → Connection → Outcome
unfolding tcp_close_client_connection
respond r gw led c =
    let page = response_headers 200 c.result_len in
    let redirect = response_redirect gw in
    if ltb (result_size - 1) c.result_len
    then tcp_close_client_connection r.close_err led [] err_clsd
    else if c.result_len == 0
    then send r led (record c {
      headers = print_into c.headers (headers_size - 1) redirect;
      header_len = length redirect;
    })
    else if ltb (headers_size - 1) (length page)
    then tcp_close_client_connection r.close_err led [] err_clsd
    else send r led (record c {
      headers = print_into c.headers (headers_size - 1) page;
      header_len = length page;
    })

-- What `test_server_content` leaves in the connection: for another path, the result as it was and
-- no length.
abbrev pub with_result : List ℕ → Connection → Connection
with_result [] c = record c { result_len = 0 }
with_result (b ∷ bs) c = record c {
  result = print_into c.result (result_size - 1) (b ∷ bs);
  result_len = length (b ∷ bs);
}

unfoldable pub answer : Answers → List ℕ → Connection → Bool × List ℕ → Outcome
unfolding respond
answer r gw c (led, page) = respond r gw led (with_result page c)

-- The request of a GET, cut into path and parameters within the headers.
unfoldable pub on_get : Answers → List ℕ → Bool → Connection → List ℕ × Option ℕ → Outcome
unfolding answer test_server_content
on_get r gw led c (headers, params) =
    answer r gw (record c { headers = headers })
      (test_server_content led (request_of headers) (params_of headers params))

-- The part of `tcp_server_recv` behind the copy of the packet.
unfoldable pub on_request : Answers → List ℕ → Bool → Connection → Outcome
unfolding on_get cut_request
on_request r gw led c =
    if starts_with http_get c.headers
    then on_get r gw led c (cut_request c.headers)
    else going_on led [] c

abbrev pub store : List ℕ → Connection → Connection
store payload c = record c { headers = write c.headers 0 (take (headers_size - 1) payload) }

-- `tcp_server_recv`: `none` stands for the NULL that tells of a closed connection.
unfoldable pub tcp_server_recv : Answers → List ℕ → Bool → Option (List ℕ) → Connection → Outcome
unfolding tcp_close_client_connection on_request
tcp_server_recv r gw led none c = tcp_close_client_connection r.close_err led [] err_ok
tcp_server_recv r gw led (some []) c = going_on led [] c
tcp_server_recv r gw led (some (b ∷ bs)) c = on_request r gw led (store (b ∷ bs) c)

-- What lwIP calls the connection's callbacks for, with what it answers.
pub data Event : Type 0 where
  received : Answers → Option (List ℕ) → Event
  sent : ℤ → ℕ → Event
  polled : ℤ → Event
  failed : ℤ → ℤ → Event

unfoldable pub happen : List ℕ → Bool → Event → Connection → Outcome
unfolding tcp_server_recv tcp_server_sent tcp_server_poll tcp_server_err
happen gw led (received r payload) c = tcp_server_recv r gw led payload c
happen gw led (sent close_err len) c = tcp_server_sent close_err led len c
happen gw led (polled close_err) c = tcp_server_poll close_err led c
happen gw led (failed close_err err) c = tcp_server_err close_err led err c

-- The events of a connection until it is closed: closing takes the callbacks away.
unfoldable pub history : List ℕ → Bool → List Event → Option Connection → Option Connection × Bool
unfolding happen
history gw led es none = (none, led)
history gw led [] (some c) = (some c, led)
history gw led (e ∷ es) (some c) = let o = happen gw led e c in history gw o.led es o.connection
