-- ===== src/Tls/Client.antt =====
-- wifi/tls_client/tls_common.c: the client's state, its callbacks, and the run around them. What
-- lwIP's calls return is an argument, and so are the SDK's error codes.
use robotic_car_p3e.Prelude.{
  ℕ, Bool, true, false, Option, none, some, List, [], ◌∷◌, ◌==◌, if◌then◌else◌, ℤ, pos, negsuc,
  is_zero,
}

abbrev pub err_ok : ℤ
err_ok = pos 0

abbrev pub err_inprogress : ℤ
err_inprogress = negsuc 4

abbrev pub err_abrt : ℤ
err_abrt = negsuc 12

abbrev pub is_inprogress : ℤ → Bool
is_inprogress (pos n) = false
is_inprogress (negsuc n) = n == 4

-- `PICO_ERROR_TIMEOUT` and `PICO_ERROR_GENERIC` of the SDK.
pub record Codes : Type 0 where
  pub timeout_error : ℤ
  pub generic_error : ℤ

-- `TLS_CLIENT_T`; the control block is a handle.
pub record Client : Type 0 where
  pub pcb : Option ℕ
  pub complete : Bool
  pub error : ℤ
  pub http_request : List ℕ
  pub timeout : ℕ

-- The state behind a callback, the error that it returns, and what it has written.
pub record Outcome : Type 0 where
  pub state : Client
  pub result : ℤ
  pub written : Option (List ℕ)

-- `tls_client_close`; `close_err` is what `altcp_close` returns.
unfoldable pub tls_client_close : ℤ → Client → Outcome
tls_client_close close_err s = record {
  state = record s { pcb = none; complete = true };
  result = elim s.pcb [ none ↦ err_ok | some pcb ↦ if is_zero close_err then err_ok else err_abrt ];
  written = none;
}

abbrev pub going_on : Option (List ℕ) → Client → Outcome
going_on written s = record { state = s; result = err_ok; written = written }

-- `tls_client_connected`; `write_err` is what `altcp_write` returns.
unfoldable pub tls_client_connected : ℤ → ℤ → ℤ → Client → Outcome
unfolding tls_client_close
tls_client_connected close_err write_err err s =
    if is_zero err
    then (if is_zero write_err
        then going_on (some s.http_request) s
        else tls_client_close close_err s)
    else tls_client_close close_err s

unfoldable pub tls_client_poll : Codes → ℤ → Client → Outcome
unfolding tls_client_close
tls_client_poll k close_err s = tls_client_close close_err (record s { error = k.timeout_error })

-- `tls_client_err`, where the error is set behind the closing.
unfoldable pub tls_client_err : Codes → ℤ → Client → Client
unfolding tls_client_close
tls_client_err k close_err s = record (tls_client_close close_err s).state {
  error = k.generic_error;
}

-- `tls_client_recv`: `none` stands for the NULL that tells of a closed connection. What is received
-- is only printed.
unfoldable pub tls_client_recv : ℤ → Option (List ℕ) → Client → Outcome
unfolding tls_client_close
tls_client_recv close_err none s = tls_client_close close_err s
tls_client_recv close_err (some payload) s = going_on none s

-- `tls_client_connect_to_server_ip`; `connect_err` is what `altcp_connect` returns.
unfoldable pub tls_client_connect_to_server_ip : ℤ → ℤ → Client → Client
unfolding tls_client_close
tls_client_connect_to_server_ip close_err connect_err s =
    if is_zero connect_err then s else (tls_client_close close_err s).state

-- `tls_client_dns_found`: `none` stands for a name without address.
unfoldable pub tls_client_dns_found : ℤ → ℤ → Option ℕ → Client → Client
unfolding tls_client_close tls_client_connect_to_server_ip
tls_client_dns_found close_err connect_err none s = (tls_client_close close_err s).state
tls_client_dns_found close_err connect_err (some address) s =
    tls_client_connect_to_server_ip close_err connect_err s

-- What becomes of a call: it returns, or it uses a control block as if it were the client's state.
pub data Opening : Type 0 where
  opened : Client → Opening
  refused : Opening
  undefined : Opening

-- `tls_client_open` behind `altcp_tls_new`: `dns_err` is what `dns_gethostbyname` returns. Where the
-- lookup cannot begin, `tls_client_close` is given the control block.
unfoldable pub look_up : ℤ → ℤ → ℤ → Client → Opening
unfolding tls_client_connect_to_server_ip
look_up close_err connect_err dns_err s =
    if is_zero dns_err
    then opened (tls_client_connect_to_server_ip close_err connect_err s)
    else if is_inprogress dns_err
    then opened s
    else undefined

-- `tls_client_open`; the handle is what `altcp_tls_new` gives.
unfoldable pub tls_client_open : ℤ → ℤ → ℤ → Option ℕ → Client → Opening
unfolding look_up
tls_client_open close_err connect_err dns_err none s = refused
tls_client_open close_err connect_err dns_err (some pcb) s =
    look_up close_err connect_err dns_err (record s { pcb = some pcb })

-- `tls_client_init`, and what `run_tls_client_test` stores in the new state.
unfoldable pub tls_client_init : List ℕ → ℕ → Client
tls_client_init request timeout = record {
  pcb = none;
  complete = false;
  error = pos 0;
  http_request = request;
  timeout = timeout;
}

-- What lwIP calls the client for, with what its own calls return there: the result of
-- `altcp_write` for a connection, and of `altcp_connect` for an address.
pub data Event : Type 0 where
  resolved : ℤ → Option ℕ → Event
  connected : ℤ → ℤ → Event
  polled : Event
  failed : ℤ → Event
  received : Option (List ℕ) → Event

unfoldable pub happen : Codes → ℤ → Event → Client → Client
unfolding tls_client_dns_found tls_client_connected tls_client_poll tls_client_err tls_client_recv
happen k close_err (resolved connect_err address) s =
    tls_client_dns_found close_err connect_err address s
happen k close_err (connected write_err err) s =
    (tls_client_connected close_err write_err err s).state
happen k close_err polled s = (tls_client_poll k close_err s).state
happen k close_err (failed err) s = tls_client_err k close_err s
happen k close_err (received payload) s = (tls_client_recv close_err payload s).state

-- What becomes of a run: it returns, it waits for more to happen, or C leaves it undefined.
pub data Run : Type 0 where
  returned : Bool → Run
  waiting : Client → Run
  undefined : Run

-- The loop of `run_tls_client_test`, and the result behind it.
unfoldable pub await : Codes → ℤ → List Event → Client → Run
unfolding happen
await k close_err [] s = if s.complete then returned (is_zero s.error) else waiting s
await k close_err (e ∷ es) s =
    let rest = await k close_err es (happen k close_err e s) in
    if s.complete then returned (is_zero s.error) else rest

abbrev pub behind_opening : Codes → ℤ → List Event → Opening → Run
behind_opening k close_err es (opened s) = await k close_err es s
behind_opening k close_err es refused = returned false
behind_opening k close_err es undefined = undefined

-- `run_tls_client_test`, where the state can be allocated.
unfoldable pub run_tls_client_test : Codes → ℤ → ℤ → ℤ → Option ℕ → List ℕ → ℕ → List Event → Run
unfolding await tls_client_open tls_client_init
run_tls_client_test k close_err connect_err dns_err pcb request timeout es =
    behind_opening k close_err es
      (tls_client_open close_err connect_err dns_err pcb (tls_client_init request timeout))
