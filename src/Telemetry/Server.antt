-- ===== src/Telemetry/Server.antt =====
-- buddy1/buddy1.c: the telemetry server's state and its callbacks. lwIP is outside: what its calls
-- return is an argument, and what is written to a client is a result.
use robotic_car_p3e.Prelude.{
  ℕ, Bool, true, false, Option, none, some, List, [], ◌∷◌, ◌++◌, ltb, if◌then◌else◌, codes, length,
  take, ℤ, pos, negsuc, is_zero,
}
use robotic_car_p3e.Telemetry.Decimal.{print_int}
use robotic_car_p3e.Telemetry.Parse.{Telemetry, parse_command, c_string}

abbrev pub buf_size : ℕ
buf_size = 2048

-- The errors of lwIP that the code returns itself.
abbrev pub err_ok : ℤ
err_ok = pos 0

abbrev pub err_val : ℤ
err_val = negsuc 5

abbrev pub err_conn : ℤ
err_conn = negsuc 10

-- `TCP_SERVER_T` with the globals: handles of control blocks, whether `persistent_state` points to
-- this state (it is NULL before the first connection), and `telemetry_data`.
pub record Server : Type 0 where
  pub server_pcb : Option ℕ
  pub client_pcb : Option ℕ
  pub complete : Bool
  pub persistent : Bool
  pub telemetry : Telemetry

-- `tcp_server_init`.
unfoldable pub tcp_server_init : Server
tcp_server_init = record {
  server_pcb = none;
  client_pcb = none;
  complete = false;
  persistent = false;
  telemetry = record { direction = []; speed = pos 0 };
}

unfoldable pub tcp_server_close : Server → Server
tcp_server_close s = record s { client_pcb = none; complete = false }

-- `"Direction: %s; Speed: %d"`, before `snprintf` cuts it.
abbrev pub telemetry_text : Telemetry → List ℕ → List ℕ
telemetry_text t rest =
    codes "Direction: " ++ (t.direction ++ (codes "; Speed: " ++ print_int t.speed rest))

-- The string in `send_buffer`: `snprintf` leaves room for the closing zero byte.
unfoldable pub format_telemetry : Telemetry → List ℕ
format_telemetry t = take 2047 (telemetry_text t [])

-- The effect of a callback: the new state, the error returned, and the message that was handed to
-- lwIP for the client, if any.
pub record Outcome : Type 0 where
  pub state : Server
  pub error : ℤ
  pub written : Option (List ℕ)

-- `send_data_to_target`; `write_err` is what `tcp_write` returns. The telemetry that it is called
-- with is always `telemetry_data`.
unfoldable pub send_data_to_target : ℤ → Server → Outcome
send_data_to_target write_err s = elim (if s.persistent then s.client_pcb else none) [
  | none ↦ record { state = s; error = err_conn; written = none }
  | some client ↦
      if is_zero write_err
      then record { state = s; error = err_ok; written = some (format_telemetry s.telemetry) }
      else record { state = tcp_server_close s; error = write_err; written = none }
]

-- The branch of `tcp_server_recv` for a datagram of some bytes; `none` where the closing zero byte
-- is written behind the buffer, which C leaves undefined.
unfoldable pub receive_command : ℤ → List ℕ → Server → Option Outcome
receive_command write_err payload s =
    if ltb (length payload) buf_size
    then some
        (record (send_data_to_target write_err
          (record s { telemetry = parse_command (c_string payload) })) { error = err_ok })
    else none

-- `tcp_server_recv`: `none` for the payload stands for the NULL that tells of a closed connection.
-- A payload lies in one buffer of lwIP's.
unfoldable pub tcp_server_recv : ℤ → Option (List ℕ) → Server → Option Outcome
tcp_server_recv write_err none s =
    some (record { state = tcp_server_close s; error = err_ok; written = none })
tcp_server_recv write_err (some []) s = some (record { state = s; error = err_ok; written = none })
tcp_server_recv write_err (some (c ∷ cs)) s = receive_command write_err (c ∷ cs) s

unfoldable pub tcp_server_accept : ℤ → Option ℕ → Server → Server × ℤ
tcp_server_accept err none s = (tcp_server_close s, err_val)
tcp_server_accept err (some client) s =
    if is_zero err
    then (record s { client_pcb = some client; persistent = true }, err_ok)
    else (tcp_server_close s, err_val)

-- `tcp_server_open`: what `tcp_new_ip_type`, `tcp_bind` and `tcp_listen_with_backlog` give.
unfoldable pub tcp_server_open : Option ℕ → ℤ → Option ℕ → Server → Server × Bool
tcp_server_open none bind_err listening s = (s, false)
tcp_server_open (some pcb) bind_err listening s =
    if is_zero bind_err
    then elim listening [
      | none ↦ (record s { server_pcb = none }, false)
      | some l ↦ (record s { server_pcb = some l }, true)
    ]
    else (s, false)
