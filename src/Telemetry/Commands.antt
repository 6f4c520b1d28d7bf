-- ===== src/Telemetry/Commands.antt =====
-- buddy1/buddy1.c and interface.c together: one command through `tcp_server_recv` to the dashboard.
use robotic_car_p3e.Prelude.{
  ℕ, ◌<◌, ◌≡◌, ◌≢◌, refl, sym, ap, ◌∙◌, true, false, Option, none, some, List, [], ◌∷◌, ltb, length,
  arith, ℤ, pos, is_zero, Bool-cases, Option-cases, inl, inr,
}
use robotic_car_p3e.Telemetry.Parse.{Telemetry, c_string, parse_command}
use robotic_car_p3e.Telemetry.Server.{
  Server, Outcome, buf_size, format_telemetry, send_data_to_target, receive_command,
  tcp_server_close, tcp_server_recv, err_ok,
}
use robotic_car_p3e.Telemetry.Dashboard.{
  literal, until_semicolon, scan_fields, scan_telemetry, receive_telemetry,
}
use robotic_car_p3e.Telemetry.Decimal.{skip_spaces}
use robotic_car_p3e.Telemetry.Directions.{is_readable, direction_of-Readable, ten_to}
use robotic_car_p3e.Telemetry.Delivery.{receive_telemetry-format_telemetry}

abbrev pub stored : Telemetry → Server → Outcome
stored u s = record {
  state = record s { telemetry = u };
  error = err_ok;
  written = some (format_telemetry u);
}

received :
    (payload : List ℕ) (s : Server) (client : ℕ)
    → length payload < buf_size
    → s.persistent ≡ true
    → s.client_pcb ≡ some client
    → receive_command (pos 0) payload s ≡ some (stored (parse_command (c_string payload)) s)
unfolding receive_command send_data_to_target
received payload s client short p c =
    let test : ltb (length payload) buf_size ≡ true = ground arith in rw (test, p, c) refl

parse_command-readable : (s : List ℕ) → is_readable (parse_command s).direction ≡ true
unfolding parse_command
parse_command-readable s = direction_of-Readable s

-- A command of fewer than 2048 bytes that reaches the server while a client is connected is stored
-- and sent on; if it names a direction and its speed has at most ten digits, the dashboard then
-- shows exactly the direction and the speed that the server has stored, whatever it showed before.
pub tcp_server_recv-receive_telemetry :
    (c : ℕ) (cs : List ℕ) (s : Server) (client speed : ℕ) (shown : Telemetry)
    → length (c ∷ cs) < buf_size
    → s.persistent ≡ true
    → s.client_pcb ≡ some client
    → (parse_command (c_string (c ∷ cs))).direction ≢ []
    → (parse_command (c_string (c ∷ cs))).speed ≡ pos speed
    → speed < ten_to 10
    → (tcp_server_recv (pos 0) (some (c ∷ cs)) s
        ≡ some (stored (parse_command (c_string (c ∷ cs))) s))
      × (receive_telemetry (format_telemetry (parse_command (c_string (c ∷ cs)))) shown
          ≡ parse_command (c_string (c ∷ cs)))
unfolding tcp_server_recv
tcp_server_recv-receive_telemetry c cs s client speed shown short p conn ne v lt =
    let u = parse_command (c_string (c ∷ cs)) in
    let whole : u ≡ record { direction = u.direction; speed = pos speed } =
      ap (λ z. record { direction = u.direction; speed = z }) v in
    (
      received (c ∷ cs) s client short p conn,
      ap (λ w. receive_telemetry (format_telemetry w) shown) whole
          ∙ receive_telemetry-format_telemetry u.direction speed shown ne (parse_command-readable _)
              lt
          ∙ sym whole,
    )

-- A command that names no direction, such as one of only "Stop Turning", blanks the dashboard's
-- direction, and the speed that it showed before stays, whatever speed the server has sent.
pub receive_telemetry-no_direction :
    (speed : ℤ) (shown : Telemetry)
    → receive_telemetry (format_telemetry (record { direction = []; speed = speed })) shown
      ≡ record { direction = []; speed = shown.speed }
unfolding receive_telemetry format_telemetry scan_telemetry literal skip_spaces until_semicolon
    scan_fields
receive_telemetry-no_direction speed shown = refl

-- Nothing is written while no client is connected, and a command does not connect one.
silent :
    (write_err : ℤ) (payload : List ℕ) (s : Server) (o : Outcome)
    → s.client_pcb ≡ none
    → receive_command write_err payload s ≡ some o
    → (o.written ≡ none) × (o.state.client_pcb ≡ none)
unfolding receive_command send_data_to_target
silent write_err payload s o h e = elim (Bool-cases s.persistent) [
  | inl p ↦ ground arith
  | inr p ↦ ground arith
]

-- The state of a failed sending: the client's block is given up.
failed :
    (write_err : ℤ) (payload : List ℕ) (s : Server) (o : Outcome)
    → s.persistent ≡ true
    → is_zero write_err ≡ false
    → receive_command write_err payload s ≡ some o
    → (o.written ≡ none)
      × ((o.state.client_pcb ≡ none) × (o.state.telemetry ≡ parse_command (c_string payload)))
unfolding receive_command send_data_to_target tcp_server_close
failed write_err payload s o p h e = elim (Option-cases s.client_pcb) [
  | inl c ↦ ground arith
  | inr (client, c) ↦ ground arith
]

silent_later :
    (write_err : ℤ) (event : Option (List ℕ)) (s : Server) (o : Outcome)
    → s.client_pcb ≡ none
    → tcp_server_recv write_err event s ≡ some o
    → o.written ≡ none
unfolding tcp_server_recv tcp_server_close
silent_later write_err none s o h e = ground arith
silent_later write_err (some []) s o h e = ground arith
silent_later write_err (some (c ∷ cs)) s o h e =
    let (quiet, closed) = silent write_err (c ∷ cs) s o h e in quiet

-- If lwIP refuses the message of a command, the command is stored all the same, the client is
-- closed, and the next call of `tcp_server_recv` writes nothing, whatever it receives.
pub tcp_server_recv-write_error :
    (write_err later_err : ℤ) (c : ℕ) (cs : List ℕ) (event : Option (List ℕ)) (s : Server)
    (o later : Outcome)
    → s.persistent ≡ true
    → is_zero write_err ≡ false
    → tcp_server_recv write_err (some (c ∷ cs)) s ≡ some o
    → tcp_server_recv later_err event o.state ≡ some later
    → (o.state.telemetry ≡ parse_command (c_string (c ∷ cs)))
      × ((o.state.client_pcb ≡ none) × ((o.written ≡ none) × (later.written ≡ none)))
unfolding tcp_server_recv
tcp_server_recv-write_error write_err later_err c cs event s o later p h e e' =
    let (quiet, (closed, kept)) = failed write_err (c ∷ cs) s o p h e in
    (kept, (closed, (quiet, silent_later later_err event o.state later closed e')))
