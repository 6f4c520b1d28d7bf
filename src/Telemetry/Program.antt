-- ===== src/Telemetry/Program.antt =====
-- buddy1/buddy1.c: the program around the server. What lwIP and the Wi-Fi driver return is an argument.
use robotic_car_p3e.Prelude.{ℕ, Option, none, some, List, [], ◌∷◌, ◌++◌, if◌then◌else◌, ℤ, is_zero}
use robotic_car_p3e.Telemetry.Server.{
  Server, Outcome, tcp_server_init, tcp_server_open, tcp_server_accept, tcp_server_recv,
}

-- What lwIP calls the server for: a connection, and a packet with what `tcp_write` will return.
pub data Event : Type 0 where
  accepted : ℤ → Option ℕ → Event
  received : ℤ → Option (List ℕ) → Event

-- A server, and the messages that it has written, the earliest first.
abbrev pub Served : Type 0
Served = Server × List (List ℕ)

abbrev pub written_of : Option (List ℕ) → List (List ℕ)
written_of none = []
written_of (some m) = m ∷ []

abbrev pub of_outcome : Option Outcome → Option Served
of_outcome none = none
of_outcome (some o) = some (o.state, written_of o.written)

-- One event; `none` where C leaves it undefined.
unfoldable pub happen : Event → Server → Option Served
unfolding tcp_server_accept tcp_server_recv
happen (accepted err client) s = some ((tcp_server_accept err client s).0, [])
happen (received write_err payload) s = of_outcome (tcp_server_recv write_err payload s)

abbrev pub with_written : List (List ℕ) → Option Served → Option Served
with_written ms none = none
with_written ms (some (s, more)) = some (s, ms ++ more)

abbrev pub behind : Option Served → (Server → Option Served) → Option Served
behind none later = none
behind (some (s, ms)) later = with_written ms (later s)

unfoldable pub history : List Event → Server → Option Served
unfolding happen
history [] s = some (s, [])
history (e ∷ es) s = behind (happen e s) (history es)

-- What becomes of `run_tcp_server_test`, where the state can be allocated: it returns where the
-- server cannot be opened, and otherwise serves for ever, or comes to something undefined.
pub data Run : Type 0 where
  returned undefined : Run
  serving : Server → List (List ℕ) → Run

abbrev pub of_history : Option Served → Run
of_history none = undefined
of_history (some (s, ms)) = serving s ms

unfoldable pub run_tcp_server_test : Option ℕ → ℤ → Option ℕ → List Event → Run
unfolding tcp_server_open tcp_server_init history
run_tcp_server_test pcb bind_err listening es =
    let (s, ok) = tcp_server_open pcb bind_err listening tcp_server_init in
    if ok then of_history (history es s) else returned

-- How `main` ends, if it does.
pub data Exit : Type 0 where
  exited : ℕ → Exit
  going_on : Run → Exit

abbrev exit_of : Run → Exit
exit_of returned = exited 0
exit_of undefined = going_on undefined
exit_of (serving s ms) = going_on (serving s ms)

-- `main`, given what `cyw43_arch_init` and `cyw43_arch_wifi_connect_timeout_ms` return, and the run.
unfoldable pub main : ℤ → ℤ → Run → Exit
main init_err wifi_err run =
    if is_zero init_err then (if is_zero wifi_err then exit_of run else exited 1) else exited 1
