-- ===== src/Telemetry/Window.antt =====
-- interface.c: the socket, the receiving thread and the window. What Winsock's and the window
-- system's calls give is an argument, and what they are called for is a result.
use robotic_car_p3e.Prelude.{
  ℕ, Bool, Option, none, some, List, [], ◌∷◌, ◌++◌, ◌==◌, if◌then◌else◌, codes,
}
use robotic_car_p3e.Telemetry.Decimal.{print_int}
use robotic_car_p3e.Telemetry.Parse.{Telemetry}
use robotic_car_p3e.Telemetry.Dashboard.{receive_telemetry}

-- The calls that take and give back Winsock, the socket and the lock that guards the telemetry.
pub data Call : Type 0 where
  wsa_startup wsa_cleanup : Call
  open_socket close_socket : Call
  enter_section leave_section : Call

-- `connect_to_server`: what `WSAStartup` and `socket` give, and whether `connect` succeeds. The
-- socket, if it is connected, and the calls that succeed.
unfoldable pub connect_to_server : ℕ → Option ℕ → Bool → Option ℕ × List Call
connect_to_server startup_err none connected =
    (none, if startup_err == 0 then wsa_startup ∷ wsa_cleanup ∷ [] else [])
connect_to_server startup_err (some socket) connected =
    if startup_err == 0
    then if connected
      then (some socket, wsa_startup ∷ open_socket ∷ [])
      else (none, wsa_startup ∷ open_socket ∷ close_socket ∷ wsa_cleanup ∷ [])
    else (none, [])

-- What `recv` gives: some bytes, the end of the connection, or an error.
pub data Reception : Type 0 where
  some_bytes : ℕ → List ℕ → Reception
  closed : Reception
  failed : Reception

-- The receiving thread: the telemetry, and the calls. Each change of the telemetry stands between
-- the entering and the leaving of the critical section.
unfoldable pub receive_loop : List Reception → Telemetry → Telemetry × List Call
unfolding receive_telemetry
receive_loop [] t = (t, [])
receive_loop (some_bytes b bs ∷ rs) t =
    let (t', calls) = receive_loop rs (receive_telemetry (b ∷ bs) t) in
    (t', enter_section ∷ leave_section ∷ calls)
receive_loop (closed ∷ rs) t = (t, close_socket ∷ wsa_cleanup ∷ [])
receive_loop (failed ∷ rs) t = (t, close_socket ∷ wsa_cleanup ∷ [])

-- The texts that `WindowProc` writes for WM_PAINT, from the top.
unfoldable pub paint : Telemetry → List (List ℕ)
paint t = (codes "Direction: " ++ t.direction) ∷ (codes "Speed: " ++ print_int t.speed []) ∷ []

-- `WinMain`: its result, and the calls, given those of `connect_to_server` and of the thread.
unfoldable pub win_main : Option ℕ × List Call → Option ℕ → List Call → ℕ × List Call
win_main (none, calls) window thread = (1, calls)
win_main (some socket, calls) none thread = (0, calls ++ close_socket ∷ [])
win_main (some socket, calls) (some hwnd) thread = (0, calls ++ thread)
