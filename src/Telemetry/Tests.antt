-- ===== src/Telemetry/Tests.antt =====
-- Commands, messages and what the dashboard shows.
use robotic_car_p3e.Prelude.{
  ℕ, ◌≡◌, ◌≢◌, refl, true, false, some, List, [], ◌∷◌, ◌++◌, arith, codes, pos, negsuc,
}
use robotic_car_p3e.Telemetry.Decimal.{
  print_int, print_ℕ, print_before, scan_int, scan_ℕ, scan_signed, skip_spaces, read_digits,
  scan_int-print_int,
}
use robotic_car_p3e.Telemetry.Parse.{
  Telemetry, contains, number_behind, parse_command, movement_of, turn_of, direction_of, speed_of,
}
use robotic_car_p3e.Telemetry.Server.{
  Server, format_telemetry, send_data_to_target, receive_command, tcp_server_recv, tcp_server_init,
  tcp_server_accept, tcp_server_open, tcp_server_close, err_ok,
}
use robotic_car_p3e.Telemetry.Dashboard.{
  literal, until_semicolon, scan_speed, scan_fields, scan_telemetry, receive_telemetry,
}
use robotic_car_p3e.Telemetry.Window.{receive_loop, paint}
use robotic_car_p3e.Telemetry.Program.{accepted, serving, run_tcp_server_test}
use robotic_car_p3e.Telemetry.Sessions.{
  Command, IsGood, arrive, session, parsed, incoming, run_tcp_server_test-paint,
}

-- The definitions that a run computes with.
runs : ℕ
unfolding print_int print_ℕ print_before scan_int scan_ℕ scan_signed skip_spaces read_digits
    contains number_behind parse_command movement_of turn_of direction_of speed_of format_telemetry
    send_data_to_target receive_command tcp_server_recv tcp_server_init tcp_server_accept
    tcp_server_open tcp_server_close literal until_semicolon scan_speed scan_fields scan_telemetry
    receive_telemetry
runs = 0

cons_ne : (c : ℕ) (cs : List ℕ) → c ∷ cs ≢ []
cons_ne c cs e = cc

number_example : scan_int (print_int (negsuc 41) (codes " rpm")) ≡ some (negsuc 41)
number_example = scan_int-print_int (negsuc 41) (codes " rpm") refl

abbrev shown : Telemetry
shown = record { direction = codes "Left"; speed = pos 7 }

abbrev forward : Telemetry
forward = record { direction = codes "Forward Right"; speed = pos 45 }

-- A server with a client.
abbrev connected : Server
connected = record {
  server_pcb = some 1;
  client_pcb = some 2;
  complete = false;
  persistent = true;
  telemetry = shown;
}

connected_by_accept :
    (tcp_server_accept err_ok
      (some 2)
      (tcp_server_open (some 0) err_ok (some 1) tcp_server_init).0).0.client_pcb
    ≡ connected.client_pcb
unfolding runs
connected_by_accept = refl

abbrev command : List ℕ
command = codes "Forward at 45, Right"

abbrev go_on : Command
go_on = (b'F', codes "orward at 45, Right")

abbrev go_back : Command
go_back = (b'B', codes "ackward at 30, Left")

go_on-IsGood : IsGood go_on
unfolding runs
go_on-IsGood = record {
  short = omega arith;
  direction = cons_ne b'F' (codes "orward Right");
  speed = 45;
  has_speed = refl;
  fits = omega arith;
}

go_back-IsGood : IsGood go_back
unfolding runs
go_back-IsGood = record {
  short = omega arith;
  direction = cons_ne b'B' (codes "ackward Left");
  speed = 30;
  has_speed = refl;
  fits = omega arith;
}

session_example :
    (ms : List (List ℕ)) × (run_tcp_server_test
        (some 0)
        (pos 0)
        (some 1)
        (accepted (pos 0) (some 2) ∷ arrive (go_on ∷ go_back ∷ []))
      ≡ serving (record (session 1 2) { telemetry = parsed go_back }) ms)
    × (paint (receive_loop (incoming ms) shown).0
        ≡ (codes "Direction: " ++ (parsed go_back).direction)
          ∷ (codes "Speed: " ++ print_int (parsed go_back).speed [])
          ∷ [])
session_example =
    run_tcp_server_test-paint 0 1 2 go_on (go_back ∷ []) shown (go_on-IsGood, (go_back-IsGood, tt))

go_back_direction : (parsed go_back).direction ≡ codes "Backward Left"
unfolding runs
go_back_direction = refl
