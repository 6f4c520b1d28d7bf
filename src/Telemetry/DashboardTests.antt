-- ===== src/Telemetry/DashboardTests.antt =====
-- What the dashboard's window shows, and the calls of its program.
use robotic_car_p3e.Prelude.{◌≡◌, refl, true, none, some, []}
use robotic_car_p3e.Telemetry.Window.{connect_to_server, win_main}
use robotic_car_p3e.Telemetry.Shown.{held}

-- Where the window cannot be created, Winsock is not cleaned up.
no_window : held (win_main (connect_to_server 0 (some 5) true) none []).1 0 0 ≡ some (1, 0)
unfolding win_main connect_to_server
no_window = refl
