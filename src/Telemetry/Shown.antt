-- ===== src/Telemetry/Shown.antt =====
-- interface.c: what the window shows, and what becomes of the socket.
use robotic_car_p3e.Prelude.{
  ℕ, zero, suc, take, ◌<◌, ◌≡◌, ◌≢◌, refl, ap, ◌∙◌, Bool, true, Option, none, some, List, [], ◌∷◌,
  ◌++◌, codes, pos, arith, ◌==◌, Bool-cases, inl, inr,
}
use robotic_car_p3e.Telemetry.Decimal.{print_int}
use robotic_car_p3e.Telemetry.Parse.{Telemetry}
use robotic_car_p3e.Telemetry.Server.{format_telemetry}
use robotic_car_p3e.Telemetry.Dashboard.{receive_telemetry}
use robotic_car_p3e.Telemetry.Directions.{is_readable, ten_to}
use robotic_car_p3e.Telemetry.Delivery.{receive_telemetry-format_telemetry}
use robotic_car_p3e.Telemetry.Window.{
  Call, wsa_startup, wsa_cleanup, open_socket, close_socket, enter_section, leave_section,
  connect_to_server, Reception, some_bytes, closed, failed, receive_loop, paint, win_main,
}

-- Messages that come in one by one.
abbrev pub one_by_one : List (ℕ × List ℕ) → List Reception
one_by_one [] = []
one_by_one ((b, bs) ∷ rs) = some_bytes b bs ∷ one_by_one rs

-- A message, which is never empty, comes in.
abbrev pub message : List ℕ → List Reception
message [] = []
message (b ∷ bs) = some_bytes b bs ∷ []

pub receive_message :
    (s : List ℕ) (t u : Telemetry)
    → s ≢ []
    → receive_telemetry s t ≡ u
    → (receive_loop (message s) t).0 ≡ u
unfolding receive_loop
receive_message [] t u some_text h = absurd (some_text refl)
receive_message (b ∷ bs) t u some_text h = h

receive_loop-append :
    (rs : List (ℕ × List ℕ)) (more : List Reception) (t : Telemetry)
    → (receive_loop (one_by_one rs ++ more) t).0
      ≡ (receive_loop more (receive_loop (one_by_one rs) t).0).0
unfolding receive_loop
receive_loop-append [] more t = refl
receive_loop-append ((b, bs) ∷ rs) more t =
    receive_loop-append rs more (receive_telemetry (b ∷ bs) t)

take-ne : (n x : ℕ) (xs : List ℕ) → 0 < n → take n (x ∷ xs) ≢ []
take-ne zero x xs h e = absurd (omega arith)
take-ne (suc n) x xs h e = cc

pub format_telemetry-ne : (u : Telemetry) → format_telemetry u ≢ []
unfolding format_telemetry
format_telemetry-ne u =
    take-ne 2047 b'D'
      (codes "irection: " ++ (u.direction ++ (codes "; Speed: " ++ print_int u.speed [])))
      (omega arith)

-- Whatever has come in before and was shown at first: once a message of the server's comes in whole,
-- with a direction that is readable and not empty and a speed of at most ten digits, the window
-- shows that direction and that speed.
pub paint-receive_loop :
    (earlier : List (ℕ × List ℕ)) (d : List ℕ) (n : ℕ) (shown : Telemetry)
    → d ≢ []
    → is_readable d ≡ true
    → n < ten_to 10
    → paint
        (receive_loop
          (one_by_one earlier
            ++ message (format_telemetry (record { direction = d; speed = pos n })))
          shown).0
      ≡ (codes "Direction: " ++ d) ∷ (codes "Speed: " ++ print_int (pos n) []) ∷ []
unfolding paint
paint-receive_loop earlier d n shown ne readable short =
    let before = (receive_loop (one_by_one earlier) shown).0 in
    let u : Telemetry = record { direction = d; speed = pos n } in
    let s = format_telemetry u in
    ap (λ t. paint t)
      (receive_loop-append earlier (message s) shown
        ∙ receive_message s before u (format_telemetry-ne u)
            (receive_telemetry-format_telemetry d n before ne readable short))

-- How often Winsock is started and not cleaned up, and sockets are opened and not closed; none where
-- something is given back that was not taken.
abbrev pub held : List Call → ℕ → ℕ → Option (ℕ × ℕ)
held [] started sockets = some (started, sockets)
held (wsa_startup ∷ cs) started sockets = held cs (suc started) sockets
held (wsa_cleanup ∷ cs) zero sockets = none
held (wsa_cleanup ∷ cs) (suc started) sockets = held cs started sockets
held (open_socket ∷ cs) started sockets = held cs started (suc sockets)
held (close_socket ∷ cs) started zero = none
held (close_socket ∷ cs) started (suc sockets) = held cs started sockets
held (enter_section ∷ cs) started sockets = held cs started sockets
held (leave_section ∷ cs) started sockets = held cs started sockets

-- What ends the receiving thread.
abbrev pub IsEnd : Reception → Type 0
IsEnd (some_bytes b bs) = ⊥
IsEnd closed = Unit {0}
IsEnd failed = Unit {0}

receive_loop-held :
    (earlier : List (ℕ × List ℕ)) (end : Reception) (t : Telemetry)
    → IsEnd end
    → held (receive_loop (one_by_one earlier ++ end ∷ []) t).1 1 1 ≡ some (0, 0)
unfolding receive_loop
receive_loop-held [] (some_bytes b bs) t h = absurd h
receive_loop-held [] closed t h = refl
receive_loop-held [] failed t h = refl
receive_loop-held ((b, bs) ∷ rs) end t h = receive_loop-held rs end (receive_telemetry (b ∷ bs) t) h

-- Whether the connection is made or fails at whichever step, if the window can be created and the
-- receiving thread has ended, or was not begun: Winsock is cleaned up as often as it is started, every
-- socket is closed, and nothing is given back twice.
pub win_main-held :
    (startup_err : ℕ) (socket : Option ℕ) (connected : Bool) (hwnd : ℕ)
    (earlier : List (ℕ × List ℕ)) (end : Reception) (t : Telemetry)
    → IsEnd end
    → held
        (win_main
          (connect_to_server startup_err socket connected)
          (some hwnd)
          (receive_loop (one_by_one earlier ++ end ∷ []) t).1).1
        0
        0
      ≡ some (0, 0)
unfolding win_main connect_to_server
win_main-held startup_err none connected hwnd earlier end t h =
    elim (Bool-cases (startup_err == 0)) [ inl e ↦ rw e refl | inr e ↦ rw e refl ]
win_main-held startup_err (some socket) connected hwnd earlier end t h =
    elim (Bool-cases (startup_err == 0)) [
      | inl e ↦ rw e (elim (Bool-cases connected) [
        | inl c ↦ rw c (receive_loop-held earlier end t h)
        | inr c ↦ rw c refl
      ])
      | inr e ↦ rw e refl
    ]
