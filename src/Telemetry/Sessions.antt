-- ===== src/Telemetry/Sessions.antt =====
-- buddy1/buddy1.c and interface.c together: the commands of a session, from the start of the server to
-- the window.
use robotic_car_p3e.Prelude.{
  ℕ, ◌^◌, arith, ◌<◌, ◌≡◌, ◌≢◌, refl, ap, ◌∙◌, Option, some, List, [], ◌∷◌, ◌++◌, length, pos,
  codes, true,
}
use robotic_car_p3e.Telemetry.Parse.{Telemetry, c_string, parse_command}
use robotic_car_p3e.Telemetry.Server.{
  Server, buf_size, format_telemetry, tcp_server_init, tcp_server_open, tcp_server_accept,
}
use robotic_car_p3e.Telemetry.Decimal.{print_int}
use robotic_car_p3e.Telemetry.Commands.{tcp_server_recv-receive_telemetry}
use robotic_car_p3e.Telemetry.Window.{Reception, receive_loop, paint}
use robotic_car_p3e.Telemetry.Shown.{message, receive_message, format_telemetry-ne}
use robotic_car_p3e.Telemetry.Program.{
  Event, accepted, received, of_outcome, happen, behind, history, with_written, Served, of_history,
  serving, run_tcp_server_test,
}

-- A command is not empty: its first byte, and the others.
abbrev pub Command : Type 0
Command = ℕ × List ℕ

abbrev pub bytes_of : Command → List ℕ
bytes_of (c, cs) = c ∷ cs

abbrev pub parsed : Command → Telemetry
parsed k = parse_command (c_string (bytes_of k))

-- A command that fits the server's buffer, names a direction, and has a speed that fits an `int`.
pub record IsGood (k : Command) : Type 0 where
  pub short : length (bytes_of k) < buf_size
  pub direction : (parsed k).direction ≢ []
  pub speed : ℕ
  pub has_speed : (parsed k).speed ≡ pos speed
  pub fits : speed < 2 ^ 31

abbrev pub AllGood : List Command → Type 0
AllGood [] = Unit {0}
AllGood (k ∷ ks) = IsGood k × AllGood ks

abbrev pub last_of : Command → List Command → Command
last_of k [] = k
last_of k (j ∷ ks) = last_of j ks

-- The commands arrive, and lwIP takes each message.
abbrev pub arrive : List Command → List Event
arrive [] = []
arrive (k ∷ ks) = received (pos 0) (some (bytes_of k)) ∷ arrive ks

-- The messages come in at the dashboard one by one.
abbrev pub incoming : List (List ℕ) → List Reception
incoming [] = []
incoming (m ∷ ms) = message m ++ incoming ms

receive_loop-message :
    (m : List ℕ) (more : List Reception) (t : Telemetry)
    → m ≢ []
    → (receive_loop (message m ++ more) t).0 ≡ (receive_loop more (receive_loop (message m) t).0).0
unfolding receive_loop
receive_loop-message [] more t ne = absurd (ne refl)
receive_loop-message (b ∷ bs) more t ne = refl

happen-received :
    (k : Command) (s : Server) (client : ℕ)
    → IsGood k
    → s.persistent ≡ true
    → s.client_pcb ≡ some client
    → happen (received (pos 0) (some (bytes_of k))) s
      ≡ some (record s { telemetry = parsed k }, format_telemetry (parsed k) ∷ [])
unfolding happen
happen-received (c, cs) s client g p conn =
    ap of_outcome
      (tcp_server_recv-receive_telemetry c cs s client g.speed s.telemetry g.short p conn
        g.direction g.has_speed (omega (arith, g.fits))).0

shown_by :
    (k : Command) (s : Server) (client : ℕ) (shown : Telemetry)
    → IsGood k
    → s.persistent ≡ true
    → s.client_pcb ≡ some client
    → (receive_loop (message (format_telemetry (parsed k))) shown).0 ≡ parsed k
shown_by (c, cs) s client shown g p conn =
    receive_message (format_telemetry (parsed (c, cs))) shown (parsed (c, cs))
      (format_telemetry-ne (parsed (c, cs)))
      (tcp_server_recv-receive_telemetry c cs s client g.speed shown g.short p conn g.direction
        g.has_speed (omega (arith, g.fits))).1

-- What a session comes to: the server's state, and what the dashboard shows of its messages.
record Delivers (k : Command) (s : Server) (es : List Event) (shown : Telemetry) : Type 0 where
  messages : List (List ℕ)
  ran : history es s ≡ some (record s { telemetry = parsed k }, messages)
  shows : (receive_loop (incoming messages) shown).0 ≡ parsed k

history-Delivers :
    (k : Command) (ks : List Command) (s : Server) (client : ℕ) (shown : Telemetry)
    → AllGood (k ∷ ks)
    → s.persistent ≡ true
    → s.client_pcb ≡ some client
    → Delivers (last_of k ks) s (arrive (k ∷ ks)) shown
unfolding history receive_loop
history-Delivers k [] s client shown (g, gs) p conn = record {
  messages = format_telemetry (parsed k) ∷ [];
  ran = ap (λ o. behind o (history [])) (happen-received k s client g p conn);
  shows =
      receive_loop-message (format_telemetry (parsed k)) [] shown (format_telemetry-ne (parsed k))
      ∙ shown_by k s client shown g p conn;
}
history-Delivers k (j ∷ ks) s client shown (g, gs) p conn =
    let m = format_telemetry (parsed k) in
    let next = record s { telemetry = parsed k } in
    let seen = (receive_loop (message m) shown).0 in
    let rest = history-Delivers j ks next client seen gs p conn in
    record {
      messages = m ∷ rest.messages;
      ran =
          ap (λ o. behind o (history (arrive (j ∷ ks)))) (happen-received k s client g p conn)
          ∙ ap (with_written (m ∷ [])) rest.ran;
      shows =
          receive_loop-message m (incoming rest.messages) shown (format_telemetry-ne (parsed k))
          ∙ rest.shows;
    }

-- The server once it is open and a client has come.
abbrev pub session : ℕ → ℕ → Server
session listener client = record tcp_server_init {
  server_pcb = some listener;
  client_pcb = some client;
  persistent = true;
}

run-session :
    (pcb listener client : ℕ) (es : List Event) (o : Option Served)
    → history es (session listener client) ≡ o
    → run_tcp_server_test (some pcb) (pos 0) (some listener) (accepted (pos 0) (some client) ∷ es)
      ≡ of_history (with_written [] o)
unfolding run_tcp_server_test happen tcp_server_init tcp_server_open tcp_server_accept
run-session pcb listener client es o h = ap (λ r. of_history (with_written [] r)) h

-- From the start of the server to the window: once it is open and a client has connected, whatever
-- commands arrive, each with fewer than 2048 bytes, a direction and a speed from 0 on that fits an
-- `int`, and with lwIP taking each message and each call of `recv` at the dashboard giving one
-- message: the server has stored the last command, and a dashboard that has received all messages
-- shows its direction and its speed.
pub run_tcp_server_test-paint :
    (pcb listener client : ℕ) (k : Command) (ks : List Command) (shown : Telemetry)
    → AllGood (k ∷ ks)
    → let u = parsed (last_of k ks) in
      (ms : List (List ℕ)) × (run_tcp_server_test
          (some pcb)
          (pos 0)
          (some listener)
          (accepted (pos 0) (some client) ∷ arrive (k ∷ ks))
        ≡ serving (record (session listener client) { telemetry = u }) ms)
      × (paint (receive_loop (incoming ms) shown).0
          ≡ (codes "Direction: " ++ u.direction) ∷ (codes "Speed: " ++ print_int u.speed []) ∷ [])
unfolding paint
run_tcp_server_test-paint pcb listener client k ks shown good =
    let d = history-Delivers k ks (session listener client) client shown good refl refl in
    (
      d.messages,
      run-session pcb listener client (arrive (k ∷ ks))
          (some
            (record (session listener client) { telemetry = parsed (last_of k ks) }, d.messages))
          d.ran,
      ap
          (λ t.
            (codes "Direction: " ++ t.direction) ∷ (codes "Speed: " ++ print_int t.speed []) ∷ [])
          d.shows,
    )
