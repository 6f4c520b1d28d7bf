-- ===== src/Heartbeat/Client.antt =====
-- wifi/tcp_server/picow_tcp_server.c, which is a TCP client: its state, its callbacks and its loop.
-- What lwIP's calls return and the clock, in microseconds, are arguments.
use robotic_car_p3e.Prelude.{
  ℕ, ◌+◌, Bool, true, false, Option, none, some, List, [], ◌∷◌, leb, if◌then◌else◌, codes, ℤ, pos,
  negsuc, is_zero,
}

abbrev pub buf_size : ℕ
buf_size = 2048

abbrev pub test_iterations : ℕ
test_iterations = 10

-- `MESSAGE_INTERVAL_MS * 1000`.
abbrev pub message_interval_us : ℕ
message_interval_us = 500000

abbrev pub message_text : List ℕ
message_text = codes "Hello from client"

abbrev pub err_ok : ℤ
err_ok = pos 0

abbrev pub err_abrt : ℤ
err_abrt = negsuc 12

-- `TCP_CLIENT_T` without the server's address and the buffer, which nothing reads or changes; the
-- control block is a handle.
pub record Client : Type 0 where
  pub tcp_pcb : Option ℕ
  pub buffer_len : ℕ
  pub sent_len : ℕ
  pub complete : Bool
  pub run_count : ℕ
  pub connected : Bool
  pub last_message_time : ℕ

-- `calloc` in `tcp_client_init`.
unfoldable pub tcp_client_init : Client
tcp_client_init = record {
  tcp_pcb = none;
  buffer_len = 0;
  sent_len = 0;
  complete = false;
  run_count = 0;
  connected = false;
  last_message_time = 0;
}

-- `tcp_client_close`; `close_err` is what `tcp_close` returns.
unfoldable pub tcp_client_close : ℤ → Client → Client × ℤ
tcp_client_close close_err s = elim s.tcp_pcb [
  | none ↦ (s, err_ok)
  | some pcb ↦ (record s { tcp_pcb = none }, if is_zero close_err then err_ok else err_abrt)
]

-- `tcp_result`, whose status is only printed.
unfoldable pub tcp_result : ℤ → Client → Client × ℤ
unfolding tcp_client_close
tcp_result close_err s = tcp_client_close close_err (record s { complete = true })

-- The end of a buffer's worth of sent bytes.
unfoldable pub next_round : ℤ → Client → Client × ℤ
unfolding tcp_result
next_round close_err s =
    if leb test_iterations s.run_count
    then ((tcp_result close_err s).0, err_ok)
    else (record s { buffer_len = 0; sent_len = 0 }, err_ok)

unfoldable pub tcp_client_sent : ℤ → ℕ → Client → Client × ℤ
unfolding next_round
tcp_client_sent close_err len s =
    if leb buf_size (s.sent_len + len)
    then next_round close_err
        (record s { sent_len = s.sent_len + len; run_count = s.run_count + 1 })
    else (record s { sent_len = s.sent_len + len }, err_ok)

-- `tcp_client_connected` at the given time.
unfoldable pub tcp_client_connected : ℤ → ℕ → ℤ → Client → Client × ℤ
unfolding tcp_result
tcp_client_connected close_err now err s =
    if is_zero err
    then (record s { connected = true; last_message_time = now }, err_ok)
    else tcp_result close_err s

-- `tcp_client_recv`: `none` stands for the NULL that tells of a closed connection. What is received
-- is dropped.
unfoldable pub tcp_client_recv : ℤ → Option (List ℕ) → Client → Client × ℤ
unfolding tcp_result
tcp_client_recv close_err none s = tcp_result close_err s
tcp_client_recv close_err (some payload) s = (s, err_ok)

-- `tcp_client_open`: what `tcp_new_ip_type` and `tcp_connect` give.
unfoldable pub tcp_client_open : Option ℕ → ℤ → Client → Client × Bool
tcp_client_open none connect_err s = (record s { tcp_pcb = none }, false)
tcp_client_open (some pcb) connect_err s =
    (record s { tcp_pcb = some pcb; buffer_len = 0 }, is_zero connect_err)

-- What lwIP calls the client for, with the time where it is read.
pub data Event : Type 0 where
  connected : ℕ → ℤ → Event
  received : Option (List ℕ) → Event
  sent : ℕ → Event

unfoldable pub happen : ℤ → Event → Client → Client
unfolding tcp_client_connected tcp_client_recv tcp_client_sent
happen close_err (connected now err) s = (tcp_client_connected close_err now err s).0
happen close_err (received payload) s = (tcp_client_recv close_err payload s).0
happen close_err (sent len) s = (tcp_client_sent close_err len s).0

-- The events that reach the client: closing takes the callbacks away.
unfoldable pub history : ℤ → List Event → Client → Client
unfolding happen
history close_err [] s = s
history close_err (e ∷ es) s =
    let rest = history close_err es (happen close_err e s) in
    elim s.tcp_pcb [ none ↦ s | some pcb ↦ rest ]

-- A round of the loop: what happens while it sleeps, the time as it is read first and, where a
-- message is due, again, and what `tcp_write` returns.
pub record Tick : Type 0 where
  pub events : List Event
  pub now : ℕ
  pub later : ℕ
  pub write_err : ℤ

-- A message: when it is handed to `tcp_write`, and for which control block.
pub record Message : Type 0 where
  pub time : ℕ
  pub pcb : Option ℕ

-- What a run has come to: its messages, the state, and whether it is over.
pub record Run : Type 0 where
  pub messages : List Message
  pub state : Client
  pub over : Bool

abbrev pub is_due : ℕ → Client → Bool
is_due now s = leb (s.last_message_time + message_interval_us) now

abbrev pub with_message : Message → Run → Run
with_message m r = record r { messages = m ∷ r.messages }

-- The loop of `run_tcp_client_test`. It is left where a message cannot be written.
unfoldable pub loop : ℤ → List Tick → Client → Run
unfolding history tcp_result
loop close_err [] s = record { messages = []; state = s; over = s.complete }
loop close_err (t ∷ ts) s =
    let slept = history close_err t.events s in
    let message : Message = record { time = t.later; pcb = slept.tcp_pcb } in
    let marked = record slept { last_message_time = t.later } in
    let idle = loop close_err ts slept in
    let going_on = with_message message (loop close_err ts marked) in
    let failed : Run = record {
      messages = message ∷ [];
      state = (tcp_result close_err marked).0;
      over = true;
    } in
    if s.complete
    then record { messages = []; state = s; over = true }
    else if is_due t.now slept
    then if is_zero t.write_err then going_on else failed
    else idle

-- `run_tcp_client_test`, where the state can be allocated.
unfoldable pub run_tcp_client_test : ℤ → Option ℕ → ℤ → List Tick → Run
unfolding loop tcp_client_open tcp_client_init tcp_result
run_tcp_client_test close_err pcb connect_err ts =
    let (s, ok) = tcp_client_open pcb connect_err tcp_client_init in
    if ok
    then loop close_err ts s
    else record { messages = []; state = (tcp_result close_err s).0; over = true }
