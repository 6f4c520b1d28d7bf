-- ===== src/Echo/Client.antt =====
-- wifi/tcp_client/picow_tcp_client.c: the client's state and its callbacks. What lwIP's calls return
-- is an argument, and what is written to the server is a result.
use robotic_car_p3e.Prelude.{
  ℕ, ◌+◌, ◌-◌, ◌%◌, ◌^◌, Bool, true, false, Option, none, some, List, [], ◌∷◌, ◌==◌, leb,
  if◌then◌else◌, length, take, replicate, write, ℤ, pos, negsuc, is_zero,
}

abbrev pub buf_size : ℕ
buf_size = 2048

abbrev pub test_iterations : ℕ
test_iterations = 10

abbrev pub err_ok : ℤ
err_ok = pos 0

abbrev pub err_abrt : ℤ
err_abrt = negsuc 12

-- `TCP_CLIENT_T`; the control block is a handle.
pub record Client : Type 0 where
  pub tcp_pcb : Option ℕ
  pub buffer : List ℕ
  pub buffer_len : ℕ
  pub sent_len : ℕ
  pub complete : Bool
  pub run_count : ℕ
  pub connected : Bool

-- The state behind a callback, the error that it returns, and what it has written.
pub record Outcome : Type 0 where
  pub state : Client
  pub error : ℤ
  pub written : Option (List ℕ)

-- `calloc` in `tcp_client_init`.
unfoldable pub tcp_client_init : Client
tcp_client_init = record {
  tcp_pcb = none;
  buffer = replicate buf_size 0;
  buffer_len = 0;
  sent_len = 0;
  complete = false;
  run_count = 0;
  connected = false;
}

-- `tcp_client_close`; `close_err` is what `tcp_close` returns.
unfoldable pub tcp_client_close : ℤ → Client → Client × ℤ
tcp_client_close close_err s = elim s.tcp_pcb [
  | none ↦ (s, err_ok)
  | some pcb ↦ (record s { tcp_pcb = none }, if is_zero close_err then err_ok else err_abrt)
]

-- `tcp_result`, whose status is only printed.
unfoldable pub tcp_result : ℤ → Client → Outcome
unfolding tcp_client_close
tcp_result close_err s =
    let (closed, err) = tcp_client_close close_err (record s { complete = true }) in
    record { state = closed; error = err; written = none }

abbrev pub going_on : Client → Outcome
going_on s = record { state = s; error = err_ok; written = none }

-- A whole buffer has been sent: the end of the test, or the next round.
unfoldable pub next_round : ℤ → Client → Outcome
unfolding tcp_result
next_round close_err s =
    if leb test_iterations s.run_count
    then record (tcp_result close_err s) { error = err_ok }
    else going_on (record s { buffer_len = 0; sent_len = 0 })

unfoldable pub tcp_client_sent : ℤ → ℕ → Client → Outcome
unfolding next_round
tcp_client_sent close_err len s =
    if leb buf_size (s.sent_len + len)
    then next_round close_err
        (record s { sent_len = s.sent_len + len; run_count = s.run_count + 1 })
    else going_on (record s { sent_len = s.sent_len + len })

unfoldable pub tcp_client_connected : ℤ → ℤ → Client → Outcome
unfolding tcp_result
tcp_client_connected close_err err s =
    if is_zero err then going_on (record s { connected = true }) else tcp_result close_err s

unfoldable pub tcp_client_poll : ℤ → Client → Outcome
unfolding tcp_result
tcp_client_poll close_err s = tcp_result close_err s

abbrev pub is_abort : ℤ → Bool
is_abort (pos n) = false
is_abort (negsuc n) = n == 12

unfoldable pub tcp_client_err : ℤ → ℤ → Client → Outcome
unfolding tcp_result
tcp_client_err close_err err s = if is_abort err then going_on s else tcp_result close_err s

-- What is left of the buffer, as `uint16_t`.
abbrev pub buffer_left : Client → ℕ
buffer_left s = (buf_size + 2 ^ 16 - s.buffer_len) % 2 ^ 16

-- The part of `tcp_client_recv` that copies the packet behind the bytes already received.
unfoldable pub store : List ℕ → Client → Client
store [] s = s
store (c ∷ cs) s =
    let copied = take (buffer_left s) (c ∷ cs) in
    record s {
      buffer = write s.buffer s.buffer_len copied;
      buffer_len = s.buffer_len + length copied;
    }

-- Its end: a full buffer is sent back. `write_err` is what `tcp_write` returns.
unfoldable pub echo_if_full : ℤ → ℤ → Client → Outcome
unfolding tcp_result
echo_if_full close_err write_err s =
    if s.buffer_len == buf_size
    then (if is_zero write_err
        then record { state = s; error = err_ok; written = some (take s.buffer_len s.buffer) }
        else tcp_result close_err s)
    else going_on s

-- `tcp_client_recv`: `none` stands for the NULL that tells of a closed connection.
unfoldable pub tcp_client_recv : ℤ → ℤ → Option (List ℕ) → Client → Outcome
unfolding tcp_result store echo_if_full
tcp_client_recv close_err write_err none s = tcp_result close_err s
tcp_client_recv close_err write_err (some payload) s =
    echo_if_full close_err write_err (store payload s)

-- `tcp_client_open`: what `tcp_new_ip_type` and `tcp_connect` give.
unfoldable pub tcp_client_open : Option ℕ → ℤ → Client → Client × Bool
tcp_client_open none connect_err s = (record s { tcp_pcb = none }, false)
tcp_client_open (some pcb) connect_err s =
    (record s { tcp_pcb = some pcb; buffer_len = 0 }, is_zero connect_err)

-- What lwIP calls the client for.
pub data Event : Type 0 where
  connected polled : ℤ → Event
  failed : ℤ → Event
  received : ℤ → Option (List ℕ) → Event
  sent : ℕ → Event

-- One event, where `tcp_close` returns the given error.
unfoldable pub happen : ℤ → Event → Client → Outcome
unfolding tcp_client_connected tcp_client_poll tcp_client_err tcp_client_recv tcp_client_sent
happen close_err (connected err) s = tcp_client_connected close_err err s
happen close_err (polled err) s = tcp_client_poll close_err s
happen close_err (failed err) s = tcp_client_err close_err err s
happen close_err (received write_err payload) s = tcp_client_recv close_err write_err payload s
happen close_err (sent len) s = tcp_client_sent close_err len s

-- The events that reach the client: closing takes the callbacks away.
unfoldable pub history : ℤ → List Event → Client → Client
unfolding happen
history close_err [] s = s
history close_err (e ∷ es) s =
    let rest = history close_err es (happen close_err e s).state in
    elim s.tcp_pcb [ none ↦ s | some pcb ↦ rest ]

-- What becomes of a run: it ends in a state, or waits for more to happen.
pub data Run : Type 0 where
  finished waiting : Client → Run

-- The loop of `run_tcp_client_test`.
unfoldable pub await : ℤ → List Event → Client → Run
await close_err es s =
    let t = history close_err es s in if t.complete then finished t else waiting t

-- `run_tcp_client_test`, where the state can be allocated.
unfoldable pub run_tcp_client_test : ℤ → Option ℕ → ℤ → List Event → Run
unfolding tcp_client_open tcp_client_init tcp_result
run_tcp_client_test close_err pcb connect_err es =
    let (s, ok) = tcp_client_open pcb connect_err tcp_client_init in
    if ok then await close_err es s else finished (tcp_result close_err s).state
