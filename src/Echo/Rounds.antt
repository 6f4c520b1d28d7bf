-- ===== src/Echo/Rounds.antt =====
-- wifi/tcp_client/picow_tcp_client.c: what the callbacks keep, and what is sent back.
use robotic_car_p3e.Prelude.{
  ℕ, ◌≤◌, ◌<◌, ◌≡◌, refl, true, false, none, some, List, [], ◌∷◌, length, take, length-write,
  length-take, ℤ, arith, Bool-cases, inl, inr,
}
use robotic_car_p3e.Echo.Client.{
  Client, Event, connected, polled, failed, received, sent, buf_size, test_iterations,
  tcp_client_init, tcp_client_open, tcp_client_close, tcp_result, next_round, tcp_client_sent,
  tcp_client_connected, tcp_client_poll, tcp_client_err, buffer_left, store, echo_if_full,
  tcp_client_recv, happen, history,
}

-- The buffer has its size and is filled within it, and until the client is complete fewer than ten
-- rounds are done, the sent bytes of the next are fewer than a buffer's, and the connection is
-- open.
pub record IsValid (s : Client) : Type 0 where
  pub size : length s.buffer ≡ buf_size
  pub fill : s.buffer_len ≤ buf_size
  pub rounds : s.run_count ≤ test_iterations
  pub open_rounds : s.complete ≡ false → s.run_count < test_iterations
  pub open_sent : s.complete ≡ false → s.sent_len < buf_size
  pub closed : s.complete ≡ true → s.tcp_pcb ≡ none

tcp_result-IsValid :
    (close_err : ℤ) (s : Client) → IsValid s → IsValid (tcp_result close_err s).state
unfolding tcp_result tcp_client_close
tcp_result-IsValid close_err s h = ground arith

tcp_client_sent-IsValid :
    (close_err : ℤ) (len : ℕ) (s : Client)
    → IsValid s
    → s.complete ≡ false
    → IsValid (tcp_client_sent close_err len s).state
unfolding tcp_client_sent next_round tcp_result tcp_client_close
tcp_client_sent-IsValid close_err len s h going = ground arith

store-IsValid : (payload : List ℕ) (s : Client) → IsValid s → IsValid (store payload s)
unfolding store
store-IsValid [] s h = h
store-IsValid (c ∷ cs) s h = ground (
  arith,
  length-write s.buffer s.buffer_len (take (buffer_left s) (c ∷ cs)),
  length-take (buffer_left s) (c ∷ cs),
)

echo_if_full-IsValid :
    (close_err write_err : ℤ) (s : Client)
    → IsValid s
    → IsValid (echo_if_full close_err write_err s).state
unfolding echo_if_full
echo_if_full-IsValid close_err write_err s h = ground (arith, tcp_result-IsValid close_err s h)

happen-IsValid :
    (close_err : ℤ) (e : Event) (s : Client)
    → IsValid s
    → s.complete ≡ false
    → IsValid (happen close_err e s).state
unfolding happen tcp_client_connected tcp_client_poll tcp_client_err tcp_client_recv
happen-IsValid close_err (connected err) s h going =
    ground (arith, tcp_result-IsValid close_err s h)
happen-IsValid close_err (polled err) s h going = tcp_result-IsValid close_err s h
happen-IsValid close_err (failed err) s h going = ground (arith, tcp_result-IsValid close_err s h)
happen-IsValid close_err (received write_err none) s h going = tcp_result-IsValid close_err s h
happen-IsValid close_err (received write_err (some payload)) s h going =
    echo_if_full-IsValid close_err write_err _ (store-IsValid payload s h)
happen-IsValid close_err (sent len) s h going = tcp_client_sent-IsValid close_err len s h going

history-IsValid_from :
    (close_err : ℤ) (es : List Event) (s : Client) → IsValid s → IsValid (history close_err es s)
unfolding history
history-IsValid_from close_err [] s h = h
history-IsValid_from close_err (e ∷ es) s h = elim (Bool-cases s.complete) [
  | inl done ↦ ground arith
  | inr going ↦
      ground (arith, history-IsValid_from close_err es _ (happen-IsValid close_err e s h going))
]

start-IsValid :
    (pcb : ℕ) (connect_err : ℤ) → IsValid (tcp_client_open (some pcb) connect_err tcp_client_init).0
unfolding tcp_client_open tcp_client_init
start-IsValid pcb connect_err = record {
  size = refl;
  fill = omega arith;
  rounds = omega arith;
  open_rounds = λ e. omega arith;
  open_sent = λ e. omega arith;
  closed = λ e. cc;
}

-- Whatever lwIP calls the client for, in whatever order, from the opening on: the bytes received
-- lie within the buffer, no more than ten rounds are counted and fewer while the test goes on, and
-- the connection is closed as soon as the test is complete.
pub history-tcp_client_open-IsValid :
    (pcb : ℕ) (connect_err close_err : ℤ) (es : List Event)
    → IsValid (history close_err es (tcp_client_open (some pcb) connect_err tcp_client_init).0)
history-tcp_client_open-IsValid pcb connect_err close_err es =
    history-IsValid_from close_err es _ (start-IsValid pcb connect_err)
