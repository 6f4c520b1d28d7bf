-- ===== src/Echo/Finish.antt =====
-- wifi/tcp_client/picow_tcp_client.c: how the test of ten rounds comes to its end.
use robotic_car_p3e.Prelude.{
  ℕ, suc, ◌+◌, ◌≤◌, ◌<◌, ◌≡◌, refl, ap, ◌∙◌, Bool, true, false, none, some, List, [], ◌∷◌, leb,
  length, ℤ, arith, Bool-cases, inl, inr, if◌then◌else◌,
}
use robotic_car_p3e.Echo.Client.{
  Client, Event, received, sent, buf_size, test_iterations, err_ok, tcp_client_init,
  tcp_client_open, tcp_client_close, tcp_result, next_round, tcp_client_sent, tcp_client_recv,
  store, echo_if_full, happen, history, Run, finished, waiting, await, run_tcp_client_test,
}

-- Rounds of the server's: a whole buffer in one packet, and its acknowledgement behind the echo.
abbrev pub rounds : List (List ℕ) → List Event
rounds [] = []
rounds (b ∷ bs) = received err_ok (some b) ∷ sent buf_size ∷ rounds bs

abbrev pub AllFull : List (List ℕ) → Type 0
AllFull [] = Unit {0}
AllFull (b ∷ bs) = (length b ≡ buf_size) × AllFull bs

-- So many rounds are done, and the next is yet to begin.
record IsReady (p k : ℕ) (s : Client) : Type 0 where
  known : s.tcp_pcb ≡ some p
  filled : s.buffer_len ≡ 0
  acknowledged : s.sent_len ≡ 0
  done : s.run_count ≡ k
  going : s.complete ≡ false

-- The test is over.
pub record IsOver (s : Client) : Type 0 where
  pub complete : s.complete ≡ true
  pub closed : s.tcp_pcb ≡ none
  pub done : s.run_count ≡ test_iterations

history-open :
    (close_err : ℤ) (p : ℕ) (e : Event) (es : List Event) (s : Client)
    → s.tcp_pcb ≡ some p
    → history close_err (e ∷ es) s ≡ history close_err es (happen close_err e s).state
unfolding history
history-open close_err p e es s known = ground arith

-- The state once a buffer has come in.
record IsFilled (p k : ℕ) (s : Client) : Type 0 where
  known : s.tcp_pcb ≡ some p
  acknowledged : s.sent_len ≡ 0
  done : s.run_count ≡ k
  going : s.complete ≡ false

received-IsFilled :
    (close_err : ℤ) (p k : ℕ) (b : List ℕ) (s : Client)
    → length b ≡ buf_size
    → IsReady p k s
    → IsFilled p k (happen close_err (received err_ok (some b)) s).state
unfolding happen tcp_client_recv store echo_if_full
received-IsFilled close_err p k [] s full h = absurd (omega arith)
received-IsFilled close_err p k (c ∷ cs) s full h = ground arith

sent-IsReady :
    (close_err : ℤ) (p k : ℕ) (s : Client)
    → suc k < test_iterations
    → IsFilled p k s
    → IsReady p (suc k) (happen close_err (sent buf_size) s).state
unfolding happen tcp_client_sent next_round
sent-IsReady close_err p k s more h = ground arith

sent-IsOver :
    (close_err : ℤ) (p k : ℕ) (s : Client)
    → suc k ≡ test_iterations
    → IsFilled p k s
    → IsOver (happen close_err (sent buf_size) s).state
unfolding happen tcp_client_sent next_round tcp_result tcp_client_close
sent-IsOver close_err p k s last h = ground arith

history-rounds :
    (close_err : ℤ) (p k : ℕ) (b : List ℕ) (bs : List (List ℕ)) (s : Client)
    → length b ≡ buf_size
    → IsReady p k s
    → (t : Client) × (history close_err (rounds (b ∷ bs)) s
        ≡ history close_err (rounds bs) (happen close_err (sent buf_size) t).state)
      × IsFilled p k t
history-rounds close_err p k b bs s full h =
    let filled = received-IsFilled close_err p k b s full h in
    let t = (happen close_err (received err_ok (some b)) s).state in
    (
      t,
      history-open close_err p (received err_ok (some b)) (sent buf_size ∷ rounds bs) s h.known
          ∙ history-open close_err p (sent buf_size) (rounds bs) t filled.known,
      filled,
    )

-- Behind fewer rounds than are left the next is yet to begin; behind as many the test is over.
history-IsReady :
    (close_err : ℤ) (p k : ℕ) (bs : List (List ℕ)) (s : Client)
    → AllFull bs
    → k + length bs < test_iterations
    → IsReady p k s
    → IsReady p (k + length bs) (history close_err (rounds bs) s)
unfolding history
history-IsReady close_err p k [] s full few h = ground arith
history-IsReady close_err p k (b ∷ bs) s (one, full) few h =
    let (t, e, filled) = history-rounds close_err p k b bs s one h in
    let ready = sent-IsReady close_err p k t (omega arith) filled in
    let shift : suc k + length bs ≡ k + suc (length bs) = omega arith in
    rw (e, ← shift)
      (history-IsReady close_err p (suc k) bs (happen close_err (sent buf_size) t).state full
        (omega arith) ready)

history-IsOver :
    (close_err : ℤ) (p k : ℕ) (b : List ℕ) (bs : List (List ℕ)) (s : Client)
    → AllFull (b ∷ bs)
    → suc k + length bs ≡ test_iterations
    → IsReady p k s
    → IsOver (history close_err (rounds (b ∷ bs)) s)
unfolding history
history-IsOver close_err p k b [] s (one, full) all h =
    let (t, e, filled) = history-rounds close_err p k b [] s one h in
    rw e (sent-IsOver close_err p k t (omega arith) filled)
history-IsOver close_err p k b (c ∷ cs) s (one, full) all h =
    let (t, e, filled) = history-rounds close_err p k b (c ∷ cs) s one h in
    let ready = sent-IsReady close_err p k t (omega arith) filled in
    rw e (
      history-IsOver close_err p (suc k) c cs (happen close_err (sent buf_size) t).state full
        (omega arith) ready)

abbrev opened : ℕ → Client
opened p = (tcp_client_open (some p) err_ok tcp_client_init).0

opened-IsReady : (p : ℕ) → IsReady p 0 (opened p)
unfolding tcp_client_open tcp_client_init
opened-IsReady p = record {
  known = refl;
  filled = refl;
  acknowledged = refl;
  done = refl;
  going = refl;
}

abbrev ended : Bool → Client → Run
ended c t = if c then finished t else waiting t

await_lem :
    (close_err : ℤ) (es : List Event) (s : Client) (c : Bool)
    → (history close_err es s).complete ≡ c
    → await close_err es s ≡ ended c (history close_err es s)
unfolding await
await_lem close_err es s c h = ap (λ d. ended d (history close_err es s)) h

run-await :
    (close_err : ℤ) (p : ℕ) (es : List Event)
    → run_tcp_client_test close_err (some p) err_ok es ≡ await close_err es (opened p)
unfolding run_tcp_client_test
run-await close_err p es = refl

all-IsOver :
    (close_err : ℤ) (p : ℕ) (bs : List (List ℕ))
    → AllFull bs
    → length bs ≡ test_iterations
    → IsOver (history close_err (rounds bs) (opened p))
all-IsOver close_err p [] full all = absurd (omega arith)
all-IsOver close_err p (b ∷ bs) full all =
    history-IsOver close_err p 0 b bs (opened p) full (omega arith) (opened-IsReady p)

-- Where the server sends whole buffers and acknowledges the echo of each, the client waits on behind
-- fewer than ten rounds, with the connection open, and behind the tenth the run is over and the
-- connection closed; it has counted the rounds.
pub run_tcp_client_test-rounds :
    (close_err : ℤ) (p : ℕ) (bs : List (List ℕ))
    → AllFull bs
    → length bs ≤ test_iterations
    → (t : Client) × (run_tcp_client_test close_err (some p) err_ok (rounds bs)
        ≡ (if leb test_iterations (length bs) then finished t else waiting t))
      × (t.run_count ≡ length bs)
      × (t.tcp_pcb ≡ (if leb test_iterations (length bs) then none else some p))
run_tcp_client_test-rounds close_err p bs full few =
    elim (Bool-cases (leb test_iterations (length bs))) [
      | inl e ↦
          let over = all-IsOver close_err p bs full (ground arith) in
          rw e (
            t,
            run-await close_err p (rounds bs)
                ∙ await_lem close_err (rounds bs) (opened p) true over.complete,
            ground (arith, over.done),
            over.closed,
          )
      | inr e ↦
          let ready =
            history-IsReady close_err p 0 bs (opened p) full (ground arith) (opened-IsReady p) in
          rw e (
            t,
            run-await close_err p (rounds bs)
                ∙ await_lem close_err (rounds bs) (opened p) false ready.going,
            omega (arith, ready.done),
            ready.known,
          )
    ]
  where
    t : Client
    t = history close_err (rounds bs) (opened p)
