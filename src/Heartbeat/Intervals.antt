-- ===== src/Heartbeat/Intervals.antt =====
-- wifi/tcp_server/picow_tcp_server.c: the intervals between the messages of the loop, and the control
-- block that they are written to.
use robotic_car_p3e.Prelude.{
  ℕ, ◌+◌, ◌≤◌, ◌≡◌, refl, Bool, true, false, Option, none, some, List, [], ◌∷◌, ℤ, is_zero,
  if◌then◌else◌, arith, Bool-cases, inl, inr,
}
use robotic_car_p3e.Heartbeat.Client.{
  Client, Event, connected, received, sent, Tick, Message, Run, message_interval_us, is_due,
  tcp_client_close, tcp_result, tcp_client_sent, tcp_client_connected, tcp_client_recv, happen,
  history, loop, run_tcp_client_test,
}

-- The times of a list of events and what follows do not go back.
abbrev pub AllAfter : ℕ → List Event → ℕ → Type 0
AllAfter t [] end = t ≤ end
AllAfter t (connected now err ∷ es) end = (t ≤ now) × AllAfter now es end
AllAfter t (received payload ∷ es) end = AllAfter t es end
AllAfter t (sent len ∷ es) end = AllAfter t es end

-- The clock does not go back in a run.
abbrev pub IsClock : ℕ → List Tick → Type 0
IsClock t [] = Unit {0}
IsClock t (k ∷ ks) = AllAfter t k.events k.now × (k.now ≤ k.later) × IsClock k.later ks

-- Each message is an interval at least behind the one before, and the first behind the given time.
abbrev pub AllSpaced : ℕ → List Message → Type 0
AllSpaced t [] = Unit {0}
AllSpaced t (m ∷ ms) = (t + message_interval_us ≤ m.time) × AllSpaced m.time ms

AllAfter-le : (t : ℕ) (es : List Event) (end : ℕ) → AllAfter t es end → t ≤ end
AllAfter-le t [] end h = h
AllAfter-le t (connected now err ∷ es) end (h, k) = omega (arith, AllAfter-le now es end k)
AllAfter-le t (received payload ∷ es) end h = AllAfter-le t es end h
AllAfter-le t (sent len ∷ es) end h = AllAfter-le t es end h

-- The time of the last message moves on, and not past the clock.
abbrev IsBetween : ℕ → ℕ → ℕ → Type 0
IsBetween low time high = (low ≤ time) × (time ≤ high)

abbrev clock_after : ℕ → Event → ℕ
clock_after t (connected now err) = now
clock_after t (received payload) = t
clock_after t (sent len) = t

happen-IsBetween :
    (close_err : ℤ) (e : Event) (s : Client) (t : ℕ)
    → s.last_message_time ≤ t
    → t ≤ clock_after t e
    → IsBetween s.last_message_time (happen close_err e s).last_message_time (clock_after t e)
unfolding happen tcp_client_connected tcp_client_recv tcp_client_sent tcp_client_close
happen-IsBetween close_err (connected now err) s t h k = ground arith
happen-IsBetween close_err (received none) s t h k = ground arith
happen-IsBetween close_err (received (some payload)) s t h k = ground arith
happen-IsBetween close_err (sent len) s t h k = ground arith

AllAfter-cons :
    (t : ℕ) (e : Event) (es : List Event) (end : ℕ)
    → AllAfter t (e ∷ es) end
    → (t ≤ clock_after t e) × AllAfter (clock_after t e) es end
AllAfter-cons t (connected now err) es end h = h
AllAfter-cons t (received payload) es end h = (omega arith, h)
AllAfter-cons t (sent len) es end h = (omega arith, h)

history-IsBetween :
    (close_err : ℤ) (es : List Event) (s : Client) (t end : ℕ)
    → s.last_message_time ≤ t
    → AllAfter t es end
    → IsBetween s.last_message_time (history close_err es s).last_message_time end
unfolding history
history-IsBetween close_err [] s t end h k = (omega arith, omega arith)
history-IsBetween close_err (e ∷ es) s t end h k =
    let (first, rest) = AllAfter-cons t e es end k in
    let (low, high) = happen-IsBetween close_err e s t h first in
    let next =
      history-IsBetween close_err es (happen close_err e s) (clock_after t e) end high rest in
    let bound = AllAfter-le t (e ∷ es) end k in ground arith

AllSpaced-weaken : (t u : ℕ) (ms : List Message) → t ≤ u → AllSpaced u ms → AllSpaced t ms
AllSpaced-weaken t u [] h k = tt
AllSpaced-weaken t u (m ∷ ms) h (k, rest) = (omega arith, rest)

-- The messages of the run that a round chooses.
chosen-AllSpaced :
    (t : ℕ) (done going_on failed idle : Run) (complete due written : Bool)
    → done.messages ≡ []
    → AllSpaced t idle.messages
    → (due ≡ true → AllSpaced t going_on.messages)
    → (due ≡ true → AllSpaced t failed.messages)
    → AllSpaced t
        (if complete
          then done
          else if due
          then if written then going_on else failed
          else idle).messages
chosen-AllSpaced t done going_on failed idle true due written none_yet i g f = rw none_yet tt
chosen-AllSpaced t done going_on failed idle false true true none_yet i g f = g refl
chosen-AllSpaced t done going_on failed idle false true false none_yet i g f = f refl
chosen-AllSpaced t done going_on failed idle false false written none_yet i g f = i

-- As long as the clock does not go back, each message of the loop is handed over at least half a
-- second behind the one before, and behind the connection's time or the message's that the state
-- holds at first.
pub loop-AllSpaced :
    (close_err : ℤ) (ts : List Tick) (s : Client) (t : ℕ)
    → s.last_message_time ≤ t
    → IsClock t ts
    → AllSpaced s.last_message_time (loop close_err ts s).messages
unfolding loop
loop-AllSpaced close_err [] s t h k = tt
loop-AllSpaced close_err (c ∷ cs) s t h (after, order, clock) =
    let slept = history close_err c.events s in
    let marked = record slept { last_message_time = c.later } in
    let (low, high) = history-IsBetween close_err c.events s t c.now h after in
    let idle = loop-AllSpaced close_err cs slept c.later (omega arith) clock in
    let going_on = loop-AllSpaced close_err cs marked c.later (omega arith) clock in
    chosen-AllSpaced s.last_message_time _ _ _ _ s.complete (is_due c.now slept)
      (is_zero c.write_err) refl (AllSpaced-weaken _ _ (loop close_err cs slept).messages low idle)
      (λ due. (ground arith, going_on)) (λ due. (ground arith, tt))

-- The messages of a whole run are at least half a second apart, the value of MESSAGE_INTERVAL_MS, if
-- the clock does not go back, whatever lwIP calls the client for in between.
pub run_tcp_client_test-AllSpaced :
    (close_err : ℤ) (pcb : Option ℕ) (connect_err : ℤ) (ts : List Tick)
    → IsClock 0 ts
    → AllSpaced 0 (run_tcp_client_test close_err pcb connect_err ts).messages
unfolding run_tcp_client_test
run_tcp_client_test-AllSpaced close_err none connect_err ts clock = tt
run_tcp_client_test-AllSpaced close_err (some pcb) connect_err ts clock =
    elim (Bool-cases (is_zero connect_err)) [
      | inl e ↦ rw e (loop-AllSpaced close_err ts _ 0 (omega arith) clock)
      | inr e ↦ rw e tt
    ]

-- If the server closes the connection while the loop sleeps and a message is due behind the sleep,
-- the message is handed over with no control block, though the run is already complete.
pub loop-closed_asleep :
    (close_err : ℤ) (s : Client) (pcb : ℕ) (now later : ℕ) (write_err : ℤ) (ts : List Tick)
    → s.tcp_pcb ≡ some pcb
    → s.complete ≡ false
    → s.last_message_time + message_interval_us ≤ now
    → let tick : Tick = record {
      events = received none ∷ [];
      now = now;
      later = later;
      write_err = write_err;
    } in
      (ms : List Message) × ((loop close_err (tick ∷ ts) s).messages
        ≡ record { time = later; pcb = none } ∷ ms)
      × ((history close_err tick.events s).complete ≡ true)
unfolding loop history tcp_result tcp_client_close
loop-closed_asleep close_err s pcb now later write_err ts known going due =
    let marked = record s { complete = true; tcp_pcb = none; last_message_time = later } in
    (
      if is_zero write_err then (loop close_err ts marked).messages else [],
      ground arith,
      ground arith,
    )
