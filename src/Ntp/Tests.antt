-- ===== src/Ntp/Tests.antt =====
-- Runs of the NTP client.
use robotic_car_p3e.Prelude.{
  ◌+◌, ℕ, ◌<◌, map, ◌≡◌, refl, false, none, some, List, [], ◌∷◌, ◌++◌, length, replicate, pos,
  arith,
}
use robotic_car_p3e.Ntp.Client.{
  Client, Round, Event, round, callback, alarm_fired, dns_found, datagram, err_ok, err_inprogress,
  is_positive, ntp_port, ntp_result, seconds_since_1970, is_reply, ntp_recv, ntp_request,
  ntp_dns_found, begin_request, after_lookup, is_due, call, calls, loop_round, happen, history,
}
use robotic_car_p3e.Ntp.Time.{timestamp, ntp_recv-timestamp}
use robotic_car_p3e.Ntp.Run.{lookups, exited, main}
use robotic_car_p3e.Ntp.Retries.{lookups-again}
use robotic_car_p3e.Ntp.Alarm.{history-IsWatched}

-- The definitions that a run computes with.
runs : ℕ
unfolding ntp_result seconds_since_1970 is_reply ntp_recv ntp_request ntp_dns_found begin_request
    after_lookup is_due call calls loop_round happen history
runs = 0

abbrev server : List ℕ
server = 162 ∷ 159 ∷ 200 ∷ 1 ∷ []

abbrev idle : Client
idle = record {
  ntp_server_address = server;
  dns_request_sent = false;
  ntp_pcb = some 1;
  ntp_test_time = 0;
  ntp_resend_alarm = pos 0;
}

-- A reply of the year 2040.
abbrev reply : List ℕ
reply = (36 ∷ 2 ∷ replicate 38 0) ++ (timestamp 2220000000 ++ replicate 4 0)

time_example : (ntp_recv 5 server ntp_port reply idle).epoch ≡ some 2220000000
time_example =
    ntp_recv-timestamp 5 2220000000 36 2 (replicate 38 0) (replicate 4 0) idle refl refl
      (omega arith) refl (λ e. absurd (omega arith))

-- A round at the given time whose lookup goes on in the background.
abbrev at : ℕ → Round
at now = record {
  now = now;
  alarm = pos 5;
  cached = none;
  between = [];
  err = err_inprogress;
  next = now + 50;
}

abbrev lost_reply : List Event
lost_reply =
    round (record (at 1000) { between = dns_found 1100 (some server) ∷ [] })
    ∷ callback (alarm_fired 10001000)
    ∷ round (record (at 50000000) { cached = some server; err = err_ok })
    ∷ callback (datagram 50100000 server ntp_port reply)
    ∷ []

watched_example :
    is_positive (history lost_reply idle).ntp_resend_alarm
    ≡ (history lost_reply idle).dns_request_sent
watched_example = history-IsWatched lost_reply idle (refl, tt, (refl, tt, tt)) refl

again_example :
    0
    < length (
        lookups
          (callback (alarm_fired 10001000) ∷ map round ((at 20000000 ∷ []) ++ at 41000000 ∷ []))
          idle)
again_example =
    lookups-again (alarm_fired 10001000) (at 20000000 ∷ []) (at 41000000) idle tt (omega arith)

-- No control block: the program ends with 0, as if nothing were wrong.
no_block : main (pos 0) (pos 0) none [] ≡ exited 0
unfolding main
no_block = refl
