-- ===== src/Ntp/Alarm.antt =====
-- wifi/ntp_client/picow_ntp_client.c: the alarm that fails a request whose reply is lost.
use robotic_car_p3e.Prelude.{
  ℕ, ◌≡◌, refl, ◌∙◌, true, false, Option, none, some, List, [], ◌∷◌, ℤ, arith,
}
use robotic_car_p3e.Ntp.Client.{
  Client, Callback, alarm_fired, dns_found, datagram, Round, Event, round, callback, err_inprogress,
  is_positive, ntp_result, ntp_request, ntp_failed_handler, ntp_dns_found, ntp_recv, is_due,
  begin_request, after_lookup, call, calls, loop_round, happen, history,
}

-- Only names with an address are found.
abbrev pub AllFound : List Callback → Type 0
AllFound [] = Unit {0}
AllFound (alarm_fired now ∷ cs) = ⊥
AllFound (dns_found now none ∷ cs) = ⊥
AllFound (dns_found now (some ipaddr) ∷ cs) = AllFound cs
AllFound (datagram now addr port p ∷ cs) = ⊥

-- The alarm that a round sets gets an identifier, as `add_alarm_in_ms` gives for an alarm in the
-- future when there is room for one; and no request ends before `dns_request_sent` is set for it.
abbrev pub InOrder : List Event → Type 0
InOrder [] = Unit {0}
InOrder (round r ∷ es) = (is_positive r.alarm ≡ true) × AllFound r.between × InOrder es
InOrder (callback c ∷ es) = InOrder es

-- A request is pending exactly if its alarm is.
abbrev pub IsWatched : Client → Type 0
IsWatched s = is_positive s.ntp_resend_alarm ≡ s.dns_request_sent

ntp_result-IsWatched : (now : ℕ) (s : Client) → IsWatched (ntp_result now s)
unfolding ntp_result
ntp_result-IsWatched now s = ground arith

call-IsWatched : (c : Callback) (s : Client) → IsWatched s → IsWatched (call c s)
unfolding call ntp_failed_handler ntp_dns_found ntp_recv ntp_request
call-IsWatched (alarm_fired now) s h = ntp_result-IsWatched now s
call-IsWatched (dns_found now none) s h = ntp_result-IsWatched now s
call-IsWatched (dns_found now (some c)) s h = h
call-IsWatched (datagram now addr port p) s h = ground (arith, ntp_result-IsWatched now s)

-- Addresses that are found leave the alarm as it is.
calls_found :
    (cs : List Callback) (s : Client)
    → AllFound cs
    → (calls cs s).ntp_resend_alarm ≡ s.ntp_resend_alarm
unfolding calls call ntp_dns_found ntp_request
calls_found [] s h = refl
calls_found (alarm_fired now ∷ cs) s h = absurd h
calls_found (dns_found now none ∷ cs) s h = absurd h
calls_found (dns_found now (some ipaddr) ∷ cs) s h =
    calls_found cs (record s { ntp_server_address = ipaddr }) h
calls_found (datagram now addr port p ∷ cs) s h = absurd h

begin_request-alarm :
    (alarm : ℤ) (cached : Option (List ℕ)) (s : Client)
    → (begin_request alarm cached s).ntp_resend_alarm ≡ alarm
unfolding begin_request
begin_request-alarm alarm none s = refl
begin_request-alarm alarm (some c) s = refl

after_lookup-IsWatched :
    (now : ℕ) (err : ℤ) (s : Client)
    → is_positive s.ntp_resend_alarm ≡ true
    → IsWatched (after_lookup now err s).state
unfolding after_lookup ntp_request
after_lookup-IsWatched now err s set =
    ground (arith, ntp_result-IsWatched now (record s { dns_request_sent = true }))

loop_round-IsWatched :
    (r : Round) (s : Client)
    → is_positive r.alarm ≡ true
    → AllFound r.between
    → IsWatched s
    → IsWatched (loop_round r s)
unfolding loop_round
loop_round-IsWatched r s set found h =
    let begun = begin_request r.alarm r.cached s in
    let same = calls_found r.between begun found ∙ begin_request-alarm r.alarm r.cached s in
    ground (arith, after_lookup-IsWatched r.next r.err (calls r.between begun) (rw same set))

-- As long as every alarm can be set, and no request ends in the background between the two halves
-- of the round that begins it, a request is pending exactly if its alarm is, whatever else happens
-- from a state in which this is so: no request waits for ever for a reply that is lost, and no alarm
-- outlives its request.
pub history-IsWatched :
    (es : List Event) (s : Client) → InOrder es → IsWatched s → IsWatched (history es s)
unfolding history happen
history-IsWatched [] s set h = h
history-IsWatched (round r ∷ es) s (set, found, rest) h =
    history-IsWatched es (loop_round r s) rest (loop_round-IsWatched r s set found h)
history-IsWatched (callback c ∷ es) s rest h =
    history-IsWatched es (call c s) rest (call-IsWatched c s h)

-- If the lookup fails in the background between the two halves of a round, the request is taken for
-- pending though its alarm is gone, and no later round of the loop does anything.
pub lookup_race :
    (r later : Round) (failed_at : ℕ) (s : Client)
    → is_due r.now s ≡ true
    → let stuck =
        loop_round
          (record r {
            between = dns_found failed_at none ∷ [];
            err = err_inprogress;
            cached = none;
          })
          s in
      (stuck.dns_request_sent ≡ true)
      × (is_positive stuck.ntp_resend_alarm ≡ false)
      × (loop_round later stuck ≡ stuck)
unfolding ntp_dns_found begin_request ntp_result after_lookup loop_round calls call is_due
lookup_race r later failed_at s due = ground arith
