-- ===== src/Ntp/Retries.antt =====
-- wifi/ntp_client/picow_ntp_client.c: when the server is looked up.
use robotic_car_p3e.Prelude.{
  ℕ, ◌+◌, ◌*◌, ◌≤◌, ◌<◌, ◌≡◌, refl, true, false, none, some, List, [], ◌∷◌, ◌++◌, length, map,
  arith, Bool-cases, inl, inr,
}
use robotic_car_p3e.Ntp.Client.{
  Client, Callback, alarm_fired, dns_found, datagram, Round, Event, round, callback,
  ntp_test_time_ms, is_due, ntp_result, ntp_failed_handler, ntp_dns_found, ntp_request, ntp_recv,
  after_lookup, call, loop_round, happen,
}
use robotic_car_p3e.Ntp.Run.{lookups}

-- Half a minute, in microseconds.
abbrev pub test_time_us : ℕ
test_time_us = ntp_test_time_ms * 1000

abbrev pub call_time : Callback → ℕ
call_time (alarm_fired now) = now
call_time (dns_found now ipaddr) = now
call_time (datagram now addr port p) = now

-- The clock does not go back.
abbrev pub IsClock : ℕ → List Event → Type 0
IsClock t [] = Unit {0}
IsClock t (round r ∷ es) = (t ≤ r.now) × (r.now ≤ r.next) × IsClock r.next es
IsClock t (callback c ∷ es) = (t ≤ call_time c) × IsClock (call_time c) es

-- Times that are more than half a minute apart, from the given one on.
abbrev pub AllSpaced : ℕ → List ℕ → Type 0
AllSpaced last [] = Unit {0}
AllSpaced last (t ∷ ts) = (last + test_time_us < t) × AllSpaced t ts

abbrev pub AreSpaced : List ℕ → Type 0
AreSpaced [] = Unit {0}
AreSpaced (t ∷ ts) = AllSpaced t ts

-- The next lookup is put off, or a request is pending.
abbrev IsPutOff : ℕ → Client → Type 0
IsPutOff last s = s.dns_request_sent ≡ false → last + test_time_us ≤ s.ntp_test_time

-- A round that begins a request, whatever comes between its halves.
loop_round-due :
    (r : Round) (s : Client)
    → is_due r.now s ≡ true
    → r.now ≤ r.next
    → IsPutOff r.now (loop_round r s)
unfolding loop_round after_lookup ntp_result ntp_request
loop_round-due r s due order free = ground arith

loop_round-idle : (r : Round) (s : Client) → is_due r.now s ≡ false → loop_round r s ≡ s
unfolding loop_round
loop_round-idle r s idle = rw idle refl

call-IsPutOff :
    (c : Callback) (s : Client) (last : ℕ)
    → last ≤ call_time c
    → IsPutOff last s
    → IsPutOff last (call c s)
unfolding call ntp_failed_handler ntp_dns_found ntp_recv ntp_result ntp_request
call-IsPutOff (alarm_fired now) s last h p free = omega arith
call-IsPutOff (dns_found now none) s last h p free = omega arith
call-IsPutOff (dns_found now (some ipaddr)) s last h p free = p free
call-IsPutOff (datagram now addr port bytes) s last h p free = ground arith

-- A round begins a request only behind `ntp_test_time`, and where none is pending.
is_due-free :
    (now : ℕ) (s : Client)
    → is_due now s ≡ true
    → (s.dns_request_sent ≡ false) × (s.ntp_test_time < now)
unfolding is_due
is_due-free now s h = ground arith

lookups-AllSpaced :
    (es : List Event) (s : Client) (last t : ℕ)
    → last ≤ t
    → IsPutOff last s
    → IsClock t es
    → AllSpaced last (lookups es s)
unfolding lookups happen
lookups-AllSpaced [] s last t h p c = tt
lookups-AllSpaced (callback k ∷ es) s last t h p (before, c) =
    lookups-AllSpaced es (call k s) last (call_time k) (omega arith)
      (call-IsPutOff k s last (omega arith) p) c
lookups-AllSpaced (round r ∷ es) s last t h p (before, order, c) =
    elim (Bool-cases (is_due r.now s)) [
      | inr idle ↦
          rw (idle, loop_round-idle r s idle) (lookups-AllSpaced es s last r.next (omega arith) p c)
      | inl due ↦
          let (free, late) = is_due-free r.now s due in
          rw due (
            omega (arith, late, p free),
            lookups-AllSpaced es (loop_round r s) r.now r.next order (loop_round-due r s due order)
                c,
          )
    ]

lookups-AreSpaced : (es : List Event) (s : Client) (t : ℕ) → IsClock t es → AreSpaced (lookups es s)
unfolding lookups happen
lookups-AreSpaced [] s t c = tt
lookups-AreSpaced (callback k ∷ es) s t (before, c) =
    lookups-AreSpaced es (call k s) (call_time k) c
lookups-AreSpaced (round r ∷ es) s t (before, order, c) = elim (Bool-cases (is_due r.now s)) [
  | inr idle ↦ rw (idle, loop_round-idle r s idle) (lookups-AreSpaced es s r.next c)
  | inl due ↦
      rw due
        (lookups-AllSpaced es (loop_round r s) r.now r.next order (loop_round-due r s due order) c)
]

-- Requests for the time do not flood the server: whatever the state is and whatever happens, the
-- lookups with which they begin are more than half a minute apart, if the clock does not go back.
pub history-AreSpaced : (es : List Event) (s : Client) → IsClock 0 es → AreSpaced (lookups es s)
history-AreSpaced es s c = lookups-AreSpaced es s 0 c

-- A callback that ends a request: its alarm, a name without address, or a datagram, be it a reply or
-- not.
abbrev pub Ends : Callback → Type 0
Ends (alarm_fired now) = Unit {0}
Ends (dns_found now none) = Unit {0}
Ends (dns_found now (some ipaddr)) = ⊥
Ends (datagram now addr port p) = Unit {0}

record IsFree (now : ℕ) (s : Client) : Type 0 where
  free : s.dns_request_sent ≡ false
  put_off : s.ntp_test_time ≡ now + test_time_us

Ends-IsFree : (c : Callback) (s : Client) → Ends c → IsFree (call_time c) (call c s)
unfolding call ntp_failed_handler ntp_dns_found ntp_recv ntp_result
Ends-IsFree (alarm_fired now) s h = record { free = refl; put_off = refl }
Ends-IsFree (dns_found now none) s h = record { free = refl; put_off = refl }
Ends-IsFree (dns_found now (some ipaddr)) s h = absurd h
Ends-IsFree (datagram now addr port p) s h = ground arith

free-is_due :
    (now : ℕ) (s : Client)
    → s.dns_request_sent ≡ false
    → s.ntp_test_time < now
    → is_due now s ≡ true
unfolding is_due
free-is_due now s free late = ground arith

lookups-free :
    (rs : List Round) (last : Round) (s : Client)
    → s.dns_request_sent ≡ false
    → s.ntp_test_time < last.now
    → 0 < length (lookups (map round (rs ++ last ∷ [])) s)
unfolding lookups happen
lookups-free [] last s free late = rw (free-is_due last.now s free late) (omega arith)
lookups-free (r ∷ rs) last s free late = elim (Bool-cases (is_due r.now s)) [
  | inl due ↦ rw due (omega arith)
  | inr idle ↦ rw (idle, loop_round-idle r s idle) (lookups-free rs last s free late)
]

-- A lost request is made up for: behind its alarm, a name without address or a datagram that comes
-- when no round is between the two halves of a request, the server is looked up again by the first
-- round that begins more than half a minute later, whatever rounds lie between. (Within a round the
-- same can leave the request pending for ever: `Alarm.lookup_race`.)
pub lookups-again :
    (c : Callback) (rs : List Round) (last : Round) (s : Client)
    → Ends c
    → call_time c + test_time_us < last.now
    → 0 < length (lookups (callback c ∷ map round (rs ++ last ∷ [])) s)
unfolding lookups happen
lookups-again c rs last s h late =
    let f = Ends-IsFree c s h in lookups-free rs last (call c s) f.free (rw (f.put_off) late)
