-- ===== src/Ntp/Client.antt =====
-- wifi/ntp_client/picow_ntp_client.c: the client's state, its callbacks and its loop. Times are in
-- microseconds; what the SDK's and lwIP's calls return is an argument.
use robotic_car_p3e.Prelude.{
  ℕ, ◌+◌, ◌-◌, ◌*◌, ◌%◌, ◌^◌, Bool, true, false, not, ◌&&◌, Option, none, some, List, [], ◌∷◌, ◌==◌,
  ltb, if◌then◌else◌, eq_bytes, length, get_or, replicate, ℤ, pos, negsuc, is_zero,
}

abbrev pub ntp_msg_len : ℕ
ntp_msg_len = 48

abbrev pub ntp_port : ℕ
ntp_port = 123

-- The seconds between the beginnings of 1900 and of 1970.
abbrev pub ntp_delta : ℕ
ntp_delta = 2208988800

-- In milliseconds.
abbrev pub ntp_test_time_ms : ℕ
ntp_test_time_ms = 30 * 1000

abbrev pub err_ok : ℤ
err_ok = pos 0

abbrev pub err_inprogress : ℤ
err_inprogress = negsuc 4

abbrev pub is_inprogress : ℤ → Bool
is_inprogress (pos n) = false
is_inprogress (negsuc n) = n == 4

abbrev pub is_positive : ℤ → Bool
is_positive (pos n) = ltb 0 n
is_positive (negsuc n) = false

-- `NTP_T`; an address is its bytes, the control block a handle.
pub record Client : Type 0 where
  pub ntp_server_address : List ℕ
  pub dns_request_sent : Bool
  pub ntp_pcb : Option ℕ
  pub ntp_test_time : ℕ
  pub ntp_resend_alarm : ℤ

-- The state behind a callback, the request that is sent (to whom, and what), and the time that was
-- received.
pub record Outcome : Type 0 where
  pub state : Client
  pub request : Option (List ℕ × List ℕ)
  pub epoch : Option ℕ

-- `ntp_result` at a time: the alarm is cancelled, and the next test is set.
unfoldable pub ntp_result : ℕ → Client → Client
ntp_result now s = record s {
  ntp_resend_alarm = if is_positive s.ntp_resend_alarm then pos 0 else s.ntp_resend_alarm;
  ntp_test_time = now + ntp_test_time_ms * 1000;
  dns_request_sent = false;
}

abbrev pub failed : ℕ → Client → Outcome
failed now s = record { state = ntp_result now s; request = none; epoch = none }

-- The message of `ntp_request`.
abbrev pub request_message : List ℕ
request_message = 0x1b ∷ replicate 47 0

unfoldable pub ntp_request : Client → Outcome
ntp_request s = record {
  state = s;
  request = some (s.ntp_server_address, request_message);
  epoch = none;
}

unfoldable pub ntp_failed_handler : ℕ → Client → Outcome
unfolding ntp_result
ntp_failed_handler now s = failed now s

unfoldable pub ntp_dns_found : ℕ → Option (List ℕ) → Client → Outcome
unfolding ntp_request ntp_result
ntp_dns_found now none s = failed now s
ntp_dns_found now (some ipaddr) s = ntp_request (record s { ntp_server_address = ipaddr })

-- The 32-bit number at 40, and the time made of it.
abbrev pub seconds_since_1900 : List ℕ → ℕ
seconds_since_1900 p =
    ((get_or p 40 0 * 256 + get_or p 41 0) * 256 + get_or p 42 0) * 256 + get_or p 43 0

unfoldable pub seconds_since_1970 : List ℕ → ℕ
seconds_since_1970 p = (seconds_since_1900 p + 2 ^ 32 - ntp_delta) % 2 ^ 32

-- The check of a reply.
unfoldable pub is_reply : List ℕ → ℕ → List ℕ → Client → Bool
is_reply addr port p s =
    eq_bytes addr s.ntp_server_address
    && port == ntp_port
    && length p == ntp_msg_len
    && get_or p 0 0 % 8 == 4
    && not (get_or p 1 0 == 0)

unfoldable pub ntp_recv : ℕ → List ℕ → ℕ → List ℕ → Client → Outcome
unfolding is_reply seconds_since_1970 ntp_result
ntp_recv now addr port p s =
    if is_reply addr port p s
    then record { state = ntp_result now s; request = none; epoch = some (seconds_since_1970 p) }
    else failed now s

-- `ntp_init`, given what `udp_new_ip_type` returns.
unfoldable pub ntp_init : Option ℕ → Option Client
ntp_init none = none
ntp_init (some pcb) = some (record {
  ntp_server_address = replicate 4 0;
  dns_request_sent = false;
  ntp_pcb = some pcb;
  ntp_test_time = 0;
  ntp_resend_alarm = pos 0;
})

-- `run_ntp_test` starts a request when it is time and none is pending.
unfoldable pub is_due : ℕ → Client → Bool
is_due now s = ltb s.ntp_test_time now && not s.dns_request_sent

-- The first half of a round that starts a request: the alarm is set, and the name is looked up,
-- which stores the address if it is known already.
unfoldable pub begin_request : ℤ → Option (List ℕ) → Client → Client
begin_request alarm none s = record s { ntp_resend_alarm = alarm }
begin_request alarm (some cached) s = record s {
  ntp_resend_alarm = alarm;
  ntp_server_address = cached;
}

-- The second half, behind the lookup, which has returned `err`.
unfoldable pub after_lookup : ℕ → ℤ → Client → Outcome
unfolding ntp_request ntp_result
after_lookup now err s =
    let t = record s { dns_request_sent = true } in
    if is_zero err
    then ntp_request t
    else if is_inprogress err
    then record { state = t; request = none; epoch = none }
    else failed now t

-- The callbacks, each with the time.
pub data Callback : Type 0 where
  alarm_fired : ℕ → Callback
  dns_found : ℕ → Option (List ℕ) → Callback
  datagram : ℕ → List ℕ → ℕ → List ℕ → Callback

unfoldable pub call : Callback → Client → Client
unfolding ntp_failed_handler ntp_dns_found ntp_recv
call (alarm_fired now) s = (ntp_failed_handler now s).state
call (dns_found now ipaddr) s = (ntp_dns_found now ipaddr s).state
call (datagram now addr port p) s = (ntp_recv now addr port p s).state

unfoldable pub calls : List Callback → Client → Client
unfolding call
calls [] s = s
calls (c ∷ cs) s = calls cs (call c s)

-- A round of the loop: when it begins, what `add_alarm_in_ms` and `dns_gethostbyname` give, the
-- callbacks that come in the background between the two halves of a request, and the time behind
-- them.
pub record Round : Type 0 where
  pub now : ℕ
  pub alarm : ℤ
  pub cached : Option (List ℕ)
  pub between : List Callback
  pub err : ℤ
  pub next : ℕ

unfoldable pub loop_round : Round → Client → Client
unfolding is_due begin_request after_lookup calls
loop_round r s =
    if is_due r.now s
    then (after_lookup r.next r.err (calls r.between (begin_request r.alarm r.cached s))).state
    else s

-- What happens to the client: a round of its loop, or a callback outside the requests' halves.
pub data Event : Type 0 where
  round : Round → Event
  callback : Callback → Event

unfoldable pub happen : Event → Client → Client
happen (round r) s = loop_round r s
happen (callback c) s = call c s

unfoldable pub history : List Event → Client → Client
unfolding happen
history [] s = s
history (e ∷ es) s = history es (happen e s)
