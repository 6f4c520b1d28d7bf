-- ===== src/Dns/Question.antt =====
-- dnsserver.c: the walk over the question's name, and the reply, byte by byte.
use mathlib.Core.List.{append_assoc}
use robotic_car_p3e.Prelude.{
  ℕ, zero, suc, ◌+◌, ◌≤◌, ◌<◌, ◌≡◌, ◌≢◌, refl, sym, ap, ap₂, ◌∙◌, List, ◌++◌, arith, length, take,
  drop, get_or, length-take, length-drop, length-append, write, length-write, write-split,
  take-append_exact, take-append_le, drop-append_le, take-take_le, min,
}
use robotic_car_p3e.Dns.Server.{
  Walk, ended, invalid, out_of_fuel, walk, header_size, max_dns_msg_size, answer, reply_header,
  make_reply, on_question, sent, dns_server_process, load_message,
}

-- With enough fuel the walk comes to an end, and not before where it started.
pub walk-total :
    (fuel : ℕ) (msg : List ℕ) (len at : ℕ)
    → len < at + fuel
    → 0 < fuel
    → walk fuel msg len at ≢ out_of_fuel
unfolding walk
walk-total zero msg len at h p = absurd (omega arith)
walk-total (suc fuel) msg len at h p =
    ground (arith, walk-total fuel msg len (at + 1 + get_or msg at 0))

pub walk-le :
    (fuel : ℕ) (msg : List ℕ) (len at end : ℕ) → walk fuel msg len at ≡ ended end → at ≤ end
unfolding walk
walk-le zero msg len at end h = cc
walk-le (suc fuel) msg len at end h =
    ground (arith, walk-le fuel msg len (at + 1 + get_or msg at 0) end)

-- A reply is the client's message identifier, the reply's flags and counts, the bytes of the
-- message from the question on up to four behind the end of its name, and the answer.
pub make_reply_lem :
    (ip msg : List ℕ) (at : ℕ)
    → length ip ≡ 4
    → length msg ≡ max_dns_msg_size
    → header_size ≤ at
    → at ≤ 267
    → make_reply ip msg at
      ≡ take 2 msg ++ (reply_header ++ (drop header_size (take (at + 4) msg) ++ answer ip))
unfolding make_reply
make_reply_lem ip msg at four size low high =
    ap (take (at + 4 + (12 + length ip))) whole ∙ take-append_exact reply tail _ fits
  where
    front : List ℕ
    front = take (at + 4) msg

    tail : List ℕ
    tail = drop (at + 4 + length (answer ip)) msg

    reply : List ℕ
    reply = take 2 msg ++ (reply_header ++ (drop header_size front ++ answer ip))

    answered : List ℕ
    answered = write msg (at + 4) (answer ip)

    length-front : length front ≡ at + 4
    length-front = omega (arith, length-take (at + 4) msg, size)

    split : answered ≡ front ++ (answer ip ++ tail)
    split = write-split msg (at + 4) (answer ip) (omega arith)

    start : take 2 answered ≡ take 2 msg
    start =
        ap (take 2) split
        ∙ take-append_le front (answer ip ++ tail) 2 (omega (arith, length-front))
        ∙ take-take_le 2 (at + 4) msg (omega arith)

    middle : drop header_size answered ≡ drop header_size front ++ (answer ip ++ tail)
    middle =
        ap (drop header_size) split
        ∙ drop-append_le front (answer ip ++ tail) header_size (omega (arith, length-front))

    header :
        write answered 2 reply_header
        ≡ take 2 answered ++ (reply_header ++ drop header_size answered)
    header =
        write-split answered 2 reply_header
          (omega (arith, length-write msg (at + 4) (answer ip), size))

    whole : write answered 2 reply_header ≡ reply ++ tail
    whole = header ∙ ap₂ (λ s m. s ++ (reply_header ++ m)) start middle ∙ simp append_assoc

    fits : length reply ≡ at + 4 + (12 + length ip)
    fits =
        simp length-append
          (omega (arith, length-take 2 msg, length-drop header_size front, length-front, size))

-- An accepted question ends where the answer still fits into the buffer.
AcceptedAt : List ℕ → List ℕ → Walk → List ℕ → Type 0
AcceptedAt ip msg w reply =
    (at : ℕ) × (w ≡ ended at) × (header_size ≤ at) × (at ≤ 267) × (make_reply ip msg at ≡ reply)

on_question-sent :
    (ip msg : List ℕ) (w : Walk) (reply : List ℕ)
    → ((at : ℕ) → w ≡ ended at → header_size ≤ at)
    → on_question ip msg w ≡ sent reply
    → AcceptedAt ip msg w reply
unfolding on_question AcceptedAt
on_question-sent ip msg (ended at) reply low h =
    (at, refl, low at refl, ground (arith, low at refl), ground arith)
on_question-sent ip msg invalid reply low h = cc
on_question-sent ip msg out_of_fuel reply low h = cc

pub length-load_message :
    (payload stack : List ℕ)
    → length stack ≡ max_dns_msg_size
    → length (load_message payload stack) ≡ max_dns_msg_size
length-load_message payload stack size = omega (
  arith,
  length-append {0} (take max_dns_msg_size payload) (drop (length payload) stack),
  length-take max_dns_msg_size payload,
  length-drop (length payload) stack,
  size,
)

-- Every reply, to whatever datagram, is the client's message identifier, the reply's flags and
-- counts, the bytes of the message from the question on, and the answer record; the question ends
-- at most 267 bytes into the message, so that all that is written lies in the 300 bytes.
pub dns_server_process-sent :
    (ip stack payload reply : List ℕ)
    → length ip ≡ 4
    → length stack ≡ max_dns_msg_size
    → dns_server_process ip stack payload ≡ sent reply
    → let msg = load_message payload stack in
      (at : ℕ) × (header_size ≤ at)
      × (at ≤ 267)
      × (reply
          ≡ take 2 msg ++ (reply_header ++ (drop header_size (take (at + 4) msg) ++ answer ip)))
unfolding dns_server_process AcceptedAt
dns_server_process-sent ip stack payload reply four size h =
    let (at, ends, low, high, made) = accepted in
    (
      at,
      low,
      high,
      sym made ∙ make_reply_lem ip msg at four (length-load_message payload stack size) low high,
    )
  where
    msg : List ℕ
    msg = load_message payload stack

    len : ℕ
    len = min max_dns_msg_size (length payload)

    w : Walk
    w = walk (suc max_dns_msg_size) msg len header_size

    accepted : AcceptedAt ip msg w reply
    accepted =
        on_question-sent ip msg w reply
          (λ at e. walk-le (suc max_dns_msg_size) msg len header_size at e) (ground arith)
