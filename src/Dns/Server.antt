-- ===== src/Dns/Server.antt =====
-- wifi/access_point/dnsserver/dnsserver.c: the handling of a datagram, and the server's life.
use robotic_car_p3e.Prelude.{
  ℕ, zero, suc, ◌+◌, ◌-◌, ◌*◌, ◌/◌, ◌%◌, ◌^◌, Bool, true, false, Option, none, some, List, [], ◌∷◌,
  ◌++◌, ltb, ◌==◌, if◌then◌else◌, get_or, take, drop, length, write, min, not,
}

abbrev pub port_dns_server : ℕ
port_dns_server = 53

abbrev pub max_dns_msg_size : ℕ
max_dns_msg_size = 300

-- `sizeof(dns_header_t)`, which is where the question starts.
abbrev pub header_size : ℕ
header_size = 12

-- The buffer after `pbuf_copy_partial`: the datagram, cut at the size of the buffer, and behind a
-- shorter one what the stack held.
abbrev pub load_message : List ℕ → List ℕ → List ℕ
load_message payload stack = take max_dns_msg_size payload ++ drop (length payload) stack

-- A 16-bit field of the header, from network order.
abbrev pub field16 : List ℕ → ℕ → ℕ
field16 msg at = get_or msg at 0 * 256 + get_or msg (at + 1) 0

-- A standard query with at least one question.
unfoldable pub is_query : List ℕ → Bool
is_query msg =
    if not (field16 msg 2 / 2 ^ 15 % 2 == 0)
    then false
    else if not (field16 msg 2 / 2 ^ 11 % 16 == 0)
    then false
    else not (ltb (field16 msg 4) 1)

-- Where the walk over the labels of the name ends. `out_of_fuel` does not occur (`Dns/Question`).
pub data Walk : Type 0 where
  ended : ℕ → Walk
  invalid out_of_fuel : Walk

-- The loop over the labels from position `at` on, in a message of `len` bytes.
unfoldable pub walk : ℕ → List ℕ → ℕ → ℕ → Walk
walk zero msg len at = out_of_fuel
walk (suc fuel) msg len at = elim (ltb at len) [
  | false ↦ ended at
  | true ↦ elim (get_or msg at 0 == 0) [
    | true ↦ ended (at + 1)
    | false ↦ elim (ltb 63 (get_or msg at 0)) [
      | true ↦ invalid
      | false ↦ walk fuel msg len (at + 1 + get_or msg at 0)
    ]
  ]
]

-- The record that is written behind the question: a pointer to the name, type A, class IN, a time
-- to live of 60 seconds, and the server's own address.
abbrev pub answer : List ℕ → List ℕ
answer ip = 0xc0 ∷ header_size ∷ 0 ∷ 1 ∷ 0 ∷ 1 ∷ 0 ∷ 0 ∷ 0 ∷ 60 ∷ 0 ∷ 4 ∷ ip

-- Flags (response, authoritative, recursion available) and counts of the reply.
abbrev pub reply_header : List ℕ
reply_header = 0x84 ∷ 0x80 ∷ 0 ∷ 1 ∷ 0 ∷ 1 ∷ 0 ∷ 0 ∷ 0 ∷ 0 ∷ []

-- The reply to a message whose name ends before position `at`.
unfoldable pub make_reply : List ℕ → List ℕ → ℕ → List ℕ
make_reply ip msg at =
    take (at + 4 + (12 + length ip)) (write (write msg (at + 4) (answer ip)) 2 reply_header)

pub data Reply : Type 0 where
  ignored : Reply
  sent : List ℕ → Reply

-- The end of the handler, from the check of the question's length on.
unfoldable pub on_question : List ℕ → List ℕ → Walk → Reply
on_question ip msg (ended at) =
    if ltb 255 (at - header_size) then ignored else sent (make_reply ip msg at)
on_question ip msg invalid = ignored
on_question ip msg out_of_fuel = ignored

-- `dns_server_process`: `ip` is the server's address, four bytes, `stack` what the stack held where
-- the message is built. The reply goes to where the datagram came from.
unfoldable pub dns_server_process : List ℕ → List ℕ → List ℕ → Reply
dns_server_process ip stack payload =
    let msg = load_message payload stack in
    let len = min max_dns_msg_size (length payload) in
    if ltb len header_size
    then ignored
    else if is_query msg
    then on_question ip msg (walk (suc max_dns_msg_size) msg len header_size)
    else ignored

-- `dns_server_t`.
pub record Server : Type 0 where
  pub udp : Option ℕ
  pub ip : List ℕ

-- `dns_server_init`: `new_udp` is what `udp_new` gives, `bind_err` what `udp_bind` gives (0 for
-- success). The address is stored only where both succeed.
unfoldable pub dns_server_init : Option ℕ → ℕ → List ℕ → Server → Server
dns_server_init none bind_err ip d = record d { udp = none }
dns_server_init (some h) bind_err ip d =
    if bind_err == 0 then record { udp = some h; ip = ip } else record d { udp = some h }

-- `dns_server_deinit`: the new state, and the control block that is removed, if any.
unfoldable pub dns_server_deinit : Server → Server × Option ℕ
dns_server_deinit d = (record d { udp = none }, d.udp)
