-- ===== src/Dns/Sending.antt =====
-- wifi/access_point/dnsserver/dnsserver.c: how replies go out.
use robotic_car_p3e.Prelude.{
  ℕ, ◌+◌, ◌≡◌, ◌≤◌, refl, ap, Bool, true, false, none, some, List, [], ◌∷◌, length, length-append,
  length-take, length-drop, drop, take, take-all, if◌then◌else◌, ℤ, arith,
}
use robotic_car_p3e.Prelude.Datagrams.{Datagram, Call, datagrams, held_behind}
use robotic_car_p3e.Dns.Server.{
  Reply, ignored, sent, dns_server_process, load_message, header_size, max_dns_msg_size,
}
use robotic_car_p3e.Dns.Question.{dns_server_process-sent}
use robotic_car_p3e.Dns.Sockets.{send_reply}

abbrev pub reply_to : List ℕ → ℕ → List ℕ → Datagram
reply_to src_addr src_port bytes = record {
  dest = src_addr;
  port = src_port;
  interface = none;
  payload = bytes;
}

-- What calls do for a reply: every packet buffer is freed, that of the received datagram included,
-- and the whole reply goes to the sender, if there is a packet buffer for it.
abbrev pub Serves : Bool → List ℕ → ℕ → Reply → List Call → Type 0
Serves allocated src_addr src_port ignored calls =
    (datagrams calls ≡ []) × (held_behind 1 calls ≡ some 0)
Serves allocated src_addr src_port (sent bytes) calls =
    (datagrams calls ≡ (if allocated then reply_to src_addr src_port bytes ∷ [] else []))
    × (held_behind 1 calls ≡ some 0)

send_reply-Serves :
    (allocated : Bool) (err : ℤ) (src_addr : List ℕ) (src_port : ℕ) (bytes : List ℕ)
    → length bytes ≤ 0xffff
    → Serves allocated src_addr src_port
        (sent bytes)
        (send_reply allocated err src_addr src_port (sent bytes))
unfolding send_reply
send_reply-Serves false err src_addr src_port bytes fits = (refl, refl)
send_reply-Serves true err src_addr src_port bytes fits =
    (ap (λ b. reply_to src_addr src_port b ∷ []) (take-all bytes 0xffff fits), refl)

module _ (ip stack payload : List ℕ) (four : length ip ≡ 4)
    (size : length stack ≡ max_dns_msg_size) where
  -- A reply is never cut.
  length-reply :
      (reply : List ℕ) → dns_server_process ip stack payload ≡ sent reply → length reply ≤ 0xffff
  length-reply reply h =
      let (at, low, high, made) = dns_server_process-sent ip stack payload reply four size h in
      let msg = load_message payload stack in
      let question = drop header_size (take (at + 4) msg) in
      rw made (
        omega (
          arith,
          length-append {0},
          length-take 2 msg,
          length-drop header_size (take (at + 4) msg),
          length-take (at + 4) msg,
          four,
          high,
        ))

  reply-Serves :
      (allocated : Bool) (err : ℤ) (src_addr : List ℕ) (src_port : ℕ) (r : Reply)
      → dns_server_process ip stack payload ≡ r
      → Serves allocated src_addr src_port r (send_reply allocated err src_addr src_port r)
  unfolding send_reply
  reply-Serves allocated err src_addr src_port ignored h = (refl, refl)
  reply-Serves allocated err src_addr src_port (sent bytes) h =
      send_reply-Serves allocated err src_addr src_port bytes (length-reply bytes h)

  -- Whatever datagram comes in, and whatever the sending returns: the packet buffer of the datagram is
  -- freed, and so is that of the reply; if there is a reply and a packet buffer for it, exactly the
  -- whole reply is sent, to the address and the port that the datagram came from.
  pub dns_server_process-Serves :
      (allocated : Bool) (err : ℤ) (src_addr : List ℕ) (src_port : ℕ)
      → let reply = dns_server_process ip stack payload in
        Serves allocated src_addr src_port reply (send_reply allocated err src_addr src_port reply)
  dns_server_process-Serves allocated err src_addr src_port =
      reply-Serves allocated err src_addr src_port (dns_server_process ip stack payload) refl
