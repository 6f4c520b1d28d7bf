-- ===== src/Dhcp/Broadcast.antt =====
-- wifi/access_point/dhcpserver/dhcpserver.c: how replies go out.
use robotic_car_p3e.Prelude.{
  ℕ, ◌≡◌, refl, ap, Bool, true, false, Option, some, List, [], ◌∷◌, length, take-all, if◌then◌else◌,
  ℤ, arith,
}
use robotic_car_p3e.Prelude.Datagrams.{Datagram, Call, datagrams, held_behind}
use robotic_car_p3e.Dhcp.Server.{
  Server, Reply, ignored, undefined, sent, dhcp_server_process, port_dhcp_client, msg_size,
}
use robotic_car_p3e.Dhcp.Invariant.{IsValid, ReplyFits, dhcp_server_process-Keeps}
use robotic_car_p3e.Dhcp.Sockets.{send_reply}

abbrev pub broadcast : Option ℕ → List ℕ → Datagram
broadcast nif bytes = record {
  dest = 255 ∷ 255 ∷ 255 ∷ 255 ∷ [];
  port = port_dhcp_client;
  interface = nif;
  payload = bytes;
}

-- What calls do for a reply: every packet buffer is freed, that of the received datagram included,
-- and the whole reply goes out, if there is a packet buffer for it. What C leaves undefined is left
-- out.
abbrev pub Serves : Bool → Option ℕ → Reply → List Call → Type 0
Serves allocated nif ignored calls = (datagrams calls ≡ []) × (held_behind 1 calls ≡ some 0)
Serves allocated nif undefined calls = Unit {0}
Serves allocated nif (sent bytes) calls =
    (datagrams calls ≡ (if allocated then broadcast nif bytes ∷ [] else []))
    × (held_behind 1 calls ≡ some 0)

send_reply-Serves :
    (allocated : Bool) (err : ℤ) (nif : Option ℕ) (r : Reply)
    → ReplyFits r
    → Serves allocated nif r (send_reply allocated err nif r)
unfolding send_reply
send_reply-Serves allocated err nif ignored fits = (refl, refl)
send_reply-Serves allocated err nif undefined fits = tt
send_reply-Serves false err nif (sent bytes) fits = (refl, refl)
send_reply-Serves true err nif (sent bytes) fits =
    (ap (λ b. broadcast nif b ∷ []) (take-all bytes 0xffff (omega arith)), refl)

-- Whatever datagram comes in, at whatever time, and whatever the sending returns: the packet buffer
-- of the datagram is freed, and so is that of the reply; if there is a reply and a packet buffer for
-- it, exactly the whole reply is sent, by broadcast to the clients' port on the interface on which
-- the datagram came in. The case that C leaves undefined is left out.
pub dhcp_server_process-Serves :
    (d : Server) (ticks : ℕ → ℕ) (stack payload : List ℕ) (allocated : Bool) (err : ℤ)
    (nif : Option ℕ)
    → IsValid d
    → length stack ≡ msg_size
    → let reply = (dhcp_server_process d ticks stack payload).1 in
      Serves allocated nif reply (send_reply allocated err nif reply)
dhcp_server_process-Serves d ticks stack payload allocated err nif h size =
    send_reply-Serves allocated err nif (dhcp_server_process d ticks stack payload).1
      (dhcp_server_process-Keeps d ticks stack payload h size).1
