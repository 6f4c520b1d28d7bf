-- ===== src/Dns/Sockets.antt =====
-- wifi/access_point/dnsserver/dnsserver.c: the server's socket. What lwIP's calls return is an
-- argument.
use robotic_car_p3e.Prelude.{
  ℕ, Bool, Option, none, some, List, [], ◌∷◌, ◌++◌, if◌then◌else◌, length, take, ℤ, pos, negsuc,
  is_zero,
}
use robotic_car_p3e.Prelude.Datagrams.{Datagram, Call, pbuf_alloc, pbuf_free, udp_sendto, ip4_addr}
use robotic_car_p3e.Dns.Server.{Reply, ignored, sent}

-- `-ENOMEM`.
abbrev pub no_memory : ℤ
no_memory = negsuc 11

-- `dns_socket_new_dgram`: the control block and the result.
unfoldable pub dns_socket_new_dgram : Option ℕ → Option ℕ × ℤ
dns_socket_new_dgram none = (none, no_memory)
dns_socket_new_dgram (some h) = (some h, pos 0)

-- `dns_socket_free`: the control block, and the one that is removed, if any.
unfoldable pub dns_socket_free : Option ℕ → Option ℕ × Option ℕ
dns_socket_free none = (none, none)
dns_socket_free (some h) = (none, some h)

-- `dns_socket_bind`: the address and the port that are asked for, and the result. The `assert` for a
-- failure is left out, as in a build without them.
unfoldable pub dns_socket_bind : ℕ → ℕ → ℤ → (List ℕ × ℕ) × ℤ
dns_socket_bind ip port err = ((ip4_addr ip, port), err)

-- `dns_socket_sendto`: whether a packet buffer can be had, what the sending returns, the bytes, and
-- the address and the port where they go. The result, and the calls.
unfoldable pub dns_socket_sendto : Bool → ℤ → List ℕ → List ℕ → ℕ → ℤ × List Call
dns_socket_sendto allocated err buf dest port =
    let cut = take 0xffff buf in
    let g : Datagram = record { dest = dest; port = port; interface = none; payload = cut } in
    if allocated
    then (if is_zero err then pos (length cut) else err, pbuf_alloc ∷ udp_sendto g ∷ pbuf_free ∷ [])
    else (no_memory, [])

-- The end of `dns_server_process`: the reply to the sender, if there is one, and the packet buffer of
-- the datagram that has been received.
unfoldable pub send_reply : Bool → ℤ → List ℕ → ℕ → Reply → List Call
unfolding dns_socket_sendto
send_reply allocated err src_addr src_port (sent bytes) =
    (dns_socket_sendto allocated err bytes src_addr src_port).1 ++ pbuf_free ∷ []
send_reply allocated err src_addr src_port ignored = pbuf_free ∷ []
