-- ===== src/Dhcp/Sockets.antt =====
-- wifi/access_point/dhcpserver/dhcpserver.c: the server's socket. What lwIP's calls return is an
-- argument.
use robotic_car_p3e.Prelude.{
  ℕ, Option, none, some, List, [], ◌∷◌, ◌++◌, Bool, if◌then◌else◌, length, take, ℤ, pos, negsuc,
  is_zero,
}
use robotic_car_p3e.Prelude.Datagrams.{Datagram, Call, pbuf_alloc, pbuf_free, udp_sendto, ip4_addr}
use robotic_car_p3e.Dhcp.Server.{port_dhcp_client, Reply, ignored, undefined, sent}

-- `-ENOMEM`.
abbrev pub no_memory : ℤ
no_memory = negsuc 11

-- `dhcp_socket_new_dgram`: the control block and the result.
unfoldable pub dhcp_socket_new_dgram : Option ℕ → Option ℕ × ℤ
dhcp_socket_new_dgram none = (none, no_memory)
dhcp_socket_new_dgram (some h) = (some h, pos 0)

-- `dhcp_socket_free`: the control block, and the one that is removed, if any.
unfoldable pub dhcp_socket_free : Option ℕ → Option ℕ × Option ℕ
dhcp_socket_free none = (none, none)
dhcp_socket_free (some h) = (none, some h)

-- `dhcp_socket_sendto`: whether a packet buffer can be had, what the sending returns, the interface,
-- the bytes, and where they go. The result, and the calls.
unfoldable pub dhcp_socket_sendto : Bool → ℤ → Option ℕ → List ℕ → ℕ → ℕ → ℤ × List Call
dhcp_socket_sendto allocated err nif buf ip port =
    let cut = take 0xffff buf in
    let g : Datagram = record { dest = ip4_addr ip; port = port; interface = nif; payload = cut } in
    if allocated
    then (if is_zero err then pos (length cut) else err, pbuf_alloc ∷ udp_sendto g ∷ pbuf_free ∷ [])
    else (no_memory, [])

-- The end of `dhcp_server_process`: the reply, if there is one, and the packet buffer of the datagram
-- that has been received.
unfoldable pub send_reply : Bool → ℤ → Option ℕ → Reply → List Call
unfolding dhcp_socket_sendto
send_reply allocated err nif (sent bytes) =
    (dhcp_socket_sendto allocated err nif bytes 0xffffffff port_dhcp_client).1 ++ pbuf_free ∷ []
send_reply allocated err nif ignored = pbuf_free ∷ []
send_reply allocated err nif undefined = []
