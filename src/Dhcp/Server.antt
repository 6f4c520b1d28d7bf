-- ===== src/Dhcp/Server.antt =====
-- wifi/access_point/dhcpserver/dhcpserver.c: the server's state and the handling of a datagram.
use robotic_car_p3e.Prelude.{
  write, ℕ, ◌+◌, ◌-◌, ◌%◌, Option, none, some, List, ◌++◌, ltb, leb, ◌==◌, if◌then◌else◌, eq_bytes,
  get_elem?, set, take, drop, length,
}
use robotic_car_p3e.Dhcp.Options.{
  Find, found, null, overrun, out_of_fuel, opt_find, Cursor, opt_write_n, opt_write_u8,
  opt_write_u32, put_byte, dhcpdiscover, dhcpoffer, dhcprequest, dhcpack, opt_subnet_mask,
  opt_router, opt_dns, opt_requested_ip, opt_ip_lease_time, opt_msg_type, opt_server_id, opt_end,
}
use robotic_car_p3e.Dhcp.Leases.{
  Lease, no_leases, discover, request, dhcps_base_ip, dhcps_max_ip, mac_len, default_lease_time_s,
}

abbrev pub port_dhcp_server : ℕ
port_dhcp_server = 67

abbrev pub port_dhcp_client : ℕ
port_dhcp_client = 68

abbrev pub dhcp_min_size : ℕ
dhcp_min_size = 240 + 3

-- The layout of `dhcp_msg_t`: its size, and the offsets of the fields that the code uses.
abbrev pub msg_size : ℕ
msg_size = 548

abbrev pub yiaddr_at : ℕ
yiaddr_at = 16

abbrev pub chaddr_at : ℕ
chaddr_at = 28

-- `options` behind the magic cookie.
abbrev pub opt_at : ℕ
opt_at = 240

-- `dhcp_server_t`. Addresses are their four bytes in network order; `udp` is the handle of the
-- control block.
pub record Server : Type 0 where
  pub ip : List ℕ
  pub nm : List ℕ
  pub lease : List Lease
  pub udp : Option ℕ

-- What the handler does with a datagram: it drops it, answers with a message, or, where it reads
-- outside the message, does something that C leaves undefined.
pub data Reply : Type 0 where
  ignored : Reply
  sent : List ℕ → Reply
  undefined : Reply

-- The message after `pbuf_copy_partial`: the datagram, cut at the size of the struct, and behind a
-- shorter one what the stack held.
abbrev pub load_message : List ℕ → List ℕ → List ℕ
load_message payload stack = take msg_size payload ++ drop (length payload) stack

-- `dhcp_msg.op` and `dhcp_msg.yiaddr`.
unfoldable pub prepare : Server → List ℕ → List ℕ
prepare d msg = write (set msg 0 dhcpoffer) yiaddr_at d.ip

abbrev pub options_of : List ℕ → List ℕ
options_of msg = drop opt_at msg

-- The client's hardware address.
abbrev pub chaddr : List ℕ → List ℕ
chaddr msg = take mac_len (drop chaddr_at msg)

-- The options behind the message type, the end mark, and the message up to there.
unfoldable pub finish_reply : Server → Cursor → List ℕ
unfolding opt_write_n opt_write_u32 put_byte
finish_reply d c =
    let c1 = opt_write_n opt_server_id d.ip c in
    let c2 = opt_write_n opt_subnet_mask d.nm c1 in
    let c3 = opt_write_n opt_router d.ip c2 in
    let c4 = opt_write_n opt_dns d.ip c3 in
    let c5 = opt_write_u32 opt_ip_lease_time default_lease_time_s c4 in
    let c6 = put_byte opt_end c5 in take c6.at c6.buf

-- A reply of the given type that names the address of a lease.
unfoldable pub make_reply : Server → List ℕ → ℕ → ℕ → List ℕ
unfolding finish_reply opt_write_u8
make_reply d msg type yi =
    let named = set msg (yiaddr_at + 3) ((dhcps_base_ip + yi) % 256) in
    finish_reply d (opt_write_u8 opt_msg_type type (record { buf = named; at = opt_at }))

-- The case DHCPDISCOVER.
unfoldable pub on_discover : Server → (ℕ → ℕ) → List ℕ → Server × Reply
on_discover d ticks msg =
    let (offer, leases) = discover ticks (chaddr msg) d.lease in
    let d' = record d { lease = leases } in
    elim offer [ none ↦ (d', ignored) | some yi ↦ (d', sent (make_reply d msg dhcpoffer yi)) ]

-- The address that a request names, from the option at `i`: four bytes behind its code and length.
abbrev pub requested : List ℕ → ℕ → List ℕ
requested opts i = take 4 (drop (i + 2) opts)

-- The index of the lease of an address: `uint8_t` arithmetic on its last byte.
abbrev pub lease_index : List ℕ → ℕ
lease_index address = elim (get_elem? address 3) [
  | none ↦ 0
  | some b ↦ (b + 256 - dhcps_base_ip) % 256
]

-- A request for an address.
unfoldable pub on_address : Server → ℕ → List ℕ → List ℕ → Server × Reply
on_address d ticks msg address =
    let yi = lease_index address in
    if eq_bytes (take 3 address) (take 3 d.ip)
    then if ltb yi dhcps_max_ip
      then elim (request ticks (chaddr msg) yi d.lease) [
        | none ↦ (d, ignored)
        | some leases ↦ (record d { lease = leases }, sent (make_reply d msg dhcpack yi))
      ]
      else (d, ignored)
    else (d, ignored)

-- What the search for the requested address came to. An option so near the end that its address
-- reaches beyond the message is read there.
unfoldable pub on_requested : Server → ℕ → List ℕ → Find → Server × Reply
on_requested d ticks msg (found i) =
    if leb (i + 6) (length (options_of msg))
    then on_address d ticks msg (requested (options_of msg) i)
    else (d, undefined)
on_requested d ticks msg null = (d, ignored)
on_requested d ticks msg overrun = (d, undefined)
on_requested d ticks msg out_of_fuel = (d, undefined)

-- The case DHCPREQUEST.
unfoldable pub on_request : Server → ℕ → List ℕ → Server × Reply
on_request d ticks msg = on_requested d ticks msg (opt_find (options_of msg) opt_requested_ip)

-- The switch on the message type.
unfoldable pub on_type : Server → (ℕ → ℕ) → List ℕ → ℕ → Server × Reply
on_type d ticks msg type =
    if type == dhcpdiscover
    then on_discover d ticks msg
    else if type == dhcprequest
    then on_request d (ticks 0) msg
    else (d, ignored)

-- What the search for the message type came to.
unfoldable pub on_typed : Server → (ℕ → ℕ) → List ℕ → Find → Server × Reply
on_typed d ticks msg (found i) = elim (get_elem? (options_of msg) (i + 2)) [
  | none ↦ (d, undefined)
  | some type ↦ on_type d ticks msg type
]
on_typed d ticks msg null = (d, ignored)
on_typed d ticks msg overrun = (d, undefined)
on_typed d ticks msg out_of_fuel = (d, undefined)

-- The handling of a copied message.
unfoldable pub on_message : Server → (ℕ → ℕ) → List ℕ → Server × Reply
on_message d ticks msg = on_typed d ticks msg (opt_find (options_of msg) opt_msg_type)

-- `dhcp_server_process`: `payload` is the datagram, `stack` what the stack held where the message
-- is built, `ticks` the clock as it is read. The messages are sent by broadcast to
-- `port_dhcp_client`.
unfoldable pub dhcp_server_process : Server → (ℕ → ℕ) → List ℕ → List ℕ → Server × Reply
dhcp_server_process d ticks stack payload =
    if ltb (length payload) dhcp_min_size
    then (d, ignored)
    else on_message d ticks (prepare d (load_message payload stack))

-- `dhcp_server_init`: `new_udp` is what `udp_new` gives. Also the port that is bound, if any.
unfoldable pub dhcp_server_init : List ℕ → List ℕ → Option ℕ → Server × Option ℕ
dhcp_server_init ip nm new_udp = (
  record { ip = ip; nm = nm; lease = no_leases; udp = new_udp },
  elim new_udp [ none ↦ none | some h ↦ some port_dhcp_server ],
)

-- `dhcp_server_deinit`: the new state, and the control block that is removed, if any.
unfoldable pub dhcp_server_deinit : Server → Server × Option ℕ
dhcp_server_deinit d = (record d { udp = none }, d.udp)
