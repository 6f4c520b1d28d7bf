-- ===== src/Dhcp/Invariant.antt =====
-- dhcpserver.c: what holds of the server's state whatever datagrams it gets, and of each reply.
use mathlib.Core.Path.{subst}
use robotic_car_p3e.Prelude.{
  length-write, ℕ, zero, suc, ◌+◌, ◌%◌, ◌^◌, ◌<◌, ◌≡◌, refl, sym, ap, ◌∙◌, List, [], ◌∷◌, arith,
  length, set, length-set, take, drop, length-take, length-drop, length-append, some, get_elem?,
  eq_bytes, Bool-cases, Option-cases, inl, inr, leb, ◌==◌,
}
use robotic_car_p3e.Dhcp.Options.{
  Find, found, opt_find, opt_msg_type, opt_requested_ip, dhcpoffer, dhcpack, dhcpdiscover,
  dhcprequest,
}
use robotic_car_p3e.Dhcp.Leases.{
  Lease, expiry_from, pass_lease, choose_lease, discover, request, dhcps_max_ip, dhcps_base_ip,
}
use robotic_car_p3e.Dhcp.Reply.{make_reply_lem}
use robotic_car_p3e.Dhcp.Server.{
  Server, Reply, ignored, sent, undefined, msg_size, load_message, prepare, options_of, chaddr,
  make_reply, on_discover, on_address, on_request, on_requested, on_typed, on_type, on_message,
  dhcp_server_process, requested, lease_index, yiaddr_at, opt_at,
}

pub record IsLease (l : Lease) : Type 0 where
  pub mac_size : length l.mac ≡ 6
  pub expiry_16 : l.expiry < 2 ^ 16

abbrev pub AllLeases : List Lease → Type 0
AllLeases [] = Unit {0}
AllLeases (l ∷ ls) = IsLease l × AllLeases ls

-- Addresses have four bytes, the table eight leases, each with a MAC of six bytes and a 16-bit time.
pub record IsValid (d : Server) : Type 0 where
  pub ip_size : length d.ip ≡ 4
  pub nm_size : length d.nm ≡ 4
  pub table_size : length d.lease ≡ dhcps_max_ip
  pub leases : AllLeases d.lease

set-AllLeases :
    (ls : List Lease) (i : ℕ) (l : Lease) → AllLeases ls → IsLease l → AllLeases (set ls i l)
set-AllLeases [] i l h k = h
set-AllLeases (m ∷ ls) zero l h k = (k, h.1)
set-AllLeases (m ∷ ls) (suc i) l h k = (h.0, set-AllLeases ls i l h.1 k)

pass_lease-IsLease : (ticks i yi : ℕ) (l : Lease) → IsLease l → IsLease (pass_lease ticks i yi l).1
unfolding pass_lease
pass_lease-IsLease ticks i yi l h = ground arith

choose_lease-AllLeases :
    (ticks : ℕ → ℕ) (mac : List ℕ) (i yi : ℕ) (ls : List Lease)
    → AllLeases ls
    → AllLeases (choose_lease ticks mac i yi ls).1
      × (length (choose_lease ticks mac i yi ls).1 ≡ length ls)
unfolding choose_lease
choose_lease-AllLeases ticks mac i yi [] h = (h, refl)
choose_lease-AllLeases ticks mac i yi (l ∷ ls) h = elim (Bool-cases (eq_bytes l.mac mac)) [
  | inl e ↦ rw e (h, refl)
  | inr e ↦ rw e (
      let r = choose_lease-AllLeases ticks mac (i + 1) (pass_lease (ticks i) i yi l).0 ls h.1 in
      ((pass_lease-IsLease (ticks i) i yi l h.0, r.0), ap suc r.1))
]

request-eq-set :
    (now : ℕ) (mac : List ℕ) (yi : ℕ) (ls granted : List Lease)
    → request now mac yi ls ≡ some granted
    → set ls yi (record { mac = mac; expiry = expiry_from now }) ≡ granted
unfolding request
request-eq-set now mac yi ls granted e = elim (Option-cases (get_elem? ls yi)) [
  | inl f ↦ ground arith
  | inr (l, f) ↦ ground arith
]

expiry_from-lt : (now : ℕ) → expiry_from now < 2 ^ 16
unfolding expiry_from
expiry_from-lt now = omega arith

request-AllLeases :
    (now : ℕ) (mac : List ℕ) (yi : ℕ) (ls granted : List Lease)
    → length mac ≡ 6
    → AllLeases ls
    → request now mac yi ls ≡ some granted
    → AllLeases granted × (length granted ≡ length ls)
request-AllLeases now mac yi ls granted m h e =
    let l : Lease = record { mac = mac; expiry = expiry_from now } in
    let same = request-eq-set now mac yi ls granted e in
    (
      subst AllLeases same
          (set-AllLeases ls yi l h (record { mac_size = m; expiry_16 = expiry_from-lt now })),
      ap length (sym same) ∙ length-set ls yi l,
    )

length-make_reply :
    (d : Server) (msg : List ℕ) (type yi : ℕ)
    → IsValid d
    → length msg ≡ msg_size
    → length (make_reply d msg type yi) ≡ 274
length-make_reply d msg type yi h size =
    let b = (dhcps_base_ip + yi) % 256 in
    let named = set msg (yiaddr_at + 3) b in
    ap length (make_reply_lem d msg type yi size h.ip_size h.nm_size)
    ∙ simp length-append (
        omega (
          arith,
          h.ip_size,
          h.nm_size,
          length-take opt_at named,
          length-set msg (yiaddr_at + 3) b,
          size,
        ))

-- A message that is sent has 274 bytes.
abbrev pub ReplyFits : Reply → Type 0
ReplyFits ignored = Unit {0}
ReplyFits (sent m) = length m ≡ 274
ReplyFits undefined = Unit {0}

abbrev pub Keeps : Server × Reply → Type 0
Keeps r = IsValid r.0 × ReplyFits r.1

length-chaddr : (msg : List ℕ) → length msg ≡ msg_size → length (chaddr msg) ≡ 6
length-chaddr msg size = omega (arith, length-take 6 (drop 28 msg), length-drop 28 msg)

on_discover-Keeps :
    (d : Server) (ticks : ℕ → ℕ) (msg : List ℕ)
    → IsValid d
    → length msg ≡ msg_size
    → Keeps (on_discover d ticks msg)
unfolding on_discover discover
on_discover-Keeps d ticks msg h size = ground (
  arith,
  choose_lease-AllLeases ticks (chaddr msg) 0 dhcps_max_ip d.lease h.leases,
  length-make_reply d msg dhcpoffer (choose_lease ticks (chaddr msg) 0 dhcps_max_ip d.lease).0 h
      size,
)

on_address-Keeps :
    (d : Server) (now : ℕ) (msg address : List ℕ)
    → IsValid d
    → length msg ≡ msg_size
    → Keeps (on_address d now msg address)
unfolding on_address
on_address-Keeps d now msg address h size =
    elim (Option-cases (request now (chaddr msg) (lease_index address) d.lease)) [
      | inl e ↦ ground arith
      | inr (granted, e) ↦ ground (
        arith,
        request-AllLeases now (chaddr msg) (lease_index address) d.lease granted
            (length-chaddr msg size) h.leases e,
        length-make_reply d msg dhcpack (lease_index address) h size,
      )
    ]

on_requested-Keeps :
    (d : Server) (now : ℕ) (msg : List ℕ) (f : Find)
    → IsValid d
    → length msg ≡ msg_size
    → Keeps (on_requested d now msg f)
unfolding on_requested
on_requested-Keeps d now msg (found i) h size =
    elim (Bool-cases (leb (i + 6) (length (options_of msg)))) [
      | inl e ↦ rw e (on_address-Keeps d now msg (requested (options_of msg) i) h size)
      | inr e ↦ rw e (h, tt)
    ]
on_requested-Keeps d now msg f h size = (h, tt)

on_type-Keeps :
    (d : Server) (ticks : ℕ → ℕ) (msg : List ℕ) (type : ℕ)
    → IsValid d
    → length msg ≡ msg_size
    → Keeps (on_type d ticks msg type)
unfolding on_type on_request
on_type-Keeps d ticks msg type h size = elim (Bool-cases (type == dhcpdiscover)) [
  | inl e ↦ rw e (on_discover-Keeps d ticks msg h size)
  | inr e ↦ elim (Bool-cases (type == dhcprequest)) [
    | inl f ↦
        rw (e, f)
          (on_requested-Keeps d (ticks 0) msg (opt_find (options_of msg) opt_requested_ip) h size)
    | inr f ↦ rw (e, f) (h, tt)
  ]
]

on_typed-Keeps :
    (d : Server) (ticks : ℕ → ℕ) (msg : List ℕ) (f : Find)
    → IsValid d
    → length msg ≡ msg_size
    → Keeps (on_typed d ticks msg f)
unfolding on_typed
on_typed-Keeps d ticks msg (found i) h size =
    elim (Option-cases (get_elem? (options_of msg) (i + 2))) [
      | inl e ↦ ground arith
      | inr (type, e) ↦ ground (arith, on_type-Keeps d ticks msg type h size)
    ]
on_typed-Keeps d ticks msg f h size = (h, tt)

pub length-load_message :
    (payload stack : List ℕ)
    → length stack ≡ msg_size
    → length (load_message payload stack) ≡ msg_size
length-load_message payload stack size = omega (
  arith,
  length-append {0} (take msg_size payload) (drop (length payload) stack),
  length-take msg_size payload,
  length-drop (length payload) stack,
  size,
)

length-message :
    (d : Server) (payload stack : List ℕ)
    → length stack ≡ msg_size
    → length (prepare d (load_message payload stack)) ≡ msg_size
unfolding prepare
length-message d payload stack size =
    length-write (set (load_message payload stack) 0 dhcpoffer) yiaddr_at d.ip
    ∙ length-set (load_message payload stack) 0 dhcpoffer
    ∙ length-load_message payload stack size

-- Whatever datagram comes in, at whatever time: the server's state stays valid, and a reply, if
-- one is sent, has 274 bytes.
pub dhcp_server_process-Keeps :
    (d : Server) (ticks : ℕ → ℕ) (stack payload : List ℕ)
    → IsValid d
    → length stack ≡ msg_size
    → Keeps (dhcp_server_process d ticks stack payload)
unfolding dhcp_server_process on_message
dhcp_server_process-Keeps d ticks stack payload h size =
    let msg = prepare d (load_message payload stack) in
    ground (
      arith,
      on_typed-Keeps d ticks msg (opt_find (options_of msg) opt_msg_type) h
          (length-message d payload stack size),
    )
