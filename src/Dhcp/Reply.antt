-- ===== src/Dhcp/Reply.antt =====
-- dhcpserver.c: the message that the server sends back, as options that a client can read.
use mathlib.Core.List.{append_assoc}
use robotic_car_p3e.Prelude.{
  write, length-write, take-write, ℕ, ◌+◌, ◌%◌, ◌≤◌, ◌≡◌, refl, ap, ap₂, ◌∙◌, List, [], ◌∷◌, ◌++◌,
  arith, length, set, length-set, take,
}
use robotic_car_p3e.Dhcp.Options.{
  Cursor, opt_write_n, opt_write_u8, opt_write_u32, put_byte, opt_subnet_mask, opt_router, opt_dns,
  opt_ip_lease_time, opt_msg_type, opt_server_id, opt_end,
}
use robotic_car_p3e.Dhcp.Leases.{dhcps_base_ip, default_lease_time_s}
use robotic_car_p3e.Dhcp.Search.{encode, Opt}
use robotic_car_p3e.Dhcp.Server.{Server, finish_reply, make_reply, yiaddr_at, opt_at, msg_size}

-- A cursor at position `n` of a message buffer, with the given bytes before it.
record Wrote (before : List ℕ) (n : ℕ) (c : Cursor) : Type 0 where
  bytes : take n c.buf ≡ before
  here : c.at ≡ n
  size : length c.buf ≡ msg_size

-- Any write of a list at the cursor.
write-Wrote :
    (before bs : List ℕ) (n m : ℕ) (c d : Cursor)
    → Wrote before n c
    → d.buf ≡ write c.buf c.at bs
    → d.at ≡ m
    → m ≡ n + length bs
    → m ≤ msg_size
    → Wrote (before ++ bs) m d
write-Wrote before bs n m c d w same at next room = record {
  bytes =
      ap₂ take next (same ∙ ap (λ k. write c.buf k bs) w.here)
      ∙ take-write c.buf n bs (omega (arith, w.size))
      ∙ ap (λ r. r ++ bs) w.bytes;
  here = at;
  size = ap length same ∙ length-write c.buf c.at bs ∙ w.size;
}

opt_write_n-Wrote :
    (before bs : List ℕ) (n cmd : ℕ) (c : Cursor)
    → Wrote before n c
    → length bs ≡ 4
    → n + 6 ≤ msg_size
    → Wrote (before ++ cmd ∷ 4 ∷ bs) (n + 6) (opt_write_n cmd bs c)
unfolding opt_write_n
opt_write_n-Wrote before bs n cmd c w four room =
    write-Wrote before (cmd ∷ 4 ∷ bs) n (n + 6) c (opt_write_n cmd bs c) w
      (ap (λ k. write c.buf c.at (cmd ∷ k % 256 ∷ bs)) four) (omega (arith, w.here)) (omega arith)
      room

-- What the options of a reply say, as a list of options.
abbrev pub reply_options : Server → ℕ → List Opt
reply_options d type =
    (opt_msg_type, type ∷ [])
    ∷ (opt_server_id, d.ip)
    ∷ (opt_subnet_mask, d.nm)
    ∷ (opt_router, d.ip)
    ∷ (opt_dns, d.ip)
    ∷ (opt_ip_lease_time, 0 ∷ 1 ∷ 81 ∷ 128 ∷ [])
    ∷ []

-- A reply is the client's own message up to the options, with the address of the lease written
-- into it, and behind it the options of the reply, properly encoded: the message type, this server
-- as identifier, router and DNS server, the network mask, and a lease time of 86400 seconds.
pub make_reply_lem :
    (d : Server) (msg : List ℕ) (type yi : ℕ)
    → length msg ≡ msg_size
    → length d.ip ≡ 4
    → length d.nm ≡ 4
    → make_reply d msg type yi
      ≡ take opt_at (set msg (yiaddr_at + 3) ((dhcps_base_ip + yi) % 256))
        ++ encode (reply_options d type)
unfolding make_reply finish_reply opt_write_u8 opt_write_u32 put_byte
make_reply_lem d msg type yi size ip nm = ap (λ k. take k c7.buf) w7.here ∙ w7.bytes ∙ regroup
  where
    named : List ℕ
    named = set msg (yiaddr_at + 3) ((dhcps_base_ip + yi) % 256)

    c0 : Cursor
    c0 = record { buf = named; at = opt_at }

    w0 : Wrote (take opt_at named) 240 c0
    w0 = record {
      bytes = refl;
      here = refl;
      size = length-set msg 19 ((dhcps_base_ip + yi) % 256) ∙ size;
    }

    c1 : Cursor
    c1 = opt_write_u8 opt_msg_type type c0

    w1 : Wrote (take opt_at named ++ opt_msg_type ∷ 1 ∷ type ∷ []) 243 c1
    w1 = write-Wrote _ (opt_msg_type ∷ 1 ∷ type ∷ []) 240 243 c0 c1 w0 refl refl refl (omega arith)

    c5 : Cursor
    c5 = opt_write_n opt_dns d.ip (
        opt_write_n opt_router d.ip
          (opt_write_n opt_subnet_mask d.nm (opt_write_n opt_server_id d.ip c1)))

    p5 : List ℕ
    p5 =
        ((((take opt_at named ++ opt_msg_type ∷ 1 ∷ type ∷ []) ++ opt_server_id ∷ 4 ∷ d.ip)
            ++ opt_subnet_mask ∷ 4 ∷ d.nm)
          ++ opt_router ∷ 4 ∷ d.ip)
        ++ opt_dns ∷ 4 ∷ d.ip

    p6 : List ℕ
    p6 = p5 ++ opt_ip_lease_time ∷ 4 ∷ 0 ∷ 1 ∷ 81 ∷ 128 ∷ []

    p7 : List ℕ
    p7 = p6 ++ opt_end ∷ []

    w5 : Wrote p5 267 c5
    w5 =
        opt_write_n-Wrote _ d.ip 261 opt_dns _
          (opt_write_n-Wrote _ d.ip 255 opt_router _
            (opt_write_n-Wrote _ d.nm 249 opt_subnet_mask _
              (opt_write_n-Wrote _ d.ip 243 opt_server_id c1 w1 ip (omega arith)) nm (omega arith))
            ip (omega arith))
          ip (omega arith)

    c6 : Cursor
    c6 = opt_write_u32 opt_ip_lease_time default_lease_time_s c5

    c7 : Cursor
    c7 = put_byte opt_end c6

    w6 : Wrote p6 273 c6
    w6 =
        write-Wrote _ (opt_ip_lease_time ∷ 4 ∷ 0 ∷ 1 ∷ 81 ∷ 128 ∷ []) 267 273 c5 c6 w5 refl
          (ap (λ k. k + 6) w5.here) refl (omega arith)

    w7 : Wrote p7 274 c7
    w7 =
        write-Wrote _ (opt_end ∷ []) 273 274 c6 c7 w6 refl (ap (λ k. k + 1) w6.here) refl
          (omega arith)

    regroup : p7 ≡ take opt_at named ++ encode (reply_options d type)
    regroup = simp (ip, nm, append_assoc)
