-- ===== src/Dhcp/Tests.antt =====
-- Options, leases and messages of the DHCP server.
use robotic_car_p3e.Prelude.{
  ℕ, ◌+◌, ◌%◌, ◌^◌, ◌≤◌, ◌≡◌, ◌≢◌, refl, true, pos, some, List, [], ◌∷◌, ◌++◌, arith, get_elem?,
  replicate, set,
}
use robotic_car_p3e.Dhcp.Options.{
  found, find_at, opt_find, opt_write_n, opt_write_u8, opt_write_u32, put_byte, dhcpoffer,
}
use robotic_car_p3e.Dhcp.Leases.{
  lease_ms, Lease, no_leases, no_mac, discover, request, choose_lease, pass_lease, is_expired,
  expiry_from,
}
use robotic_car_p3e.Dhcp.Server.{
  Server, dhcp_server_process, dhcp_server_init, on_message, on_typed, on_type, on_discover,
  on_request, on_requested, on_address, prepare, make_reply, finish_reply, sent, load_message,
}
use robotic_car_p3e.Dhcp.Search.{encode, opt_find-encode}
use robotic_car_p3e.Dhcp.Holding.{discover-request}
use robotic_car_p3e.Dhcp.Traffic.{
  Message, discovers, requests, Foreign, handle_all, answered, granted_is_held,
}
use robotic_car_p3e.Dhcp.Answers.{reply_bytes, Answers, dhcp_server_process-Answers}
use robotic_car_p3e.Dhcp.Sockets.{send_reply}
use robotic_car_p3e.Dhcp.Broadcast.{Serves, dhcp_server_process-Serves}
use robotic_car_p3e.Dhcp.Invariant.{IsValid, IsLease}

-- The definitions that a run computes with.
runs : ℕ
unfolding find_at opt_find opt_write_n opt_write_u8 opt_write_u32 put_byte discover request
    choose_lease pass_lease is_expired expiry_from dhcp_server_process dhcp_server_init on_message
    on_typed on_type on_discover on_request on_requested on_address prepare make_reply finish_reply
runs = 0

-- A request's type and address, behind each other, and an option that is none of the server's.
abbrev options : List (ℕ × List ℕ)
options = (53, 3 ∷ []) ∷ (61, 1 ∷ 2 ∷ []) ∷ (50, 192 ∷ 168 ∷ 4 ∷ 17 ∷ []) ∷ []

abbrev area : List ℕ
area = encode options ++ replicate 293 0

find_example : opt_find area 50 ≡ found 7
find_example =
    opt_find-encode options (replicate 293 0) 50
      (
        (λ e. absurd (omega arith)),
        ((λ e. absurd (omega arith)), ((λ e. absurd (omega arith)), tt)),
      )
      (omega arith)

-- 51 options of six bytes and two bytes that begin no whole option.
abbrev full : List ℕ
full = 1 ∷ 255 ∷ replicate 255 0 ++ (1 ∷ 48 ∷ replicate 48 0 ++ 9 ∷ [])

abbrev ann : List ℕ
ann = 1 ∷ 2 ∷ 3 ∷ 4 ∷ 5 ∷ 6 ∷ []

abbrev bob : List ℕ
bob = 6 ∷ 5 ∷ 4 ∷ 3 ∷ 2 ∷ 1 ∷ []

-- The table after Ann was granted the first address.
abbrev table : List Lease
table = set no_leases 0 (record { mac = ann; expiry = expiry_from 5000 })

handshake_example :
    (granted : List Lease) × (request 5000 ann 0 (discover (λ k. 4000) ann no_leases).1
      ≡ some granted)
unfolding runs
handshake_example = discover-request (λ k. 4000) 5000 ann no_leases 0 refl

ann-no_mac : ann ≢ no_mac
ann-no_mac e = ground arith

ann-bob : ann ≢ bob
ann-bob e = ground arith

minute : 60000 ≤ lease_ms
minute = omega arith

-- Two discovers of Bob's and a request for Ann's address, within a minute of the grant.
abbrev traffic : List Message
traffic =
    discovers bob (λ k. (5000 + 60000) % 2 ^ 32)
    ∷ requests bob 0 (65000)
    ∷ discovers bob (λ k. (5000 + 60000) % 2 ^ 32)
    ∷ []

bob-Foreign : Foreign ann 5000 (discovers bob (λ k. (5000 + 60000) % 2 ^ 32))
bob-Foreign = (ann-bob, λ k. (60000, minute, refl))

held_example :
    (get_elem? (handle_all traffic table) 0 ≡ get_elem? table 0)
    × ((answered (requests bob 0 70000) (handle_all traffic table)) ≢ some 0)
unfolding runs
held_example =
    granted_is_held 5000 ann 0 no_leases table traffic (requests bob 0 70000) refl (omega arith)
      ann-no_mac (bob-Foreign, (ann-bob, (bob-Foreign, tt))) ann-bob

abbrev ip : List ℕ
ip = 192 ∷ 168 ∷ 4 ∷ 1 ∷ []

abbrev nm : List ℕ
nm = 255 ∷ 255 ∷ 255 ∷ 0 ∷ []

abbrev server : Server
server = record { ip = ip; nm = nm; lease = no_leases; udp = some 1 }

free-IsLease : IsLease (record { mac = no_mac; expiry = 0 })
free-IsLease = record { mac_size = refl; expiry_16 = omega arith }

server-IsValid : IsValid server
server-IsValid = record {
  ip_size = refl;
  nm_size = refl;
  table_size = refl;
  leases = (
    free-IsLease,
    (
      free-IsLease,
      (
        free-IsLease,
        (free-IsLease, (free-IsLease, (free-IsLease, (free-IsLease, (free-IsLease, tt))))),
      ),
    ),
  );
}

abbrev zeros : List ℕ
zeros = replicate 548 0

-- A discover of Ann's.
abbrev discover_message : List ℕ
discover_message = replicate 28 0 ++ (ann ++ (replicate 206 0 ++ encode ((53, 1 ∷ []) ∷ [])))

answers_example :
    Answers server
      (load_message discover_message zeros)
      (dhcp_server_process server (λ k. 5000) zeros discover_message)
answers_example =
    dhcp_server_process-Answers server (λ k. 5000) zeros discover_message refl refl refl

-- The discover is answered, with an offer of the first address.
offered_first :
    (dhcp_server_process server (λ k. 5000) zeros discover_message).1
    ≡ sent (reply_bytes server (load_message discover_message zeros) dhcpoffer 0)
unfolding runs
offered_first = refl

broadcast_example :
    let reply = (dhcp_server_process server (λ k. 5000) zeros discover_message).1 in
    Serves true (some 1) reply (send_reply true (pos 0) (some 1) reply)
broadcast_example =
    dhcp_server_process-Serves server (λ k. 5000) zeros discover_message true (pos 0) (some 1)
      server-IsValid refl
