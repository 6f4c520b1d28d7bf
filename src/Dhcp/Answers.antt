-- ===== src/Dhcp/Answers.antt =====
-- dhcpserver.c: every reply to a datagram, byte for byte, and the lease that it names.
use mathlib.Core.Path.{subst}
use robotic_car_p3e.Prelude.{
  write, write-split, ℕ, zero, suc, ◌+◌, ◌%◌, ◌≤◌, ◌<◌, ◌≡◌, ◌⊎◌, inl, inr, refl, sym, ap, ◌∙◌,
  true, some, List, [], ◌∷◌, ◌++◌, arith, length, set, take, drop, get_elem?, leb, ◌==◌, Bool-cases,
  Option-cases, length-take, eq_bytes_refl, eq_bytes, length-write, length-set, ltb,
}
use robotic_car_p3e.Dhcp.Options.{
  Find, found, opt_find, opt_msg_type, opt_requested_ip, dhcpoffer, dhcpack, dhcpdiscover,
  dhcprequest,
}
use robotic_car_p3e.Dhcp.Leases.{
  Lease, choose_lease, discover, request, grantable, expiry_from, dhcps_max_ip, dhcps_base_ip,
}
use robotic_car_p3e.Dhcp.Search.{encode}
use robotic_car_p3e.Dhcp.Reply.{make_reply_lem, reply_options}
use robotic_car_p3e.Dhcp.Holding.{choose_lease-Chosen, request-granted}
use robotic_car_p3e.Dhcp.Invariant.{length-load_message}
use robotic_car_p3e.Dhcp.Server.{
  Server, Reply, ignored, sent, undefined, msg_size, load_message, prepare, options_of, chaddr,
  make_reply, on_discover, on_address, on_request, on_requested, on_typed, on_type, on_message,
  dhcp_server_process, requested, lease_index, yiaddr_at, opt_at, dhcp_min_size,
}

-- The first 240 bytes of a reply: the client's own, but for the first, and for the address, which is
-- the server's with another last byte.
abbrev pub header : Server → List ℕ → ℕ → List ℕ
header d query yi =
    dhcpoffer
    ∷ (take 15 (drop 1 query)
        ++ (take 3 d.ip ++ ((dhcps_base_ip + yi) % 256 ∷ take 220 (drop 20 query))))

abbrev pub reply_bytes : Server → List ℕ → ℕ → ℕ → List ℕ
reply_bytes d query type yi = header d query yi ++ encode (reply_options d type)

set-past :
    (p rest : List ℕ) (n i v : ℕ) → n ≡ length p + i → set (p ++ rest) n v ≡ p ++ set rest i v
set-past [] rest n i v h = ap (λ k. set rest k v) (omega (arith, h))
set-past (x ∷ p) rest zero i v h = absurd (omega arith)
set-past (x ∷ p) rest (suc n) i v h = ap (λ r. x ∷ r) (set-past p rest n i v (omega arith))

take-beyond : (p rest : List ℕ) (n i : ℕ) → n ≡ length p + i → take n (p ++ rest) ≡ p ++ take i rest
take-beyond [] rest n i h = ap (λ k. take k rest) (omega (arith, h))
take-beyond (x ∷ p) rest zero i h = absurd (omega arith)
take-beyond (x ∷ p) rest (suc n) i h = ap (λ r. x ∷ r) (take-beyond p rest n i (omega arith))

drop-set : (xs : List ℕ) (i n v : ℕ) → i < n → drop n (set xs i v) ≡ drop n xs
drop-set [] i n v h = refl
drop-set (x ∷ xs) i zero v h = absurd (omega arith)
drop-set (x ∷ xs) zero (suc n) v h = refl
drop-set (x ∷ xs) (suc i) (suc n) v h = drop-set xs i n v (omega arith)

drop-write : (bs xs : List ℕ) (k n : ℕ) → k + length bs ≤ n → drop n (write xs k bs) ≡ drop n xs
drop-write [] xs k n h = refl
drop-write (b ∷ bs) xs k n h =
    drop-write bs (set xs k b) (k + 1) n (omega arith) ∙ drop-set xs k n b (omega arith)

-- A write of four bytes, and of another last one.
patched :
    (x b : ℕ) (q ip : List ℕ)
    → length q ≡ 547
    → length ip ≡ 4
    → take 240 (set (write (x ∷ q) 16 ip) 19 b)
      ≡ x ∷ (take 15 q ++ (take 3 ip ++ (b ∷ take 220 (drop 19 q))))
patched x b q [] size four = absurd (omega arith)
patched x b q (i ∷ []) size four = absurd (omega arith)
patched x b q (i ∷ j ∷ []) size four = absurd (omega arith)
patched x b q (i ∷ j ∷ k ∷ []) size four = absurd (omega arith)
patched x b q (i ∷ j ∷ k ∷ l ∷ m ∷ ip) size four = absurd (omega arith)
patched x b q (i ∷ j ∷ k ∷ l ∷ []) size four =
    let ip = i ∷ j ∷ k ∷ l ∷ [] in
    let front = take 16 (x ∷ q) in
    let long : length front ≡ 16 = omega (arith, length-take 15 q) in
    ap (λ w. take 240 (set w 19 b)) (write-split (x ∷ q) 16 ip (omega arith))
    ∙ ap (take 240) (set-past front (ip ++ drop 20 (x ∷ q)) 19 3 b (omega (arith, long)))
    ∙ take-beyond front (set (ip ++ drop 20 (x ∷ q)) 3 b) 240 224 (omega (arith, long))

-- What the code makes of the client's message before the options.
make_header :
    (d : Server) (query : List ℕ) (yi : ℕ)
    → length query ≡ msg_size
    → length d.ip ≡ 4
    → take opt_at (set (prepare d query) (yiaddr_at + 3) ((dhcps_base_ip + yi) % 256))
      ≡ header d query yi
unfolding prepare
make_header d [] yi size four = absurd (omega arith)
make_header d (x ∷ query) yi size four =
    patched dhcpoffer ((dhcps_base_ip + yi) % 256) query d.ip (omega arith) four

chaddr-prepare :
    (d : Server) (query : List ℕ) → length d.ip ≡ 4 → chaddr (prepare d query) ≡ chaddr query
unfolding prepare
chaddr-prepare d query four = ap (take 6) (
    drop-write d.ip (set query 0 dhcpoffer) 16 28 (omega arith)
    ∙ drop-set query 0 28 dhcpoffer (omega arith))

-- A reply offers or acknowledges an address of the table, whose lease in the new table is the
-- client's own or free.
pub record Names (d : Server) (query : List ℕ) (leases : List Lease) (reply : List ℕ) : Type 0 where
  pub type : ℕ
  pub yi : ℕ
  pub kind : (type ≡ dhcpoffer) ⊎ (type ≡ dhcpack)
  pub lease : Lease
  pub there : get_elem? leases yi ≡ some lease
  pub free : grantable (chaddr query) lease ≡ true
  pub bytes : reply ≡ reply_bytes d query type yi

abbrev pub Answers : Server → List ℕ → Server × Reply → Type 0
Answers d query (d', ignored) = Unit {0}
Answers d query (d', sent reply) = Names d query d'.lease reply
Answers d query (d', undefined) = Unit {0}

module _ (d : Server) (query : List ℕ) (size : length query ≡ msg_size) (ip : length d.ip ≡ 4)
    (nm : length d.nm ≡ 4) where
  prepared : length (prepare d query) ≡ msg_size
  unfolding prepare
  prepared =
      length-write (set query 0 dhcpoffer) yiaddr_at d.ip ∙ length-set query 0 dhcpoffer ∙ size

  made : (type yi : ℕ) → make_reply d (prepare d query) type yi ≡ reply_bytes d query type yi
  made type yi =
      make_reply_lem d (prepare d query) type yi prepared ip nm
      ∙ ap (λ h. h ++ encode (reply_options d type)) (make_header d query yi size ip)

  on_discover-Answers : (ticks : ℕ → ℕ) → Answers d query (on_discover d ticks (prepare d query))
  unfolding on_discover discover
  on_discover-Answers ticks =
      let msg = prepare d query in
      let mac = chaddr msg in
      let r = choose_lease ticks mac 0 dhcps_max_ip d.lease in
      elim (Bool-cases (r.0 == dhcps_max_ip)) [
        | inl e ↦ rw (e, Answers) tt
        | inr e ↦
            let offered : Server × Reply =
              (record d { lease = r.1 }, sent (make_reply d msg dhcpoffer r.0)) in
            let same : offered ≡ on_discover d ticks msg = rw (e, on_discover) refl in
            subst (Answers d query) same
              (elim (choose_lease-Chosen ticks mac 0 dhcps_max_ip d.lease) [
                | inl none_free ↦ absurd (ground arith)
                | inr (j, l, at, there, free) ↦
                    let here : get_elem? r.1 r.0 ≡ some l =
                      ap (get_elem? r.1) (at ∙ omega arith) ∙ there in
                    record {
                      type = dhcpoffer;
                      yi = r.0;
                      kind = inl refl;
                      lease = l;
                      there = here;
                      free = ap (λ m. grantable m l) (sym (chaddr-prepare d query ip)) ∙ free;
                      bytes = made dhcpoffer r.0;
                    }
              ])
      ]

  on_address-Answers :
      (now : ℕ) (address : List ℕ) → Answers d query (on_address d now (prepare d query) address)
  unfolding on_address
  on_address-Answers now address =
      let msg = prepare d query in
      let mac = chaddr msg in
      let yi = lease_index address in
      elim (Bool-cases (eq_bytes (take 3 address) (take 3 d.ip))) [
        | inr e ↦ rw (e, Answers) tt
        | inl e ↦ elim (Bool-cases (ltb yi dhcps_max_ip)) [
          | inr f ↦ rw (e, f, Answers) tt
          | inl f ↦ elim (Option-cases (request now mac yi d.lease)) [
            | inl g ↦ rw (e, f, g, Answers) tt
            | inr (granted, g) ↦
                let acknowledged : Server × Reply =
                  (record d { lease = granted }, sent (make_reply d msg dhcpack yi)) in
                let same : acknowledged ≡ on_address d now msg address = rw (e, f, g) refl in
                let own : grantable (chaddr query) (record { mac = mac; expiry = expiry_from now })
                    ≡ true =
                  rw (ap (eq_bytes mac) (sym (chaddr-prepare d query ip)) ∙ eq_bytes_refl mac)
                    refl in
                subst (Answers d query) same (record {
                  type = dhcpack;
                  yi = yi;
                  kind = inr refl;
                  lease = record { mac = mac; expiry = expiry_from now };
                  there = request-granted now mac yi d.lease granted g;
                  free = own;
                  bytes = made dhcpack yi;
                })
          ]
        ]
      ]

  on_requested-Answers :
      (now : ℕ) (f : Find) → Answers d query (on_requested d now (prepare d query) f)
  unfolding on_requested
  on_requested-Answers now (found i) =
      let opts = options_of (prepare d query) in
      elim (Bool-cases (leb (i + 6) (length opts))) [
        | inl e ↦ rw e (on_address-Answers now (requested opts i))
        | inr e ↦ rw e tt
      ]
  on_requested-Answers now f = tt

  on_type-Answers :
      (ticks : ℕ → ℕ) (type : ℕ) → Answers d query (on_type d ticks (prepare d query) type)
  unfolding on_type on_request
  on_type-Answers ticks type =
      let opts = options_of (prepare d query) in
      elim (Bool-cases (type == dhcpdiscover)) [
        | inl e ↦ rw e (on_discover-Answers ticks)
        | inr e ↦ elim (Bool-cases (type == dhcprequest)) [
          | inl f ↦ rw (e, f) (on_requested-Answers (ticks 0) (opt_find opts opt_requested_ip))
          | inr f ↦ rw (e, f) tt
        ]
      ]

  on_typed-Answers :
      (ticks : ℕ → ℕ) (f : Find) → Answers d query (on_typed d ticks (prepare d query) f)
  unfolding on_typed
  on_typed-Answers ticks (found i) =
      elim (Option-cases (get_elem? (options_of (prepare d query)) (i + 2))) [
        | inl e ↦ rw (e, Answers) tt
        | inr (type, e) ↦
            let same : on_type d ticks (prepare d query) type
                ≡ on_typed d ticks (prepare d query) (found i) =
              rw (e, on_typed) refl in
            subst (Answers d query) same (on_type-Answers ticks type)
      ]
  on_typed-Answers ticks f = tt

-- Whatever datagram comes in, at whatever time: a reply, if one is sent, offers or acknowledges an
-- address whose lease in the new table is the client's own or free, and its bytes are the client's
-- message up to the options, but for the first byte, which is 2, and for the address of the lease on
-- the server's network, and behind it the options of the reply, properly encoded: the message type,
-- this server as identifier, router and DNS server, the network mask, and a lease time of 86400
-- seconds. The case that C leaves undefined, a search that runs out of the message, is left out.
pub dhcp_server_process-Answers :
    (d : Server) (ticks : ℕ → ℕ) (stack payload : List ℕ)
    → length stack ≡ msg_size
    → length d.ip ≡ 4
    → length d.nm ≡ 4
    → Answers d (load_message payload stack) (dhcp_server_process d ticks stack payload)
unfolding dhcp_server_process on_message
dhcp_server_process-Answers d ticks stack payload size ip nm =
    let query = load_message payload stack in
    elim (Bool-cases (ltb (length payload) dhcp_min_size)) [
      | inl e ↦ rw e tt
      | inr e ↦ rw e (
          on_typed-Answers d query (length-load_message payload stack size) ip nm ticks
            (opt_find (options_of (prepare d query)) opt_msg_type))
    ]

pub sent-Names :
    (d : Server) (query reply : List ℕ) (r : Server × Reply)
    → Answers d query r
    → r.1 ≡ sent reply
    → Names d query r.0.lease reply
sent-Names d query reply (d', ignored) h e = cc
sent-Names d query reply (d', sent m) h e =
    let same : m ≡ reply = cc in subst (Names d query d'.lease) same h
sent-Names d query reply (d', undefined) h e = cc
