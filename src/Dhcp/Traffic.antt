-- ===== src/Dhcp/Traffic.antt =====
-- dhcpserver.c: the leases through any messages of other clients.
use robotic_car_p3e.Prelude.{
  ℕ, suc, zero, ◌+◌, ◌%◌, ◌^◌, ◌≤◌, ◌<◌, ◌≡◌, ◌≢◌, refl, sym, ap, ◌∙◌, false, Option, none, some,
  List, [], ◌∷◌, arith, eq_bytes, eq_bytes_ne, get_elem?, set, Option-cases, inl, inr,
}
use robotic_car_p3e.Dhcp.Leases.{
  Lease, no_mac, lease_ms, is_expired, expiry_from, discover, request, dhcps_max_ip,
}
use robotic_car_p3e.Dhcp.Holding.{
  is_expired-expiry_from, choose_lease_keeps, request-granted, request-held,
}

-- What a client asks for: any address, with the clock as it is read for each lease; or the address of
-- a lease, at a time.
pub data Message : Type 0 where
  discovers : List ℕ → (ℕ → ℕ) → Message
  requests : List ℕ → ℕ → ℕ → Message

abbrev or_else : List Lease → Option (List Lease) → List Lease
or_else leases none = leases
or_else leases (some granted) = granted

abbrev index_if : ℕ → Option (List Lease) → Option ℕ
index_if yi none = none
index_if yi (some granted) = some yi

-- The table behind a message, and the index that it is answered with, if any.
unfoldable pub handle : Message → List Lease → List Lease
unfolding discover request
handle (discovers mac ticks) leases = (discover ticks mac leases).1
handle (requests mac yi now) leases = or_else leases (request now mac yi leases)

unfoldable pub answered : Message → List Lease → Option ℕ
unfolding discover request
answered (discovers mac ticks) leases = (discover ticks mac leases).0
answered (requests mac yi now) leases = index_if yi (request now mac yi leases)

unfoldable pub handle_all : List Message → List Lease → List Lease
unfolding handle
handle_all [] leases = leases
handle_all (m ∷ ms) leases = handle_all ms (handle m leases)

-- A message of another client than the given one, whose discovers come within 24 hours of the time.
abbrev pub Foreign : List ℕ → ℕ → Message → Type 0
Foreign mac now (discovers other ticks) =
    (mac ≢ other)
    × ((k : ℕ) → (passed : ℕ) × (passed ≤ lease_ms) × (ticks k ≡ (now + passed) % 2 ^ 32))
Foreign mac now (requests other yi later) = mac ≢ other

abbrev pub AllForeign : List ℕ → ℕ → List Message → Type 0
AllForeign mac now [] = Unit {0}
AllForeign mac now (m ∷ ms) = Foreign mac now m × AllForeign mac now ms

get_elem?-set_ne :
    (ls : List Lease) (i j : ℕ) (l : Lease) → i ≢ j → get_elem? (set ls i l) j ≡ get_elem? ls j
get_elem?-set_ne [] i j l ne = refl
get_elem?-set_ne (m ∷ ls) zero zero l ne = absurd (ne refl)
get_elem?-set_ne (m ∷ ls) zero (suc j) l ne = refl
get_elem?-set_ne (m ∷ ls) (suc i) zero l ne = refl
get_elem?-set_ne (m ∷ ls) (suc i) (suc j) l ne = get_elem?-set_ne ls i j l (λ e. ne (ap suc e))

request-set :
    (now : ℕ) (mac : List ℕ) (i : ℕ) (leases granted : List Lease)
    → request now mac i leases ≡ some granted
    → granted ≡ set leases i (record { mac = mac; expiry = expiry_from now })
unfolding request
request-set now mac i leases granted h = elim (Option-cases (get_elem? leases i)) [
  | inl e ↦ ground arith
  | inr (l, e) ↦ ground arith
]

-- A request of another client leaves the lease as it is, for whatever address it asks.
request_keeps :
    (now : ℕ) (mac : List ℕ) (i yi : ℕ) (leases : List Lease) (l : Lease)
    → get_elem? leases yi ≡ some l
    → eq_bytes l.mac mac ≡ false
    → eq_bytes l.mac no_mac ≡ false
    → (get_elem? (or_else leases (request now mac i leases)) yi ≡ some l)
      × (index_if i (request now mac i leases) ≢ some yi)
request_keeps now mac i yi leases l at other held = elim (Option-cases (request now mac i leases)) [
  | inl e ↦ rw e (at, λ f. cc)
  | inr (granted, e) ↦
      let ne : i ≢ yi =
        λ same. cc (request-held now mac i leases l (ap (get_elem? leases) same ∙ at) other held) in
      rw e (
        ap (λ ls. get_elem? ls yi) (request-set now mac i leases granted e)
            ∙ get_elem?-set_ne leases i yi _ ne
            ∙ at,
        λ f. ne (cc),
      )
]

module _ (now : ℕ) (mac : List ℕ) (small : now < 2 ^ 32) (client : mac ≢ no_mac) where
  abbrev held : Lease
  held = record { mac = mac; expiry = expiry_from now }

  not_expired :
      (ticks : ℕ → ℕ)
      → ((k : ℕ) → (passed : ℕ) × (passed ≤ lease_ms) × (ticks k ≡ (now + passed) % 2 ^ 32))
      → (k : ℕ) → is_expired held (ticks k) ≡ false
  not_expired ticks soon k =
      let (passed, early, at) = soon k in
      ap (is_expired held) at ∙ is_expired-expiry_from mac now passed small early

  Foreign-handle :
      (m : Message) (yi : ℕ) (leases : List Lease)
      → Foreign mac now m
      → get_elem? leases yi ≡ some held
      → (get_elem? (handle m leases) yi ≡ some held) × (answered m leases ≢ some yi)
  unfolding handle answered discover
  Foreign-handle (discovers other ticks) yi leases (ne, soon) at =
      let (kept, chosen) =
        choose_lease_keeps ticks other 0 dhcps_max_ip yi leases held at (eq_bytes_ne mac other ne)
          (eq_bytes_ne mac no_mac client) (not_expired ticks soon) in
      (kept, λ e. ground (arith, chosen))
  Foreign-handle (requests other i later) yi leases ne at =
      request_keeps later other i yi leases held at (eq_bytes_ne mac other ne)
        (eq_bytes_ne mac no_mac client)

  AllForeign-handle_all :
      (ms : List Message) (yi : ℕ) (leases : List Lease)
      → AllForeign mac now ms
      → get_elem? leases yi ≡ some held
      → get_elem? (handle_all ms leases) yi ≡ some held
  unfolding handle_all
  AllForeign-handle_all [] yi leases h at = at
  AllForeign-handle_all (m ∷ ms) yi leases (f, fs) at =
      AllForeign-handle_all ms yi (handle m leases) fs (Foreign-handle m yi leases f at).0

-- Once an address is granted to a client whose hardware address is not all zero, and for 24 hours,
-- other clients do not get it: whatever discovers and requests of theirs come, in any order and
-- number, the lease stays as it was granted, and no further one is answered with it.
pub granted_is_held :
    (now : ℕ) (mac : List ℕ) (yi : ℕ) (leases granted : List Lease) (ms : List Message)
    (m : Message)
    → request now mac yi leases ≡ some granted
    → now < 2 ^ 32
    → mac ≢ no_mac
    → AllForeign mac now ms
    → Foreign mac now m
    → (get_elem? (handle_all ms granted) yi ≡ get_elem? granted yi)
      × (answered m (handle_all ms granted) ≢ some yi)
granted_is_held now mac yi leases granted ms m ok small client foreign next =
    let at = request-granted now mac yi leases granted ok in
    let kept = AllForeign-handle_all now mac small client ms yi granted foreign at in
    (kept ∙ sym at, (Foreign-handle now mac small client m yi (handle_all ms granted) next kept).1)
