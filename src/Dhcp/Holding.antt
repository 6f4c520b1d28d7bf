-- ===== src/Dhcp/Holding.antt =====
-- dhcpserver.c: a granted address stays with its client, and an offered one is granted.
use robotic_car_p3e.Prelude.{
  ℕ, zero, suc, ◌+◌, ◌%◌, ◌^◌, ◌≤◌, ◌<◌, ◌≡◌, ◌⊎◌, inl, inr, refl, ap, ◌∙◌, true, false, Option,
  none, some, List, [], ◌∷◌, arith, if◌then◌else◌, eq_bytes, eq_bytes_refl, get_elem?, set, length,
  Bool-cases, Option-cases, get_elem?-set,
}
use robotic_car_p3e.Dhcp.Leases.{
  Lease, no_mac, lease_ms, is_expired, expiry_from, pass_lease, choose_lease, discover, grantable,
  request, dhcps_max_ip,
}

-- A lease granted at time `t` is not taken for expired at any time up to 24 hours later, also
-- where the 32-bit clock wraps in between.
pub is_expired-expiry_from :
    (mac : List ℕ) (t d : ℕ)
    → t < 2 ^ 32
    → d ≤ lease_ms
    → is_expired (record { mac = mac; expiry = expiry_from t }) ((t + d) % 2 ^ 32) ≡ false
unfolding is_expired expiry_from
is_expired-expiry_from mac t d h k = ground arith

pass_lease_free :
    (mac : List ℕ) (ticks i yi : ℕ) (l : Lease)
    → let (yi', l') = pass_lease ticks i yi l in
      (yi' ≡ yi) ⊎ ((yi' ≡ i) × (grantable mac l' ≡ true))
unfolding pass_lease
pass_lease_free mac ticks i yi l = ground (arith, eq_bytes_refl no_mac)

-- The index chosen is the one found before, or that of a lease of the new table that may be granted.
abbrev pub Chosen : List ℕ → ℕ → ℕ → ℕ × List Lease → Type 0
Chosen mac i yi r =
    (r.0 ≡ yi)
    ⊎ ((j : ℕ) × (l : Lease) × (r.0 ≡ i + j)
        × (get_elem? r.1 j ≡ some l)
        × (grantable mac l ≡ true))

pub choose_lease-Chosen :
    (ticks : ℕ → ℕ) (mac : List ℕ) (i yi : ℕ) (ls : List Lease)
    → Chosen mac i yi (choose_lease ticks mac i yi ls)
unfolding choose_lease
choose_lease-Chosen ticks mac i yi [] = inl refl
choose_lease-Chosen ticks mac i yi (l ∷ ls) = elim (Bool-cases (eq_bytes l.mac mac)) [
  | inl own ↦ rw own (inr (0, l, omega arith, refl, rw own))
  | inr other ↦ rw other (
      step (pass_lease_free mac (ticks i) i yi l)
        (choose_lease-Chosen ticks mac (i + 1) (pass_lease (ticks i) i yi l).0 ls))
]
  where
    passed : ℕ × Lease
    passed = pass_lease (ticks i) i yi l

    rest : ℕ × List Lease
    rest = choose_lease ticks mac (i + 1) passed.0 ls

    step :
        (passed.0 ≡ yi) ⊎ ((passed.0 ≡ i) × (grantable mac passed.1 ≡ true))
        → Chosen mac (i + 1) passed.0 rest
        → Chosen mac i yi (rest.0, passed.1 ∷ rest.1)
    step (inl same) (inl before) = inl (before ∙ same)
    step (inr (here, free)) (inl before) =
        inr (0, passed.1, before ∙ here ∙ i_plus_zero, refl, free)
      where
        i_plus_zero : i ≡ i + 0
        i_plus_zero = omega arith
    step p (inr (j, m, at, there, free)) = inr (suc j, m, omega arith, there, free)

-- If a discover is answered with an offer, a request for the offered address that the same client
-- makes before anything else happens to the table is acknowledged, at whatever time.
pub discover-request :
    (ticks : ℕ → ℕ) (now : ℕ) (mac : List ℕ) (leases : List Lease) (yi : ℕ)
    → (discover ticks mac leases).0 ≡ some yi
    → (granted : List Lease) × (request now mac yi (discover ticks mac leases).1 ≡ some granted)
unfolding discover request
discover-request ticks now mac leases yi h =
    elim (choose_lease-Chosen ticks mac 0 dhcps_max_ip leases) [
      | inl none_free ↦ absurd (ground arith)
      | inr (j, l, at, there, free) ↦
          let table = (choose_lease ticks mac 0 dhcps_max_ip leases).1 in
          let here : yi ≡ j = ground arith in
          (
            set table yi (record { mac = mac; expiry = expiry_from now }),
            rw (ap (get_elem? table) here ∙ there, request) (rw free),
          )
    ]

pass_lease_held :
    (ticks i yi : ℕ) (l : Lease)
    → eq_bytes l.mac no_mac ≡ false
    → is_expired l ticks ≡ false
    → pass_lease ticks i yi l ≡ (yi, l)
unfolding pass_lease
pass_lease_held ticks i yi l held fresh = ground arith

-- What holds of a lease that a discover of another client passes unexpired: it stays, and the
-- index chosen is its own only if it was so before.
pub choose_lease_keeps :
    (ticks : ℕ → ℕ) (mac : List ℕ) (i yi j : ℕ) (ls : List Lease) (l : Lease)
    → get_elem? ls j ≡ some l
    → eq_bytes l.mac mac ≡ false
    → eq_bytes l.mac no_mac ≡ false
    → ((k : ℕ) → is_expired l (ticks k) ≡ false)
    → let r = choose_lease ticks mac i yi ls in
      (get_elem? r.1 j ≡ some l) × (r.0 ≡ i + j → yi ≡ i + j)
unfolding choose_lease
choose_lease_keeps ticks mac i yi j [] l at other held fresh = cc
choose_lease_keeps ticks mac i yi zero (m ∷ ls) l at other held fresh = ground (
  arith,
  pass_lease_held (ticks i) i yi l held (fresh i),
  choose_lease-Chosen ticks mac (i + 1) yi ls,
)
choose_lease_keeps ticks mac i yi (suc j) (m ∷ ls) l at other held fresh = ground (
  arith,
  pass_lease_free mac (ticks i) i yi m,
  choose_lease_keeps ticks mac (i + 1) (pass_lease (ticks i) i yi m).0 j ls l at other held fresh,
)

pub request-granted :
    (now : ℕ) (mac : List ℕ) (yi : ℕ) (leases granted : List Lease)
    → request now mac yi leases ≡ some granted
    → get_elem? granted yi ≡ some (record { mac = mac; expiry = expiry_from now })
unfolding request
request-granted now mac yi leases granted h = elim (Option-cases (get_elem? leases yi)) [
  | inl e ↦ ground arith
  | inr (l, e) ↦
      ground (arith, get_elem?-set leases yi (record { mac = mac; expiry = expiry_from now }) l e)
]

-- A request for an address that another client holds is not acknowledged.
pub request-held :
    (now : ℕ) (mac : List ℕ) (yi : ℕ) (leases : List Lease) (l : Lease)
    → get_elem? leases yi ≡ some l
    → eq_bytes l.mac mac ≡ false
    → eq_bytes l.mac no_mac ≡ false
    → request now mac yi leases ≡ none
unfolding request
request-held now mac yi leases l e other held = ground arith

-- Where the first lease of a client stands in a table that begins at `i`.
abbrev pub own_index : List ℕ → ℕ → List Lease → Option ℕ
own_index mac i [] = none
own_index mac i (l ∷ ls) =
    let rest = own_index mac (i + 1) ls in if eq_bytes l.mac mac then some i else rest

choose_lease_own :
    (ticks : ℕ → ℕ) (mac : List ℕ) (i yi k : ℕ) (ls : List Lease)
    → own_index mac i ls ≡ some k
    → ((choose_lease ticks mac i yi ls).0 ≡ k) × (k < i + length ls)
unfolding choose_lease
choose_lease_own ticks mac i yi k [] h = cc
choose_lease_own ticks mac i yi k (l ∷ ls) h =
    ground (arith, choose_lease_own ticks mac (i + 1) (pass_lease (ticks i) i yi l).0 k ls)

-- A client whose MAC stands in the table is offered the first address that it stands at, whatever
-- the clock says and whatever is free or expired before it.
pub discover_own :
    (ticks : ℕ → ℕ) (mac : List ℕ) (k : ℕ) (leases : List Lease)
    → length leases ≡ dhcps_max_ip
    → own_index mac 0 leases ≡ some k
    → (discover ticks mac leases).0 ≡ some k
unfolding discover
discover_own ticks mac k leases size h =
    ground (arith, choose_lease_own ticks mac 0 dhcps_max_ip k leases h)
