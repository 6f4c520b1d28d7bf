-- ===== src/Dhcp/Leases.antt =====
-- wifi/access_point/dhcpserver/dhcpserver.h and dhcpserver.c: the table of leases, and what a
-- discover and a request do to it.
use robotic_car_p3e.Prelude.{
  ℕ, ◌+◌, ◌-◌, ◌*◌, ◌/◌, ◌%◌, ◌^◌, Bool, true, Option, none, some, List, [], ◌∷◌, leb, ◌==◌,
  if◌then◌else◌, eq_bytes, get_elem?, set, replicate,
}

abbrev pub dhcps_base_ip : ℕ
dhcps_base_ip = 16

abbrev pub dhcps_max_ip : ℕ
dhcps_max_ip = 8

abbrev pub mac_len : ℕ
mac_len = 6

-- In seconds.
abbrev pub default_lease_time_s : ℕ
default_lease_time_s = 24 * 60 * 60

abbrev pub lease_ms : ℕ
lease_ms = default_lease_time_s * 1000

pub record Lease : Type 0 where
  pub mac : List ℕ
  pub expiry : ℕ  -- uint16_t: the upper half of a time in milliseconds

abbrev pub no_mac : List ℕ
no_mac = replicate mac_len 0

-- `memset` of the table in `dhcp_server_init`.
abbrev pub no_leases : List Lease
no_leases = replicate dhcps_max_ip (record { mac = no_mac; expiry = 0 })

-- `(int32_t)(expiry - ticks) < 0` for the expiry of the lease, filled up with ones.
unfoldable pub is_expired : Lease → ℕ → Bool
is_expired l ticks = leb (2 ^ 31) ((l.expiry * 2 ^ 16 + 0xffff + 2 ^ 32 - ticks) % 2 ^ 32)

-- The expiry that a lease granted at `ticks` gets.
unfoldable pub expiry_from : ℕ → ℕ
expiry_from ticks = (ticks + lease_ms) % 2 ^ 32 / 2 ^ 16 % 2 ^ 16

-- A lease that the loop passes, at `i`, with `yi` found so far: the new `yi` and lease.
unfoldable pub pass_lease : ℕ → ℕ → ℕ → Lease → ℕ × Lease
pass_lease ticks i yi l =
    if yi == dhcps_max_ip
    then if is_expired l ticks
      then (i, record l { mac = no_mac })
      else (if eq_bytes l.mac no_mac then i else yi, l)
    else (yi, l)

-- The loop of a discover from index `i` on: the index chosen (`dhcps_max_ip` for none) and the
-- leases from `i` on. `ticks i` is the clock as it is read in round `i`.
unfoldable pub choose_lease : (ℕ → ℕ) → List ℕ → ℕ → ℕ → List Lease → ℕ × List Lease
choose_lease ticks mac i yi [] = (yi, [])
choose_lease ticks mac i yi (l ∷ ls) =
    let (yi', l') = pass_lease (ticks i) i yi l in
    let (chosen, rest) = choose_lease ticks mac (i + 1) yi' ls in
    if eq_bytes l.mac mac then (i, l ∷ ls) else (chosen, l' ∷ rest)

-- A discover: the index offered, if any, and the new table.
unfoldable pub discover : (ℕ → ℕ) → List ℕ → List Lease → Option ℕ × List Lease
unfolding choose_lease
discover ticks mac leases =
    let (yi, leases') = choose_lease ticks mac 0 dhcps_max_ip leases in
    (if yi == dhcps_max_ip then none else some yi, leases')

-- A lease may be granted to `mac`: it is the client's own, or free.
abbrev pub grantable : List ℕ → Lease → Bool
grantable mac l = if eq_bytes l.mac mac then true else eq_bytes l.mac no_mac

-- A request for index `yi`: the new table if it is acknowledged. Setting the MAC of a lease that is
-- the client's own changes nothing.
unfoldable pub request : ℕ → List ℕ → ℕ → List Lease → Option (List Lease)
unfolding expiry_from
request ticks mac yi leases = elim (get_elem? leases yi) [
  | none ↦ none
  | some l ↦
      if grantable mac l
      then some (set leases yi (record { mac = mac; expiry = expiry_from ticks }))
      else none
]
