-- ===== src/Ntp/Time.antt =====
-- wifi/ntp_client/picow_ntp_client.c: which datagrams are taken for a reply, and the time in them.
use robotic_car_p3e.Prelude.{
  ℕ, ◌+◌, ◌/◌, ◌%◌, ◌^◌, ◌<◌, ◌≡◌, ◌≢◌, ap, ◌∙◌, some, List, [], ◌∷◌, ◌++◌, eq_bytes_sound,
  eq_bytes_refl, length, length-append, get_or, get_or-append, arith,
}
use robotic_car_p3e.Ntp.Client.{
  Client, ntp_msg_len, ntp_port, ntp_delta, seconds_since_1970, is_reply, ntp_recv,
}

-- The time of a server, in seconds since 1970, as the four bytes of an NTP timestamp, which counts
-- from 1900 modulo 2^32.
abbrev pub timestamp : ℕ → List ℕ
timestamp unix =
    let n = (unix + ntp_delta) % 2 ^ 32 in
    n / 2 ^ 24 ∷ n / 2 ^ 16 % 256 ∷ n / 2 ^ 8 % 256 ∷ n % 256 ∷ []

seconds-timestamp :
    (front back : List ℕ) (unix : ℕ)
    → length front ≡ 40
    → unix < 2 ^ 32
    → seconds_since_1970 (front ++ (timestamp unix ++ back)) ≡ unix
unfolding seconds_since_1970
seconds-timestamp front back unix size h =
    let p = timestamp unix ++ back in
    let b0 : get_or (front ++ p) 40 0 ≡ get_or p 0 0 =
      ap (λ k. get_or (front ++ p) k 0) (omega (arith, size)) ∙ get_or-append front p 0 0 in
    let b1 : get_or (front ++ p) 41 0 ≡ get_or p 1 0 =
      ap (λ k. get_or (front ++ p) k 0) (omega (arith, size)) ∙ get_or-append front p 1 0 in
    let b2 : get_or (front ++ p) 42 0 ≡ get_or p 2 0 =
      ap (λ k. get_or (front ++ p) k 0) (omega (arith, size)) ∙ get_or-append front p 2 0 in
    let b3 : get_or (front ++ p) 43 0 ≡ get_or p 3 0 =
      ap (λ k. get_or (front ++ p) k 0) (omega (arith, size)) ∙ get_or-append front p 3 0 in
    omega (arith, b0, b1, b2, b3)

-- A reply of the server that was asked gives the server's time, for every time up to the year 2106,
-- across the wrap of NTP timestamps in 2036.
pub ntp_recv-timestamp :
    (now unix flags stratum : ℕ) (front back : List ℕ) (s : Client)
    → length front ≡ 38
    → length back ≡ 4
    → unix < 2 ^ 32
    → flags % 8 ≡ 4
    → stratum ≢ 0
    → (ntp_recv now s.ntp_server_address ntp_port
        ((flags ∷ stratum ∷ front) ++ (timestamp unix ++ back))
        s).epoch
      ≡ some unix
unfolding ntp_recv is_reply
ntp_recv-timestamp now unix flags stratum front back s size rest small mode synced = ground (
  arith,
  eq_bytes_refl s.ntp_server_address,
  length-append {0} (flags ∷ stratum ∷ front) (timestamp unix ++ back),
  seconds-timestamp (flags ∷ stratum ∷ front) back unix (omega (arith, size)) small,
)

-- A time is taken only from a datagram of 48 bytes that comes from the NTP port of the server that
-- was asked, is marked as a server's reply, and is from a synchronised server.
pub ntp_recv-some :
    (now : ℕ) (addr : List ℕ) (port : ℕ) (p : List ℕ) (s : Client) (e : ℕ)
    → (ntp_recv now addr port p s).epoch ≡ some e
    → (addr ≡ s.ntp_server_address)
      × (port ≡ ntp_port)
      × (length p ≡ ntp_msg_len)
      × (get_or p 0 0 % 8 ≡ 4)
      × (get_or p 1 0 ≢ 0)
unfolding ntp_recv is_reply
ntp_recv-some now addr port p s e h = ground (arith, eq_bytes_sound addr s.ntp_server_address)
