-- ===== src/Prelude/Datagrams.antt =====
-- What a UDP server asks lwIP for: packet buffers, and the sending of datagrams.
use Prim.Native.Nat.{ℕ, ◌/◌, ◌%◌, ◌^◌, zero, suc}
use mathlib.Core.Option.{Option, none, some}
use mathlib.Core.List.{List, [], ◌∷◌}

-- A datagram: its address and port, the network interface, if one is named, and its bytes.
pub record Datagram : Type 0 where
  pub dest : List ℕ
  pub port : ℕ
  pub interface : Option ℕ
  pub payload : List ℕ

-- A successful `pbuf_alloc`, a `udp_sendto` or `udp_sendto_if`, and a `pbuf_free`.
pub data Call : Type 0 where
  pbuf_alloc pbuf_free : Call
  udp_sendto : Datagram → Call

abbrev pub datagrams : List Call → List Datagram
datagrams [] = []
datagrams (pbuf_alloc ∷ cs) = datagrams cs
datagrams (pbuf_free ∷ cs) = datagrams cs
datagrams (udp_sendto g ∷ cs) = g ∷ datagrams cs

-- How many packet buffers are held behind the calls, if none is freed that is not.
abbrev pub held_behind : ℕ → List Call → Option ℕ
held_behind n [] = some n
held_behind n (pbuf_alloc ∷ cs) = held_behind (suc n) cs
held_behind zero (pbuf_free ∷ cs) = none
held_behind (suc n) (pbuf_free ∷ cs) = held_behind n cs
held_behind n (udp_sendto g ∷ cs) = held_behind n cs

-- `IP4_ADDR` of the four bytes of a number.
abbrev pub ip4_addr : ℕ → List ℕ
ip4_addr ip = (ip / 2 ^ 24 % 256) ∷ (ip / 2 ^ 16 % 256) ∷ (ip / 2 ^ 8 % 256) ∷ (ip % 256) ∷ []
