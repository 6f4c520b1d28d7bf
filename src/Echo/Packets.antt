-- ===== src/Echo/Packets.antt =====
-- wifi/tcp_client/picow_tcp_client.c: the packets of a round, and what is sent back.
use mathlib.Core.List.{append-nil, append_assoc}
use robotic_car_p3e.Prelude.{
  ℕ, ◌+◌, ◌≤◌, ◌<◌, ◌≡◌, sym, ap, ◌∙◌, none, some, List, [], ◌∷◌, ◌++◌, length, take, write,
  length-write, take-write, take-all, length-append, ℤ, arith,
}
use robotic_car_p3e.Echo.Client.{
  Client, buf_size, buffer_left, store, echo_if_full, tcp_client_recv, going_on, err_ok,
}

-- A round's packets, received one after the other, and what is written meanwhile.
unfoldable pub receive_all : ℤ → List (List ℕ) → Client → Client × List (List ℕ)
receive_all close_err [] s = (s, [])
receive_all close_err (p ∷ ps) s =
    let o = tcp_client_recv close_err err_ok (some p) s in
    let (last, more) = receive_all close_err ps o.state in
    (last, elim o.written [ none ↦ more | some m ↦ m ∷ more ])

abbrev pub concat : List (List ℕ) → List ℕ
concat [] = []
concat (p ∷ ps) = p ++ concat ps

-- No packet is empty.
abbrev pub AllFull : List (List ℕ) → Type 0
AllFull [] = Unit {0}
AllFull (p ∷ ps) = (0 < length p) × AllFull ps

store-fits :
    (p : List ℕ) (s : Client)
    → length s.buffer ≡ buf_size
    → s.buffer_len + length p ≤ buf_size
    → ((store p s).buffer_len ≡ s.buffer_len + length p)
      × (length (store p s).buffer ≡ buf_size)
      × (take (s.buffer_len + length p) (store p s).buffer ≡ take s.buffer_len s.buffer ++ p)
unfolding store
store-fits [] s size room =
    let none_more : s.buffer_len + 0 ≡ s.buffer_len = omega arith in
    (
      sym none_more,
      size,
      ap (λ k. take k s.buffer) none_more ∙ sym (append-nil (take s.buffer_len s.buffer)),
    )
store-fits (c ∷ cs) s size room =
    let all : take (buffer_left s) (c ∷ cs) ≡ c ∷ cs =
      take-all (c ∷ cs) (buffer_left s) (omega arith) in
    (
      ap (λ p. s.buffer_len + length p) all,
      length-write s.buffer s.buffer_len (take (buffer_left s) (c ∷ cs)) ∙ size,
      ap (λ p. take (s.buffer_len + length (c ∷ cs)) (write s.buffer s.buffer_len p)) all
          ∙ take-write s.buffer s.buffer_len (c ∷ cs) (omega arith),
    )

recv_last :
    (close_err : ℤ) (p : List ℕ) (s : Client)
    → length s.buffer ≡ buf_size
    → s.buffer_len + length p ≡ buf_size
    → tcp_client_recv close_err err_ok (some p) s ≡ record {
      state = store p s;
      error = err_ok;
      written = some (take s.buffer_len s.buffer ++ p);
    }
unfolding tcp_client_recv echo_if_full
recv_last close_err p s size fill =
    let (len, kept, bytes) = store-fits p s size (omega arith) in ground (arith, len, bytes)

recv_more :
    (close_err : ℤ) (p : List ℕ) (s : Client)
    → length s.buffer ≡ buf_size
    → s.buffer_len + length p < buf_size
    → tcp_client_recv close_err err_ok (some p) s ≡ going_on (store p s)
unfolding tcp_client_recv echo_if_full
recv_more close_err p s size fill =
    let (len, kept, bytes) = store-fits p s size (omega arith) in ground (arith, len)

-- Packets that fill the rest of the buffer exactly, however the bytes are parted among them, are
-- answered by one message: the bytes that were in the buffer and all those of the packets, in order.
pub receive_all-concat :
    (close_err : ℤ) (ps : List (List ℕ)) (s : Client)
    → AllFull ps
    → length s.buffer ≡ buf_size
    → s.buffer_len < buf_size
    → s.buffer_len + length (concat ps) ≡ buf_size
    → (receive_all close_err ps s).1 ≡ (take s.buffer_len s.buffer ++ concat ps) ∷ []
unfolding receive_all
receive_all-concat close_err [] s full size room fill = absurd (omega arith)
receive_all-concat close_err (p ∷ []) s full size room fill =
    let end : p ++ [] ≡ p = append-nil p in
    let whole : s.buffer_len + length p ≡ buf_size = ground (arith, end) in
    ground (arith, end, recv_last close_err p s size whole)
receive_all-concat close_err (p ∷ q ∷ ps) s full size room fill =
    let rest = concat (q ∷ ps) in
    let parts = length-append {0} p rest in
    let more = length-append {0} q (concat ps) in
    let (len, kept, bytes) = store-fits p s size (omega (arith, parts)) in
    let ih =
      receive_all-concat close_err (q ∷ ps) (store p s) full.1 kept
        (omega (arith, parts, more, len)) (omega (arith, parts, len)) in
    ground (
      arith,
      recv_more close_err p s size (omega (arith, parts, more)),
      ih,
      len,
      bytes,
      append_assoc (take s.buffer_len s.buffer) p rest,
    )
