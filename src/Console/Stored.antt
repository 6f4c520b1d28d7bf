-- ===== src/Console/Stored.antt =====
-- wifi/freertos/ping/picow_freertos_ping_j.c: what the terminal has stored, and what it shows of it.
use mathlib.Core.List.{append_assoc, append-nil}
use robotic_car_p3e.Prelude.{
  ℕ, zero, suc, ◌+◌, ◌%◌, ◌≤◌, ◌<◌, ◌≡◌, refl, sym, ap, ap₂, ◌∙◌, Bool, true, false, ◌&&◌, Option,
  none, some, List, [], ◌∷◌, ◌++◌, map, ltb, if◌then◌else◌, codes, length, take, drop, set,
  length-set, length-append, take-set_last, take-all, take-append_le, length-take, arith,
  Bool-cases, ltb→lt, inl, inr,
}
use robotic_car_p3e.Telemetry.Parse.{c_string}
use robotic_car_p3e.Console.Terminal.{
  Terminal, Line, Input, went_on, fresh_terminal, buffer_size, show_messages, show_from, receive,
  take_in, round, run, prompt,
}
use robotic_car_p3e.Console.Lines.{lines_behind, show_from-lines}

-- The characters that the inputs hold.
abbrev pub chars_of : Option ℕ → List ℕ
chars_of none = []
chars_of (some ch) = ch % 256 ∷ []

abbrev pub received : List Input → List ℕ
received [] = []
received (i ∷ is) = chars_of i.ch ++ received is

-- No reset is asked for.
abbrev pub AllGoing : List Input → Type 0
AllGoing [] = Unit {0}
AllGoing (i ∷ is) = ((i.reset_now && i.reset_still) ≡ false) × AllGoing is

-- The text is stored at the front of the buffer.
record HasStored (text : List ℕ) (t : Terminal) : Type 0 where
  front : take t.buffer_index t.message_buffer ≡ text
  index : t.buffer_index ≡ length text
  size : length t.message_buffer ≡ 1024
  room : length text ≤ 1023

take-set_beyond : (xs : List ℕ) (n v : ℕ) → take n (set xs n v) ≡ take n xs
take-set_beyond [] n v = refl
take-set_beyond (x ∷ xs) zero v = refl
take-set_beyond (x ∷ xs) (suc n) v = ap (λ r. x ∷ r) (take-set_beyond xs n v)

receive-HasStored :
    (ch : ℕ) (all : List ℕ) (t : Terminal)
    → HasStored (take 1023 all) t
    → HasStored (take 1023 (all ++ ch % 256 ∷ [])) (receive ch t)
unfolding receive
receive-HasStored ch all t h =
    let c = ch % 256 in
    let size = length-take 1023 all in
    let longer = length-append {0} all (c ∷ []) in
    elim (Bool-cases (ltb t.buffer_index 1023)) [
      | inl e ↦
          let low : t.buffer_index < 1023 = ltb→lt _ _ e in
          let fits : length all ≤ 1023 = omega (arith, low, size, h.index) in
          let one_more : length (all ++ c ∷ []) ≤ 1023 =
            omega (arith, low, size, h.index, longer) in
          let kept = take-all all 1023 fits in
          let whole = take-all (all ++ c ∷ []) 1023 one_more in
          let in_buffer : t.buffer_index < length t.message_buffer = omega (arith, low, h.size) in
          rw e (record {
            front =
                take-set_beyond (set t.message_buffer t.buffer_index c) (t.buffer_index + 1) 0
                ∙ take-set_last t.message_buffer t.buffer_index c in_buffer
                ∙ ap (λ s. s ++ c ∷ []) (h.front ∙ kept)
                ∙ sym whole;
            index = omega (arith, h.index, ap length whole, ap length kept, longer);
            size =
                length-set (set t.message_buffer t.buffer_index c) (t.buffer_index + 1) 0
                ∙ length-set t.message_buffer t.buffer_index c
                ∙ h.size;
            room = omega (arith, length-take 1023 (all ++ c ∷ []));
          })
      | inr e ↦
          let high : 1023 ≤ t.buffer_index = ground arith in
          let same = take-append_le all (c ∷ []) 1023 (omega (arith, high, size, h.index)) in
          rw (e, same) (record { front = h.front; index = h.index; size = h.size; room = h.room })
    ]

abbrev asked : Bool → Terminal → Terminal × List Line
asked b t = if b then (record t { prompt_needed = false }, prompt ∷ []) else (t, [])

asked-HasStored :
    (b : Bool) (text : List ℕ) (t : Terminal) → HasStored text t → HasStored text (asked b t).0
asked-HasStored true text t h = record {
  front = h.front;
  index = h.index;
  size = h.size;
  room = h.room;
}
asked-HasStored false text t h = h

take_in-HasStored :
    (ch : Option ℕ) (all : List ℕ) (t : Terminal)
    → HasStored (take 1023 all) t
    → HasStored (take 1023 (all ++ chars_of ch)) (take_in ch t).0
unfolding take_in
take_in-HasStored none all t h = rw (append-nil all) (asked-HasStored t.prompt_needed _ t h)
take_in-HasStored (some ch) all t h = receive-HasStored ch all t h

-- What a round without a reset prints.
abbrev shown : Input → Terminal → List Line
shown i t = (if i.display_now && i.display_still then show_messages t else []) ++ (take_in i.ch t).1

round-going :
    (i : Input) (t : Terminal)
    → (i.reset_now && i.reset_still) ≡ false
    → round i t ≡ went_on (take_in i.ch t).0 (shown i t)
unfolding round
round-going i t on = rw on refl

run-going :
    (i : Input) (is : List Input) (t : Terminal) (out : List Line)
    → (i.reset_now && i.reset_still) ≡ false
    → run (i ∷ is) t out ≡ run is (take_in i.ch t).0 (out ++ shown i t)
unfolding run
run-going i is t out on = rw (round-going i t on, run) refl

run-HasStored :
    (is : List Input) (all : List ℕ) (t : Terminal) (out : List Line)
    → AllGoing is
    → HasStored (take 1023 all) t
    → HasStored (take 1023 (all ++ received is)) (run is t out).0
unfolding run
run-HasStored [] all t out going h = rw (append-nil all) h
run-HasStored (i ∷ is) all t out (on, going) h =
    rw (run-going i is t out on, sym (append_assoc all (chars_of i.ch) (received is)))
      (run-HasStored is (all ++ chars_of i.ch) (take_in i.ch t).0 (out ++ shown i t) going
        (take_in-HasStored i.ch all t h))

take-drop : (n : ℕ) (xs : List ℕ) → xs ≡ take n xs ++ drop n xs
take-drop zero xs = refl
take-drop (suc n) [] = refl
take-drop (suc n) (x ∷ xs) = ap (λ r. x ∷ r) (take-drop n xs)

-- What the display button shows of a text.
abbrev pub listing : List ℕ → List Line
listing [] = codes "Stored Messages:" ∷ codes "No messages stored." ∷ []
listing (c ∷ cs) = codes "Stored Messages:" ∷ map c_string (lines_behind [] (c ∷ cs))

abbrev shown_at : ℕ → List ℕ → List Line
shown_at n buf =
    codes "Stored Messages:"
    ∷ (if ltb 0 n then show_from n buf 0 0 else codes "No messages stored." ∷ [])

show_messages-HasStored :
    (text : List ℕ) (t : Terminal) → HasStored text t → show_messages t ≡ listing text
unfolding show_messages
show_messages-HasStored [] t h = rw h.index refl
show_messages-HasStored (c ∷ cs) t h =
    let behind = drop t.buffer_index t.message_buffer in
    let buf : t.message_buffer ≡ (c ∷ cs) ++ behind =
      take-drop t.buffer_index t.message_buffer ∙ ap (λ s. s ++ behind) h.front in
    let some_left : ltb 0 (suc (length cs)) ≡ true = ground arith in
    ap₂ shown_at h.index buf
    ∙ rw some_left (ap (λ ls. codes "Stored Messages:" ∷ ls) (show_from-lines (c ∷ cs) behind))

-- Whatever is sent to the terminal, in a run without a reset from the start on: the first 1023
-- characters are stored, and the display button shows them line by line, or says that there are
-- none.
pub run-stored :
    (is : List Input) (stack : List ℕ)
    → length stack ≡ buffer_size
    → AllGoing is
    → show_messages (run is (fresh_terminal stack) []).0 ≡ listing (take 1023 (received is))
run-stored is stack size going =
    show_messages-HasStored (take 1023 (received is)) (run is (fresh_terminal stack) []).0 (
      run-HasStored is [] (fresh_terminal stack) [] going
        (record { front = refl; index = refl; size = size; room = omega arith }))
