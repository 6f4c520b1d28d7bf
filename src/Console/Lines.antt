-- ===== src/Console/Lines.antt =====
-- wifi/freertos/ping/picow_freertos_ping_j.c: the stored messages, line by line.
use robotic_car_p3e.Prelude.{
  ℕ, zero, suc, ◌+◌, ◌-◌, ◌≡◌, refl, sym, ap, ap₂, ◌∙◌, true, false, List, [], ◌∷◌, ◌++◌, map, ◌==◌,
  ltb, if◌then◌else◌, length, take, drop, get_or, length-append, take-append_exact, arith,
  Bool-cases, inl, inr,
}
use mathlib.Core.List.{append_assoc}
use robotic_car_p3e.Telemetry.Parse.{c_string}
use robotic_car_p3e.Console.Terminal.{slice, show_end, show_from}

-- The lines of a text behind the part of a line that has been read; an end without characters is
-- no line.
abbrev pub last_line : List ℕ → List (List ℕ)
last_line [] = []
last_line (c ∷ cs) = (c ∷ cs) ∷ []

abbrev pub lines_behind : List ℕ → List ℕ → List (List ℕ)
lines_behind front [] = last_line front
lines_behind front (c ∷ cs) =
    let line = front ∷ lines_behind [] cs in
    let on = lines_behind (front ++ c ∷ []) cs in if c == b'\n' then line else on

drop-nil : (n : ℕ) → drop {A = ℕ} n [] ≡ []
drop-nil zero = refl
drop-nil (suc n) = refl

drop-add : (n m : ℕ) (xs : List ℕ) → drop (n + m) xs ≡ drop m (drop n xs)
drop-add zero m xs = ap (λ k. drop k xs) (omega arith)
drop-add (suc n) m [] = drop-nil (suc n + m) ∙ sym (drop-nil m)
drop-add (suc n) m (x ∷ xs) =
    let shift : suc n + m ≡ suc (n + m) = omega arith in
    ap (λ k. drop k (x ∷ xs)) shift ∙ drop-add n m xs

get_or-drop : (n k : ℕ) (xs : List ℕ) (d : ℕ) → get_or xs (n + k) d ≡ get_or (drop n xs) k d
get_or-drop zero k xs d = ap (λ j. get_or xs j d) (omega arith)
get_or-drop (suc n) k [] d = refl
get_or-drop (suc n) k (x ∷ xs) d =
    let shift : suc n + k ≡ suc (n + k) = omega arith in
    ap (λ j. get_or (x ∷ xs) j d) shift ∙ get_or-drop n k xs d

drop-append : (xs ys : List ℕ) → drop (length xs) (xs ++ ys) ≡ ys
drop-append [] ys = refl
drop-append (x ∷ xs) ys = drop-append xs ys

get_or-at : (xs ys : List ℕ) (c d : ℕ) → get_or (xs ++ c ∷ ys) (length xs) d ≡ c
get_or-at [] ys c d = refl
get_or-at (x ∷ xs) ys c d = get_or-at xs ys c d

-- The slice of a part that stands at its start.
slice-front :
    (buf front rest : List ℕ) (start count : ℕ)
    → drop start buf ≡ front ++ rest
    → count ≡ length front
    → slice buf start count ≡ c_string front
slice-front buf front rest start count e n =
    ap c_string (ap (take count) e ∙ take-append_exact front rest count (sym n))

show_end-lem :
    (buf front junk : List ℕ) (start : ℕ)
    → drop start buf ≡ front ++ junk
    → show_end buf start (start + length front) ≡ map c_string (last_line front)
show_end-lem buf [] junk start e =
    let none_left : ltb start (start + 0) ≡ false = ground arith in rw none_left refl
show_end-lem buf (c ∷ cs) junk start e =
    let some_left : ltb start (start + suc (length cs)) ≡ true = ground arith in
    rw some_left (ap (λ l. l ∷ []) (slice-front buf (c ∷ cs) junk start _ e (omega arith)))

show_from-lem :
    (rest front junk buf : List ℕ) (start i : ℕ)
    → drop start buf ≡ front ++ (rest ++ junk)
    → i ≡ start + length front
    → show_from (length rest) buf start i ≡ map c_string (lines_behind front rest)
unfolding show_from
show_from-lem [] front junk buf start i e at =
    ap (show_end buf start) at ∙ show_end-lem buf front junk start e
show_from-lem (c ∷ cs) front junk buf start i e at =
    let here : get_or buf i 0 ≡ c =
      ap (λ j. get_or buf j 0) at
      ∙ get_or-drop start (length front) buf 0
      ∙ ap (λ s. get_or s (length front) 0) e
      ∙ get_or-at front (cs ++ junk) c 0 in
    let whole = append_assoc front (c ∷ []) (cs ++ junk) in
    let size = length-append {0} front (c ∷ []) in
    elim (Bool-cases (c == b'\n')) [
      | inl end ↦
          let next : i + 1 ≡ start + length (front ++ c ∷ []) = omega (arith, size) in
          let behind : drop (i + 1) buf ≡ cs ++ junk =
            ap (λ j. drop j buf) next
            ∙ drop-add start (length (front ++ c ∷ [])) buf
            ∙ ap (drop (length (front ++ c ∷ []))) (e ∙ sym whole)
            ∙ drop-append (front ++ c ∷ []) (cs ++ junk) in
          rw (here, end)
            (ap₂ (λ l ls. l ∷ ls)
              (slice-front buf front ((c ∷ cs) ++ junk) start (i - start) e (omega arith))
              (show_from-lem cs [] junk buf (i + 1) (i + 1) behind (omega arith)))
      | inr more ↦
          rw (here, more)
            (show_from-lem cs (front ++ c ∷ []) junk buf start (i + 1) (e ∙ sym whole)
              (omega (arith, size)))
    ]

-- The loop over the buffer prints the stored text line by line: what stands between two ends of
-- lines, each up to a zero byte if it holds one, and what stands behind the last, if anything does.
pub show_from-lines :
    (text junk : List ℕ)
    → show_from (length text) (text ++ junk) 0 0 ≡ map c_string (lines_behind [] text)
show_from-lines text junk = show_from-lem text [] junk (text ++ junk) 0 0 refl (omega arith)
