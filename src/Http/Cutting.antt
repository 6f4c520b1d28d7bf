-- ===== src/Http/Cutting.antt =====
-- wifi/access_point/picow_access_point.c: the zero bytes that cut a request into its path and its
-- parameters.
use robotic_car_p3e.Prelude.{
  ℕ, zero, suc, ◌+◌, ◌/◌, ◌%◌, ◌≡◌, ◌≢◌, refl, sym, ap, ◌∙◌, Bool, true, not, Option, none, some,
  List, [], ◌∷◌, ◌++◌, ◌==◌, ◌&&◌, length, set, drop, get_elem?, arith, ℤ, pos, negsuc,
}
use robotic_car_p3e.Telemetry.Decimal.{print_before, print_ℕ, print_int}
use robotic_car_p3e.Telemetry.Parse.{c_string, starts_with}
use robotic_car_p3e.Http.Request.{
  index_of, led_test, request_at, cut_space, cut_at, cut_request, request_of,
}

-- No zero byte and no such character.
abbrev pub is_free : ℕ → List ℕ → Bool
is_free c [] = true
is_free c (x ∷ xs) = not (x == 0) && (not (x == c) && is_free c xs)

pub index_of-append :
    (c : ℕ) (p rest : List ℕ)
    → c ≢ 0
    → is_free c p ≡ true
    → index_of c (p ++ c ∷ rest) ≡ some (length p)
unfolding index_of
index_of-append c [] rest h free = ground arith
index_of-append c (x ∷ xs) rest h free = ground (arith, index_of-append c xs rest h)

pub set-append :
    (p rest : List ℕ) (x v i : ℕ) → i ≡ length p → set (p ++ x ∷ rest) i v ≡ p ++ v ∷ rest
set-append [] rest x v zero h = refl
set-append [] rest x v (suc i) h = absurd (omega arith)
set-append (y ∷ ys) rest x v zero h = absurd (omega arith)
set-append (y ∷ ys) rest x v (suc i) h = ap (λ r. y ∷ r) (set-append ys rest x v i (omega arith))

pub c_string-append : (c : ℕ) (p rest : List ℕ) → is_free c p ≡ true → c_string (p ++ 0 ∷ rest) ≡ p
c_string-append c [] rest h = refl
c_string-append c (x ∷ xs) rest h = ground (arith, c_string-append c xs rest)

-- A printed number, and what stands behind it.
print_before-append :
    (fuel n : ℕ) (xs ys : List ℕ) → print_before fuel n (xs ++ ys) ≡ print_before fuel n xs ++ ys
unfolding print_before
print_before-append zero n xs ys = refl
print_before-append (suc fuel) n xs ys =
    ground (arith, print_before-append fuel (n / 10) ((n % 10 + b'0') ∷ xs) ys)

pub print_int-append : (z : ℤ) (rest : List ℕ) → print_int z rest ≡ print_int z [] ++ rest
unfolding print_int print_ℕ
print_int-append (pos n) rest = print_before-append (suc n) n [] rest
print_int-append (negsuc n) rest =
    ap (λ r. b'-' ∷ r) (print_before-append (suc (n + 1)) (n + 1) [] rest)

pub is_free-print_before :
    (fuel n : ℕ) (rest : List ℕ)
    → is_free b' ' rest ≡ true
    → is_free b' ' (print_before fuel n rest) ≡ true
unfolding print_before
is_free-print_before zero n rest h = h
is_free-print_before (suc fuel) n rest h =
    ground (arith, is_free-print_before fuel (n / 10) ((n % 10 + b'0') ∷ rest))

pub is_free-print_int : (z : ℤ) → is_free b' ' (print_int z []) ≡ true
unfolding print_int print_ℕ
is_free-print_int (pos n) = is_free-print_before (suc n) n [] refl
is_free-print_int (negsuc n) = ground (arith, is_free-print_before (suc (n + 1)) (n + 1) [])

-- A zero byte in place of a character that a word does not have makes no difference to whether the
-- string begins with that word.
starts_with-c_string :
    (c : ℕ) (p s : List ℕ) → is_free c p ≡ true → starts_with p (c_string s) ≡ starts_with p s
starts_with-c_string c [] s h = refl
starts_with-c_string c (q ∷ ps) [] h = refl
starts_with-c_string c (q ∷ ps) (x ∷ xs) h = ground (arith, starts_with-c_string c ps xs)

starts_with-set :
    (c : ℕ) (p s : List ℕ) (i : ℕ)
    → is_free c p ≡ true
    → get_elem? s i ≡ some c
    → starts_with p (set s i 0) ≡ starts_with p s
starts_with-set c [] s i h e = refl
starts_with-set c (q ∷ ps) [] i h e = refl
starts_with-set c (q ∷ ps) (x ∷ xs) zero h e = ground arith
starts_with-set c (q ∷ ps) (x ∷ xs) (suc i) h e = ground (arith, starts_with-set c ps xs i)

index_of_sound : (c : ℕ) (s : List ℕ) (i : ℕ) → index_of c s ≡ some i → get_elem? s i ≡ some c
unfolding index_of
index_of_sound c [] i h = cc
index_of_sound c (x ∷ xs) zero h = ground arith
index_of_sound c (x ∷ xs) (suc i) h = ground (arith, index_of_sound c xs i)

drop-set : (n : ℕ) (s : List ℕ) (i v : ℕ) → drop n (set s (n + i) v) ≡ set (drop n s) i v
drop-set zero s i v = ap (λ k. set s k v) (omega arith)
drop-set (suc n) [] i v = refl
drop-set (suc n) (x ∷ xs) i v =
    let shift : suc n + i ≡ suc (n + i) = omega arith in
    ap (λ k. drop (suc n) (set (x ∷ xs) k v)) shift ∙ drop-set n xs i v

get_elem?-set_ne : (s : List ℕ) (i j v : ℕ) → i ≢ j → get_elem? (set s i v) j ≡ get_elem? s j
get_elem?-set_ne [] i j v h = refl
get_elem?-set_ne (x ∷ xs) zero zero v h = absurd (h refl)
get_elem?-set_ne (x ∷ xs) zero (suc j) v h = refl
get_elem?-set_ne (x ∷ xs) (suc i) zero v h = refl
get_elem?-set_ne (x ∷ xs) (suc i) (suc j) v h = get_elem?-set_ne xs i j v (λ e. h (ap suc e))

index_of-ne :
    (c d : ℕ) (s : List ℕ) (i j : ℕ) → c ≢ d → index_of c s ≡ some i → index_of d s ≡ some j → i ≢ j
index_of-ne c d s i j h p q e =
    let q' : index_of d s ≡ some i = q ∙ ap some (sym e) in
    let same : some c ≡ some d = sym (index_of_sound c s i p) ∙ index_of_sound d s i q' in
    ground (arith, same)

-- The cut behind the question mark, and perhaps behind a space, within the request.
starts_with-cut_space :
    (s : List ℕ) (i : ℕ) (space : Option ℕ)
    → index_of b'?' (drop request_at s) ≡ some i
    → index_of b' ' (drop request_at s) ≡ space
    → starts_with led_test (drop request_at (cut_space space (set s (request_at + i) 0)))
      ≡ starts_with led_test (drop request_at s)
starts_with-cut_space s i none p q =
    ap (starts_with led_test) (drop-set request_at s i 0)
    ∙ starts_with-set b'?' led_test (drop request_at s) i refl (index_of_sound b'?' _ i p)
starts_with-cut_space s i (some j) p q =
    let request = drop request_at s in
    let there : get_elem? (set request i 0) j ≡ some b' ' =
      get_elem?-set_ne request i j 0 (index_of-ne b'?' b' ' request i j (omega arith) p q)
      ∙ index_of_sound b' ' request j q in
    ap (starts_with led_test) (
      drop-set request_at (set s (request_at + i) 0) j 0
      ∙ ap (λ t. set t j 0) (drop-set request_at s i 0))
    ∙ starts_with-set b' ' led_test (set request i 0) j refl there
    ∙ starts_with-set b'?' led_test request i refl (index_of_sound b'?' _ i p)

starts_with-cut_at :
    (s : List ℕ) (mark : Option ℕ)
    → index_of b'?' (drop request_at s) ≡ mark
    → starts_with led_test (drop request_at (cut_at mark (index_of b' ' (drop request_at s)) s).0)
      ≡ starts_with led_test (drop request_at s)
starts_with-cut_at s none p = refl
starts_with-cut_at s (some i) p = starts_with-cut_space s i _ p refl

-- The path begins with the LED's exactly if the text behind the method does.
pub starts_with-cut_request :
    (s : List ℕ)
    → starts_with led_test (request_of (cut_request s).0) ≡ starts_with led_test (drop request_at s)
unfolding cut_request
starts_with-cut_request s =
    starts_with-c_string b'?' led_test (drop request_at (cut_request s).0) refl
    ∙ starts_with-cut_at s _ refl
