-- ===== src/Http/Buffers.antt =====
-- wifi/access_point/picow_access_point.c: the zero byte at the end of the headers' buffer, on which
-- `strchr` and `strncmp` rely.
use robotic_car_p3e.Prelude.{
  ℕ, suc, ◌+◌, ◌≤◌, ◌≡◌, refl, ap, ◌∙◌, Option, none, some, List, [], ◌∷◌, ◌++◌, ◌==◌, length, set,
  take, write, get_or, get_or-set_self, get_or-set_ne, length-set, length-take, length-write, arith,
  Bool-cases, inl, inr,
}
use robotic_car_p3e.Http.Request.{request_at, cut_space, cut_at, cut_request}
use robotic_car_p3e.Http.Connection.{print_into}

-- The last of 128 bytes is zero.
pub record Ends (s : List ℕ) : Type 0 where
  pub size : length s ≡ 128
  pub last : get_or s 127 1 ≡ 0

pub set-Ends : (s : List ℕ) (i : ℕ) → Ends s → Ends (set s i 0)
set-Ends s i h = elim (Bool-cases (i == 127)) [
  | inl e ↦
      let here : i ≡ 127 = ground arith in
      record {
        size = length-set s i 0 ∙ h.size;
        last = rw here (get_or-set_self s 127 0 1 (omega (arith, h.size)));
      }
  | inr e ↦ record {
    size = length-set s i 0 ∙ h.size;
    last = get_or-set_ne s i 127 0 1 (λ p. ground arith) ∙ h.last;
  }
]

get_or-write_beyond :
    (buf : List ℕ) (at : ℕ) (bs : List ℕ) (k d : ℕ)
    → at + length bs ≤ k
    → get_or (write buf at bs) k d ≡ get_or buf k d
get_or-write_beyond buf at [] k d h = refl
get_or-write_beyond buf at (b ∷ bs) k d h =
    get_or-write_beyond (set buf at b) (at + 1) bs k d (omega arith)
    ∙ get_or-set_ne buf at k b d (λ e. omega arith)

pub write-Ends : (s bs : List ℕ) → Ends s → length bs ≤ 127 → Ends (write s 0 bs)
write-Ends s bs h short = record {
  size = length-write s 0 bs ∙ h.size;
  last = get_or-write_beyond s 0 bs 127 1 (omega arith) ∙ h.last;
}

write-append :
    (buf : List ℕ) (at : ℕ) (xs ys : List ℕ)
    → write buf at (xs ++ ys) ≡ write (write buf at xs) (at + length xs) ys
write-append buf at [] ys = ap (λ k. write buf k ys) (omega arith)
write-append buf at (x ∷ xs) ys =
    let shift : at + 1 + length xs ≡ at + suc (length xs) = omega arith in
    write-append (set buf at x) (at + 1) xs ys
    ∙ ap (λ k. write (write (set buf at x) (at + 1) xs) k ys) shift

pub print_into-Ends : (s text : List ℕ) → Ends s → Ends (print_into s 127 text)
print_into-Ends s text h =
    let front = take 127 text in
    let short : length front ≤ 127 = omega (arith, length-take 127 text) in
    rw (write-append s 0 front (0 ∷ []))
      (set-Ends (write s 0 front) (0 + length front) (write-Ends s front h short))

pub cut_request-Ends : (s : List ℕ) → Ends s → Ends (cut_request s).0
unfolding cut_request
cut_request-Ends s h = cut_at-Ends _ _ s h
  where
    cut_space-Ends : (space : Option ℕ) (t : List ℕ) → Ends t → Ends (cut_space space t)
    cut_space-Ends none t p = p
    cut_space-Ends (some i) t p = set-Ends t (request_at + i) p

    cut_at-Ends : (mark space : Option ℕ) (t : List ℕ) → Ends t → Ends (cut_at mark space t).0
    cut_at-Ends none space t p = p
    cut_at-Ends (some i) space t p = cut_space-Ends space _ (set-Ends t (request_at + i) p)
