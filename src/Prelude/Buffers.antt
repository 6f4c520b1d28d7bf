-- ===== src/Prelude/Buffers.antt =====
-- Writes of several bytes into a buffer, and what stands in the buffer afterwards.
use Prim.Native.Nat.{ℕ, zero, suc, ◌+◌, ◌≤◌}
use mathlib.Core.Path.{◌≡◌, refl, sym, ap, ◌∙◌}
use mathlib.Core.List.{List, [], ◌∷◌, ◌++◌, append-nil, append_assoc}
use native.Mathlib.Omega.{arith}
use robotic_car_p3e.Prelude.Lists.{length, set, take, drop, length-set, take-set_last}

-- `memcpy` of a list to a position of a buffer.
abbrev pub write : List ℕ → ℕ → List ℕ → List ℕ
write buf at [] = buf
write buf at (b ∷ bs) = write (set buf at b) (at + 1) bs

pub length-write : (buf : List ℕ) (at : ℕ) (bs : List ℕ) → length (write buf at bs) ≡ length buf
length-write buf at [] = refl
length-write buf at (b ∷ bs) = length-write (set buf at b) (at + 1) bs ∙ length-set buf at b

pub take-write :
    (buf : List ℕ) (at : ℕ) (bs : List ℕ)
    → at + length bs ≤ length buf
    → take (at + length bs) (write buf at bs) ≡ take at buf ++ bs
take-write buf at [] h =
    let here : at + 0 ≡ at = omega arith in
    ap (λ k. take k buf) here ∙ sym (append-nil (take at buf))
take-write buf at (b ∷ bs) h =
    let shift : at + suc (length bs) ≡ at + 1 + length bs = omega arith in
    ap (λ k. take k (write (set buf at b) (at + 1) bs)) shift
    ∙ take-write (set buf at b) (at + 1) bs (omega (arith, length-set {0} buf at b))
    ∙ ap (λ r. r ++ bs) (take-set_last buf at b (omega arith))
    ∙ append_assoc (take at buf) (b ∷ []) bs

write-cons :
    (x : ℕ) (xs : List ℕ) (at : ℕ) (bs : List ℕ) → write (x ∷ xs) (suc at) bs ≡ x ∷ write xs at bs
write-cons x xs at [] = refl
write-cons x xs at (b ∷ bs) =
    let shift : suc at + 1 ≡ suc (at + 1) = omega arith in
    ap (λ k. write (x ∷ set xs at b) k bs) shift ∙ write-cons x (set xs at b) (at + 1) bs

-- A write that fits replaces the bytes from its position on, and no others.
pub write-split :
    (buf : List ℕ) (at : ℕ) (bs : List ℕ)
    → at + length bs ≤ length buf
    → write buf at bs ≡ take at buf ++ (bs ++ drop (at + length bs) buf)
write-split [] zero [] h = refl
write-split [] zero (b ∷ bs) h = absurd (omega arith)
write-split [] (suc at) bs h = absurd (omega arith)
write-split (x ∷ xs) zero [] h = refl
write-split (x ∷ xs) zero (b ∷ bs) h =
    let shift : 0 + suc (length bs) ≡ suc (0 + length bs) = omega arith in
    write-cons b xs 0 bs
    ∙ ap (λ r. b ∷ r) (write-split xs 0 bs (omega arith))
    ∙ ap (λ k. b ∷ (bs ++ drop k (x ∷ xs))) (sym shift)
write-split (x ∷ xs) (suc at) bs h =
    let shift : suc at + length bs ≡ suc (at + length bs) = omega arith in
    write-cons x xs at bs
    ∙ ap (λ r. x ∷ r) (write-split xs at bs (omega arith))
    ∙ ap (λ k. x ∷ (take at xs ++ (bs ++ drop k (x ∷ xs)))) (sym shift)

module _ {ℓ} {A : Type ℓ} where
  pub take-append_exact : (xs ys : List A) (n : ℕ) → length xs ≡ n → take n (xs ++ ys) ≡ xs
  take-append_exact [] ys zero h = refl
  take-append_exact [] ys (suc n) h = absurd (omega arith)
  take-append_exact (x ∷ xs) ys zero h = absurd (omega arith)
  take-append_exact (x ∷ xs) ys (suc n) h =
      ap (λ r. x ∷ r) (take-append_exact xs ys n (omega arith))

  pub take-append_le : (xs ys : List A) (n : ℕ) → n ≤ length xs → take n (xs ++ ys) ≡ take n xs
  take-append_le xs ys zero h = refl
  take-append_le [] ys (suc n) h = absurd (omega arith)
  take-append_le (x ∷ xs) ys (suc n) h = ap (λ r. x ∷ r) (take-append_le xs ys n (omega arith))

  pub drop-append_le :
      (xs ys : List A) (n : ℕ) → n ≤ length xs → drop n (xs ++ ys) ≡ drop n xs ++ ys
  drop-append_le xs ys zero h = refl
  drop-append_le [] ys (suc n) h = absurd (omega arith)
  drop-append_le (x ∷ xs) ys (suc n) h = drop-append_le xs ys n (omega arith)

  pub take-take_le : (n m : ℕ) (xs : List A) → n ≤ m → take n (take m xs) ≡ take n xs
  take-take_le zero m xs h = refl
  take-take_le (suc n) zero xs h = absurd (omega arith)
  take-take_le (suc n) (suc m) [] h = refl
  take-take_le (suc n) (suc m) (x ∷ xs) h = ap (λ r. x ∷ r) (take-take_le n m xs (omega arith))
