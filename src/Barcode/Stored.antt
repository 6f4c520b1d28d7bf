-- ===== src/Barcode/Stored.antt =====
-- buddy3/buddy3.c: the array of widths after the widths of several bars have been stored in it.

use robotic_car_p3e.Prelude.{
  ℕ, zero, suc, ◌+◌, ◌≤◌, ◌≡◌, refl, ap, ◌∙◌, List, [], ◌∷◌, ◌++◌, map, arith, length, set,
  length-set, take, drop,
}

-- The counts after the widths of some bars have been stored from index `b` on; a bar is given by
-- the readings that it has beyond its first.
abbrev pub store_bars : List ℕ → ℕ → List ℕ → List ℕ
store_bars counts b [] = counts
store_bars counts b (n ∷ ns) = store_bars (set counts b (1 + n)) (b + 1) ns

length-store_bars :
    (counts : List ℕ) (b : ℕ) (ns : List ℕ) → length (store_bars counts b ns) ≡ length counts
length-store_bars counts b [] = refl
length-store_bars counts b (n ∷ ns) =
    length-store_bars (set counts b (1 + n)) (b + 1) ns ∙ length-set counts b (1 + n)

store_bars-cons :
    (x : ℕ) (xs : List ℕ) (b : ℕ) (ns : List ℕ)
    → store_bars (x ∷ xs) (suc b) ns ≡ x ∷ store_bars xs b ns
store_bars-cons x xs b [] = refl
store_bars-cons x xs b (n ∷ ns) =
    let shift : suc b + 1 ≡ suc (b + 1) = omega arith in
    ap (λ k. store_bars (x ∷ set xs b (1 + n)) k ns) shift
    ∙ store_bars-cons x (set xs b (1 + n)) (b + 1) ns

pub store_bars-snoc :
    (counts : List ℕ) (b n : ℕ) (ns : List ℕ)
    → set (store_bars counts b ns) (b + length ns) (1 + n) ≡ store_bars counts b (ns ++ n ∷ [])
store_bars-snoc counts b n [] = ground arith
store_bars-snoc counts b n (m ∷ ns) =
    let shift : b + suc (length ns) ≡ b + 1 + length ns = omega arith in
    ap (λ k. set (store_bars (set counts b (1 + m)) (b + 1) ns) k (1 + n)) shift
    ∙ store_bars-snoc (set counts b (1 + m)) (b + 1) n ns

-- Where there is room, the widths stand where they were stored.
pub take-store_bars :
    (counts : List ℕ) (b : ℕ) (ns : List ℕ)
    → b + length ns ≤ length counts
    → take (length ns) (drop b (store_bars counts b ns)) ≡ map (λ n. 1 + n) ns
take-store_bars [] zero [] h = refl
take-store_bars [] (suc b) [] h = refl
take-store_bars [] b (n ∷ ns) h = absurd (omega arith)
take-store_bars (x ∷ xs) zero [] h = refl
take-store_bars (x ∷ xs) zero (n ∷ ns) h =
    rw (store_bars-cons (1 + n) xs 0 ns)
      (ap (λ r. (1 + n) ∷ r) (take-store_bars xs 0 ns (omega arith)))
take-store_bars (x ∷ xs) (suc b) ns h =
    rw (store_bars-cons x xs b ns) (take-store_bars xs b ns (omega arith))
