-- ===== src/Barcode/Bars.antt =====
-- buddy3/buddy3.c, `convert_stay_counts`: how nine bar widths become a string of bits.
use robotic_car_p3e.Prelude.{
  ℕ, zero, suc, ◌+◌, ◌-◌, List, [], ◌∷◌, map, ltb, ◌==◌, if◌then◌else◌, take,
}

abbrev pub chunk_size : ℕ
chunk_size = 9

abbrev pub top_k : ℕ
top_k = 3

-- The inner loop of the sort at one `i`: `x` is `top_counts[i]`, the list is `top_counts[i + 1 ..]`.
-- The result is the new `top_counts[i]` and what stands behind it.
unfoldable pub exchange : ℕ → List ℕ → ℕ × List ℕ
exchange x [] = (x, [])
exchange x (y ∷ ys) =
    let (best, rest) = exchange (if ltb x y then y else x) ys in
    (best, (if ltb x y then x else y) ∷ rest)

-- The outer loop: as many rounds as the number says, one element settled in each.
unfoldable pub sort_rounds : ℕ → List ℕ → List ℕ
sort_rounds zero xs = xs
sort_rounds (suc n) [] = []
sort_rounds (suc n) (x ∷ xs) = let (best, rest) = exchange x xs in best ∷ sort_rounds n rest

-- `top_counts` after the sort.
unfoldable pub top_counts : List ℕ → List ℕ
unfolding sort_rounds exchange
top_counts chunk = sort_rounds (chunk_size - 1) chunk

-- How many of the listed widths equal `x`.
unfoldable pub matches : ℕ → List ℕ → ℕ
matches x [] = 0
matches x (y ∷ ys) = let rest = matches x ys in if x == y then suc rest else rest

-- `converted_counts[i]` for a bar of width `x`: 1 if the width is among the first `top_k`.
unfoldable pub converted_count : List ℕ → ℕ → ℕ
unfolding matches
converted_count tops x = if ltb 0 (matches x (take top_k tops)) then 1 else 0

-- `binary_string`, without its closing zero byte.
unfoldable pub binary_string : List ℕ → List ℕ
unfolding top_counts converted_count
binary_string chunk = map (λ x. converted_count (top_counts chunk) x + b'0') chunk
