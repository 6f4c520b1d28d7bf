-- ===== src/Barcode/Widest.antt =====
-- buddy3/buddy3.c: the sort of `convert_stay_counts` orders the widths, and the bits that it
-- leads to mark exactly the widest bars.
use mathlib.Core.Path.{subst}
use robotic_car_p3e.Prelude.{
  ℕ, zero, suc, ◌+◌, ◌≤◌, ◌<◌, ◌≡◌, refl, sym, ap, ap₂, ◌∙◌, true, false, List, [], ◌∷◌, map, arith,
  ltb, ◌==◌, if◌then◌else◌, take, length, inl, inr, Bool-cases,
}
use robotic_car_p3e.Barcode.Bars.{
  chunk_size, top_k, exchange, sort_rounds, top_counts, matches, converted_count, binary_string,
}

-- Every element is at most `b`.
abbrev AllLe : ℕ → List ℕ → Type 0
AllLe b [] = Unit {0}
AllLe b (x ∷ xs) = (x ≤ b) × AllLe b xs

abbrev pub IsDescending : List ℕ → Type 0
IsDescending [] = Unit {0}
IsDescending (x ∷ xs) = AllLe x xs × IsDescending xs

-- The sum of a weight over a list: what no exchange of two elements changes.
tally : (ℕ → ℕ) → List ℕ → ℕ
tally f [] = 0
tally f (x ∷ xs) = f x + tally f xs

-- The weight that counts the elements wider than `v`.
abbrev pub is_wider : ℕ → ℕ → ℕ
is_wider v x = if ltb v x then 1 else 0

-- How many elements are wider than `v`.
unfoldable pub wider : ℕ → List ℕ → ℕ
wider v [] = 0
wider v (x ∷ xs) = is_wider v x + wider v xs

wider-eq-tally : (v : ℕ) (xs : List ℕ) → wider v xs ≡ tally (is_wider v) xs
unfolding wider tally
wider-eq-tally v [] = refl
wider-eq-tally v (x ∷ xs) = ap (λ n. is_wider v x + n) (wider-eq-tally v xs)

abbrev is_equal : ℕ → ℕ → ℕ
is_equal v x = if v == x then 1 else 0

matches-eq-tally : (v : ℕ) (xs : List ℕ) → matches v xs ≡ tally (is_equal v) xs
unfolding matches tally
matches-eq-tally v [] = refl
matches-eq-tally v (x ∷ xs) = ground (arith, matches-eq-tally v xs)

exchange-tally :
    (f : ℕ → ℕ) (x : ℕ) (ys : List ℕ)
    → f (exchange x ys).0 + tally f (exchange x ys).1 ≡ f x + tally f ys
unfolding exchange tally
exchange-tally f x [] = refl
exchange-tally f x (y ∷ ys) = elim (Bool-cases (ltb x y)) [
  | inl e ↦ rw e (omega (arith, exchange-tally f y ys))
  | inr e ↦ rw e (omega (arith, exchange-tally f x ys))
]

sort_rounds-tally : (f : ℕ → ℕ) (n : ℕ) (xs : List ℕ) → tally f (sort_rounds n xs) ≡ tally f xs
unfolding sort_rounds tally
sort_rounds-tally f zero xs = refl
sort_rounds-tally f (suc n) [] = refl
sort_rounds-tally f (suc n) (x ∷ xs) =
    omega (arith, sort_rounds-tally f n (exchange x xs).1, exchange-tally f x xs)

length-exchange : (x : ℕ) (ys : List ℕ) → length (exchange x ys).1 ≡ length ys
unfolding exchange
length-exchange x [] = refl
length-exchange x (y ∷ ys) = ap suc (length-exchange (if ltb x y then y else x) ys)

-- The bound is kept by every round, so what follows a settled element is no wider.
exchange-AllLe :
    (b x : ℕ) (ys : List ℕ)
    → x ≤ b
    → AllLe b ys
    → ((exchange x ys).0 ≤ b) × AllLe b (exchange x ys).1
unfolding exchange
exchange-AllLe b x [] h k = (h, tt)
exchange-AllLe b x (y ∷ ys) h k = elim (Bool-cases (ltb x y)) [
  | inl e ↦ rw e (let r = exchange-AllLe b y ys k.0 k.1 in (r.0, (h, r.1)))
  | inr e ↦ rw e (let r = exchange-AllLe b x ys h k.1 in (r.0, (k.0, r.1)))
]

exchange_lt :
    (x y : ℕ) (ys : List ℕ)
    → ltb x y ≡ true
    → exchange x (y ∷ ys) ≡ ((exchange y ys).0, x ∷ (exchange y ys).1)
unfolding exchange
exchange_lt x y ys e = rw e

exchange_ge :
    (x y : ℕ) (ys : List ℕ)
    → ltb x y ≡ false
    → exchange x (y ∷ ys) ≡ ((exchange x ys).0, y ∷ (exchange x ys).1)
unfolding exchange
exchange_ge x y ys e = rw e

-- The settled element is at least the one it started from, and at least all that follow.
abbrev IsBest : ℕ → ℕ × List ℕ → Type 0
IsBest x r = (x ≤ r.0) × AllLe r.0 r.1

exchange-IsBest : (x : ℕ) (ys : List ℕ) → IsBest x (exchange x ys)
unfolding exchange
exchange-IsBest x [] = (omega arith, tt)
exchange-IsBest x (y ∷ ys) = elim (Bool-cases (ltb x y)) [
  | inl e ↦
      let r = exchange-IsBest y ys in
      subst (IsBest x) (sym (exchange_lt x y ys e)) (ground arith, (ground arith, r.1))
  | inr e ↦
      let r = exchange-IsBest x ys in
      subst (IsBest x) (sym (exchange_ge x y ys e)) (r.0, (ground arith, r.1))
]

sort_rounds-AllLe : (b n : ℕ) (xs : List ℕ) → AllLe b xs → AllLe b (sort_rounds n xs)
unfolding sort_rounds
sort_rounds-AllLe b zero xs h = h
sort_rounds-AllLe b (suc n) [] h = tt
sort_rounds-AllLe b (suc n) (x ∷ xs) h =
    let r = exchange-AllLe b x xs h.0 h.1 in (r.0, sort_rounds-AllLe b n (exchange x xs).1 r.1)

short-IsDescending : (xs : List ℕ) → length xs ≤ 1 → IsDescending xs
short-IsDescending [] h = tt
short-IsDescending (x ∷ []) h = (tt, tt)
short-IsDescending (x ∷ y ∷ ys) h = absurd (omega arith)

sort_rounds-IsDescending :
    (n : ℕ) (xs : List ℕ) → length xs ≤ suc n → IsDescending (sort_rounds n xs)
unfolding sort_rounds
sort_rounds-IsDescending zero xs h = short-IsDescending xs h
sort_rounds-IsDescending (suc n) [] h = tt
sort_rounds-IsDescending (suc n) (x ∷ xs) h = (
  sort_rounds-AllLe _ n (exchange x xs).1 (exchange-IsBest x xs).1,
  sort_rounds-IsDescending n (exchange x xs).1 (omega (arith, length-exchange x xs)),
)

-- The nested loops leave the widths of a chunk in descending order, each as often as before.
pub top_counts_sorts :
    (chunk : List ℕ)
    → length chunk ≡ chunk_size
    → IsDescending (top_counts chunk) × ((v : ℕ) → matches v (top_counts chunk) ≡ matches v chunk)
unfolding top_counts
top_counts_sorts chunk h = (
  sort_rounds-IsDescending 8 chunk (omega arith),
  λ v.
      matches-eq-tally v _
      ∙ sort_rounds-tally (is_equal v) 8 chunk
      ∙ sym (matches-eq-tally v chunk),
)

wider-top_counts : (v : ℕ) (chunk : List ℕ) → wider v (top_counts chunk) ≡ wider v chunk
unfolding top_counts
wider-top_counts v chunk =
    wider-eq-tally v _ ∙ sort_rounds-tally (is_wider v) 8 chunk ∙ sym (wider-eq-tally v chunk)

wider_of_AllLe : (v b : ℕ) (xs : List ℕ) → b ≤ v → AllLe b xs → wider v xs ≡ 0
unfolding wider
wider_of_AllLe v b [] h k = refl
wider_of_AllLe v b (x ∷ xs) h k = ground (arith, wider_of_AllLe v b xs h k.1)

matches_pos_le : (v b : ℕ) (xs : List ℕ) → 0 < matches v xs → AllLe b xs → v ≤ b
unfolding matches
matches_pos_le v b [] h k = absurd (omega arith)
matches_pos_le v b (x ∷ xs) h k = ground (arith, matches_pos_le v b xs)

-- In a descending list an element stands among the first `k` exactly if fewer than `k` are wider.
first_of_descending :
    (v k : ℕ) (xs : List ℕ)
    → IsDescending xs
    → 0 < matches v xs
    → ltb 0 (matches v (take k xs)) ≡ ltb (wider v xs) k
unfolding matches wider
first_of_descending v zero [] d h = absurd (omega arith)
first_of_descending v (suc k) [] d h = absurd (omega arith)
first_of_descending v zero (x ∷ xs) d h = ground arith
first_of_descending v (suc k) (x ∷ xs) d h = elim (Bool-cases (v == x)) [
  | inl e ↦ ground (arith, wider_of_AllLe v x xs, d.0)
  | inr e ↦ ground (arith, first_of_descending v k xs d.1, matches_pos_le v x xs, d.0)
]

converted_count_lem :
    (chunk : List ℕ) (x : ℕ)
    → length chunk ≡ chunk_size
    → 0 < matches x chunk
    → converted_count (top_counts chunk) x ≡ (if ltb (wider x chunk) top_k then 1 else 0)
unfolding converted_count
converted_count_lem chunk x h m =
    let sorted = top_counts_sorts chunk h in
    rw (
      first_of_descending x top_k (top_counts chunk) sorted.0 (rw (sorted.1 x) m),
      wider-top_counts x chunk,
    )

-- The digit of a bar: `1` if fewer than three bars of the chunk are wider than it.
abbrev pub wide_digit : List ℕ → ℕ → ℕ
wide_digit chunk x = if ltb (wider x chunk) top_k then b'1' else b'0'

map_digits :
    (chunk xs : List ℕ)
    → length chunk ≡ chunk_size
    → ((v : ℕ) → 0 < matches v xs → 0 < matches v chunk)
    → map (λ x. converted_count (top_counts chunk) x + b'0') xs ≡ map (wide_digit chunk) xs
unfolding matches
map_digits chunk [] h sub = refl
map_digits chunk (x ∷ xs) h sub = ap₂ ◌∷◌ head (map_digits chunk xs h (λ v m. sub v (ground arith)))
  where
    head : converted_count (top_counts chunk) x + b'0' ≡ wide_digit chunk x
    head = ground (arith, converted_count_lem chunk x h, sub x)

-- For a chunk of nine bar widths the string that is looked up has, bar by bar, the digit 1 exactly
-- if fewer than three bars of the chunk are wider, and 0 otherwise: all bars as wide as the third
-- widest are marked, also where there are more than three of them.
pub binary_string_lem :
    (chunk : List ℕ)
    → length chunk ≡ chunk_size
    → binary_string chunk ≡ map (wide_digit chunk) chunk
unfolding binary_string
binary_string_lem chunk h = map_digits chunk chunk h (λ v m. m)
