-- ===== src/Barcode/Mirror.antt =====
-- buddy3/buddy3.c: what the two code tables and `map_binary_to_char` promise together.
use mathlib.Core.List.{reverse-reverse}
use robotic_car_p3e.Prelude.{
  ℕ, suc, ◌+◌, ◌<◌, ◌≡◌, refl, sym, ap, ◌∙◌, inl, inr, Bool, true, false, some, List, [], ◌∷◌, map,
  reverse, arith, eq_bytes, eq_bytes_refl, eq_bytes_sound, get_or, length, all_below,
  all_below_sound, ◌==◌, ==_iff, Bool-cases, ◌≢◌, Option-cases,
}
use robotic_car_p3e.Barcode.Tables.{
  array_char, array_code, array_reverse_code, unmapped_char, find_from, find_binary_index,
  char_at_index, map_binary_to_char,
}

reverse_injective : (a b : List ℕ) → reverse a ≡ reverse b → a ≡ b
reverse_injective a b h = sym (reverse-reverse a) ∙ ap reverse h ∙ reverse-reverse b

eq_bytes-reverse : (a b : List ℕ) → eq_bytes (reverse a) (reverse b) ≡ eq_bytes a b
eq_bytes-reverse a b = elim (Bool-cases (eq_bytes a b)) [
  | inl e ↦ rw (eq_bytes_sound a b e) (eq_bytes_refl (reverse b) ∙ sym (eq_bytes_refl b))
  | inr e ↦ elim (Bool-cases (eq_bytes (reverse a) (reverse b))) [
    | inl r ↦ cc (reverse_injective a b (eq_bytes_sound _ _ r), eq_bytes_refl b)
    | inr r ↦ r ∙ sym e
  ]
]

find_from-reverse :
    (s : List ℕ) (cs : List (List ℕ)) (i : ℕ)
    → find_from (reverse s) (map reverse cs) i ≡ find_from s cs i
unfolding find_from
find_from-reverse s [] i = refl
find_from-reverse s (c ∷ cs) i = rw (eq_bytes-reverse c s, find_from-reverse s cs (i + 1))

tables_mirror : array_reverse_code ≡ map reverse array_code
tables_mirror = refl

-- A code read backwards and looked up in the reversed table gives the character that the code
-- gives in the normal table, for every string of bars, in the tables or not.
pub map_binary_to_char-reverse :
    (s : List ℕ) → map_binary_to_char (reverse s) true ≡ map_binary_to_char s false
unfolding map_binary_to_char
map_binary_to_char-reverse s = ap char_at_index (find_from-reverse s array_code 0)

-- A successful search stands at an index of the table that holds the code.
find_from-some :
    (s : List ℕ) (cs : List (List ℕ)) (i k : ℕ)
    → find_from s cs i ≡ some k
    → (j : ℕ) × (k ≡ i + j) × (j < length cs) × (get_or cs j [] ≡ s)
unfolding find_from
find_from-some s [] i k h = cc
find_from-some s (c ∷ cs) i k h = elim (Bool-cases (eq_bytes c s)) [
  | inl e ↦ (0, ground arith, omega arith, eq_bytes_sound c s e)
  | inr e ↦ later (find_from-some s cs (i + 1) k (ground arith))
]
  where
    later :
        (j : ℕ) × (k ≡ i + 1 + j) × (j < length cs) × (get_or cs j [] ≡ s)
        → (j : ℕ) × (k ≡ i + j) × (j < length (c ∷ cs)) × (get_or (c ∷ cs) j [] ≡ s)
    later (j, e, l, g) = (suc j, omega arith, omega arith, g)

-- Every code of the table is found at its own index: no two characters share one.
abbrev finds_own : ℕ → Bool
finds_own i = map_binary_to_char (get_or array_code i []) false == get_or array_char i 0

codes_distinct : all_below 44 finds_own ≡ true
unfolding map_binary_to_char
codes_distinct = refl

-- Decoding a code of the table gives the character at the same index of `array_char`.
pub map_binary_to_char-array_code :
    (i : ℕ) → i < 44 → map_binary_to_char (get_or array_code i []) false ≡ get_or array_char i 0
map_binary_to_char-array_code i h = (==_iff _ _).0 (all_below_sound 44 finds_own i codes_distinct h)

-- A string of bars that decodes to a known character is the code of that character: there is an
-- index of the tables at which the string and the character stand.
pub map_binary_to_char_sound :
    (s : List ℕ) (c : ℕ)
    → map_binary_to_char s false ≡ c
    → c ≢ unmapped_char
    → (i : ℕ) × (i < 44) × (get_or array_code i [] ≡ s) × (get_or array_char i 0 ≡ c)
unfolding map_binary_to_char
map_binary_to_char_sound s c h known = elim (Option-cases (find_binary_index s array_code)) [
  | inl e ↦ absurd (known (sym h ∙ ap char_at_index e))
  | inr (k, e) ↦ found (find_from-some s array_code 0 k e) (sym (ap char_at_index e) ∙ h)
]
  where
    found :
        {k : ℕ}
        → (j : ℕ) × (k ≡ 0 + j) × (j < 44) × (get_or array_code j [] ≡ s)
        → get_or array_char k 0 ≡ c
        → (i : ℕ) × (i < 44) × (get_or array_code i [] ≡ s) × (get_or array_char i 0 ≡ c)
    found {k} (j, e, l, g) p =
        let same : j ≡ k = omega arith in (j, l, g, ap (λ m. get_or array_char m 0) same ∙ p)
