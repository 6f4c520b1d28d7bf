-- ===== src/Dhcp/Search.antt =====
-- dhcpserver.c, `opt_find`: the search ends, and what its result says.
use mathlib.Core.List.{append_assoc}
use robotic_car_p3e.Prelude.{
  ℕ, zero, suc, ◌+◌, ◌≤◌, ◌<◌, ◌≡◌, ◌≢◌, refl, sym, ap, ◌∙◌, some, List, [], ◌∷◌, ◌++◌, arith,
  length, ◌==◌, get_elem?, get_elem?-append, length-append, if◌then◌else◌, get_elem?-none,
  Option-cases, inl, inr,
}
use robotic_car_p3e.Dhcp.Options.{
  Find, found, null, overrun, out_of_fuel, find_at, opt_find, opt_bytes, opt_end,
}

find_at-total :
    (fuel : ℕ) (opt : List ℕ) (cmd i : ℕ)
    → 0 < fuel
    → opt_bytes < i + fuel
    → find_at fuel opt cmd i ≢ out_of_fuel
unfolding find_at
find_at-total zero opt cmd i p h = absurd (omega arith)
find_at-total (suc fuel) opt cmd i p h = elim (Option-cases (get_elem? opt (i + 1))) [
  | inl e ↦ ground arith
  | inr (n, e) ↦ ground (arith, find_at-total fuel opt cmd (i + (2 + n)))
]

-- The search always comes to an end within the fuel that it is given.
pub opt_find-total : (opt : List ℕ) (cmd : ℕ) → opt_find opt cmd ≢ out_of_fuel
unfolding opt_find
opt_find-total opt cmd = find_at-total (suc opt_bytes) opt cmd 0 (omega arith) (omega arith)

-- An option: its code and its data.
abbrev pub Opt : Type 0
Opt = ℕ × List ℕ

-- How options stand in a message: code, length, data, and an end mark behind the last.
abbrev pub encode : List Opt → List ℕ
encode [] = opt_end ∷ []
encode ((c, d) ∷ os) = c ∷ length d ∷ (d ++ encode os)

-- No option has the code of the end mark.
abbrev pub AllCodes : List Opt → Type 0
AllCodes [] = Unit {0}
AllCodes ((c, d) ∷ os) = (c ≢ opt_end) × AllCodes os

-- Where the first option of a code starts in the encoding of options that begins at `i`.
abbrev pub first_at : ℕ → ℕ → List Opt → Find
first_at i cmd [] = null
first_at i cmd ((c, d) ∷ os) =
    let rest = first_at (i + (2 + length d)) cmd os in if c == cmd then found i else rest

find_at-encode :
    (fuel : ℕ) (pre : List ℕ) (os : List Opt) (rest : List ℕ) (cmd i : ℕ)
    → i ≡ length pre
    → length (encode os) ≤ fuel
    → i + length (encode os) ≤ opt_bytes
    → AllCodes os
    → find_at fuel (pre ++ (encode os ++ rest)) cmd i ≡ first_at i cmd os
unfolding find_at
find_at-encode zero pre [] rest cmd i at fits room codes = absurd (omega arith)
find_at-encode zero pre ((c, d) ∷ os) rest cmd i at fits room codes = absurd (omega arith)
find_at-encode (suc fuel) pre [] rest cmd i at fits room codes =
    ground (arith, get_elem?-append pre (opt_end ∷ rest) 0)
find_at-encode (suc fuel) pre ((c, d) ∷ os) rest cmd i at fits room codes = ground (
  arith,
  here,
  size,
  ih (
      find_at-encode fuel (pre ++ (c ∷ length d ∷ d)) os rest cmd (i + (2 + length d))
        (omega (arith, length-append {0} pre (c ∷ length d ∷ d))) (omega (arith, shorter))
        (omega (arith, shorter)) codes.1),
)
  where
    all : List ℕ
    all = pre ++ (encode ((c, d) ∷ os) ++ rest)

    shorter : length (d ++ encode os) ≡ length d + length (encode os)
    shorter = length-append d (encode os)

    here : get_elem? all i ≡ some c
    here = ap (get_elem? all) (omega arith) ∙ get_elem?-append pre (encode ((c, d) ∷ os) ++ rest) 0

    size : get_elem? all (i + 1) ≡ some (length d)
    size = ap (get_elem? all) (omega arith) ∙ get_elem?-append pre (encode ((c, d) ∷ os) ++ rest) 1

    regroup : (pre ++ (c ∷ length d ∷ d)) ++ (encode os ++ rest) ≡ all
    regroup = simp append_assoc

    ih :
        find_at fuel ((pre ++ (c ∷ length d ∷ d)) ++ (encode os ++ rest)) cmd (i + (2 + length d))
          ≡ first_at (i + (2 + length d)) cmd os
        → find_at fuel all cmd (i + (2 + length d)) ≡ first_at (i + (2 + length d)) cmd os
    ih e = ap (λ m. find_at fuel m cmd (i + (2 + length d))) (sym regroup) ∙ e

-- In a message whose options are laid out one behind the other with an end mark, all within the
-- first 308 bytes, the search finds the first option of the code, or says that there is none.
pub opt_find-encode :
    (os : List Opt) (rest : List ℕ) (cmd : ℕ)
    → AllCodes os
    → length (encode os) ≤ opt_bytes
    → opt_find (encode os ++ rest) cmd ≡ first_at 0 cmd os
unfolding opt_find
opt_find-encode os rest cmd codes room =
    find_at-encode (suc opt_bytes) [] os rest cmd 0 refl (omega arith) (omega arith) codes

find_at-found :
    (fuel : ℕ) (opt : List ℕ) (cmd i j : ℕ)
    → find_at fuel opt cmd i ≡ found j
    → (j < opt_bytes) × (get_elem? opt j ≡ some cmd)
unfolding find_at
find_at-found zero opt cmd i j h = cc
find_at-found (suc fuel) opt cmd i j h = elim (Option-cases (get_elem? opt (i + 1))) [
  | inl e ↦ ground arith
  | inr (n, e) ↦ ground (arith, find_at-found fuel opt cmd (i + (2 + n)) j)
]

-- Whatever the message holds, an option that is found starts within the 308 bytes and has the code
-- that was looked for.
pub opt_find-found :
    (opt : List ℕ) (cmd j : ℕ)
    → opt_find opt cmd ≡ found j
    → (j < opt_bytes) × (get_elem? opt j ≡ some cmd)
unfolding opt_find
opt_find-found opt cmd j h = find_at-found (suc opt_bytes) opt cmd 0 j h

find_at-overrun :
    (fuel : ℕ) (opt : List ℕ) (cmd i : ℕ)
    → length opt ≡ opt_bytes
    → find_at fuel opt cmd i ≡ overrun
    → (b : ℕ) × (get_elem? opt 307 ≡ some b) × (b ≢ opt_end) × (b ≢ cmd)
unfolding find_at
find_at-overrun zero opt cmd i size h = cc
find_at-overrun (suc fuel) opt cmd i size h = elim (Option-cases (get_elem? opt i)) [
  | inl e ↦ absurd (ground (arith, get_elem?-none opt i e))
  | inr (b, e) ↦ elim (Option-cases (get_elem? opt (i + 1))) [
    | inl f ↦
        let last : i ≡ 307 = ground (arith, get_elem?-none opt (i + 1) f) in
        (b, ap (get_elem? opt) (sym last) ∙ e, ground arith, ground arith)
    | inr (n, f) ↦ find_at-overrun fuel opt cmd (i + (2 + n)) size (ground arith)
  ]
]

-- The search reads outside a message of the full size only if the last byte of the message is
-- neither the end mark nor the code: then it looks for a length behind that byte.
pub opt_find-overrun :
    (opt : List ℕ) (cmd : ℕ)
    → length opt ≡ opt_bytes
    → opt_find opt cmd ≡ overrun
    → (b : ℕ) × (get_elem? opt 307 ≡ some b) × (b ≢ opt_end) × (b ≢ cmd)
unfolding opt_find
opt_find-overrun opt cmd size h = find_at-overrun (suc opt_bytes) opt cmd 0 size h
