-- ===== src/Barcode/Tables.antt =====
-- The Code 39 tables of buddy3/buddy3.c and the two lookups over them.
use robotic_car_p3e.Prelude.{
  ℕ, ◌+◌, Bool, Option, none, some, List, [], ◌∷◌, codes, eq_bytes, get_or, if◌then◌else◌,
}

-- `array_char`: the character of each code.
abbrev pub array_char : List ℕ
array_char = codes "0123456789ABCDEFGHIJKLMNOPQRSTUVWXYZ_.$/+% *"

-- `array_code`: nine bars each, `1` for a wide one.
abbrev pub array_code : List (List ℕ)
array_code =
    codes "000110100"
    ∷ codes "100100001"
    ∷ codes "001100001"
    ∷ codes "101100000"
    ∷ codes "000110001"
    ∷ codes "100110000"
    ∷ codes "001110000"
    ∷ codes "000100101"
    ∷ codes "100100100"
    ∷ codes "001100100"
    ∷ codes "100001001"
    ∷ codes "001001001"
    ∷ codes "101001000"
    ∷ codes "000011001"
    ∷ codes "100011000"
    ∷ codes "001011000"
    ∷ codes "000001101"
    ∷ codes "100001100"
    ∷ codes "001001100"
    ∷ codes "000011100"
    ∷ codes "100000011"
    ∷ codes "001000011"
    ∷ codes "101000010"
    ∷ codes "000010011"
    ∷ codes "100010010"
    ∷ codes "001010010"
    ∷ codes "000000111"
    ∷ codes "100000110"
    ∷ codes "001000110"
    ∷ codes "000010110"
    ∷ codes "110000001"
    ∷ codes "011000001"
    ∷ codes "111000000"
    ∷ codes "010010001"
    ∷ codes "110010000"
    ∷ codes "011010000"
    ∷ codes "010000101"
    ∷ codes "110000100"
    ∷ codes "010101000"
    ∷ codes "010100010"
    ∷ codes "010001010"
    ∷ codes "000101010"
    ∷ codes "011000100"
    ∷ codes "010010100"
    ∷ []

-- `array_reverse_code`: the codes as they are met when the card is drawn backwards.
abbrev pub array_reverse_code : List (List ℕ)
array_reverse_code =
    codes "001011000"
    ∷ codes "100001001"
    ∷ codes "100001100"
    ∷ codes "000001101"
    ∷ codes "100011000"
    ∷ codes "000011001"
    ∷ codes "000011100"
    ∷ codes "101001000"
    ∷ codes "001001001"
    ∷ codes "001001100"
    ∷ codes "100100001"
    ∷ codes "100100100"
    ∷ codes "000100101"
    ∷ codes "100110000"
    ∷ codes "000110001"
    ∷ codes "000110100"
    ∷ codes "101100000"
    ∷ codes "001100001"
    ∷ codes "001100100"
    ∷ codes "001110000"
    ∷ codes "110000001"
    ∷ codes "110000100"
    ∷ codes "010000101"
    ∷ codes "110010000"
    ∷ codes "010010001"
    ∷ codes "010010100"
    ∷ codes "111000000"
    ∷ codes "011000001"
    ∷ codes "011000100"
    ∷ codes "011010000"
    ∷ codes "100000011"
    ∷ codes "100000110"
    ∷ codes "000000111"
    ∷ codes "100010010"
    ∷ codes "000010011"
    ∷ codes "000010110"
    ∷ codes "101000010"
    ∷ codes "001000011"
    ∷ codes "000101010"
    ∷ codes "010001010"
    ∷ codes "010100010"
    ∷ codes "010101000"
    ∷ codes "001000110"
    ∷ codes "001010010"
    ∷ []

abbrev pub unmapped_char : ℕ
unmapped_char = b'?'

-- The loop of `find_binary_index` from index `i` on; `none` is its -1.
unfoldable pub find_from : List ℕ → List (List ℕ) → ℕ → Option ℕ
find_from binary_code [] i = none
find_from binary_code (c ∷ cs) i =
    let rest = find_from binary_code cs (i + 1) in if eq_bytes c binary_code then some i else rest

unfoldable pub find_binary_index : List ℕ → List (List ℕ) → Option ℕ
unfolding find_from
find_binary_index binary_code code_array = find_from binary_code code_array 0

-- `array_char[index]`, or the mark of an unknown code.
abbrev pub char_at_index : Option ℕ → ℕ
char_at_index none = unmapped_char
char_at_index (some index) = get_or array_char index 0

unfoldable pub map_binary_to_char : List ℕ → Bool → ℕ
unfolding find_binary_index
map_binary_to_char binary_code reversed =
    char_at_index
      (find_binary_index binary_code (if reversed then array_reverse_code else array_code))
