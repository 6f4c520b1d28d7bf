-- ===== src/Barcode/Card.antt =====
-- buddy3/buddy3.c: the readings of a whole card, from a reader at rest to its three characters.
use mathlib.Core.List.{reverse-reverse}
use robotic_car_p3e.Prelude.{
  ℕ, ◌≡◌, refl, sym, ap, ap₂, ◌∙◌, Bool, true, false, ◌==◌, List, [], ◌∷◌, ◌++◌, length, arith, set,
  reverse, get_or, all_below, all_below_sound, not, if◌then◌else◌,
}
use robotic_car_p3e.Barcode.Tables.{array_char, array_code, map_binary_to_char}
use robotic_car_p3e.Barcode.Mirror.{map_binary_to_char-reverse, map_binary_to_char_sound}
use robotic_car_p3e.Barcode.Scanner.{
  Scanner, convert_due, count_reading, finish_barcode, resume_on_black, barcode_detector, is_black,
  record_bar,
}
use robotic_car_p3e.Barcode.Invariant.{IsValid, barcode_detector-IsValid}
use robotic_car_p3e.Barcode.Readings.{feed}
use robotic_car_p3e.Barcode.Symbol.{feed_symbol}
use robotic_car_p3e.Barcode.Symbols.{
  At, Reads, bits_of, through, known_symbol, forward_mark, backward_mark,
}

-- No code of the table that stands for the start mark is one when it is read backwards.
abbrev one_way : ℕ → Bool
one_way i =
    if get_or array_char i 0 == b'*'
    then not (map_binary_to_char (reverse (get_or array_code i [])) false == b'*')
    else true

codes_one_way : all_below 44 one_way ≡ true
unfolding map_binary_to_char
codes_one_way = refl

one_way_at :
    (i : ℕ)
    → one_way i ≡ true
    → get_or array_char i 0 ≡ b'*'
    → not (map_binary_to_char (reverse (get_or array_code i [])) false == b'*') ≡ true
one_way_at i h char = ground (arith, h)

holds_not : (b : Bool) → not b ≡ true → b ≡ false
holds_not true h = sym h
holds_not false h = refl

-- A start mark read backwards is no start mark.
mark_one_way :
    (bits : List ℕ)
    → map_binary_to_char bits true ≡ b'*'
    → (map_binary_to_char bits false == b'*') ≡ false
mark_one_way bits mark =
    let (i, below, code, char) =
      map_binary_to_char_sound (reverse bits) b'*'
        (sym (map_binary_to_char-reverse (reverse bits))
          ∙ ap (λ b. map_binary_to_char b true) (reverse-reverse bits)
          ∙ mark)
        (λ e. omega arith) in
    let same : reverse (get_or array_code i []) ≡ bits = ap reverse code ∙ reverse-reverse bits in
    ap (λ b. map_binary_to_char b false == b'*') (sym same)
    ∙ holds_not _ (one_way_at i (all_below_sound 44 one_way i codes_one_way below) char)

-- Three places, filled one after the other.
three_set :
    (xs : List ℕ) (a b c : ℕ) → length xs ≡ 3 → set (set (set xs 0 a) 1 b) 2 c ≡ a ∷ b ∷ c ∷ []
three_set [] a b c h = absurd (omega arith)
three_set (x ∷ []) a b c h = absurd (omega arith)
three_set (x ∷ y ∷ []) a b c h = absurd (omega arith)
three_set (x ∷ y ∷ z ∷ []) a b c h = refl
three_set (x ∷ y ∷ z ∷ w ∷ xs) a b c h = absurd (omega arith)

stored_card :
    (xs ys zs : List ℕ) (i : ℕ) (d e k : Bool) (char : Bool → ℕ) (last : Bool → ℕ)
    → length xs ≡ 3
    → ys ≡ set xs 0 b'*'
    → zs ≡ set ys 1 (char e)
    → i ≡ 2
    → k ≡ e
    → e ≡ d
    → set zs i (last k) ≡ b'*' ∷ char d ∷ last d ∷ []
stored_card xs ys zs i d e k char last three first second two same dir =
    ap₂ (λ ws j. set ws j (last k)) (second ∙ ap (λ ws. set ws 1 (char e)) first) two
    ∙ ap (λ b. set (set (set xs 0 b'*') 1 (char e)) 2 (last b)) (same ∙ dir)
    ∙ ap (λ b. set (set (set xs 0 b'*') 1 (char b)) 2 (last d)) dir
    ∙ three_set xs b'*' (char d) (last d) three

-- A reader that has seen nothing of a card.
pub record AtRest (s : Scanner) : Type 0 where
  pub valid : IsValid s
  pub awake : s.waiting_for_black ≡ false
  pub white : s.barcode_black_detected ≡ false
  pub no_count : s.stay_count ≡ 0
  pub no_bars : s.barcount ≡ 0
  pub no_chars : s.char_index ≡ 0
  pub open_yet : s.direction_determined ≡ false

-- The first black reading of a card.
begins :
    (v : ℕ) (s : Scanner)
    → AtRest s
    → is_black v ≡ true
    → barcode_detector v s ≡ record s { stay_count = 1; barcode_black_detected = true }
unfolding barcode_detector count_reading record_bar convert_due finish_barcode resume_on_black
begins v s h black = ground (arith, h.valid.incomplete)

module _ (shade : Bool → ℕ) (faithful : (black : Bool) → is_black (shade black) ≡ black) where
  -- The readings of three symbols and the gaps between them, from the first black one on.
  abbrev pub read_card : List ℕ → ℕ → ℕ → List ℕ → ℕ → ℕ → List ℕ → ℕ → Scanner → Scanner
  read_card ms m f ns n g ps p s = feed shade (ps ++ p ∷ []) true (
      through shade faithful ns n g
        (through shade faithful ms m f (barcode_detector (shade true) s)))

  begin_card :
      (s : Scanner)
      → AtRest s
      → let t = barcode_detector (shade true) s in
        At 0 t × t.direction_determined ≡ false × t.converted_chars ≡ s.converted_chars
  begin_card s h =
      let e = begins (shade true) s h (faithful true) in
      let valid = barcode_detector-IsValid (shade true) s h.valid in
      (
        record {
          counts = record {
            valid = valid;
            awake = ap (λ (t : Scanner). t.waiting_for_black) e ∙ h.awake;
            colour = ap (λ (t : Scanner). t.barcode_black_detected) e;
            begun = rw (ap (λ (t : Scanner). t.stay_count) e) (omega arith);
          };
          one = ap (λ (t : Scanner). t.stay_count) e;
          bars = ap (λ (t : Scanner). t.barcount) e ∙ h.no_bars;
          index = ap (λ (t : Scanner). t.char_index) e ∙ h.no_chars;
        },
        ap (λ (t : Scanner). t.direction_determined) e ∙ h.open_yet,
        ap (λ (t : Scanner). t.converted_chars) e,
      )

  start_symbol :
      (ms : List ℕ) (m f : ℕ) (d : Bool) (s : Scanner)
      → length ms ≡ 8
      → At 0 s
      → s.direction_determined ≡ false
      → map_binary_to_char (bits_of ms m) d ≡ b'*'
      → Reads 0 d b'*' s (through shade faithful ms m f s)
  start_symbol ms m f false s eight h open_yet mark =
      forward_mark shade faithful 0 ms m f s eight h (omega arith) open_yet mark
  start_symbol ms m f true s eight h open_yet mark =
      backward_mark shade faithful 0 ms m f s eight h (omega arith) open_yet
        (mark_one_way (bits_of ms m) mark) mark

  -- The readings of a whole card, from a reader at rest, with one value for each colour: three symbols
  -- of nine bars, each bar with one or more readings, and one or more white readings in each of the
  -- two gaps, where the first symbol is a start mark in one of the two directions. The three
  -- characters that the reader holds behind the last bar are the mark and what the tables give for the
  -- widths of the second and of the third symbol, read in the direction of the mark.
  pub read_card_lem :
      (ms : List ℕ) (m f : ℕ) (ns : List ℕ) (n g : ℕ) (ps : List ℕ) (p : ℕ) (d : Bool) (s : Scanner)
      → AtRest s
      → length ms ≡ 8
      → length ns ≡ 8
      → length ps ≡ 8
      → map_binary_to_char (bits_of ms m) d ≡ b'*'
      → (read_card ms m f ns n g ps p s).converted_chars
        ≡ b'*' ∷ map_binary_to_char (bits_of ns n) d ∷ map_binary_to_char (bits_of ps p) d ∷ []
  read_card_lem ms m f ns n g ps p d s h eight1 eight2 eight3 mark =
      let (at_first, open_yet, chars) = begin_card s h in
      let t = barcode_detector (shade true) s in
      let first = start_symbol ms m f d t eight1 at_first open_yet mark in
      let u = through shade faithful ms m f t in
      let second =
        known_symbol shade faithful 1 ns n g u eight2 first.at_next (omega arith) first.known in
      let w = through shade faithful ns n g u in
      feed_symbol shade faithful ps p w eight3 second.at_next.counts second.at_next.one
        (omega (arith, second.at_next.bars)) second.known
      ∙ stored_card t.converted_chars u.converted_chars w.converted_chars w.char_index d u.direction
          w.direction (map_binary_to_char (bits_of ns n)) (map_binary_to_char (bits_of ps p))
          (ap length chars ∙ h.valid.fits.chars_size) first.chars second.chars second.at_next.index
          second.direction first.direction
