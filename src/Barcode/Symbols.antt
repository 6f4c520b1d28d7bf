-- ===== src/Barcode/Symbols.antt =====
-- buddy3/buddy3.c: the readings of a symbol that is not the last of a card, and of the gap behind it,
-- up to the first reading of the next symbol.
use mathlib.Core.Path.{subst}
use robotic_car_p3e.Prelude.{
  ℕ, zero, suc, ◌+◌, ◌*◌, ◌%◌, ◌<◌, ◌≡◌, refl, sym, ap, ◌∙◌, Bool, true, false, ◌==◌, List, [], ◌∷◌,
  ◌++◌, map, length, arith, set,
}
use robotic_car_p3e.Barcode.Bars.{binary_string}
use robotic_car_p3e.Barcode.Tables.{map_binary_to_char}
use robotic_car_p3e.Barcode.Scanner.{
  Scanner, convert_due, count_reading, finish_barcode, resume_on_black, barcode_detector, is_black,
}
use robotic_car_p3e.Barcode.Invariant.{IsValid, barcode_detector-IsValid}
use robotic_car_p3e.Barcode.Detector.{barcode_detector_waiting}
use robotic_car_p3e.Barcode.Readings.{Counts, stay, feed}
use robotic_car_p3e.Barcode.Symbol.{counted_bars, counted_bars-Counts, symbol_end, symbol_widths}
use robotic_car_p3e.Barcode.Chunk.{
  chunk_widths, behind_chunk, chunk_known, chunk_forward, chunk_backward,
}

-- The first reading of a symbol, in a state that waits for a black bar.
abbrev resumed : Scanner → Scanner
resumed s = record s { barcode_black_detected = true; waiting_for_black = false; stay_count = 1 }

-- A white reading behind a chunk, and the black one that begins the next.
waits_on :
    (v : ℕ) (s : Scanner)
    → IsValid s
    → s.waiting_for_black ≡ true
    → s.barcode_black_detected ≡ false
    → is_black v ≡ false
    → barcode_detector v s ≡ s
waits_on v s h w c white = ground (arith, barcode_detector_waiting v s h w white)

resumes :
    (v : ℕ) (s : Scanner)
    → IsValid s
    → s.waiting_for_black ≡ true
    → is_black v ≡ true
    → barcode_detector v s ≡ resumed s
unfolding barcode_detector count_reading convert_due finish_barcode resume_on_black
resumes v s h w black = ground arith

-- The reader behind the first reading of the symbol of the given number.
pub record At (k : ℕ) (s : Scanner) : Type 0 where
  pub counts : Counts s true
  pub one : s.stay_count ≡ 1
  pub bars : s.barcount ≡ k * 9
  pub index : s.char_index ≡ k

-- The digits of a symbol, from the readings of its bars beyond the first of each.
abbrev pub bits_of : List ℕ → ℕ → List ℕ
bits_of ns n = binary_string (map (λ k. 1 + k) (ns ++ n ∷ []))

-- What a symbol comes to that is read as the given character.
pub record Reads (k : ℕ) (d : Bool) (c : ℕ) (s t : Scanner) : Type 0 where
  pub at_next : At (suc k) t
  pub known : t.direction_determined ≡ true
  pub direction : t.direction ≡ d
  pub chars : t.converted_chars ≡ set s.converted_chars k c

module _ (shade : Bool → ℕ) (faithful : (black : Bool) → is_black (shade black) ≡ black) where
  stay-waiting :
      (g : ℕ) (s : Scanner)
      → IsValid s
      → s.waiting_for_black ≡ true
      → s.barcode_black_detected ≡ false
      → stay g (shade false) s ≡ s
  unfolding stay
  stay-waiting zero s h w c = refl
  stay-waiting (suc g) s h w c =
      ap (stay g (shade false)) (waits_on (shade false) s h w c (faithful false))
      ∙ stay-waiting g s h w c

  module _ (ns : List ℕ) (n : ℕ) (s : Scanner) (eight : length ns ≡ 8) (h : Counts s true)
      (one : s.stay_count ≡ 1) (whole : s.barcount % 9 ≡ 0) where
    -- The rest of the symbol's chunk, the gap, and the first reading of the next symbol.
    next_symbol :
        (g c : ℕ) (d : Bool)
        → barcode_detector (shade false) (counted_bars ns n s)
          ≡ behind_chunk d c (counted_bars ns n s)
        → (barcode_detector (shade true) (stay g (shade false) (feed shade (ns ++ n ∷ []) true s))
            ≡ resumed (behind_chunk d c (counted_bars ns n s)))
          × Counts (resumed (behind_chunk d c (counted_bars ns n s))) true
    next_symbol g c d e =
        let t = behind_chunk d c (counted_bars ns n s) in
        let valid = subst IsValid e (
          barcode_detector-IsValid (shade false) (counted_bars ns n s)
            (counted_bars-Counts shade faithful ns n s eight h one whole).valid) in
        let first = resumes (shade true) t valid refl (faithful true) in
        (
          ap (λ u. barcode_detector (shade true) (stay g (shade false) u))
                (symbol_end shade faithful ns n s eight h one whole ∙ e)
              ∙ ap (barcode_detector (shade true)) (stay-waiting g t valid refl refl)
              ∙ first,
          record {
            valid = subst IsValid first (barcode_detector-IsValid (shade true) t valid);
            awake = refl;
            colour = refl;
            begun = omega arith;
          },
        )

  -- A symbol, the gap behind it, with so many readings beyond its first, and the first reading of the
  -- next.
  abbrev pub through : List ℕ → ℕ → ℕ → Scanner → Scanner
  through ns n g s =
      barcode_detector (shade true) (stay g (shade false) (feed shade (ns ++ n ∷ []) true s))

  through-Reads :
      (k : ℕ) (ns : List ℕ) (n g c : ℕ) (d : Bool) (s : Scanner)
      → length ns ≡ 8
      → At k s
      → barcode_detector (shade false) (counted_bars ns n s)
        ≡ behind_chunk d c (counted_bars ns n s)
      → Reads k d c s (through ns n g s)
  through-Reads k ns n g c d s eight h e =
      let (reached, counts) =
        next_symbol ns n s eight h.counts h.one (omega (arith, h.bars)) g c d e in
      subst (Reads k d c s) (sym reached) (record {
        at_next = record {
          counts = counts;
          one = refl;
          bars = omega (arith, h.bars, eight);
          index = omega (arith, h.index);
        };
        known = refl;
        direction = refl;
        chars = ap (λ i. set s.converted_chars i c) h.index;
      })

  module _ (k : ℕ) (ns : List ℕ) (n g : ℕ) (s : Scanner) (eight : length ns ≡ 8) (h : At k s)
      (few : k < 2) where
    same_bits : binary_string (chunk_widths (counted_bars ns n s)) ≡ bits_of ns n
    same_bits =
        ap binary_string
          (symbol_widths shade faithful ns n s eight h.counts h.one (omega (arith, h.bars)))

    q-Counts : Counts (counted_bars ns n s) true
    q-Counts =
        counted_bars-Counts shade faithful ns n s eight h.counts h.one (omega (arith, h.bars))

    pub known_symbol :
        s.direction_determined ≡ true
        → Reads k s.direction (map_binary_to_char (bits_of ns n) s.direction) s (through ns n g s)
    known_symbol known =
        through-Reads k ns n g (map_binary_to_char (bits_of ns n) s.direction) s.direction s eight h
          (chunk_known (shade false) (counted_bars ns n s) q-Counts (omega (arith, h.bars, eight))
              (omega (arith, h.bars, eight)) (faithful false) known
            ∙ ap
                (λ b.
                  behind_chunk s.direction (map_binary_to_char b s.direction) (counted_bars ns n s))
                same_bits)

    pub forward_mark :
        s.direction_determined ≡ false
        → map_binary_to_char (bits_of ns n) false ≡ b'*'
        → Reads k false b'*' s (through ns n g s)
    forward_mark open_yet mark = through-Reads k ns n g b'*' false s eight h (
        chunk_forward (shade false) (counted_bars ns n s) q-Counts (omega (arith, h.bars, eight))
          (omega (arith, h.bars, eight)) (faithful false) open_yet
          (ap (λ b. map_binary_to_char b false) same_bits ∙ mark))

    pub backward_mark :
        s.direction_determined ≡ false
        → (map_binary_to_char (bits_of ns n) false == b'*') ≡ false
        → map_binary_to_char (bits_of ns n) true ≡ b'*'
        → Reads k true b'*' s (through ns n g s)
    backward_mark open_yet no_mark mark = through-Reads k ns n g b'*' true s eight h (
        chunk_backward (shade false) (counted_bars ns n s) q-Counts (omega (arith, h.bars, eight))
          (omega (arith, h.bars, eight)) (faithful false) open_yet
          (ap (λ b. map_binary_to_char b false == b'*') same_bits ∙ no_mark)
          (ap (λ b. map_binary_to_char b true) same_bits ∙ mark))
