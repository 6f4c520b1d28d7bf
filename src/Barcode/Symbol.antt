-- ===== src/Barcode/Symbol.antt =====
-- buddy3/buddy3.c: the readings of nine bars, one after the other, end to end: the character that
-- the detector makes of them.
use mathlib.Core.Path.{subst}
use robotic_car_p3e.Prelude.{
  ℕ, zero, suc, ◌+◌, ◌-◌, ◌%◌, ◌≡◌, refl, sym, ap, ap₂, length-append, ◌∙◌, Bool, true, false, List,
  [], ◌∷◌, ◌++◌, map, arith, length, set, take, drop,
}
use robotic_car_p3e.Barcode.Bars.{binary_string}
use robotic_car_p3e.Barcode.Tables.{map_binary_to_char}
use robotic_car_p3e.Barcode.Scanner.{
  Scanner, convert_chunk, convert_last, convert_due, count_reading, finish_barcode, resume_on_black,
  barcode_detector, is_black, record_bar,
}
use robotic_car_p3e.Barcode.Invariant.{convert_stay_counts_nine}
use robotic_car_p3e.Barcode.Stored.{store_bars, store_bars-snoc, take-store_bars}
use robotic_car_p3e.Barcode.Chunk.{chunk_widths}
use robotic_car_p3e.Barcode.Readings.{
  Counts, stay, feed, colour_after, after_bars, stay-Counts, stay_lem, feed_lem, feed-append,
}

pub colour_after_even :
    (k : ℕ) (ns : List ℕ) (black : Bool) → length ns ≡ k + k → colour_after ns black ≡ black
colour_after_even zero [] black h = refl
colour_after_even zero (n ∷ ns) black h = absurd (omega arith)
colour_after_even (suc k) [] black h = absurd (omega arith)
colour_after_even (suc k) (n ∷ []) black h = absurd (omega arith)
colour_after_even (suc k) (n ∷ m ∷ ns) true h = colour_after_even k ns true (omega arith)
colour_after_even (suc k) (n ∷ m ∷ ns) false h = colour_after_even k ns false (omega arith)

-- The state before the reading that ends the ninth bar of a symbol.
abbrev pub counted_bars : List ℕ → ℕ → Scanner → Scanner
counted_bars ns n s = record (after_bars ns true s) { stay_count = 1 + n }

-- The white reading that ends the last bar of a chunk, once the direction is known.
chunk_end :
    (v : ℕ) (s : Scanner)
    → Counts s true
    → s.barcount % 9 ≡ 8
    → s.direction_determined ≡ true
    → is_black v ≡ false
    → (barcode_detector v s).converted_chars
      ≡ set s.converted_chars s.char_index (
          map_binary_to_char
            (binary_string
              (take 9 (drop (s.barcount + 1 - 9) (set s.stay_counts s.barcount s.stay_count))))
            s.direction)
unfolding barcode_detector count_reading record_bar convert_due convert_last convert_chunk
    finish_barcode resume_on_black
chunk_end v s h last known white =
    let counts = set s.stay_counts s.barcount s.stay_count in
    let t = record s {
      stay_counts = counts;
      barcount = s.barcount + 1;
      stay_count = 1;
      barcode_black_detected = false;
    } in
    ground (arith, convert_stay_counts_nine (drop (s.barcount + 1 - 9) counts) t)

module _ (shade : Bool → ℕ) (faithful : (black : Bool) → is_black (shade black) ≡ black) where
  module _ (ns : List ℕ) (n : ℕ) (s : Scanner) (eight : length ns ≡ 8) (h : Counts s true)
      (one : s.stay_count ≡ 1) (whole : s.barcount % 9 ≡ 0) where
    even : colour_after ns true ≡ true
    even = colour_after_even 4 ns true (rw eight)

    eight_bars : (feed shade ns true s ≡ after_bars ns true s) × Counts (after_bars ns true s) true
    eight_bars =
        let (e, c) = feed_lem shade faithful ns true s h one (omega arith) in
        (e, subst (λ t. Counts t true) e (subst (Counts (feed shade ns true s)) even c))

    stayed : stay n (shade true) (after_bars ns true s) ≡ counted_bars ns n s
    stayed = stay_lem shade faithful n true (after_bars ns true s) eight_bars.1

    pub counted_bars-Counts : Counts (counted_bars ns n s) true
    counted_bars-Counts =
        subst (λ t. Counts t true) stayed
          (stay-Counts shade faithful n true (after_bars ns true s) eight_bars.1)

    pub symbol_end :
        feed shade (ns ++ n ∷ []) true s ≡ barcode_detector (shade false) (counted_bars ns n s)
    unfolding feed
    symbol_end =
        feed-append shade faithful ns (n ∷ []) true s
        ∙ ap (λ c. feed shade (n ∷ []) c (feed shade ns true s)) even
        ∙ ap (λ t. barcode_detector (shade false) (stay n (shade true) t)) eight_bars.0
        ∙ ap (barcode_detector (shade false)) stayed

    nine : length (ns ++ n ∷ []) ≡ 9
    nine = omega (arith, length-append {0} ns (n ∷ []))

    pub symbol_widths : chunk_widths (counted_bars ns n s) ≡ map (λ k. 1 + k) (ns ++ n ∷ [])
    symbol_widths =
        ap₂ (λ i c. take 9 (drop i c)) (omega arith) (store_bars-snoc s.stay_counts s.barcount n ns)
        ∙ ap (λ k. take k (drop s.barcount (store_bars s.stay_counts s.barcount (ns ++ n ∷ []))))
            (sym nine)
        ∙ take-store_bars s.stay_counts s.barcount (ns ++ n ∷ [])
            (omega (arith, nine, h.valid.fits.counts_size))

    -- Readings of nine bars, from a valid state that has just counted the first reading of the first
    -- bar of a chunk, when the direction is known: the character that is stored, in the next free
    -- place, is the one that the tables give for the widths of the nine bars in that direction.
    pub feed_symbol :
        s.direction_determined ≡ true
        → (feed shade (ns ++ n ∷ []) true s).converted_chars
          ≡ set s.converted_chars s.char_index
              (map_binary_to_char (binary_string (map (λ k. 1 + k) (ns ++ n ∷ []))) s.direction)
    feed_symbol known =
        ap (λ (u : Scanner). u.converted_chars) symbol_end
        ∙ chunk_end (shade false) (counted_bars ns n s) counted_bars-Counts
            (omega (arith, whole, eight)) known (faithful false)
        ∙ ap
            (λ w.
              set s.converted_chars s.char_index (map_binary_to_char (binary_string w) s.direction))
            symbol_widths
