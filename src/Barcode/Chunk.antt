-- ===== src/Barcode/Chunk.antt =====
-- buddy3/buddy3.c: the white reading that ends a chunk, where it is not the last of a card, and the gap
-- behind it.
use robotic_car_p3e.Prelude.{
  ℕ, ◌+◌, ◌-◌, ◌%◌, ◌<◌, ◌≡◌, Bool, true, false, ◌==◌, List, arith, set, take, drop, pos,
}
use robotic_car_p3e.Barcode.Bars.{binary_string}
use robotic_car_p3e.Barcode.Tables.{map_binary_to_char}
use robotic_car_p3e.Barcode.Scanner.{
  Scanner, convert_chunk, convert_last, convert_due, count_reading, finish_barcode, resume_on_black,
  barcode_detector, is_black, record_bar,
}
use robotic_car_p3e.Barcode.Invariant.{convert_stay_counts_nine}
use robotic_car_p3e.Barcode.Readings.{Counts}

-- The widths of the chunk that a white reading completes.
abbrev pub chunk_widths : Scanner → List ℕ
chunk_widths s = take 9 (drop (s.barcount + 1 - 9) (set s.stay_counts s.barcount s.stay_count))

-- The state behind a chunk that has been read as a character.
abbrev pub behind_chunk : Bool → ℕ → Scanner → Scanner
behind_chunk d c s = record s {
  stay_counts = set s.stay_counts s.barcount s.stay_count;
  barcount = s.barcount + 1;
  stay_count = 1;
  barcode_black_detected = false;
  converted_chars = set s.converted_chars s.char_index c;
  char_index = s.char_index + 1;
  last_conversion_barcount = pos (s.barcount + 1);
  waiting_for_black = true;
  direction_determined = true;
  direction = d;
}

module _ (v : ℕ) (s : Scanner) (h : Counts s true) (last : s.barcount % 9 ≡ 8)
    (more : s.barcount + 1 < 27) (white : is_black v ≡ false) where
  abbrev counted : Scanner
  counted = record s {
    stay_counts = set s.stay_counts s.barcount s.stay_count;
    barcount = s.barcount + 1;
    stay_count = 1;
    barcode_black_detected = false;
  }

  pub chunk_known :
      s.direction_determined ≡ true
      → barcode_detector v s
        ≡ behind_chunk s.direction
            (map_binary_to_char (binary_string (chunk_widths s)) s.direction)
            s
  unfolding barcode_detector count_reading record_bar convert_due convert_last convert_chunk
      finish_barcode resume_on_black
  chunk_known known = ground (
    arith,
    convert_stay_counts_nine (drop (s.barcount + 1 - 9) (set s.stay_counts s.barcount s.stay_count))
        counted,
  )

  pub chunk_forward :
      s.direction_determined ≡ false
      → map_binary_to_char (binary_string (chunk_widths s)) false ≡ b'*'
      → barcode_detector v s ≡ behind_chunk false b'*' s
  unfolding barcode_detector count_reading record_bar convert_due convert_last convert_chunk
      finish_barcode resume_on_black
  chunk_forward open_yet mark = ground (
    arith,
    convert_stay_counts_nine (drop (s.barcount + 1 - 9) (set s.stay_counts s.barcount s.stay_count))
        counted,
  )

  pub chunk_backward :
      s.direction_determined ≡ false
      → (map_binary_to_char (binary_string (chunk_widths s)) false == b'*') ≡ false
      → map_binary_to_char (binary_string (chunk_widths s)) true ≡ b'*'
      → barcode_detector v s ≡ behind_chunk true b'*' s
  unfolding barcode_detector count_reading record_bar convert_due convert_last convert_chunk
      finish_barcode resume_on_black
  chunk_backward open_yet no_mark mark = ground (
    arith,
    convert_stay_counts_nine (drop (s.barcount + 1 - 9) (set s.stay_counts s.barcount s.stay_count))
        counted,
  )
