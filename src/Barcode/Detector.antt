-- ===== src/Barcode/Detector.antt =====
-- buddy3/buddy3.c: what single readings do to the detector.
use robotic_car_p3e.Prelude.{
  ℕ, ◌+◌, ◌-◌, ◌%◌, ◌<◌, ◌≡◌, ◌≢◌, true, false, List, arith, set, take, drop,
}
use robotic_car_p3e.Barcode.Bars.{chunk_size, binary_string}
use robotic_car_p3e.Barcode.Tables.{map_binary_to_char}
use robotic_car_p3e.Barcode.Scanner.{
  Scanner, convert_chunk, convert_last, convert_due, count_reading, differs, finish_barcode,
  resume_on_black, barcode_detector, is_black, record_bar,
}
use robotic_car_p3e.Barcode.Invariant.{IsValid, convert_stay_counts_nine, convert_last-Converts}

-- After a conversion, in a valid state that waits for a black bar, a white reading changes nothing
-- but the remembered colour.
pub barcode_detector_waiting :
    (v : ℕ) (s : Scanner)
    → IsValid s
    → s.waiting_for_black ≡ true
    → is_black v ≡ false
    → barcode_detector v s ≡ record s { barcode_black_detected = false }
unfolding barcode_detector count_reading convert_due finish_barcode resume_on_black
barcode_detector_waiting v s h w b = ground arith

-- In a valid state that counts a bar, a reading of the same colour lengthens the bar by one, and changes nothing else.
pub barcode_detector_same :
    (v : ℕ) (s : Scanner)
    → IsValid s
    → s.waiting_for_black ≡ false
    → is_black v ≡ s.barcode_black_detected
    → 0 < s.stay_count
    → barcode_detector v s ≡ record s { stay_count = s.stay_count + 1 }
unfolding barcode_detector count_reading convert_due finish_barcode resume_on_black
barcode_detector_same v s h w b c = ground arith

-- In a valid state, at the end of a bar that completes no chunk its width is stored, the number of bars grows by one,
-- and the count starts anew.
pub barcode_detector_edge :
    (v : ℕ) (s : Scanner)
    → IsValid s
    → s.waiting_for_black ≡ false
    → differs (is_black v) s.barcode_black_detected ≡ true
    → 0 < s.stay_count
    → (s.barcount + 1) % 9 ≢ 0
    → barcode_detector v s ≡ record s {
      stay_counts = set s.stay_counts s.barcount s.stay_count;
      barcount = s.barcount + 1;
      stay_count = 1;
      barcode_black_detected = is_black v;
    }
unfolding barcode_detector count_reading record_bar convert_due finish_barcode resume_on_black
barcode_detector_edge v s h w b c n = ground arith

-- The first chunk of a card that is the start mark in neither direction: nothing is stored and no
-- direction is chosen, and yet the direction counts as determined from then on.
pub convert_last_undetermined :
    (s : Scanner)
    → s.direction_determined ≡ false
    → (bits : List ℕ)
    → bits ≡ binary_string (take chunk_size (drop (s.barcount - chunk_size) s.stay_counts))
    → map_binary_to_char bits false ≢ b'*'
    → map_binary_to_char bits true ≢ b'*'
    → convert_last s ≡ record s { direction_determined = true }
unfolding convert_last convert_chunk
convert_last_undetermined s h bits e n r =
    ground (arith, convert_stay_counts_nine (drop (s.barcount - chunk_size) s.stay_counts) s)

-- The reading that ends the last bar of a card.
card_end :
    (v : ℕ) (s : Scanner)
    → s.waiting_for_black ≡ false
    → s.barcode_black_detected ≡ true
    → s.barcount ≡ 26
    → 0 < s.stay_count
    → is_black v ≡ false
    → ((barcode_detector v s).barcount ≡ 0)
      × ((barcode_detector v s).stay_count ≡ 1)
      × ((barcode_detector v s).barcode_black_detected ≡ false)
      × ((barcode_detector v s).waiting_for_black ≡ false)
unfolding barcode_detector count_reading record_bar convert_due finish_barcode resume_on_black
card_end v s w d n c b = ground (
  arith,
  convert_last-Converts (record s {
    stay_counts = set s.stay_counts s.barcount s.stay_count;
    barcount = s.barcount + 1;
    stay_count = 1;
    barcode_black_detected = false;
  }),
)

-- The first black reading after a completed card.
next_card_start :
    (v : ℕ) (s : Scanner)
    → s.barcount ≡ 0
    → s.stay_count ≡ 1
    → s.barcode_black_detected ≡ false
    → s.waiting_for_black ≡ false
    → is_black v ≡ true
    → ((barcode_detector v s).barcount ≡ 1)
      × ((barcode_detector v s).stay_counts ≡ set s.stay_counts 0 1)
unfolding barcode_detector count_reading record_bar convert_due finish_barcode resume_on_black
next_card_start v s n c d w b = ground arith

-- The reader is not ready for a second card: if a white reading completes a card, the next black
-- reading, which is the first of the next card, is not taken for its start; instead the white gap
-- before it is stored as the new card's first bar, of width 1.
pub second_card_shifted :
    (v w : ℕ) (s : Scanner)
    → s.waiting_for_black ≡ false
    → s.barcode_black_detected ≡ true
    → s.barcount ≡ 26
    → 0 < s.stay_count
    → is_black v ≡ false
    → is_black w ≡ true
    → let done = barcode_detector v s in
      let next = barcode_detector w (record done { detect_barcode = true }) in
      (done.barcount ≡ 0) × (next.barcount ≡ 1) × (next.stay_counts ≡ set done.stay_counts 0 1)
second_card_shifted v w s p d n c b k =
    let done = barcode_detector v s in
    let e = card_end v s p d n c b in
    let f = next_card_start w (record done { detect_barcode = true }) e.0 e.1 e.2 e.3 k in
    (e.0, f.0, f.1)
