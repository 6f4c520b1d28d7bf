-- ===== src/Barcode/Invariant.antt =====
-- buddy3/buddy3.c: what holds of the reader's globals between two readings, whatever is read.
use robotic_car_p3e.Prelude.{
  ℕ, ◌+◌, ◌-◌, ◌*◌, ◌%◌, ◌≤◌, ◌<◌, ◌≡◌, refl, Bool, true, false, List, [], ◌∷◌, arith, length, set,
  length-set, take, drop, ℤ, pos, negsuc, is_pos,
}
use robotic_car_p3e.Barcode.Bars.{chunk_size, binary_string}
use robotic_car_p3e.Barcode.Tables.{map_binary_to_char}
use robotic_car_p3e.Barcode.Scanner.{
  Scanner, power_on, chunk_due, convert_chunk, convert_stay_counts, convert_last, convert_due,
  record_bar, count_reading, finish_barcode, resume_on_black, barcode_detector, read_sensor,
  read_ir_sensors, reset_barcode_detector, is_black,
}

-- How many bars have been converted: `last_conversion_barcount`, with -1 for none.
abbrev pub converted : ℤ → ℕ
converted (pos n) = n
converted (negsuc n) = 0

-- The arrays keep their sizes, and the counters fit together: nine bars stand behind each stored
-- character, bars are converted in whole chunks, and the reader waits for a black bar only right
-- after a conversion.
pub record Fits (s : Scanner) : Type 0 where
  pub counts_size : length s.stay_counts ≡ 27
  pub chars_size : length s.converted_chars ≡ 3
  pub bars_fit : s.barcount ≤ 27
  pub chars_paid : s.char_index * 9 ≤ converted s.last_conversion_barcount
  pub converted_done : converted s.last_conversion_barcount ≤ s.barcount
  pub converted_whole : converted s.last_conversion_barcount % 9 ≡ 0
  pub pause : s.waiting_for_black ≡ true → is_pos s.last_conversion_barcount s.barcount ≡ true

-- Between two readings no complete barcode is left in the buffers, and no chunk that waits for its
-- conversion.
pub record IsValid (s : Scanner) : Type 0 where
  pub fits : Fits s
  pub incomplete : s.barcount < 27
  pub settled : chunk_due s ≡ false

pub power_on-IsValid : IsValid power_on
unfolding power_on
power_on-IsValid = record {
  fits = record {
    counts_size = refl;
    chars_size = refl;
    bars_fit = omega arith;
    chars_paid = omega arith;
    converted_done = omega arith;
    converted_whole = refl;
    pause = λ e. cc;
  };
  incomplete = omega arith;
  settled = refl;
}

count_reading-Fits : (black : Bool) (s : Scanner) → Fits s → Fits (count_reading black s)
unfolding count_reading record_bar
count_reading-Fits black s h = ground (arith, length-set s.stay_counts s.barcount s.stay_count)

-- What a conversion may change: at most one character is stored, in its place.
pub record Converts (s t : Scanner) : Type 0 where
  pub same_counts : t.stay_counts ≡ s.stay_counts
  pub same_bars : t.barcount ≡ s.barcount
  pub same_last : t.last_conversion_barcount ≡ s.last_conversion_barcount
  pub size_kept : length t.converted_chars ≡ length s.converted_chars
  pub one_more : t.char_index ≤ s.char_index + 1

convert_chunk-Converts : (chunk : List ℕ) (s : Scanner) → Converts s (convert_chunk chunk s).0
unfolding convert_chunk
convert_chunk-Converts chunk s = ground (
  arith,
  length-set s.converted_chars s.char_index (map_binary_to_char (binary_string chunk) s.direction),
  length-set s.converted_chars s.char_index (map_binary_to_char (binary_string chunk) true),
  length-set s.converted_chars s.char_index (map_binary_to_char (binary_string chunk) false),
)

-- A call on nine bars makes one round.
pub convert_stay_counts_nine :
    (counts : List ℕ) (s : Scanner)
    → convert_stay_counts counts chunk_size s ≡ (convert_chunk (take chunk_size counts) s).0
unfolding convert_stay_counts
convert_stay_counts_nine counts s = ground arith

pub convert_last-Converts : (s : Scanner) → Converts s (convert_last s)
unfolding convert_last
convert_last-Converts s = ground (
  arith,
  convert_stay_counts_nine (drop (s.barcount - chunk_size) s.stay_counts) s,
  convert_chunk-Converts (take chunk_size (drop (s.barcount - chunk_size) s.stay_counts)) s,
)

convert_due-Fits : (s : Scanner) → Fits s → Fits (convert_due s)
unfolding convert_due
convert_due-Fits s h = ground (arith, convert_last-Converts s)

convert_due_settles : (s : Scanner) → chunk_due (convert_due s) ≡ false
unfolding convert_due
convert_due_settles s = ground (arith, convert_last-Converts s)

finish_barcode-IsValid : (s : Scanner) → Fits s → chunk_due s ≡ false → IsValid (finish_barcode s)
unfolding finish_barcode
finish_barcode-IsValid s h d = ground arith

resume_on_black-IsValid :
    (black : Bool) (s : Scanner) → IsValid s → IsValid (resume_on_black black s)
unfolding resume_on_black
resume_on_black-IsValid black s h = ground arith

shade-Fits :
    (black : Bool) (s : Scanner) → Fits s → Fits (record s { barcode_black_detected = black })
shade-Fits black s h = ground arith

-- A reading passed to the detector keeps the invariant.
pub barcode_detector-IsValid : (v : ℕ) (s : Scanner) → IsValid s → IsValid (barcode_detector v s)
unfolding barcode_detector
barcode_detector-IsValid v s h =
    let black = is_black v in
    let counted = shade-Fits black (count_reading black s) (count_reading-Fits black s h.fits) in
    resume_on_black-IsValid black _
      (finish_barcode-IsValid _ (convert_due-Fits _ counted) (convert_due_settles _))

mark-IsValid :
    (marks : List Bool) (detect : Bool) (s : Scanner)
    → IsValid s
    → IsValid (record s { last_state_black = marks; detect_barcode = detect })
mark-IsValid marks detect s h = ground arith

read_sensor-IsValid : (i v : ℕ) (s : Scanner) → IsValid s → IsValid (read_sensor i v s)
unfolding read_sensor
read_sensor-IsValid i v s h = ground (
  arith,
  mark-IsValid (set s.last_state_black i (is_black v)) true s h,
  mark-IsValid (set s.last_state_black i (is_black v)) s.detect_barcode s h,
  barcode_detector-IsValid v (record s {
    last_state_black = set s.last_state_black i (is_black v);
    detect_barcode = true;
  }),
  barcode_detector-IsValid v
      (record s { last_state_black = set s.last_state_black i (is_black v) }),
)

reset-IsValid : (gpio : ℕ) (s : Scanner) → IsValid s → IsValid (reset_barcode_detector gpio s)
unfolding reset_barcode_detector
reset-IsValid gpio s h = ground arith

-- What happens to the reader from outside: a round of readings, or the button, which is pressed
-- between two rounds. (Its interrupt can also come within a round; a press between the two assignments
-- of a conversion, to `char_index` and to `last_conversion_barcount`, is not modelled.)
pub data Happens : Type 0 where
  readings : ℕ → ℕ → Happens
  button : ℕ → Happens

unfoldable pub happen : Happens → Scanner → Scanner
happen (readings left right) s = read_ir_sensors left right s
happen (button gpio) s = reset_barcode_detector gpio s

unfoldable pub history : List Happens → Scanner → Scanner
history [] s = s
history (e ∷ es) s = history es (happen e s)

happen-IsValid : (e : Happens) (s : Scanner) → IsValid s → IsValid (happen e s)
unfolding happen read_ir_sensors
happen-IsValid (readings left right) s h =
    read_sensor-IsValid 1 right _ (read_sensor-IsValid 0 left s h)
happen-IsValid (button gpio) s h = reset-IsValid gpio s h

history-IsValid_from : (es : List Happens) (s : Scanner) → IsValid s → IsValid (history es s)
unfolding history
history-IsValid_from [] s h = h
history-IsValid_from (e ∷ es) s h = history-IsValid_from es (happen e s) (happen-IsValid e s h)

-- Whatever the sensors read and however often the button is pressed between two rounds of readings,
-- after power-on the arrays keep their sizes, fewer than 27 bars are stored, and nine converted bars
-- stand behind each character.
pub history-IsValid : (es : List Happens) → IsValid (history es power_on)
history-IsValid es = history-IsValid_from es power_on power_on-IsValid
