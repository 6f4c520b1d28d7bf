-- ===== src/Barcode/Scanner.antt =====
-- buddy3/buddy3.c: the globals of the reader and its operations. Output by printf is left out.
use robotic_car_p3e.Prelude.{
  ℕ, zero, suc, ◌+◌, ◌-◌, ◌/◌, ◌%◌, Bool, true, false, not, ◌&&◌, List, [], ◌∷◌, ltb, leb, ◌==◌,
  if◌then◌else◌, take, drop, set, replicate, ℤ, pos, negsuc, is_pos,
}
use robotic_car_p3e.Barcode.Tables.{map_binary_to_char}
use robotic_car_p3e.Barcode.Bars.{chunk_size, binary_string}

abbrev pub black_white_threshold : ℕ
black_white_threshold = 200

abbrev pub max_transitions : ℕ
max_transitions = 27

abbrev pub char_count : ℕ
char_count = max_transitions / chunk_size

abbrev pub reset_button_pin : ℕ
reset_button_pin = 22

-- The global variables. Counters are natural numbers: `int` overflow is undefined in C, and
-- `stay_count` is the only one that can grow without bound.
pub record Scanner : Type 0 where
  pub last_state_black : List Bool
  pub detect_barcode : Bool
  pub barcount : ℕ
  pub barcode_black_detected : Bool
  pub stay_count : ℕ
  pub stay_counts : List ℕ
  pub converted_chars : List ℕ
  pub char_index : ℕ
  pub direction_determined : Bool
  pub last_conversion_barcount : ℤ
  pub waiting_for_black : Bool
  pub direction : Bool

-- The initial values of the globals.
unfoldable pub power_on : Scanner
power_on = record {
  last_state_black = false ∷ false ∷ [];
  detect_barcode = false;
  barcount = 0;
  barcode_black_detected = false;
  stay_count = 0;
  stay_counts = replicate max_transitions 0;
  converted_chars = replicate char_count 0;
  char_index = 0;
  direction_determined = false;
  last_conversion_barcount = negsuc 0;
  waiting_for_black = false;
  direction = false;
}

-- Storing a mapped character, where there is room.
unfoldable pub store_char : ℕ → Scanner → Scanner
store_char mapped s =
    if ltb s.char_index char_count
    then record s {
      converted_chars = set s.converted_chars s.char_index mapped;
      char_index = s.char_index + 1;
    }
    else s

-- The attempt of the first chunk to fix `*direction`; the flag is false on the early return.
unfoldable pub determine_direction : List ℕ → Scanner → Scanner × Bool
determine_direction bits s =
    if s.direction_determined
    then (s, true)
    else if map_binary_to_char bits false == b'*'
    then (record s { direction = false }, true)
    else if map_binary_to_char bits true == b'*'
    then (record s { direction = true }, true)
    else (s, false)

-- One round of the loop over chunks, and whether the function goes on.
unfoldable pub convert_chunk : List ℕ → Scanner → Scanner × Bool
unfolding determine_direction store_char
convert_chunk chunk s =
    let bits = binary_string chunk in
    let (s', found) = determine_direction bits s in
    if found then (store_char (map_binary_to_char bits s'.direction) s', true) else (s', false)

-- The loop over chunks: so many rounds, each on the next nine widths.
unfoldable pub convert_chunks : ℕ → List ℕ → Scanner → Scanner
unfolding convert_chunk
convert_chunks zero counts s = s
convert_chunks (suc n) counts s =
    let (s', more) = convert_chunk (take chunk_size counts) s in
    elim more [ true ↦ convert_chunks n (drop chunk_size counts) s' | false ↦ s' ]

-- `direction` is always `&direction`, the global.
unfoldable pub convert_stay_counts : List ℕ → ℕ → Scanner → Scanner
unfolding convert_chunks
convert_stay_counts counts bars s =
    if bars % chunk_size == 0 then convert_chunks (bars / chunk_size) counts s else s

-- Two flags differ.
abbrev pub differs : Bool → Bool → Bool
differs true b = not b
differs false b = b

-- What a transition to `black` does before the count starts anew: nothing on the first black
-- reading, and otherwise the width of the bar that ends is stored.
unfoldable pub record_bar : Bool → Scanner → Scanner
record_bar black s =
    if black && s.barcount == 0 && s.stay_count == 0
    then record s { stay_count = 1 }
    else if ltb 0 s.stay_count && ltb s.barcount max_transitions
    then record s {
      stay_counts = set s.stay_counts s.barcount s.stay_count;
      barcount = s.barcount + 1;
    }
    else s

-- The first block of `barcode_detector`: transitions and counting.
unfoldable pub count_reading : Bool → Scanner → Scanner
unfolding record_bar
count_reading black s =
    if not s.waiting_for_black && differs black s.barcode_black_detected
    then record (record_bar black s) { stay_count = 1 }
    else if not s.waiting_for_black && ltb 0 s.stay_count
    then record s { stay_count = s.stay_count + 1 }
    else s

-- Is a chunk complete that has not been converted yet?
abbrev pub chunk_due : Scanner → Bool
chunk_due s =
    s.barcount % chunk_size == 0
    && ltb 0 s.barcount
    && leb s.barcount max_transitions
    && not (is_pos s.last_conversion_barcount s.barcount)

-- The call on the last nine widths; after the first one the direction counts as determined,
-- whether it was found or not.
unfoldable pub convert_last : Scanner → Scanner
unfolding convert_stay_counts
convert_last s =
    let t = convert_stay_counts (drop (s.barcount - chunk_size) s.stay_counts) chunk_size s in
    if not s.direction_determined then record t { direction_determined = true } else t

-- The second block: the conversion of the last nine widths.
unfoldable pub convert_due : Scanner → Scanner
unfolding convert_last
convert_due s =
    if chunk_due s
    then record (convert_last s) {
      last_conversion_barcount = pos s.barcount;
      waiting_for_black = true;
    }
    else s

-- The third block: a complete barcode is printed and the reader prepared for the next.
unfoldable pub finish_barcode : Scanner → Scanner
finish_barcode s =
    if leb max_transitions s.barcount
    then record s {
      barcount = 0;
      char_index = 0;
      detect_barcode = false;
      last_conversion_barcount = negsuc 0;
      waiting_for_black = false;
      direction_determined = false;
    }
    else s

-- The last block: counting goes on at the next black bar.
unfoldable pub resume_on_black : Bool → Scanner → Scanner
resume_on_black black s =
    if s.waiting_for_black && black
    then record s { waiting_for_black = false; stay_count = 1 }
    else s

abbrev pub is_black : ℕ → Bool
is_black analog_value = ltb black_white_threshold analog_value

unfoldable pub barcode_detector : ℕ → Scanner → Scanner
barcode_detector analog_value s =
    let black = is_black analog_value in
    let counted = record (count_reading black s) { barcode_black_detected = black } in
    resume_on_black black (finish_barcode (convert_due counted))

-- One round of the loop of `read_ir_sensors`, for sensor `i` with the value read from it.
unfoldable pub read_sensor : ℕ → ℕ → Scanner → Scanner
read_sensor i analog_value s =
    let black = is_black analog_value in
    let t = record s { last_state_black = set s.last_state_black i black } in
    let u = if i == 0 && black then record t { detect_barcode = true } else t in
    if i == 0 && u.detect_barcode then barcode_detector analog_value u else u

-- `read_ir_sensors`, given what the converter reads from the left and the right sensor.
unfoldable pub read_ir_sensors : ℕ → ℕ → Scanner → Scanner
unfolding read_sensor
read_ir_sensors left right s = read_sensor 1 right (read_sensor 0 left s)

unfoldable pub reset_barcode_detector : ℕ → Scanner → Scanner
reset_barcode_detector gpio s =
    if gpio == reset_button_pin
    then record s {
      barcount = 0;
      char_index = 0;
      detect_barcode = false;
      last_conversion_barcount = negsuc 0;
      waiting_for_black = false;
      direction_determined = false;
      stay_count = 0;
      barcode_black_detected = false;
      stay_counts = replicate max_transitions 0;
    }
    else s
