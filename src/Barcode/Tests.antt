-- ===== src/Barcode/Tests.antt =====
-- Runs of the barcode reader on concrete readings.
use robotic_car_p3e.Prelude.{
  ℕ, ◌≡◌, refl, Bool, true, false, not, List, [], ◌∷◌, ◌++◌, reverse, map, replicate, codes, ◌==◌,
  if◌then◌else◌, arith,
}
use robotic_car_p3e.Barcode.Tables.{map_binary_to_char}
use robotic_car_p3e.Barcode.Bars.{binary_string}
use robotic_car_p3e.Barcode.Widest.{binary_string_lem, wide_digit}
use robotic_car_p3e.Barcode.Scanner.{
  is_black, Scanner, power_on, read_ir_sensors, barcode_detector, count_reading, read_sensor,
  convert_due, finish_barcode, resume_on_black, reset_barcode_detector,
}
use robotic_car_p3e.Barcode.Invariant.{
  IsValid, power_on-IsValid, Happens, readings, happen, history, history-IsValid,
}
use robotic_car_p3e.Barcode.Detector.{barcode_detector_same}
use robotic_car_p3e.Barcode.Readings.{Counts}
use robotic_car_p3e.Barcode.Card.{AtRest, read_card, read_card_lem}

-- The definitions that a run computes with.
runs : ℕ
unfolding power_on map_binary_to_char binary_string barcode_detector count_reading convert_due
    finish_barcode resume_on_black read_ir_sensors read_sensor history happen reset_barcode_detector
runs = 0

-- Several readings of the left sensor in a row.
scan : List ℕ → Scanner → Scanner
unfolding read_ir_sensors
scan [] s = s
scan (v ∷ vs) s = scan vs (read_ir_sensors v 0 s)

-- The readings of bars, black and white in turn: three for a wide bar, one for a narrow one.
abbrev bars : Bool → List ℕ → List ℕ
bars black [] = []
bars black (d ∷ ds) =
    replicate (if d == b'1' then 3 else 1) (if black then 300 else 100) ++ bars (not black) ds

-- Nine bars and the gap after them.
abbrev symbol : List ℕ → List ℕ
symbol ds = bars true ds ++ 100 ∷ []

-- The card `*A*`.
abbrev card : List ℕ
card = symbol (codes "010010100") ++ symbol (codes "100001001") ++ symbol (codes "010010100")

card_decodes : (scan card power_on).converted_chars ≡ codes "*A*"
unfolding runs scan
card_decodes = refl

reversed_card_decodes : (scan (reverse card ++ 100 ∷ []) power_on).converted_chars ≡ codes "*A*"
unfolding runs scan
reversed_card_decodes = refl

abbrev widths_a : List ℕ
widths_a = 3 ∷ 1 ∷ 1 ∷ 1 ∷ 1 ∷ 3 ∷ 1 ∷ 1 ∷ 3 ∷ []

digits_example : binary_string widths_a ≡ map (wide_digit widths_a) widths_a
digits_example = binary_string_lem widths_a refl

-- Single readings as rounds in which the right sensor sees white.
abbrev rounds : List ℕ → List Happens
rounds [] = []
rounds (v ∷ vs) = readings v 0 ∷ rounds vs

-- After the start mark and the first black reading of the next symbol.
abbrev started : Scanner
started = history (rounds (symbol (codes "010010100") ++ 300 ∷ [])) power_on

started-IsValid_example :
    IsValid (history (rounds (symbol (codes "010010100") ++ 300 ∷ [])) power_on)
started-IsValid_example = history-IsValid (rounds (symbol (codes "010010100") ++ 300 ∷ []))

started-IsValid : IsValid started
started-IsValid = history-IsValid (rounds (symbol (codes "010010100") ++ 300 ∷ []))

abbrev shade : Bool → ℕ
shade black = if black then 300 else 100

shade_faithful : (black : Bool) → is_black (shade black) ≡ black
shade_faithful true = refl
shade_faithful false = refl

started-Counts : Counts started true
unfolding runs
started-Counts = record {
  valid = started-IsValid;
  awake = refl;
  colour = refl;
  begun = omega arith;
}

-- The readings of the bars of the start mark and of `A` beyond the first of each, but for the last.
abbrev mark_bars : List ℕ
mark_bars = 0 ∷ 2 ∷ 0 ∷ 0 ∷ 2 ∷ 0 ∷ 2 ∷ 0 ∷ []

abbrev a_bars : List ℕ
a_bars = 2 ∷ 0 ∷ 0 ∷ 0 ∷ 0 ∷ 2 ∷ 0 ∷ 0 ∷ []

power_on-AtRest : AtRest power_on
unfolding power_on
power_on-AtRest = record {
  valid = power_on-IsValid;
  awake = refl;
  white = refl;
  no_count = refl;
  no_bars = refl;
  no_chars = refl;
  open_yet = refl;
}

card_example :
    (read_card shade shade_faithful mark_bars 0 3 a_bars 2 4 mark_bars 0 power_on).converted_chars
    ≡ b'*' ∷ b'A' ∷ b'*' ∷ []
unfolding map_binary_to_char binary_string
card_example =
    read_card_lem shade shade_faithful mark_bars 0 3 a_bars 2 4 mark_bars 0 false power_on
      power_on-AtRest refl refl refl refl

same_example : barcode_detector 300 started ≡ record started { stay_count = 2 }
unfolding runs
same_example = barcode_detector_same 300 started started-IsValid refl refl (omega arith)

-- Nine narrow bars, which are no start mark, and the readings of a card but for its last.
abbrev no_mark : Scanner
no_mark = record power_on { barcount = 9; stay_counts = replicate 27 1 }

abbrev nearly_done : Scanner
nearly_done =
    history
      (rounds (
        symbol (codes "010010100")
        ++ (symbol (codes "100001001") ++ bars true (codes "010010100"))))
      power_on
