-- ===== src/Telemetry/Dashboard.antt =====
-- interface.c: the dashboard that reads the telemetry messages.
use robotic_car_p3e.Prelude.{
  ℕ, zero, suc, Option, none, some, List, [], ◌∷◌, ◌==◌, if◌then◌else◌, codes, take, ℤ,
}
use robotic_car_p3e.Telemetry.Decimal.{scan_int, skip_spaces, is_space}
use robotic_car_p3e.Telemetry.Parse.{Telemetry, c_string}

-- A directive of a format that is not a conversion: white space stands for any white space, another
-- character for itself. The rest of the input, if it fits.
unfoldable pub literal : List ℕ → List ℕ → Option (List ℕ)
literal [] s = some s
literal (p ∷ ps) [] = if is_space p then literal ps [] else none
literal (p ∷ ps) (c ∷ cs) =
    if is_space p then literal ps (skip_spaces (c ∷ cs)) else if p == c then literal ps cs else none

-- `%39[^;]`: up to so many characters that are no semicolon, and the rest.
unfoldable pub until_semicolon : ℕ → List ℕ → List ℕ × List ℕ
until_semicolon zero s = ([], s)
until_semicolon (suc n) [] = ([], [])
until_semicolon (suc n) (c ∷ cs) =
    let (front, rest) = until_semicolon n cs in
    if c == b';' then ([], c ∷ cs) else (c ∷ front, rest)

abbrev pub value_or : ℤ → Option ℤ → ℤ
value_or old none = old
value_or old (some z) = z

abbrev pub speed_behind : ℤ → Option (List ℕ) → ℤ
speed_behind old none = old
speed_behind old (some rest) = value_or old (scan_int rest)

-- The speed of a message, from behind the direction on; the old one where the input does not fit.
unfoldable pub scan_speed : ℤ → List ℕ → ℤ
scan_speed old s = speed_behind old (literal (codes "; Speed: ") s)

-- The direction, and the speed behind it. A conversion to no characters fails.
unfoldable pub scan_fields : Telemetry → List ℕ × List ℕ → Telemetry
scan_fields t ([], rest) = t
scan_fields t (c ∷ cs, rest) = record { direction = c ∷ cs; speed = scan_speed t.speed rest }

abbrev pub scan_direction : Telemetry → Option (List ℕ) → Telemetry
scan_direction t none = t
scan_direction t (some rest) = scan_fields t (until_semicolon 39 rest)

-- `sscanf(recvbuf, "Direction: %39[^;]; Speed: %d", ...)`.
unfoldable pub scan_telemetry : Telemetry → List ℕ → Telemetry
scan_telemetry t s = scan_direction t (literal (codes "Direction: ") s)

-- One round of `receive_telemetry` in which some bytes came in: the direction is cleared, and the
-- text is read. `recv` gives at most 2047 bytes.
unfoldable pub receive_telemetry : List ℕ → Telemetry → Telemetry
receive_telemetry bytes t =
    scan_telemetry (record t { direction = [] }) (c_string (take 2047 bytes))
