-- ===== src/Telemetry/Parse.antt =====
-- buddy1/buddy1.c, `tcp_server_recv`: how a command's text becomes a direction and a speed.
use robotic_car_p3e.Prelude.{
  ℕ, Bool, true, false, Option, none, some, List, [], ◌∷◌, ◌++◌, ◌==◌, ◌||◌, ◌&&◌, if◌then◌else◌,
  codes, eq_bytes, take, ℤ, pos,
}
use robotic_car_p3e.Telemetry.Decimal.{is_digit, read_digits}

-- The characters of a C string in a buffer: up to the first zero byte.
abbrev pub c_string : List ℕ → List ℕ
c_string [] = []
c_string (c ∷ cs) = if c == 0 then [] else c ∷ c_string cs

abbrev pub starts_with : List ℕ → List ℕ → Bool
starts_with [] s = true
starts_with (p ∷ ps) [] = false
starts_with (p ∷ ps) (c ∷ cs) = p == c && starts_with ps cs

-- `strstr(s, word) != NULL`.
unfoldable pub contains : List ℕ → List ℕ → Bool
contains word [] = starts_with word []
contains word (c ∷ cs) = starts_with word (c ∷ cs) || contains word cs

-- The buffer `movement`.
unfoldable pub movement_of : List ℕ → List ℕ
movement_of s =
    if contains (codes "Forward") s
    then codes "Forward"
    else if contains (codes "Backward") s
    then codes "Backward"
    else if contains (codes "Stop Movement") s
    then codes "Stopped"
    else []

-- The buffer `turn_direction`.
unfoldable pub turn_of : List ℕ → List ℕ
turn_of s =
    if contains (codes "Left") s
    then codes "Left"
    else if contains (codes "Right") s
    then codes "Right"
    else if contains (codes "Stop Turning") s
    then codes "Stopped"
    else []

-- `%*[^0-9]%d`: at least one character that is no digit, and the number behind those.
unfoldable pub number_behind : List ℕ → Option ℕ
number_behind [] = none
number_behind (c ∷ cs) =
    let later = number_behind cs in if is_digit c then some (read_digits 0 (c ∷ cs)) else later

unfoldable pub speed_of : List ℕ → ℤ
speed_of [] = pos 0
speed_of (c ∷ cs) =
    if is_digit c then pos 0 else elim (number_behind cs) [ none ↦ pos 0 | some n ↦ pos n ]

abbrev pub is_stopped : List ℕ → Bool
is_stopped s = eq_bytes s (codes "Stopped")

abbrev pub is_empty : List ℕ → Bool
is_empty s = eq_bytes s []

-- `snprintf` into `telemetry_data.direction`, which has room for 39 characters.
abbrev pub direction_size : ℕ
direction_size = 40

abbrev pub fit_direction : List ℕ → List ℕ
fit_direction s = take 39 s

-- The final direction string.
unfoldable pub direction_of : List ℕ → List ℕ → List ℕ
direction_of movement turn =
    if is_stopped movement && is_stopped turn
    then fit_direction (codes "Stopped")
    else if is_stopped turn || is_empty turn
    then fit_direction movement
    else if is_stopped movement || is_empty movement
    then fit_direction turn
    else fit_direction (movement ++ (codes " " ++ turn))

-- `TelemetryData`.
pub record Telemetry : Type 0 where
  pub direction : List ℕ
  pub speed : ℤ

-- What a received text makes of the telemetry.
unfoldable pub parse_command : List ℕ → Telemetry
unfolding movement_of turn_of direction_of speed_of
parse_command s = record {
  direction = direction_of (movement_of s) (turn_of s);
  speed = speed_of s;
}
