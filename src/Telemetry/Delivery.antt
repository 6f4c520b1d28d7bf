-- ===== src/Telemetry/Delivery.antt =====
-- The way of a command: buddy1/buddy1.c, `tcp_server_recv`, and interface.c, `receive_telemetry`.
use robotic_car_p3e.Prelude.{
  ℕ, zero, suc, ◌+◌, ◌/◌, ◌%◌, ◌≤◌, ◌<◌, ◌≡◌, ◌≢◌, refl, ap, ◌∙◌, true, false, List, [], ◌∷◌, ◌++◌,
  codes, length, take, length-append, take-all, arith, ℤ, pos, Bool-cases, inl, inr,
}
use robotic_car_p3e.Telemetry.Decimal.{
  is_space, print_before, print_ℕ, print_int, scan_int, skip_spaces, starts_with_digit,
  scan_int-print_int,
}
use robotic_car_p3e.Telemetry.Parse.{Telemetry, c_string}
use robotic_car_p3e.Telemetry.Server.{telemetry_text, format_telemetry}
use robotic_car_p3e.Telemetry.Dashboard.{
  literal, until_semicolon, value_or, scan_speed, scan_fields, scan_telemetry, receive_telemetry,
}
use robotic_car_p3e.Telemetry.Directions.{is_clean, is_readable, ten_to, length-print_ℕ}

until_semicolon_lem :
    (n : ℕ) (d rest : List ℕ)
    → length d ≤ n
    → is_clean d ≡ true
    → until_semicolon n (d ++ b';' ∷ rest) ≡ (d, b';' ∷ rest)
unfolding until_semicolon
until_semicolon_lem zero [] rest h clean = refl
until_semicolon_lem zero (c ∷ cs) rest h clean = absurd (omega arith)
until_semicolon_lem (suc n) [] rest h clean = refl
until_semicolon_lem (suc n) (c ∷ cs) rest h clean =
    let le : length cs ≤ n = omega arith in ground (arith, until_semicolon_lem n cs rest le)

skip_spaces_again : (s : List ℕ) → skip_spaces (skip_spaces s) ≡ skip_spaces s
unfolding skip_spaces
skip_spaces_again [] = refl
skip_spaces_again (c ∷ cs) = elim (Bool-cases (is_space c)) [
  | inl e ↦ rw e (skip_spaces_again cs)
  | inr e ↦ rw (e, e) refl
]

scan_int-skip_spaces : (s : List ℕ) → scan_int (skip_spaces s) ≡ scan_int s
unfolding scan_int
scan_int-skip_spaces s = rw (skip_spaces_again s) refl

scan_speed_lem :
    (old z : ℤ) (rest : List ℕ)
    → starts_with_digit rest ≡ false
    → scan_speed old (codes "; Speed: " ++ print_int z rest) ≡ z
unfolding scan_speed literal skip_spaces
scan_speed_lem old z rest h =
    ap (value_or old) (scan_int-skip_spaces (print_int z rest) ∙ scan_int-print_int z rest h)

skip_spaces-readable :
    (c : ℕ) (cs more : List ℕ)
    → is_space c ≡ false
    → skip_spaces ((c ∷ cs) ++ more) ≡ (c ∷ cs) ++ more
unfolding skip_spaces
skip_spaces-readable c cs more h = rw h refl

abbrev read_at : Telemetry → List ℕ → Telemetry
read_at t s = scan_fields t (until_semicolon 39 s)

scan_fields_lem :
    (t : Telemetry) (d : List ℕ) (z : ℤ) (rest : List ℕ)
    → d ≢ []
    → is_readable d ≡ true
    → starts_with_digit rest ≡ false
    → scan_telemetry t (telemetry_text (record { direction = d; speed = z }) rest)
      ≡ record { direction = d; speed = z }
unfolding scan_telemetry literal skip_spaces scan_fields
scan_fields_lem t [] z rest ne h digit = absurd (ne refl)
scan_fields_lem t (c ∷ cs) z rest ne h digit =
    let tail = codes " Speed: " ++ print_int z rest in
    let start : is_space c ≡ false = ground arith in
    let clean : is_clean (c ∷ cs) ≡ true = ground arith in
    let short : length (c ∷ cs) ≤ 39 = ground arith in
    ap (read_at t) (skip_spaces-readable c cs (b';' ∷ tail) start)
    ∙ ap (scan_fields t) (until_semicolon_lem 39 (c ∷ cs) tail short clean)
    ∙ ap (λ v. record { direction = c ∷ cs; speed = v }) (scan_speed_lem t.speed z rest digit)

-- What `snprintf` has made of a direction and a speed, `sscanf` reads as the same two, if the
-- direction is readable and not empty; what follows the number may be anything but a digit, such as
-- another message.
pub scan_telemetry-telemetry_text :
    (t u : Telemetry) (rest : List ℕ)
    → u.direction ≢ []
    → is_readable u.direction ≡ true
    → starts_with_digit rest ≡ false
    → scan_telemetry t (telemetry_text u rest) ≡ u
scan_telemetry-telemetry_text t u rest ne h digit =
    scan_fields_lem t u.direction u.speed rest ne h digit

-- A string that ends where its buffer does.
c_string_clean : (d rest : List ℕ) → is_clean d ≡ true → c_string (d ++ rest) ≡ d ++ c_string rest
c_string_clean [] rest h = refl
c_string_clean (c ∷ cs) rest h = ground (arith, c_string_clean cs rest)

c_string-print_before :
    (fuel n : ℕ) (rest : List ℕ)
    → c_string rest ≡ rest
    → c_string (print_before fuel n rest) ≡ print_before fuel n rest
unfolding print_before
c_string-print_before zero n rest h = h
c_string-print_before (suc fuel) n rest h =
    ground (arith, c_string-print_before fuel (n / 10) ((n % 10 + b'0') ∷ rest))

c_string-telemetry_text :
    (d : List ℕ) (n : ℕ)
    → is_clean d ≡ true
    → c_string (telemetry_text (record { direction = d; speed = pos n }) [])
      ≡ telemetry_text (record { direction = d; speed = pos n }) []
unfolding print_int print_ℕ
c_string-telemetry_text d n h =
    ap (λ s. codes "Direction: " ++ s)
      (c_string_clean d _ h
        ∙ ap (λ s. d ++ (codes "; Speed: " ++ s)) (c_string-print_before (suc n) n [] refl))

length-telemetry_text :
    (d : List ℕ) (n : ℕ)
    → length d ≤ 39
    → n < ten_to 10
    → length (telemetry_text (record { direction = d; speed = pos n }) []) ≤ 69
unfolding print_int
length-telemetry_text d n short h =
    let digits = length-print_ℕ n 9 [] h in
    let whole = length-append {0} d (codes "; Speed: " ++ print_ℕ n []) in
    omega (arith, digits, whole)

is_clean-readable : (d : List ℕ) → is_readable d ≡ true → is_clean d ≡ true
is_clean-readable [] h = refl
is_clean-readable (c ∷ cs) h = ground arith

length-readable : (d : List ℕ) → is_readable d ≡ true → length d ≤ 39
length-readable [] h = omega arith
length-readable (c ∷ cs) h = ground arith

-- The message is neither cut by the server's buffer nor by the dashboard's.
received_text :
    (d : List ℕ) (n : ℕ)
    → is_readable d ≡ true
    → n < ten_to 10
    → c_string (take 2047 (format_telemetry (record { direction = d; speed = pos n })))
      ≡ telemetry_text (record { direction = d; speed = pos n }) []
unfolding format_telemetry
received_text d n h lt =
    let short : length (telemetry_text (record { direction = d; speed = pos n }) []) ≤ 2047 =
      omega (arith, length-telemetry_text d n (length-readable d h) lt) in
    let whole = take-all (telemetry_text (record { direction = d; speed = pos n }) []) 2047 short in
    ap (λ s. c_string (take 2047 s)) whole
    ∙ ap c_string whole
    ∙ c_string-telemetry_text d n (is_clean-readable d h)

-- What the dashboard makes of a message that the server has sent.
pub receive_telemetry-format_telemetry :
    (d : List ℕ) (n : ℕ) (t : Telemetry)
    → d ≢ []
    → is_readable d ≡ true
    → n < ten_to 10
    → receive_telemetry (format_telemetry (record { direction = d; speed = pos n })) t
      ≡ record { direction = d; speed = pos n }
unfolding receive_telemetry
receive_telemetry-format_telemetry d n t ne h lt =
    ap (scan_telemetry (record t { direction = [] })) (received_text d n h lt)
    ∙ scan_fields_lem (record t { direction = [] }) d (pos n) [] ne h refl
