-- ===== src/Scan/Attempts.antt =====
-- wifi/wifi_scan/picow_wifi_scan.c: when scans are tried.
use robotic_car_p3e.Prelude.{
  tests, lt→ltb, suc, ℕ, ◌+◌, ◌≤◌, ◌<◌, ◌≡◌, refl, sym, ◌∙◌, Bool, true, false, List, [], ◌∷◌, ◌++◌,
  ltb, ℤ, is_zero, arith, Bool-cases, inl, inr,
}
use robotic_car_p3e.Scan.Loop.{
  Scanner, Round, Call, scan, scan_active, fresh_scanner, scan_interval_us, try_scan, await_scan,
  scan_round, scan_loop, main,
}

-- The clock does not go back within a round, or from one to the next.
abbrev pub IsClock : ℕ → List Round → Type 0
IsClock t [] = Unit {0}
IsClock t (r ∷ rs) = (t ≤ r.now) × (r.now ≤ r.later) × IsClock r.later rs

-- Each scan is tried more than ten seconds behind the end of the attempt before.
abbrev pub AllSpaced : ℕ → List Call → Type 0
AllSpaced t [] = Unit {0}
AllSpaced t (scan before behind begun ∷ cs) = (t + scan_interval_us < before) × AllSpaced behind cs
AllSpaced t (scan_active answer ∷ cs) = AllSpaced t cs

-- So too from the second attempt on.
abbrev pub AllSpacedLater : List Call → Type 0
AllSpacedLater [] = Unit {0}
AllSpacedLater (scan before behind begun ∷ cs) = AllSpaced behind cs
AllSpacedLater (scan_active answer ∷ cs) = AllSpacedLater cs

-- Is a scan in progress, as far as the driver has told? None is tried then, and the driver is asked
-- only then.
abbrev pub IsOrderly : Bool → List Call → Type 0
IsOrderly in_progress [] = Unit {0}
IsOrderly in_progress (scan before behind begun ∷ cs) = (in_progress ≡ false) × IsOrderly begun cs
IsOrderly in_progress (scan_active answer ∷ cs) = (in_progress ≡ true) × IsOrderly answer cs

-- The next attempt, behind one that has ended at the given time, is put off long enough.
abbrev IsPutOff : ℕ → Scanner → Type 0
IsPutOff last s = (s.scan_in_progress ≡ false) → last + scan_interval_us ≤ s.scan_time

try_scan-IsPutOff : (r : Round) (s : Scanner) → IsPutOff r.later (try_scan r s)
unfolding try_scan
try_scan-IsPutOff r s e = ground arith

-- The branches of a round.
module _ (r : Round) (s : Scanner) where
  round_early : ltb s.scan_time r.now ≡ false → scan_round r s ≡ (s, [])
  unfolding scan_round
  round_early early = rw early

  round_active :
      ltb s.scan_time r.now ≡ true
      → s.scan_in_progress ≡ true
      → r.is_active ≡ true
      → scan_round r s ≡ (s, scan_active true ∷ [])
  unfolding scan_round await_scan
  round_active due busy active = ground arith

  round_over :
      ltb s.scan_time r.now ≡ true
      → s.scan_in_progress ≡ true
      → r.is_active ≡ false
      → scan_round r s ≡ (
        record { scan_time = r.later + scan_interval_us; scan_in_progress = false },
        scan_active false ∷ [],
      )
  unfolding scan_round await_scan
  round_over due busy over = ground arith

  round_idle :
      ltb s.scan_time r.now ≡ true
      → s.scan_in_progress ≡ false
      → scan_round r s ≡ (try_scan r s, scan r.now r.later (is_zero r.scan_err) ∷ [])
  unfolding scan_round
  round_idle due idle = ground arith

scan_loop-AllSpaced :
    (rs : List Round) (s : Scanner) (last t : ℕ)
    → last ≤ t
    → IsPutOff last s
    → IsClock t rs
    → AllSpaced last (scan_loop rs s).1
unfolding scan_loop
scan_loop-AllSpaced [] s last t h p c = tt
scan_loop-AllSpaced (r ∷ rs) s last t h p (before, within, after) =
    elim (Bool-cases (ltb s.scan_time r.now)) [
      | inr early ↦
          rw (round_early r s early) (scan_loop-AllSpaced rs s last r.later (omega arith) p after)
      | inl due ↦ elim (Bool-cases s.scan_in_progress) [
        | inl busy ↦ elim (Bool-cases r.is_active) [
          | inl active ↦
              rw (round_active r s due busy active)
                (scan_loop-AllSpaced rs s last r.later (omega arith) p after)
          | inr over ↦ rw (round_over r s due busy over) (
              scan_loop-AllSpaced rs
                (record { scan_time = r.later + scan_interval_us; scan_in_progress = false }) last
                r.later (omega arith) (λ e. omega arith) after)
        ]
        | inr idle ↦ rw (round_idle r s due idle) (
          omega (tests, p idle),
          scan_loop-AllSpaced rs (try_scan r s) r.later r.later (omega arith)
              (try_scan-IsPutOff r s) after,
        )
      ]
    ]

scan_loop-AllSpacedLater :
    (rs : List Round) (s : Scanner) (t : ℕ)
    → s.scan_in_progress ≡ false
    → IsClock t rs
    → AllSpacedLater (scan_loop rs s).1
unfolding scan_loop
scan_loop-AllSpacedLater [] s t idle c = tt
scan_loop-AllSpacedLater (r ∷ rs) s t idle (before, within, after) =
    elim (Bool-cases (ltb s.scan_time r.now)) [
      | inr early ↦ rw (round_early r s early) (scan_loop-AllSpacedLater rs s r.later idle after)
      | inl due ↦ rw (round_idle r s due idle) (
          scan_loop-AllSpaced rs (try_scan r s) r.later r.later (omega arith)
            (try_scan-IsPutOff r s) after)
    ]

try_scan-progress :
    (r : Round) (s : Scanner)
    → s.scan_in_progress ≡ false
    → (try_scan r s).scan_in_progress ≡ is_zero r.scan_err
unfolding try_scan
try_scan-progress r s idle = ground arith

scan_loop-IsOrderly :
    (rs : List Round) (s : Scanner) (b : Bool)
    → s.scan_in_progress ≡ b
    → IsOrderly b (scan_loop rs s).1
unfolding scan_loop
scan_loop-IsOrderly [] s b e = tt
scan_loop-IsOrderly (r ∷ rs) s b e = elim (Bool-cases (ltb s.scan_time r.now)) [
  | inr early ↦ rw (round_early r s early) (scan_loop-IsOrderly rs s b e)
  | inl due ↦ elim (Bool-cases s.scan_in_progress) [
    | inl busy ↦ elim (Bool-cases r.is_active) [
      | inl active ↦
          rw (round_active r s due busy active) (sym e ∙ busy, scan_loop-IsOrderly rs s true busy)
      | inr over ↦ rw (round_over r s due busy over) (
        sym e ∙ busy,
        scan_loop-IsOrderly rs
            (record { scan_time = r.later + scan_interval_us; scan_in_progress = false }) false
            refl,
      )
    ]
    | inr idle ↦ rw (round_idle r s due idle) (
      sym e ∙ idle,
      scan_loop-IsOrderly rs (try_scan r s) (is_zero r.scan_err) (try_scan-progress r s idle),
    )
  ]
]

-- Whatever the driver answers, if the clock does not go back: a scan is never tried before the driver
-- has said that the one before is over, and always more than ten seconds behind the attempt before.
pub main-scans :
    (init_err : ℤ) (rs : List Round)
    → IsClock 0 rs
    → IsOrderly false (main init_err rs).1 × AllSpacedLater (main init_err rs).1
unfolding main
main-scans init_err rs c = elim (Bool-cases (is_zero init_err)) [
  | inl up ↦ rw up (
    scan_loop-IsOrderly rs fresh_scanner false refl,
    scan_loop-AllSpacedLater rs fresh_scanner 0 refl c,
  )
  | inr down ↦ rw down (tt, tt)
]

abbrev pub count_scans : List Call → ℕ
count_scans [] = 0
count_scans (scan before behind begun ∷ cs) = suc (count_scans cs)
count_scans (scan_active answer ∷ cs) = count_scans cs

scan_loop-idle :
    (rs : List Round) (last : Round) (s : Scanner)
    → s.scan_in_progress ≡ false
    → s.scan_time < last.now
    → 0 < count_scans (scan_loop (rs ++ last ∷ []) s).1
unfolding scan_loop
scan_loop-idle [] last s idle due = rw (round_idle last s (lt→ltb _ _ due) idle) (omega arith)
scan_loop-idle (r ∷ rs) last s idle due = elim (Bool-cases (ltb s.scan_time r.now)) [
  | inr early ↦ rw (round_early r s early) (scan_loop-idle rs last s idle due)
  | inl now ↦ rw (round_idle r s now idle) (omega arith)
]

-- Once the loop sees that a scan is over, another is tried by the first round that begins more than
-- ten seconds later, whatever rounds lie between.
pub scan_loop-retries :
    (over : Round) (rs : List Round) (last : Round) (s : Scanner)
    → s.scan_in_progress ≡ true
    → s.scan_time < over.now
    → over.is_active ≡ false
    → over.later + scan_interval_us < last.now
    → 0 < count_scans (scan_loop (over ∷ (rs ++ last ∷ [])) s).1
unfolding scan_loop
scan_loop-retries over rs last s busy due inactive late =
    rw (round_over over s (lt→ltb _ _ due) busy inactive) (
      scan_loop-idle rs last
        (record { scan_time = over.later + scan_interval_us; scan_in_progress = false }) refl late)
