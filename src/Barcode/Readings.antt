-- ===== src/Barcode/Readings.antt =====
-- buddy3/buddy3.c: the readings of several bars that complete no chunk, and the widths that the
-- detector stores.

use robotic_car_p3e.Prelude.{
  ℕ, zero, suc, ◌+◌, ◌%◌, ◌≤◌, ◌<◌, ◌≡◌, ◌≢◌, refl, sym, ap, ◌∙◌, Bool, false, List, [], ◌∷◌, ◌++◌,
  arith, length, not,
}
use robotic_car_p3e.Barcode.Scanner.{Scanner, barcode_detector, is_black}
use robotic_car_p3e.Barcode.Invariant.{IsValid, barcode_detector-IsValid}
use robotic_car_p3e.Barcode.Detector.{barcode_detector_same, barcode_detector_edge}
use robotic_car_p3e.Barcode.Stored.{store_bars}

-- A state in which the detector counts a bar of the given colour.
pub record Counts (s : Scanner) (black : Bool) : Type 0 where
  pub valid : IsValid s
  pub awake : s.waiting_for_black ≡ false
  pub colour : s.barcode_black_detected ≡ black
  pub begun : 0 < s.stay_count

-- Some more readings of the same value.
unfoldable pub stay : ℕ → ℕ → Scanner → Scanner
stay zero v s = s
stay (suc n) v s = stay n v (barcode_detector v s)

-- The readings of bars of alternating colours, each with the reading that ends it.
unfoldable pub feed : (Bool → ℕ) → List ℕ → Bool → Scanner → Scanner
feed shade [] black s = s
feed shade (n ∷ ns) black s =
    feed shade ns (not black) (barcode_detector (shade (not black)) (stay n (shade black) s))

-- The colour after so many bars.
abbrev pub colour_after : List ℕ → Bool → Bool
colour_after [] black = black
colour_after (n ∷ ns) black = colour_after ns (not black)

-- The state after the readings of bars that complete no chunk.
abbrev pub after_bars : List ℕ → Bool → Scanner → Scanner
after_bars ns black s = record s {
  stay_counts = store_bars s.stay_counts s.barcount ns;
  barcount = s.barcount + length ns;
  stay_count = 1;
  barcode_black_detected = colour_after ns black;
}

after_bars-cons :
    (n : ℕ) (ns : List ℕ) (black : Bool) (s : Scanner)
    → after_bars ns (not black) (after_bars (n ∷ []) black s) ≡ after_bars (n ∷ ns) black s
after_bars-cons n ns black s = ground arith

module _ (shade : Bool → ℕ) (faithful : (black : Bool) → is_black (shade black) ≡ black) where
  one_more_reading :
      (black : Bool) (s : Scanner)
      → Counts s black
      → barcode_detector (shade black) s ≡ record s { stay_count = s.stay_count + 1 }
  one_more_reading black s h =
      barcode_detector_same (shade black) s h.valid h.awake (faithful black ∙ sym h.colour) h.begun

  one_more-Counts :
      (black : Bool) (s : Scanner)
      → Counts s black
      → Counts (barcode_detector (shade black) s) black
  one_more-Counts black s h = record {
    valid = barcode_detector-IsValid (shade black) s h.valid;
    awake = ap (λ (t : Scanner). t.waiting_for_black) e ∙ h.awake;
    colour = ap (λ (t : Scanner). t.barcode_black_detected) e ∙ h.colour;
    begun = rw (ap (λ (t : Scanner). t.stay_count) e) (omega arith);
  }
    where
      e : barcode_detector (shade black) s ≡ record s { stay_count = s.stay_count + 1 }
      e = one_more_reading black s h

  pub stay-Counts :
      (n : ℕ) (black : Bool) (s : Scanner) → Counts s black → Counts (stay n (shade black) s) black
  unfolding stay
  stay-Counts zero black s h = h
  stay-Counts (suc n) black s h =
      stay-Counts n black (barcode_detector (shade black) s) (one_more-Counts black s h)

  pub stay_lem :
      (n : ℕ) (black : Bool) (s : Scanner)
      → Counts s black
      → stay n (shade black) s ≡ record s { stay_count = s.stay_count + n }
  unfolding stay
  stay_lem zero black s h = ground arith
  stay_lem (suc n) black s h = ground (
    arith,
    stay_lem n black (barcode_detector (shade black) s) (one_more-Counts black s h),
    one_more_reading black s h,
  )

  -- A bar that completes no chunk, from its second reading to the first reading behind it.
  bar_lem :
      (n : ℕ) (black : Bool) (s : Scanner)
      → Counts s black
      → s.stay_count ≡ 1
      → (s.barcount + 1) % 9 ≢ 0
      → barcode_detector (shade (not black)) (stay n (shade black) s) ≡ after_bars (n ∷ []) black s
  bar_lem n black s h one more = ground (
    arith,
    stay_lem n black s h,
    faithful (not black),
    barcode_detector_edge (shade (not black)) (stay n (shade black) s)
        (stay-Counts n black s h).valid,
  )

  bar-Counts :
      (n : ℕ) (black : Bool) (s : Scanner)
      → Counts s black
      → s.stay_count ≡ 1
      → (s.barcount + 1) % 9 ≢ 0
      → Counts (barcode_detector (shade (not black)) (stay n (shade black) s)) (not black)
  bar-Counts n black s h one more = record {
    valid = barcode_detector-IsValid _ _ (stay-Counts n black s h).valid;
    awake = ap (λ (t : Scanner). t.waiting_for_black) e ∙ h.awake;
    colour = ap (λ (t : Scanner). t.barcode_black_detected) e;
    begun = rw (ap (λ (t : Scanner). t.stay_count) e) (omega arith);
  }
    where
      e :
          barcode_detector (shade (not black)) (stay n (shade black) s)
          ≡ after_bars (n ∷ []) black s
      e = bar_lem n black s h one more

  -- Bars that complete no chunk, one after the other.
  pub feed_lem :
      (ns : List ℕ) (black : Bool) (s : Scanner)
      → Counts s black
      → s.stay_count ≡ 1
      → s.barcount % 9 + length ns ≤ 8
      → (feed shade ns black s ≡ after_bars ns black s)
        × Counts (feed shade ns black s) (colour_after ns black)
  unfolding feed
  feed_lem [] black s h one room = (ground arith, h)
  feed_lem (n ∷ ns) black s h one room =
      let t = barcode_detector (shade (not black)) (stay n (shade black) s) in
      let e = bar_lem n black s h one (omega arith) in
      let (ih, counts) =
        feed_lem ns (not black) t (bar-Counts n black s h one (omega arith))
          (ap (λ (u : Scanner). u.stay_count) e)
          (rw (ap (λ (u : Scanner). u.barcount) e) (omega arith)) in
      (ih ∙ ap (after_bars ns (not black)) e ∙ after_bars-cons n ns black s, counts)

  pub feed-append :
      (ns ms : List ℕ) (black : Bool) (s : Scanner)
      → feed shade (ns ++ ms) black s
        ≡ feed shade ms (colour_after ns black) (feed shade ns black s)
  unfolding feed
  feed-append [] ms black s = refl
  feed-append (n ∷ ns) ms black s = feed-append ns ms (not black) _
