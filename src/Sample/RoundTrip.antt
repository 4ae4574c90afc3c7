-- ===== src/Sample/RoundTrip.antt =====
-- The bytes of a sample and the sample of its bytes.
use djm_t1_linux.Base.{ℕ, ◌-◌, ◌^◌, ◌<◌, ◌≡◌, false, arith, Bool-cases, inl, inr}
use djm_t1_linux.Base.Int.{ℤ, pos, negsuc, ◌≤ℤ◌}
use djm_t1_linux.Sample.{Floats, s24, split, clamp, f_to_s24}

-- The values that 24 bits hold.
abbrev pub Fits24 : ℤ → Type 0
Fits24 v = (negsuc (2 ^ 23 - 1) ≤ℤ v) × (v ≤ℤ pos (2 ^ 23 - 1))

-- A value of 24 bits comes back from its bytes.
pub s24-split : (v : ℤ) → Fits24 v → let (p0, p1, p2) = split v in s24 p0 p1 p2 ≡ v
unfolding s24 split
s24-split (pos n) h = ground arith
s24-split (negsuc n) h = ground arith

-- Any three bytes come back from the value that they hold, which fits.
pub split-s24 :
    (p0 p1 p2 : ℕ)
    → p0 < 256
    → p1 < 256
    → p2 < 256
    → (split (s24 p0 p1 p2) ≡ (p0, p1, p2)) × Fits24 (s24 p0 p1 p2)
unfolding s24 split
split-s24 p0 p1 p2 h0 h1 h2 = ground arith

module _ (fl : Floats) where
  open fl use {
    Float, one_f, minus_one, gt_one, is_nan, lt_minus_one, scaled, scaled_one, scaled-minus_one,
    scaled_bounds,
  }

  scaled-clamp :
      (x : Float)
      → is_nan x ≡ false
      → (negsuc 8388606 ≤ℤ scaled (clamp fl x)) × (scaled (clamp fl x) ≤ℤ pos 8388607)
  unfolding clamp
  scaled-clamp x number = elim (Bool-cases (gt_one x)) [
    | inl above ↦ rw (above, scaled_one) (omega arith)
    | inr not_above ↦ elim (Bool-cases (lt_minus_one x)) [
      | inl below ↦ rw (not_above, below, scaled-minus_one) (omega arith)
      | inr not_below ↦ rw (not_above, not_below) (scaled_bounds x number not_above not_below)
    ]
  ]

  -- Whatever the number, the three bytes that are sent for it hold its clamped and scaled value, of
  -- 24 bits: no sample wraps round. (A NaN is converted to an integer, which C leaves undefined.)
  pub s24-f_to_s24 :
      (x : Float)
      → is_nan x ≡ false
      → let (p0, p1, p2) = f_to_s24 fl x in
        (s24 p0 p1 p2 ≡ scaled (clamp fl x))
        × (negsuc 8388606 ≤ℤ s24 p0 p1 p2)
        × (s24 p0 p1 p2 ≤ℤ pos 8388607)
  unfolding f_to_s24
  s24-f_to_s24 x number =
      let (low, high) = scaled-clamp x number in
      let back = s24-split (scaled (clamp fl x)) (omega (arith, low), omega (arith, high)) in
      (back, rw back low, rw back high)
