-- ===== src/Sample/Fixed.antt =====
-- Fixed-point numbers that meet what the engine relies on of C's `float`: 1 stands as 8388607.
use djm_t1_linux.Base.{◌≡◌, refl, false, arith, ltb}
use djm_t1_linux.Base.Int.{ℤ, pos, negsuc, pos_part, neg_part, ◌≤ℤ◌}
use djm_t1_linux.Sample.{Floats}

pub in_range :
    (x : ℤ)
    → false ≡ false
    → ltb 8388607 (pos_part x) ≡ false
    → ltb 8388607 (neg_part x) ≡ false
    → (negsuc 8388606 ≤ℤ x) × (x ≤ℤ pos 8388607)
in_range (pos n) number h k = ground arith
in_range (negsuc n) number h k = ground arith

abbrev pub fixed : Floats
fixed = record {
  Float = ℤ;
  zero_f = pos 0;
  one_f = pos 8388607;
  minus_one = negsuc 8388606;
  is_nan = λ x. false;
  gt_one = λ x. ltb 8388607 (pos_part x);
  lt_minus_one = λ x. ltb 8388607 (neg_part x);
  quotient = λ v. v;
  scaled = λ x. x;
  scaled_one = refl;
  scaled-minus_one = refl;
  scaled_bounds = in_range;
}
