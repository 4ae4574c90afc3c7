-- ===== src/Sample/Tests.antt =====
-- The sample code at concrete bytes and numbers, over fixed-point numbers in place of floats.
use djm_t1_linux.Base.{◌≡◌, refl}
use djm_t1_linux.Base.Int.{pos, negsuc, ◌≤ℤ◌}
use djm_t1_linux.Sample.{s24, clamp, f_to_s24}
use djm_t1_linux.Sample.Fixed.{fixed}
use djm_t1_linux.Sample.RoundTrip.{s24-f_to_s24}

s24_run : s24 0xfe 0xff 0xff ≡ negsuc 1
unfolding s24
s24_run = refl

-- Twice full scale is sent as full scale.
f_to_s24_run : f_to_s24 fixed (negsuc 16777213) ≡ (0x01, 0x00, 0x80)
unfolding f_to_s24
f_to_s24_run = refl

s24-f_to_s24_example :
    let (p0, p1, p2) = f_to_s24 fixed (pos 16777214) in
    (s24 p0 p1 p2 ≡ pos 8388607) × (negsuc 8388606 ≤ℤ s24 p0 p1 p2) × (s24 p0 p1 p2 ≤ℤ pos 8388607)
unfolding clamp
s24-f_to_s24_example = s24-f_to_s24 fixed (pos 16777214) refl
