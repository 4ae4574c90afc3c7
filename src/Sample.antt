-- ===== src/Sample.antt =====
-- The 24-bit samples of the wire: `s24_to_f` and `f_to_s24` of audio/djmt1_iso.c, and the same
-- integer code as `s24le` in audio/djmt1-capture.c and in `fill_tone` of audio/djmt1-playback.c.
pub mod RoundTrip
pub mod Frames
pub mod Fixed
mod Tests
use djm_t1_linux.Base.{
  ℕ, zero, suc, ◌+◌, ◌-◌, ◌*◌, ◌/◌, ◌%◌, ◌^◌, Bool, true, false, Option, none, some, List, [], ◌∷◌,
  ◌++◌, ◌==◌, if◌then◌else◌, ◌>>=◌, drop, ◌≡◌,
}
use djm_t1_linux.Base.Int.{ℤ, pos, negsuc, signed, ◌≤ℤ◌}

abbrev pub channels : ℕ
channels = 6

-- `p[0] | (p[1] << 8) | (p[2] << 16)`, sign-extended from 24 to 32 bits and read as an `int32_t`.
-- Each `|` joins disjoint fields, bytes being below 256, so it is a sum.
pub s24 : ℕ → ℕ → ℕ → ℤ
s24 p0 p1 p2 =
    let v = p0 + p1 * 2 ^ 8 + p2 * 2 ^ 16 in
    signed (2 ^ 31) (if v / 2 ^ 23 % 2 == 1 then v + 0xff000000 else v)

-- The two's complement pattern of an `int32_t`.
abbrev pub pattern32 : ℤ → ℕ
pattern32 (pos n) = n % 2 ^ 32
pattern32 (negsuc n) = 2 ^ 32 - 1 - n % 2 ^ 32

-- `v & 0xFF`, `(v >> 8) & 0xFF`, `(v >> 16) & 0xFF`
pub split : ℤ → ℕ × ℕ × ℕ
split v = let w = pattern32 v in (w % 2 ^ 8, w / 2 ^ 8 % 2 ^ 8, w / 2 ^ 16 % 2 ^ 8)

-- C's `float`, and the operations on it that the engine uses. `quotient v` is `v / 8388608.0f` and
-- `scaled x` is `(int32_t)(x * 8388607.0f)`. All that is relied on is that 1 and -1 scale to the
-- ends of the range, and that a number that is neither above 1 nor below -1, and not a NaN, which
-- compares false with both, scales in between.
pub record Floats : Type 1 where
  pub Float : Type 0
  pub zero_f : Float
  pub one_f : Float
  pub minus_one : Float
  pub is_nan : Float → Bool
  pub gt_one : Float → Bool
  pub lt_minus_one : Float → Bool
  pub quotient : ℤ → Float
  pub scaled : Float → ℤ
  pub scaled_one : scaled one_f ≡ pos 8388607
  pub scaled-minus_one : scaled minus_one ≡ negsuc 8388606
  pub scaled_bounds :
      (x : Float)
      → is_nan x ≡ false
      → gt_one x ≡ false
      → lt_minus_one x ≡ false
      → (negsuc 8388606 ≤ℤ scaled x) × (scaled x ≤ℤ pos 8388607)

module _ (fl : Floats) where
  open fl use {Float, one_f, minus_one, gt_one, lt_minus_one, quotient, scaled}

  unfoldable pub s24_to_f : ℕ → ℕ → ℕ → Float
  unfolding s24
  s24_to_f p0 p1 p2 = quotient (s24 p0 p1 p2)

  pub clamp : Float → Float
  clamp x = if gt_one x then one_f else if lt_minus_one x then minus_one else x

  pub f_to_s24 : Float → ℕ × ℕ × ℕ
  unfolding clamp split
  f_to_s24 x = split (scaled (clamp x))

  -- The samples of `n` channels that stand at `p`; `none` if the bytes end before them.
  unfoldable pub decode_samples : ℕ → List ℕ → Option (List Float)
  unfolding s24_to_f
  decode_samples zero p = some []
  decode_samples (suc n) (p0 ∷ p1 ∷ p2 ∷ p) = do
    rest ← decode_samples n p
    some (s24_to_f p0 p1 p2 ∷ rest)
  decode_samples (suc n) _ = none

  -- The loops of `in_cb` over `f` and `c`: the frames that stand at `pkt`.
  unfoldable pub decode_frames : ℕ → List ℕ → Option (List (List Float))
  unfolding decode_samples
  decode_frames zero pkt = some []
  decode_frames (suc nf) pkt = do
    frame ← decode_samples channels pkt
    rest ← decode_frames nf (drop (channels * 3) pkt)
    some (frame ∷ rest)

  pub encode_samples : List Float → List ℕ
  unfolding f_to_s24
  encode_samples [] = []
  encode_samples (x ∷ xs) = let (b0, b1, b2) = f_to_s24 x in b0 ∷ b1 ∷ b2 ∷ encode_samples xs

  -- The loops of `out_cb` over `f` and `c`: what they store at `b`.
  pub encode_frames : List (List Float) → List ℕ
  unfolding encode_samples
  encode_frames [] = []
  encode_frames (frame ∷ frames) = encode_samples frame ++ encode_frames frames
