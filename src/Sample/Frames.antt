-- ===== src/Sample/Frames.antt =====
-- How many bytes frames take, and that enough bytes can be decoded.
use djm_t1_linux.Base.{
  ℕ, zero, suc, ◌*◌, ◌≤◌, ◌≡◌, refl, ap, some, List, [], ◌∷◌, arith, length, length-append,
  length-drop, drop, All,
}
use djm_t1_linux.Sample.{
  Floats, channels, s24_to_f, decode_samples, decode_frames, encode_samples, encode_frames,
}

module _ (fl : Floats) where
  open fl use {Float}

  -- A frame has a sample for each channel.
  abbrev pub IsFrame : List Float → Type 0
  IsFrame frame = length frame ≡ channels

  pub decode_samples_total :
      (n : ℕ) (p : List ℕ)
      → n * 3 ≤ length p
      → (xs : List Float) × (decode_samples fl n p ≡ some xs) × (length xs ≡ n)
  unfolding decode_samples
  decode_samples_total zero p h = ([], refl, refl)
  decode_samples_total (suc n) [] h = absurd (omega arith)
  decode_samples_total (suc n) (p0 ∷ []) h = absurd (omega arith)
  decode_samples_total (suc n) (p0 ∷ p1 ∷ []) h = absurd (omega arith)
  decode_samples_total (suc n) (p0 ∷ p1 ∷ p2 ∷ p) h =
      let (xs, e, l) = decode_samples_total n p (omega arith) in
      (s24_to_f fl p0 p1 p2 ∷ xs, rw e, ap suc l)

  -- A packet of so many whole frames is decoded without a fault, into so many frames.
  pub decode_frames_total :
      (nf : ℕ) (pkt : List ℕ)
      → nf * 18 ≤ length pkt
      → (frames : List (List Float)) × (decode_frames fl nf pkt ≡ some frames)
        × (length frames ≡ nf)
        × All IsFrame frames
  unfolding decode_frames
  decode_frames_total zero pkt h = ([], refl, refl, tt)
  decode_frames_total (suc nf) pkt h =
      let (frame, e, whole) = decode_samples_total channels pkt (omega arith) in
      let (frames, e', l, all) =
        decode_frames_total nf (drop 18 pkt) (omega (arith, length-drop 18 pkt)) in
      (frame ∷ frames, rw (e, e'), ap suc l, (whole, all))

  length-encode_samples : (xs : List Float) → length (encode_samples fl xs) ≡ length xs * 3
  unfolding encode_samples
  length-encode_samples [] = refl
  length-encode_samples (x ∷ xs) = omega (arith, length-encode_samples xs)

  -- Frames take eighteen bytes each.
  pub length-encode_frames :
      (frames : List (List Float))
      → All IsFrame frames
      → length (encode_frames fl frames) ≡ length frames * 18
  unfolding encode_frames
  length-encode_frames [] ok = refl
  length-encode_frames (f ∷ fs) ok = omega (
    arith,
    length-append (encode_samples fl f) (encode_frames fl fs),
    length-encode_samples f,
    length-encode_frames fs ok.1,
    ok.0,
  )
