-- ===== src/Playback/Wave.antt =====
-- The tone that fill_tone writes, as the engine's callback would read it.
use djm_t1_linux.Base.{
  ℕ, zero, suc, ◌+◌, ◌*◌, ◌≤◌, ◌≡◌, refl, sym, ap, ◌∙◌, some, List, [], ◌∷◌, ◌++◌, arith, length,
  length-append, map, All, drop, drop-append_length, replicate, store_all_fits, append_assoc,
}
use djm_t1_linux.Base.Int.{ℤ}
use djm_t1_linux.Sample.{Floats, split, channels, decode_samples, decode_frames, s24_to_f}
use djm_t1_linux.Sample.RoundTrip.{Fits24, s24-split}
use djm_t1_linux.Playback.{
  Math, Tool, frames_per_pkt, advance, value, fill_frame, fill_frames, fill_packets, fill_tone,
}

module _ (mt : Math) where
  open mt use {Double}

  -- The values of so many frames from a phase on, and the phase behind them.
  abbrev pub wave : ℕ → Double → Double → Double → List ℤ
  wave zero freq amp phase = []
  wave (suc n) freq amp phase = value mt amp phase ∷ wave n freq amp (advance mt freq phase)

  abbrev pub phase_after : ℕ → Double → Double → Double
  phase_after zero freq phase = phase
  phase_after (suc n) freq phase = phase_after n freq (advance mt freq phase)

  length-fill_frame : (n : ℕ) (v : ℤ) → length (fill_frame mt n v) ≡ n * 3
  unfolding fill_frame
  length-fill_frame zero v = refl
  length-fill_frame (suc n) v = omega (arith, length-fill_frame n v)

  -- Packets are frames one behind the other.
  fill_frames-append :
      (m n : ℕ) (freq amp phase : Double)
      → fill_frames mt (m + n) freq amp phase ≡ (
          let (bytes, next) = fill_frames mt m freq amp phase in
          let (rest, end) = fill_frames mt n freq amp next in (bytes ++ rest, end))
  unfolding fill_frames
  fill_frames-append zero n freq amp phase =
      let none : 0 + n ≡ n = omega arith in ap (λ k. fill_frames mt k freq amp phase) none
  fill_frames-append (suc m) n freq amp phase =
      let one_more : suc m + n ≡ suc (m + n) = omega arith in
      let frame = fill_frame mt channels (value mt amp phase) in
      let others = fill_frames-append m n freq amp (advance mt freq phase) in
      let first = fill_frames mt m freq amp (advance mt freq phase) in
      let last = fill_frames mt n freq amp first.1 in
      ap (λ k. fill_frames mt k freq amp phase) one_more
      ∙ ap (λ r. (frame ++ r.0, r.1)) others
      ∙ ap (λ l. (l, last.1)) (sym (append_assoc frame first.0 last.0))

  fill_frames-phase :
      (n : ℕ) (freq amp phase : Double)
      → (fill_frames mt n freq amp phase).1 ≡ phase_after n freq phase
  unfolding fill_frames
  fill_frames-phase zero freq amp phase = refl
  fill_frames-phase (suc n) freq amp phase = fill_frames-phase n freq amp (advance mt freq phase)

  length-fill_frames :
      (n : ℕ) (freq amp phase : Double) → length (fill_frames mt n freq amp phase).0 ≡ n * 18
  unfolding fill_frames
  length-fill_frames zero freq amp phase = refl
  length-fill_frames (suc n) freq amp phase = omega (
    arith,
    length-append (fill_frame mt channels (value mt amp phase))
        (fill_frames mt n freq amp (advance mt freq phase)).0,
    length-fill_frame channels (value mt amp phase),
    length-fill_frames n freq amp (advance mt freq phase),
  )

  fill_packets_lem :
      (n : ℕ) (freq amp phase : Double)
      → fill_packets mt n freq amp phase ≡ fill_frames mt (n * frames_per_pkt) freq amp phase
  unfolding fill_packets fill_frames
  fill_packets_lem zero freq amp phase = refl
  fill_packets_lem (suc n) freq amp phase =
      let next = (fill_frames mt frames_per_pkt freq amp phase).1 in
      let packet = (fill_frames mt frames_per_pkt freq amp phase).0 in
      let sum : frames_per_pkt + n * frames_per_pkt ≡ suc n * frames_per_pkt = omega arith in
      ap (λ r. (packet ++ r.0, r.1)) (fill_packets_lem n freq amp next)
      ∙ sym (fill_frames-append frames_per_pkt (n * frames_per_pkt) freq amp phase)
      ∙ ap (λ k. fill_frames mt k freq amp phase) sum

  -- Whatever its values, `fill_tone` with room for its packets does not fault.
  pub fill_tone_total :
      (buf : List ℕ) (npkts : ℕ) (t : Tool mt)
      → npkts * 864 ≤ length buf
      → (buf' : List ℕ) × (phase : Double) × (fill_tone mt buf npkts t
          ≡ some (buf', record t { phase = phase }))
  unfolding fill_tone
  fill_tone_total buf npkts t fits =
      let n = npkts * frames_per_pkt in
      let bytes = (fill_frames mt n t.freq t.amp t.phase).0 in
      let measure : length bytes ≡ npkts * 864 =
        omega (arith, length-fill_frames n t.freq t.amp t.phase) in
      (
        bytes ++ drop (length bytes) buf,
        (fill_frames mt n t.freq t.amp t.phase).1,
        rw
            (
              fill_packets_lem npkts t.freq t.amp t.phase,
              store_all_fits bytes buf (omega (arith, measure, fits)),
            )
            refl,
      )

  module _ (fl : Floats) where
    decode-fill_frame :
        (n : ℕ) (v : ℤ) (rest : List ℕ)
        → Fits24 v
        → decode_samples fl n (fill_frame mt n v ++ rest) ≡ some (replicate n (fl.quotient v))
    unfolding decode_samples fill_frame s24_to_f
    decode-fill_frame zero v rest fits = refl
    decode-fill_frame (suc n) v rest fits =
        let (p0, p1, p2) = split v in
        let read : s24_to_f fl p0 p1 p2 ≡ fl.quotient v = ap fl.quotient (s24-split v fits) in
        rw (decode-fill_frame n v rest fits, read) refl

    drop-fill_frame :
        (n : ℕ) (v : ℤ) (rest : List ℕ) → drop (n * 3) (fill_frame mt n v ++ rest) ≡ rest
    drop-fill_frame n v rest =
        drop-append_length (fill_frame mt n v) rest (n * 3) (sym (length-fill_frame n v))

    decode_frames-cons :
        (n : ℕ) (bytes : List ℕ) (frame : List fl.Float) (frames : List (List fl.Float))
        → decode_samples fl channels bytes ≡ some frame
        → decode_frames fl n (drop (channels * 3) bytes) ≡ some frames
        → decode_frames fl (suc n) bytes ≡ some (frame ∷ frames)
    unfolding decode_frames
    decode_frames-cons n bytes frame frames first rest = rw (first, rest) refl

    decode_none : decode_frames fl 0 [] ≡ some []
    unfolding decode_frames
    decode_none = refl

    decode-fill_frames :
        (n : ℕ) (freq amp phase : Double)
        → All Fits24 (wave n freq amp phase)
        → decode_frames fl n (fill_frames mt n freq amp phase).0
          ≡ some (map (λ v. replicate channels (fl.quotient v)) (wave n freq amp phase))
    unfolding fill_frames
    decode-fill_frames zero freq amp phase fits = decode_none
    decode-fill_frames (suc n) freq amp phase (this, others) =
        let frame = fill_frame mt channels (value mt amp phase) in
        let rest = (fill_frames mt n freq amp (advance mt freq phase)).0 in
        let v = value mt amp phase in
        decode_frames-cons n (frame ++ rest) _ _ (decode-fill_frame channels v rest this) (
          ap (decode_frames fl n) (drop-fill_frame channels v rest)
          ∙ decode-fill_frames n freq amp (advance mt freq phase) others)

    -- If the values of the tone fit in 24 bits, `fill_tone` on a buffer with room for so many packets
    -- does not fault, and goes on where it left off: the bytes that it writes, 864 a packet, decode to
    -- 48 frames a packet with the value of their phase on all six channels; the phase is then that
    -- behind the last frame, and the rest of the buffer is as it was.
    pub fill_tone_lem :
        (buf : List ℕ) (npkts : ℕ) (t : Tool mt)
        → npkts * 864 ≤ length buf
        → let n = npkts * frames_per_pkt in
          All Fits24 (wave n t.freq t.amp t.phase)
          → (bytes : List ℕ) × (fill_tone mt buf npkts t
              ≡ some (
                bytes ++ drop (npkts * 864) buf,
                record t { phase = phase_after n t.freq t.phase },
              ))
            × (length bytes ≡ npkts * 864)
            × (decode_frames fl n bytes
                ≡ some
                    (map (λ v. replicate channels (fl.quotient v)) (wave n t.freq t.amp t.phase)))
    unfolding fill_tone
    fill_tone_lem buf npkts t fits values =
        let n = npkts * frames_per_pkt in
        let bytes = (fill_frames mt n t.freq t.amp t.phase).0 in
        let measure : length bytes ≡ npkts * 864 =
          omega (arith, length-fill_frames n t.freq t.amp t.phase) in
        (
          bytes,
          rw
              (
                fill_packets_lem npkts t.freq t.amp t.phase,
                store_all_fits bytes buf (omega (arith, measure, fits)),
                measure,
                fill_frames-phase n t.freq t.amp t.phase,
              )
              refl,
          measure,
          decode-fill_frames n t.freq t.amp t.phase values,
        )
