-- ===== src/Kernel/Playback.antt =====
-- `djmt1_out_complete` against the ring of frames to play.
use djm_t1_linux.Base.{
  ℕ, ◌+◌, ◌*◌, ◌%◌, ◌≡◌, refl, sym, ap, ap₂, ◌∙◌, true, false, some, List, [], ◌∷◌, ◌++◌, arith,
  length, append-nil, All,
}
use native.Mathlib.Nat.{add-zero, mod-eq_of_lt, mod-add-mod}
use djm_t1_linux.Ring.Window.{window, window-append, window-mod}
use djm_t1_linux.Kernel.{
  Stream, frames_per_pkt, copy_loop, advance, transfer, out_packets, out_complete, layout,
}
use djm_t1_linux.Kernel.Copy.{copy_loop_playback}
use djm_t1_linux.Kernel.Period.{HwParams, IsValid, advance-IsValid, advance_hwptr, advance_periods}

-- The frames of packets that follow one another.
abbrev pub payload {ℓ} : {A : Type ℓ} → List (List A) → List A
payload [] = []
payload (p ∷ ps) = p ++ payload ps

abbrev pub IsPacket {ℓ} : {A : Type ℓ} → List A → Type 0
IsPacket p = length p ≡ frames_per_pkt

module _ {ℓ} {A : Type ℓ} (size period : ℕ) where
  -- `t` is `s` after `n` frames have been played.
  pub record Played (n : ℕ) (s t : Stream A) : Type ℓ where
    pub valid : IsValid size period t
    pub same_dma : t.dma_area ≡ s.dma_area
    pub hwptr_at : t.hwptr ≡ (s.hwptr + n) % size
    pub counted : t.periods * period + t.period_pos ≡ s.periods * period + s.period_pos + n

  transfer_playback :
      (s : Stream A) (pkt : List A)
      → HwParams size period
      → IsValid size period s
      → IsPacket pkt
      → (t : Stream A) × (transfer size period false frames_per_pkt pkt s
          ≡ some (t, window s.dma_area size s.hwptr frames_per_pkt))
        × Played frames_per_pkt s t
  unfolding transfer advance
  transfer_playback s pkt hw v whole = (
    advance size period frames_per_pkt s,
    rw loop,
    record {
      valid = advance-IsValid size period frames_per_pkt s hw v (omega arith);
      same_dma = refl;
      hwptr_at = advance_hwptr size period frames_per_pkt s hw v (omega arith);
      counted = advance_periods size period frames_per_pkt s hw v (omega arith);
    },
  )
    where
      loop :
          copy_loop size false s.hwptr frames_per_pkt 0 s.dma_area pkt
          ≡ some (s.dma_area, window s.dma_area size s.hwptr frames_per_pkt)
      loop =
          ap₂ (λ n l. copy_loop size false s.hwptr n 0 s.dma_area l) (sym whole)
            (sym (append-nil pkt))
          ∙ copy_loop_playback size s.hwptr 0 s.dma_area [] pkt [] v.storage
              (omega (arith, v.hwptr_in)) refl (omega (arith, v.hwptr_in, hw.buffer_bytes_max))
          ∙ ap₂ (λ k n. some (s.dma_area, window s.dma_area size k n ++ [])) (add-zero s.hwptr)
              whole
          ∙ ap (λ l. some (s.dma_area, l)) (append-nil _)

  -- A packet more.
  Played-more :
      (n : ℕ) (s t u : Stream A)
      → IsValid size period s
      → Played frames_per_pkt s t
      → Played n t u
      → Played (frames_per_pkt + n) s u
  Played-more n s t u v c d = record {
    valid = d.valid;
    same_dma = d.same_dma ∙ c.same_dma;
    hwptr_at =
        d.hwptr_at
        ∙ ap (λ k. (k + n) % size) c.hwptr_at
        ∙ mod-add-mod (s.hwptr + frames_per_pkt) size n
        ∙ ap (λ k. k % size) (omega arith);
    counted = omega (arith, c.counted, d.counted);
  }

  out_packets-Played :
      (pkts : List (List A)) (s : Stream A)
      → HwParams size period
      → IsValid size period s
      → All IsPacket pkts
      → (t : Stream A) × (sent : List (List A)) × (out_packets size period pkts s ≡ some (t, sent))
        × Played (frames_per_pkt * length pkts) s t
        × (payload sent ≡ window s.dma_area size s.hwptr (frames_per_pkt * length pkts))
  unfolding out_packets
  out_packets-Played [] s hw v ok = (
    s,
    [],
    refl,
    record {
      valid = v;
      same_dma = refl;
      hwptr_at = sym (mod-eq_of_lt v.hwptr_in) ∙ ap (λ k. k % size) (omega arith);
      counted = omega arith;
    },
    refl,
  )
  out_packets-Played (pkt ∷ pkts) s hw v ok =
      let n = frames_per_pkt * length pkts in
      let (t, r, c) = transfer_playback s pkt hw v ok.0 in
      let (u, sent, r', d, frames) = out_packets-Played pkts t hw c.valid ok.1 in
      let more : frames_per_pkt * length (pkt ∷ pkts) ≡ frames_per_pkt + n = omega arith in
      let first = window s.dma_area size s.hwptr frames_per_pkt in
      (
        u,
        first ∷ sent,
        rw (r, r'),
        rw more (Played-more n s t u v c d),
        ap (◌++◌ first) (
              frames
              ∙ ap₂ (λ dma k. window dma size k n) c.same_dma c.hwptr_at
              ∙ window-mod s.dma_area size (s.hwptr + frames_per_pkt) n)
            ∙ sym (window-append s.dma_area size s.hwptr frames_per_pkt n)
            ∙ ap (window s.dma_area size s.hwptr) (sym more),
      )

  -- A playback URB that completes while its stream runs is refilled without a fault: its packets
  -- hold, one after the other, the frames that follow the hardware pointer in the ring; the ring is
  -- left alone; the pointer moves on behind them; a period is reported for each boundary that is
  -- crossed; and the URB is submitted with its descriptors reset.
  pub out_complete_played :
      (pkts : List (List A)) (s : Stream A)
      → HwParams size period
      → IsValid size period s
      → s.running ≡ true
      → All IsPacket pkts
      → let n = frames_per_pkt * length pkts in
        (t : Stream A) × (sent : List (List A)) × (out_complete size period pkts s
          ≡ some (t, some (layout (length pkts) 0, sent)))
        × (payload sent ≡ window s.dma_area size s.hwptr n)
        × IsValid size period t
        × (t.dma_area ≡ s.dma_area)
        × (t.hwptr ≡ (s.hwptr + n) % size)
        × (t.periods * period + t.period_pos ≡ s.periods * period + s.period_pos + n)
  unfolding out_complete
  out_complete_played pkts s hw v on ok =
      let (t, sent, r, c, frames) = out_packets-Played pkts s hw v ok in
      (t, sent, simp (on, r), frames, c.valid, c.same_dma, c.hwptr_at, c.counted)
