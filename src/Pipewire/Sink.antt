-- ===== src/Pipewire/Sink.antt =====
-- `on_sink_process` against the queue of frames to play.
use djm_t1_linux.Base.{
  ℕ, ◌-◌, ◌/◌, ◌≤◌, ◌≡◌, refl, sym, ap, ◌∙◌, min, some, List, ◌++◌, arith, length, take, eq_cases,
  inl, inr, ne→not-==, append-nil,
}
use djm_t1_linux.Ring.{Ring}
use djm_t1_linux.Ring.Inv.{IsValid}
use djm_t1_linux.Ring.Window.{contents}
use djm_t1_linux.Ring.Queue
use djm_t1_linux.Ring.Refine.{room, write_refines}
use djm_t1_linux.Sample.{Floats}
use djm_t1_linux.Iso.{Engine, iso_write}
use djm_t1_linux.Pipewire.{Buffer, frame_bytes, drain_data, on_sink_process}

module _ (fl : Floats) where
  open fl use {Float}

  -- The frames of `src` that a queue with so much room takes of `n`.
  abbrev pub accepted : ℕ → List (List Float) → List (List Float) → ℕ → List (List Float)
  accepted left q src n = take (min n (left - length q)) src

  nothing_accepted :
      (left n : ℕ) (q src : List (List Float)) → n ≡ 0 → q ++ accepted left q src n ≡ q
  nothing_accepted left n q src e =
      let m : min n (left - length q) ≡ 0 = omega arith in
      ap (λ k. q ++ take k src) m ∙ append-nil q

  -- With as many frames at `data` as the chunk says, over a valid playback ring, `on_sink_process`
  -- does not fault: the ring takes the chunk's whole frames as far as they fit, in order behind the
  -- frames it holds, and stays valid; the buffer is queued again as it was.
  pub on_sink_process_lem :
      (b : Buffer fl) (src : List (List Float)) (e : Engine fl)
      → IsValid e.play_ring
      → b.frames ≡ some src
      → b.size / frame_bytes ≤ length src
      → let q = contents e.play_ring in
        (ring : Ring (List Float)) × IsValid ring
        × (ring.cap ≡ e.play_ring.cap)
        × (contents ring ≡ q ++ accepted (room e.play_ring) q src (b.size / frame_bytes))
        × (on_sink_process fl (some b) e ≡ some (some b, record e { play_ring = ring }))
  unfolding on_sink_process drain_data iso_write Queue.write
  on_sink_process_lem b src e v at enough = elim (eq_cases b.size 0) [
    | inl empty ↦ (
      e.play_ring,
      v,
      refl,
      sym (
          nothing_accepted (room e.play_ring) (b.size / frame_bytes) (contents e.play_ring) src
            (omega arith)),
      rw (at, empty) refl,
    )
    | inr some_bytes ↦
        let r = write_refines e.play_ring src (b.size / frame_bytes) v enough in
        (
          r.ring,
          r.valid,
          r.same_cap,
          r.holds,
          rw (at, ne→not-== b.size 0 some_bytes, r.returns) refl,
        )
  ]
