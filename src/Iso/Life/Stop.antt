-- ===== src/Iso/Life/Stop.antt =====
-- What a started engine promises while it runs, and what `djmt1_iso_stop` waits for.
use djm_t1_linux.Base.{
  ℕ, ◌+◌, ◌*◌, ◌≤◌, ◌≡◌, refl, Bool, true, false, some, List, [], ◌∷◌, ◌-◌, ◌<◌, sym, ap, ◌∙◌,
  arith, length, All, Option,
}
use djm_t1_linux.Usb.{TransferStatus}
use djm_t1_linux.Ring.Refine.{read_refines, write_refines}
use djm_t1_linux.Sample.{Floats}
use djm_t1_linux.Iso.{Engine, IsoPacket, npkt, in_cb, out_cb, iso_read, iso_write}
use djm_t1_linux.Iso.Packet.{InBuffer}
use djm_t1_linux.Iso.Capture.{in_cb_lem}
use djm_t1_linux.Iso.Playback.{out_cb_lem}
use djm_t1_linux.Iso.Life.{
  Life, Answers, Held, Slot, has, Step, Steps, usable, free_transfers, ring_free, free_engine,
  exit_context, close_handle, in_flight, nxfr, start, stop_request, stop_joined, thread_ends,
}
use djm_t1_linux.Iso.Life.Slots.{in_flight_le}
use djm_t1_linux.Iso.Life.Reach.{Inv, Steps-Inv, iso_read-eq, iso_write-eq}
use djm_t1_linux.Iso.Life.Start.{start-Running, start-Held, back}

module _ (fl : Floats) where
  open fl use {Float}

  -- No callback and no call of the caller's faults.
  pub record NoFault (s : Life fl) : Type 0 where
    pub captures :
        (status : TransferStatus) (packets : List IsoPacket) (submits : Bool)
        → All InBuffer packets
        → (r : Engine fl × Bool) × (usable s.freed (in_cb fl status packets submits s.engine)
            ≡ some r)
    pub plays :
        (status : TransferStatus) (packets : ℕ) (submits : Bool)
        → packets ≤ npkt
        → (r : List ℕ × Engine fl × Bool) × (usable s.freed
              (out_cb fl status packets submits s.engine)
            ≡ some r)
    pub reads :
        (n : ℕ)
        → (r : List (List Float) × Engine fl) × (usable s.freed (iso_read fl s.engine n) ≡ some r)
    pub writes :
        (src : List (List Float)) (n : ℕ)
        → n ≤ length src
        → (r : ℕ × Engine fl) × (usable s.freed (iso_write fl s.engine src n) ≡ some r)

  usable-some :
      {A : Type 0} (freed : Bool) (r : Option A) (x : A)
      → freed ≡ false
      → r ≡ some x
      → usable freed r ≡ some x
  usable-some true r x alive e = cc alive
  usable-some false r x alive e = e

  Inv-NoFault : (s : Life fl) → Inv fl s → NoFault s
  Inv-NoFault s v = record {
    captures = λ status packets submits fits.
        let (_, _, _, _, runs) =
          in_cb_lem fl status packets submits s.engine v.cap_valid fits v.over in
        (_, usable-some s.freed _ _ v.alive runs);
    plays = λ status packets submits fits.
        let (_, _, _, _, runs) = out_cb_lem fl status packets submits s.engine v.play_valid fits in
        (_, usable-some s.freed _ _ v.alive runs);
    reads = λ n.
        let o = read_refines s.engine.cap_ring n v.cap_valid in
        (_, usable-some s.freed _ _ v.alive (iso_read-eq fl s.engine n _ o.ring o.returns));
    writes = λ src n enough.
        let o = write_refines s.engine.play_ring src n v.play_valid enough in
        (_, usable-some s.freed _ _ v.alive (iso_write-eq fl s.engine src n _ o.ring o.returns));
  }

  -- On an engine that `djmt1_iso_start` returns with both rings allocated, until `djmt1_iso_stop` has
  -- joined its thread and frees it: however the callbacks, the caller and the first lines of that stop
  -- follow one another, no callback and no call faults, and `inflight` is the number of transfers that
  -- libusb has, twelve at most.
  pub start-NoFault :
      (a : Answers fl) (frames : ℕ) (h : Held) (cap_block play_block : List (List Float))
      (s t : Life fl)
      → a.cap_block ≡ some cap_block
      → length cap_block ≡ frames + 1
      → a.play_block ≡ some play_block
      → length play_block ≡ frames + 1
      → (start fl a frames h).0 ≡ some s
      → Steps fl s t
      → t.freed ≡ false
      → NoFault t × (t.engine.inflight ≡ in_flight t.slots) × (t.engine.inflight ≤ 2 * nxfr)
  start-NoFault a frames h cap_block play_block s t cap_got cap_length play_got play_length begun
        steps alive =
      let v =
        Steps-Inv fl
          (start-Running fl a frames h cap_block play_block s cap_got cap_length play_got
            play_length begun).inv
          alive steps in
      (Inv-NoFault t v, v.counted, omega (arith, v.counted, v.few, in_flight_le t.slots))

  abbrev with_counts : ℕ → Life fl → ℕ → ℕ → ℕ × Life fl
  with_counts k s t b = (k, record s { transfers = t; buffers = b })

  same_counts :
      (k : ℕ) (s : Life fl) (t t' b b' : ℕ)
      → t ≡ t'
      → b ≡ b'
      → with_counts k s t b ≡ with_counts k s t' b'
  same_counts k s t t' b b' e e' = ap (λ n. with_counts k s n b) e ∙ ap (with_counts k s t') e'

  counted :
      (slot : Slot) (slots : List Slot) → has slot + in_flight slots ≡ in_flight (slot ∷ slots)
  unfolding in_flight
  counted Slot.idle slots = omega arith
  counted Slot.active slots = omega arith

  -- The loop frees a transfer and a buffer for each slot, and meets those that libusb has.
  free_transfers-eq :
      (slots : List Slot) (s : Life fl)
      → free_transfers fl slots s ≡ (
        in_flight slots,
        record s { transfers = s.transfers - length slots; buffers = s.buffers - length slots },
      )
  unfolding free_transfers in_flight
  free_transfers-eq [] s =
      same_counts 0 s s.transfers (s.transfers - 0) s.buffers (s.buffers - 0) (omega arith)
        (omega arith)
  free_transfers-eq (slot ∷ slots) s =
      let n = length slots in
      ap (λ r. (has slot + r.0, r.1))
        (free_transfers-eq slots
          (record s { transfers = s.transfers - 1; buffers = s.buffers - 1 }))
      ∙ ap (λ k. with_counts k s (s.transfers - 1 - n) (s.buffers - 1 - n)) (counted slot slots)
      ∙ same_counts (in_flight (slot ∷ slots)) s (s.transfers - 1 - n)
          (s.transfers - length (slot ∷ slots)) (s.buffers - 1 - n)
          (s.buffers - length (slot ∷ slots)) (omega arith) (omega arith)

  ring_free-eq :
      (buf : List (List Float)) (s : Life fl)
      → 0 < length buf
      → ring_free fl buf s ≡ record s { blocks = s.blocks - 1 }
  unfolding ring_free
  ring_free-eq [] s h = absurd (omega arith)
  ring_free-eq (frame ∷ buf) s h = refl

  -- What is left of an engine's when it is freed: nothing but the transfers that libusb still has.
  pub record Freed (t u : Life fl) : Type 0 where
    pub transfers : u.transfers ≡ 0
    pub buffers : u.buffers ≡ 0
    pub blocks : u.blocks ≡ 0
    pub claimed : u.claimed ≡ false
    pub alt : u.alt ≡ 0
    pub freed : u.freed ≡ true
    pub slots : u.slots ≡ t.slots

  stop_joined-Freed :
      (t : Life fl) (h : Held)
      → Inv fl t
      → ((stop_joined fl t h).0.0 ≡ in_flight t.slots) × Freed t (stop_joined fl t h).0.1
  unfolding stop_joined
  stop_joined-Freed t h v =
      rw
        (
          free_transfers-eq t.slots t,
          ring_free-eq t.engine.cap_ring.buf
              (record t {
                transfers = t.transfers - length t.slots;
                buffers = t.buffers - length t.slots;
                alt = 0;
                claimed = false;
              })
              (omega (arith, v.cap_valid)),
          ring_free-eq t.engine.play_ring.buf
              (record t {
                transfers = t.transfers - length t.slots;
                buffers = t.buffers - length t.slots;
                alt = 0;
                claimed = false;
                blocks = t.blocks - 1;
              })
              (omega (arith, v.play_valid)),
        )
        (
          refl,
          record {
            transfers = omega (arith, v.transfers, v.few);
            buffers = omega (arith, v.buffers, v.few);
            blocks = omega (arith, v.blocks);
            claimed = refl;
            alt = refl;
            freed = refl;
            slots = refl;
          },
        )

  -- On an engine that `djmt1_iso_start` returns with both rings allocated and its thread made, at any
  -- time after: `djmt1_iso_stop` can run with no callback between its first lines and the end of the
  -- event thread, which is free to end there, and then frees the engine with every transfer that is in
  -- flight, `inflight` of them, still with libusb. Behind it the twelve transfers, their buffers and
  -- the blocks of both rings are freed, the interface is on alternate setting 0 and released, and no
  -- more engines, contexts and handles are held than before the start.
  pub stop-in_flight :
      (a : Answers fl) (frames : ℕ) (h : Held) (cap_block play_block : List (List Float))
      (s t : Life fl)
      → a.cap_block ≡ some cap_block
      → length cap_block ≡ frames + 1
      → a.play_block ≡ some play_block
      → length play_block ≡ frames + 1
      → a.thread ≡ true
      → (start fl a frames h).0 ≡ some s
      → Steps fl s t
      → t.freed ≡ false
      → let r = stop_joined fl (stop_request fl t) (start fl a frames h).1 in
        Steps fl s r.0.1 × (r.0.0 ≡ t.engine.inflight) × Freed t r.0.1 × (r.1 ≡ h)
  unfolding thread_ends stop_joined
  stop-in_flight a frames h cap_block play_block s t cap_got cap_length play_got play_length made
        begun steps alive =
      let held = (start fl a frames h).1 in
      let v =
        Steps-Inv fl
          (start-Running fl a frames h cap_block play_block s cap_got cap_length play_got
            play_length begun).inv
          alive steps in
      let f = stop_joined-Freed (stop_request fl t) held (record {
        cap_valid = v.cap_valid;
        play_valid = v.play_valid;
        over = v.over;
        counted = v.counted;
        few = v.few;
        transfers = v.transfers;
        buffers = v.buffers;
        blocks = v.blocks;
        alive = v.alive;
      }) in
      (
        Steps.then (Steps.then steps (Step.stops alive)) (Step.frees alive refl held),
        f.0 ∙ sym v.counted,
        record {
          transfers = f.1.transfers;
          buffers = f.1.buffers;
          blocks = f.1.blocks;
          claimed = f.1.claimed;
          alt = f.1.alt;
          freed = f.1.freed;
          slots = f.1.slots;
        },
        ap (λ k. free_engine (exit_context (close_handle k))) (start-Held fl a frames h s begun)
            ∙ rw (back h.engines, back h.contexts, back h.handles) refl,
      )
