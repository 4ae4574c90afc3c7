-- ===== src/Iso/Life/Reach.antt =====
-- The invariant of a started engine.
use djm_t1_linux.Base.{
  ℕ, ◌*◌, ◌^◌, ◌≤◌, ◌<◌, ◌≡◌, refl, sym, ◌∙◌, ◌&&◌, Bool, true, false, Option, some, List, arith,
  get_elem?, set, length, length-set, All, if◌then◌else◌, some_eq,
}
use mathlib.Core.Path.{subst}
use native.Mathlib.Nat.{mod-lt}
use djm_t1_linux.Usb.{TransferStatus}
use djm_t1_linux.Ring.{Ring, read, write}
use djm_t1_linux.Ring.Inv.{IsValid}
use djm_t1_linux.Ring.Refine.{read_refines, write_refines}
use djm_t1_linux.Sample.{Floats}
use djm_t1_linux.Iso.{Engine, IsoPacket, sub_one, npkt, in_cb, out_cb, iso_read, iso_write}
use djm_t1_linux.Iso.Packet.{InBuffer}
use djm_t1_linux.Iso.Capture.{in_cb_lem}
use djm_t1_linux.Iso.Playback.{out_cb_lem}
use djm_t1_linux.Iso.Life.{
  Life, Slot, Held, slot_of, in_flight, nxfr, usable, stop_joined, Step, Steps,
}
use djm_t1_linux.Iso.Life.Slots.{in_flight_le, in_flight-set}

-- `inflight` behind a callback, against the transfers.
counted_set :
    (n : ℕ) (slots : List Slot) (i : ℕ) (again : Bool)
    → n ≡ in_flight slots
    → length slots ≡ 2 * nxfr
    → get_elem? slots i ≡ some Slot.active
    → (if again then n else sub_one n) ≡ in_flight (set slots i (slot_of again))
counted_set n slots i true e few at = omega (arith, in_flight-set slots i true at)
counted_set n slots i false e few at =
    let back = in_flight-set slots i false at in
    let le = in_flight_le slots in omega (arith, back, le)

module _ (fl : Floats) where
  open fl use {Float}

  -- Both rings are valid, `cap_over` is a 32-bit number, and `inflight` counts the transfers that
  -- libusb has, of the twelve there are; they, their buffers and both rings' blocks are allocated.
  pub record Inv (s : Life fl) : Type 0 where
    pub cap_valid : IsValid s.engine.cap_ring
    pub play_valid : IsValid s.engine.play_ring
    pub over : s.engine.cap_over < 2 ^ 32
    pub counted : s.engine.inflight ≡ in_flight s.slots
    pub few : length s.slots ≡ 2 * nxfr
    pub transfers : s.transfers ≡ 2 * nxfr
    pub buffers : s.buffers ≡ 2 * nxfr
    pub blocks : s.blocks ≡ 2
    pub alive : s.freed ≡ false

  abbrev handled : Life fl → ℕ → Engine fl × Bool → Life fl
  handled s i r = record s { engine = r.0; slots = set s.slots i (slot_of r.1) }

  captured-Inv :
      (s : Life fl) (i : ℕ) (status : TransferStatus) (packets : List IsoPacket) (submits : Bool)
      (r : Engine fl × Bool)
      → Inv s
      → get_elem? s.slots i ≡ some Slot.active
      → All InBuffer packets
      → in_cb fl status packets submits s.engine ≡ some r
      → Inv (handled s i r)
  captured-Inv s i status packets submits r v at fits runs =
      let (ring, valid, _, _, result) =
        in_cb_lem fl status packets submits s.engine v.cap_valid fits v.over in
      subst (λ after. Inv (handled s i after)) (some_eq (sym result ∙ runs))
        (record {
          cap_valid = valid;
          play_valid = v.play_valid;
          over = mod-lt _ {m = 2 ^ 32} (omega arith);
          counted =
              counted_set s.engine.inflight s.slots i (s.engine.running && submits) v.counted v.few
                at;
          few = length-set s.slots i (slot_of (s.engine.running && submits)) ∙ v.few;
          transfers = v.transfers;
          buffers = v.buffers;
          blocks = v.blocks;
          alive = v.alive;
        })

  played-Inv :
      (s : Life fl) (i : ℕ) (status : TransferStatus) (packets : ℕ) (submits : Bool)
      (r : List ℕ × Engine fl × Bool)
      → Inv s
      → get_elem? s.slots i ≡ some Slot.active
      → packets ≤ npkt
      → out_cb fl status packets submits s.engine ≡ some r
      → Inv (handled s i (r.1, r.2))
  played-Inv s i status packets submits r v at fits runs =
      let (ring, valid, _, _, result) =
        out_cb_lem fl status packets submits s.engine v.play_valid fits in
      subst (λ after. Inv (handled s i (after.1, after.2))) (some_eq (sym result ∙ runs))
        (record {
          cap_valid = v.cap_valid;
          play_valid = valid;
          over = v.over;
          counted =
              counted_set s.engine.inflight s.slots i (s.engine.running && submits) v.counted v.few
                at;
          few = length-set s.slots i (slot_of (s.engine.running && submits)) ∙ v.few;
          transfers = v.transfers;
          buffers = v.buffers;
          blocks = v.blocks;
          alive = v.alive;
        })

  pub iso_read-eq :
      (e : Engine fl) (n : ℕ) (out : List (List Float)) (ring : Ring (List Float))
      → read e.cap_ring n ≡ some (out, ring)
      → iso_read fl e n ≡ some (out, record e { cap_ring = ring })
  unfolding iso_read
  iso_read-eq e n out ring h = rw h refl

  pub iso_write-eq :
      (e : Engine fl) (src : List (List Float)) (n wrote : ℕ) (ring : Ring (List Float))
      → write e.play_ring src n ≡ some (wrote, ring)
      → iso_write fl e src n ≡ some (wrote, record e { play_ring = ring })
  unfolding iso_write
  iso_write-eq e src n wrote ring h = rw h refl

  reads-Inv :
      (s : Life fl) (n : ℕ) (r : List (List Float) × Engine fl)
      → Inv s
      → iso_read fl s.engine n ≡ some r
      → Inv (record s { engine = r.1 })
  reads-Inv s n r v runs =
      let o = read_refines s.engine.cap_ring n v.cap_valid in
      subst (λ after. Inv (record s { engine = after.1 }))
        (some_eq (sym (iso_read-eq s.engine n _ o.ring o.returns) ∙ runs))
        (record {
          cap_valid = o.valid;
          play_valid = v.play_valid;
          over = v.over;
          counted = v.counted;
          few = v.few;
          transfers = v.transfers;
          buffers = v.buffers;
          blocks = v.blocks;
          alive = v.alive;
        })

  writes-Inv :
      (s : Life fl) (src : List (List Float)) (n : ℕ) (r : ℕ × Engine fl)
      → Inv s
      → n ≤ length src
      → iso_write fl s.engine src n ≡ some r
      → Inv (record s { engine = r.1 })
  writes-Inv s src n r v enough runs =
      let o = write_refines s.engine.play_ring src n v.play_valid enough in
      subst (λ after. Inv (record s { engine = after.1 }))
        (some_eq (sym (iso_write-eq s.engine src n _ o.ring o.returns) ∙ runs))
        (record {
          cap_valid = v.cap_valid;
          play_valid = o.valid;
          over = v.over;
          counted = v.counted;
          few = v.few;
          transfers = v.transfers;
          buffers = v.buffers;
          blocks = v.blocks;
          alive = v.alive;
        })

  -- A result that is there is that of an engine that is not freed.
  usable-alive :
      {A : Type 0} (freed : Bool) (r : Option A) (x : A)
      → usable freed r ≡ some x
      → (freed ≡ false) × (r ≡ some x)
  usable-alive true r x e = cc e
  usable-alive false r x e = (refl, e)

  -- Nothing happens to an engine that is freed.
  Step-alive : {s t : Life fl} → Step fl s t → s.freed ≡ false
  Step-alive {s} (Step.captured i status packets submits again e at fits runs) =
      (usable-alive s.freed _ _ runs).0
  Step-alive {s} (Step.played i status packets submits again bytes e at fits runs) =
      (usable-alive s.freed _ _ runs).0
  Step-alive {s} (Step.reads n out e runs) = (usable-alive s.freed _ _ runs).0
  Step-alive {s} (Step.writes src n wrote e enough runs) = (usable-alive s.freed _ _ runs).0
  Step-alive (Step.stops alive) = alive
  Step-alive (Step.frees alive ended h) = alive

  stop_joined-freed : (s : Life fl) (h : Held) → (stop_joined fl s h).0.1.freed ≡ true
  unfolding stop_joined
  stop_joined-freed s h = refl

  Step-Inv : {s t : Life fl} → Step fl s t → t.freed ≡ false → Inv s → Inv t
  Step-Inv {s} (Step.captured i status packets submits again e at fits runs) alive v =
      captured-Inv s i status packets submits (e, again) v at fits (usable-alive s.freed _ _ runs).1
  Step-Inv {s} (Step.played i status packets submits again bytes e at fits runs) alive v =
      played-Inv s i status packets submits (bytes, e, again) v at fits
        (usable-alive s.freed _ _ runs).1
  Step-Inv {s} (Step.reads n out e runs) alive v =
      reads-Inv s n (out, e) v (usable-alive s.freed _ _ runs).1
  Step-Inv {s} (Step.writes src n wrote e enough runs) alive v =
      writes-Inv s src n (wrote, e) v enough (usable-alive s.freed _ _ runs).1
  Step-Inv (Step.stops _) alive v = record {
    cap_valid = v.cap_valid;
    play_valid = v.play_valid;
    over = v.over;
    counted = v.counted;
    few = v.few;
    transfers = v.transfers;
    buffers = v.buffers;
    blocks = v.blocks;
    alive = v.alive;
  }
  Step-Inv {s} (Step.frees _ ended h) alive v = cc (stop_joined-freed s h, alive)

  pub Steps-Inv : {s t : Life fl} → Inv s → t.freed ≡ false → Steps fl s t → Inv t
  Steps-Inv v alive Steps.done = v
  Steps-Inv v alive (Steps.then steps step) =
      Step-Inv step alive (Steps-Inv v (Step-alive step) steps)
