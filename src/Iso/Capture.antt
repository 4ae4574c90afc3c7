-- ===== src/Iso/Capture.antt =====
-- `in_cb` against the queue of captured frames.
use djm_t1_linux.Base.{
  ℕ, suc, ◌+◌, ◌-◌, ◌%◌, ◌^◌, ◌<◌, ◌≡◌, refl, ap, ap₂, ◌∙◌, ◌&&◌, Bool, true, false, some, List, [],
  ◌∷◌, arith, ltb, length, All, if◌then◌else◌, ◌>>=◌,
}
use djm_t1_linux.Ring.{Ring}
use djm_t1_linux.Ring.Inv.{IsValid}
use djm_t1_linux.Ring.Window.{contents}
use djm_t1_linux.Ring.Refine.{room}
use djm_t1_linux.Sample.{Floats}
use djm_t1_linux.Iso.{Engine, IsoPacket, sub_one, add_one, in_packets, in_cb, resubmit}
use djm_t1_linux.Iso.Packet.{InBuffer, usable, absorb, overruns, Captured, in_packet-Captured}
use djm_t1_linux.Iso.Counters.{count_error-eq, resubmit-eq}
use djm_t1_linux.Usb.{TransferStatus, is_failure}

add_one-lt : (b : Bool) (k : ℕ) → k < 2 ^ 32 → (if b then add_one k else k) < 2 ^ 32
add_one-lt true k h = omega arith
add_one-lt false k h = h

add_one-add :
    (b : Bool) (k later : ℕ)
    → ((if b then add_one k else k) + later) % 2 ^ 32
      ≡ (k + (if b then suc later else later)) % 2 ^ 32
add_one-add true k later = omega arith
add_one-add false k later = refl

module _ (fl : Floats) where
  open fl use {Float}

  in_packets-Captured :
      (ds : List IsoPacket) (e : Engine fl)
      → IsValid e.cap_ring
      → All InBuffer ds
      → e.cap_over < 2 ^ 32
      → Captured fl e
          (absorb fl (room e.cap_ring) (contents e.cap_ring) ds)
          ((e.cap_over + overruns fl (room e.cap_ring) (contents e.cap_ring) ds) % 2 ^ 32)
          (in_packets fl ds e)
  unfolding in_packets absorb overruns
  in_packets-Captured [] e v fits small = record {
    ring = e.cap_ring;
    returns = ap (λ k. some (record e { cap_over = k })) (omega arith);
    valid = v;
    same_cap = refl;
    holds = refl;
  }
  in_packets-Captured (d ∷ ds) e v fits small =
      let c = in_packet-Captured fl d e v fits.0 in
      let over = if full then add_one e.cap_over else e.cap_over in
      let later =
        in_packets-Captured ds (record e { cap_ring = c.ring; cap_over = over }) c.valid fits.1
          (add_one-lt full e.cap_over small) in
      let same_room : room c.ring ≡ room e.cap_ring = ap (λ k. k - 1) c.same_cap in
      record {
        ring = later.ring;
        returns =
            ap (λ o. o >>= in_packets fl ds) c.returns
            ∙ later.returns
            ∙ ap (λ k. some (record e { cap_ring = later.ring; cap_over = k }))
                (ap₂ (λ n q'. (over + overruns fl n q' ds) % 2 ^ 32) same_room c.holds
                  ∙ add_one-add full e.cap_over _);
        valid = later.valid;
        same_cap = later.same_cap ∙ c.same_cap;
        holds = later.holds ∙ ap₂ (λ n q'. absorb fl n q' ds) same_room c.holds;
      }
    where
      full : Bool
      full = ltb (room e.cap_ring - length (contents e.cap_ring)) (usable d)

  -- `in_cb` faults on no transfer whose packets lie in their buffers. It appends the frames of the
  -- good packets in order, as far as they fit, and leaves a valid ring; it counts each packet that
  -- does not fit whole and a failed transfer; and the transfer is submitted again exactly if the
  -- engine runs and libusb takes it, or else leaves the count of those in flight.
  pub in_cb_lem :
      (status : TransferStatus) (ds : List IsoPacket) (submits : Bool) (e : Engine fl)
      → IsValid e.cap_ring
      → All InBuffer ds
      → e.cap_over < 2 ^ 32
      → (ring : Ring (List Float)) × IsValid ring
        × (ring.cap ≡ e.cap_ring.cap)
        × (contents ring ≡ absorb fl (room e.cap_ring) (contents e.cap_ring) ds)
        × (in_cb fl status ds submits e
            ≡ some (
              record e {
                inflight = if e.running && submits then e.inflight else sub_one e.inflight;
                cap_ring = ring;
                cap_over =
                    (e.cap_over + overruns fl (room e.cap_ring) (contents e.cap_ring) ds) % 2 ^ 32;
                xfer_err = if is_failure status then add_one e.xfer_err else e.xfer_err;
              },
              e.running && submits,
            ))
  unfolding in_cb
  in_cb_lem status ds submits e v fits small =
      let c = in_packets-Captured ds counted v fits small in
      (
        c.ring,
        c.valid,
        c.same_cap,
        c.holds,
        ap (λ x. in_packets fl ds x >>= λ e'. some (resubmit fl submits e'))
              (count_error-eq fl status e)
            ∙ ap (λ o. o >>= λ e'. some (resubmit fl submits e')) c.returns
            ∙ ap some (resubmit-eq fl submits _),
      )
    where
      counted : Engine fl
      counted = record e { xfer_err = if is_failure status then add_one e.xfer_err else e.xfer_err }
