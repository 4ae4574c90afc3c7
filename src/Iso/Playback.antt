-- ===== src/Iso/Playback.antt =====
-- `out_cb` against the queue of frames to play.
use djm_t1_linux.Base.{
  ℕ, zero, suc, ◌-◌, ◌*◌, ◌≤◌, ◌≡◌, refl, ap, ap₂, ◌∙◌, ◌&&◌, Bool, some, List, [], ◌∷◌, ◌++◌,
  arith, ltb, length, take, drop, All, All-take, if◌then◌else◌, le→not-ltb, length-append,
  length-take, length-replicate, replicate,
}
use djm_t1_linux.Ring.{Ring, read}
use djm_t1_linux.Ring.Inv.{IsValid}
use djm_t1_linux.Ring.Window.{contents}
use djm_t1_linux.Ring.Queue
use djm_t1_linux.Ring.Refine.{read_refines}
use djm_t1_linux.Sample.{Floats, encode_frames}
use djm_t1_linux.Sample.Frames.{IsFrame, length-encode_frames}
use djm_t1_linux.Iso.{Engine, npkt, frames_per_pkt, add_one, sub_one, silence, send_frames, out_cb}
use djm_t1_linux.Iso.Counters.{count_error-eq, resubmit-eq}
use djm_t1_linux.Usb.{TransferStatus, is_failure}

module _ (fl : Floats) where
  open fl use {Float}

  -- The frames that a transfer of `total` sends: the oldest of the queue, and silence behind them.
  abbrev pub sent_frames : ℕ → List (List Float) → List (List Float)
  sent_frames total q = take total q ++ replicate (total - length q) (silence fl)

  ltb-take : (n : ℕ) (q : List (List Float)) → ltb (length (take n q)) n ≡ ltb (length q) n
  ltb-take n q = ground (arith, length-take n q)

  send_frames-eq :
      (total : ℕ) (submits : Bool) (e : Engine fl) (tmp : List (List Float))
      (ring : Ring (List Float))
      → read e.play_ring total ≡ some (tmp, ring)
      → send_frames fl total submits e
        ≡ some (
          encode_frames fl (tmp ++ replicate (total - length tmp) (silence fl)),
          record e {
            inflight = if e.running && submits then e.inflight else sub_one e.inflight;
            play_ring = ring;
            play_under = if ltb (length tmp) total then add_one e.play_under else e.play_under;
          },
          e.running && submits,
        )
  unfolding send_frames
  send_frames-eq total submits e tmp ring got = rw got (
      ap
        (λ (after : Engine fl × Bool).
          some (
            encode_frames fl (tmp ++ replicate (total - length tmp) (silence fl)),
            after.0,
            after.1,
          ))
        (resubmit-eq fl submits _))

  -- `out_cb` faults on no transfer of at most 24 packets. It takes the oldest frames from the ring,
  -- 48 a packet, and leaves a valid ring with the others in order; it sends them, with silence for
  -- those that are missing; it counts a transfer that falls short, and a failed one; and the
  -- transfer is submitted again exactly if the engine runs and libusb takes it.
  pub out_cb_lem :
      (status : TransferStatus) (packets : ℕ) (submits : Bool) (e : Engine fl)
      → IsValid e.play_ring
      → packets ≤ npkt
      → let total = packets * frames_per_pkt in
        let q = contents e.play_ring in
        (ring : Ring (List Float)) × IsValid ring
        × (ring.cap ≡ e.play_ring.cap)
        × (contents ring ≡ drop total q)
        × (out_cb fl status packets submits e
            ≡ some (
              encode_frames fl (sent_frames total q),
              record e {
                inflight = if e.running && submits then e.inflight else sub_one e.inflight;
                play_ring = ring;
                play_under = if ltb (length q) total then add_one e.play_under else e.play_under;
                xfer_err = if is_failure status then add_one e.xfer_err else e.xfer_err;
              },
              e.running && submits,
            ))
  unfolding out_cb Queue.read
  out_cb_lem status packets submits e v few =
      let r = read_refines e.play_ring total v in
      (
        r.ring,
        r.valid,
        r.same_cap,
        r.holds,
        rw (le→not-ltb npkt packets few) (
            ap (send_frames fl total submits) (count_error-eq fl status e)
            ∙ send_frames-eq total submits counted (take total (contents e.play_ring)) r.ring
                r.returns
            ∙ ap₂
                (λ n b. some (
                  encode_frames fl (take total (contents e.play_ring) ++ replicate n (silence fl)),
                  record counted {
                    inflight = if e.running && submits then e.inflight else sub_one e.inflight;
                    play_ring = r.ring;
                    play_under = if b then add_one e.play_under else e.play_under;
                  },
                  e.running && submits,
                ))
                short (ltb-take total (contents e.play_ring))),
      )
    where
      total : ℕ
      total = packets * frames_per_pkt

      counted : Engine fl
      counted = record e { xfer_err = if is_failure status then add_one e.xfer_err else e.xfer_err }

      short :
          total - length (take total (contents e.play_ring)) ≡ total - length (contents e.play_ring)
      short = omega (arith, length-take total (contents e.play_ring))

  All-append :
      (front back : List (List Float))
      → All (IsFrame fl) front × All (IsFrame fl) back
      → All (IsFrame fl) (front ++ back)
  All-append [] back (_, there) = there
  All-append (f ∷ front) back ((here, those), there) = (here, All-append front back (those, there))

  All-silence : (n : ℕ) → All (IsFrame fl) (replicate n (silence fl))
  All-silence zero = tt
  All-silence (suc n) = (refl, All-silence n)

  -- A transfer's buffer is filled exactly: 864 bytes for each packet.
  pub sent_frames-length :
      (packets : ℕ) (q : List (List Float))
      → All (IsFrame fl) q
      → length (encode_frames fl (sent_frames (packets * frames_per_pkt) q)) ≡ packets * 864
  sent_frames-length packets q ok = omega (
    arith,
    length-encode_frames fl (sent_frames n q)
        (All-append (take n q) _ (All-take (IsFrame fl) n q ok, All-silence (n - length q))),
    length-append (take n q) (replicate (n - length q) (silence fl)),
    length-take n q,
    length-replicate (n - length q) (silence fl),
  )
    where
      n : ℕ
      n = packets * frames_per_pkt
