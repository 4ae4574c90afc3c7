-- ===== src/Iso/Counters.antt =====
-- The first and the last lines of both callbacks.
use djm_t1_linux.Base.{◌≡◌, refl, ◌&&◌, Bool, true, false, if◌then◌else◌, ℕ}
use djm_t1_linux.Sample.{Floats}
use djm_t1_linux.Iso.{Engine, add_one, sub_one, count_error, resubmit}
use djm_t1_linux.Usb.{TransferStatus, is_failure}

module _ (fl : Floats) where
  counted :
      (b : Bool) (e : Engine fl) (n : ℕ)
      → (if b then record e { xfer_err = n } else e)
        ≡ record e { xfer_err = if b then n else e.xfer_err }
  counted true e n = refl
  counted false e n = refl

  pub count_error-eq :
      (s : TransferStatus) (e : Engine fl)
      → count_error fl s e
        ≡ record e { xfer_err = if is_failure s then add_one e.xfer_err else e.xfer_err }
  unfolding count_error
  count_error-eq s e = counted (is_failure s) e (add_one e.xfer_err)

  left :
      (b : Bool) (e : Engine fl) (n : ℕ)
      → (if b
          then (let r : Engine fl × Bool = (e, true) in r)
          else (record e { inflight = n }, false))
        ≡ (record e { inflight = if b then e.inflight else n }, b)
  left true e n = refl
  left false e n = refl

  pub resubmit-eq :
      (submits : Bool) (e : Engine fl)
      → resubmit fl submits e ≡ (
        record e { inflight = if e.running && submits then e.inflight else sub_one e.inflight },
        e.running && submits,
      )
  unfolding resubmit
  resubmit-eq submits e = left (e.running && submits) e (sub_one e.inflight)
