-- ===== src/Midi/Hid/Total.antt =====
-- `hid_cb` on every transfer.
use djm_t1_linux.Base.{
  ℕ, ◌≤◌, ◌≡◌, refl, sym, ◌&&◌, ◌||◌, not, Bool, true, false, Option, none, some, ltb, le→not-ltb,
  if◌then◌else◌, List, [], ◌∷◌, ◌++◌, take, drop,
}
use djm_t1_linux.Usb.{TransferStatus, is_no_device}
use djm_t1_linux.Midi.Receive.{Transfer}
use djm_t1_linux.Midi.Hid.{Probe, same_bytes, show_report, hid_cb_status, hid_cb, hid_len}

-- The call does not fault: it sets `do_quit` if the device has gone and leaves the other flags, and
-- submits the transfer again exactly if the pipe is on and nothing stops.
pub record Polled (s : TransferStatus) (p : Probe) (r : Option (Probe × Bool)) : Type 0 where
  pub p' : Probe
  pub again : Bool
  pub returns : r ≡ some (p', again)
  pub running : p'.running ≡ p.running
  pub hid_on : p'.hid_on ≡ p.hid_on
  pub do_quit : p'.do_quit ≡ (is_no_device s || p.do_quit)
  pub submits : again ≡ (p.running && p.hid_on && not p'.do_quit)

and_false : (b : Bool) → (b && false) ≡ false
and_false true = refl
and_false false = refl

record SameFlags (p p' : Probe) : Type 0 where
  running : p'.running ≡ p.running
  hid_on : p'.hid_on ≡ p.hid_on
  do_quit : p'.do_quit ≡ p.do_quit

show_report-SameFlags : (len : ℕ) (r : List ℕ) (p : Probe) → SameFlags p (show_report len r p)
unfolding show_report
show_report-SameFlags len r p =
    pick (not p.have_last_hid || not (same_bytes (take len p.last_hid) (take len r)))
  where
    pick :
        (c : Bool)
        → SameFlags p (
            if c
            then record p {
              printed = p.printed ++ take len r ∷ [];
              last_hid =
                  take (if ltb hid_len len then hid_len else len) r
                  ++ drop (if ltb hid_len len then hid_len else len) p.last_hid;
              have_last_hid = true;
            }
            else p)
    pick true = record { running = refl; hid_on = refl; do_quit = refl }
    pick false = record { running = refl; hid_on = refl; do_quit = refl }

module _ (t : Transfer) (p : Probe) (small : t.actual_length ≤ hid_len) where
  abbrev again : Bool
  again = p.running && p.hid_on && not p.do_quit

  abbrev shown : Probe
  shown = show_report t.actual_length t.buffer p

  reported :
      (s : TransferStatus) (c : Bool)
      → is_no_device s ≡ false
      → Polled s p (
          if c
          then (if p.have_last_hid && ltb hid_len t.actual_length
              then none
              else some (shown, again))
          else some (p, again))
  reported s false there = record {
    p' = p;
    again = again;
    returns = refl;
    running = refl;
    hid_on = refl;
    do_quit = rw there refl;
    submits = refl;
  }
  reported s true there =
      let same = show_report-SameFlags t.actual_length t.buffer p in
      record {
        p' = shown;
        again = again;
        returns = rw (le→not-ltb hid_len t.actual_length small, and_false p.have_last_hid) refl;
        running = same.running;
        hid_on = same.hid_on;
        do_quit = rw there same.do_quit;
        submits = rw same.do_quit refl;
      }

  by_status : (s : TransferStatus) → Polled s p (hid_cb_status s t p)
  unfolding hid_cb_status
  by_status TransferStatus.no_device = record {
    p' = record p { do_quit = true };
    again = false;
    returns = refl;
    running = refl;
    hid_on = refl;
    do_quit = refl;
    submits = sym (and_false (p.running && p.hid_on));
  }
  by_status TransferStatus.completed = reported TransferStatus.completed _ refl
  by_status TransferStatus.error = reported TransferStatus.error _ refl
  by_status TransferStatus.timed_out = reported TransferStatus.timed_out _ refl
  by_status TransferStatus.cancelled = reported TransferStatus.cancelled _ refl
  by_status TransferStatus.stall = reported TransferStatus.stall _ refl
  by_status TransferStatus.overflow = reported TransferStatus.overflow _ refl

  -- A report of at most 16 bytes, of any status.
  pub hid_cb-Polled : Polled t.status p (hid_cb t p)
  unfolding hid_cb
  hid_cb-Polled = by_status t.status
