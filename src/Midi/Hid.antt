-- ===== src/Midi/Hid.antt =====
-- `hid_cb`: the HID pipe is kept polled, and `--hid-probe` prints each report that changed.
pub mod Changes
pub mod Total
use djm_t1_linux.Base.{
  ℕ, ◌+◌, ◌≤◌, ◌&&◌, ◌||◌, not, Bool, true, false, Option, none, some, List, [], ◌∷◌, ◌++◌, ◌==◌,
  ltb, leb, if◌then◌else◌, length, take, drop,
}
use djm_t1_linux.Midi.Receive.{Transfer}
use djm_t1_linux.Usb.{TransferStatus, is_completed}

abbrev pub hid_len : ℕ
hid_len = 16

-- `printed` are the reports on standard output, in order.
pub record Probe : Type 0 where
  pub hid_probe : Bool
  pub hid_on : Bool
  pub running : Bool
  pub do_quit : Bool
  pub have_last_hid : Bool
  pub last_hid : List ℕ
  pub printed : List (List ℕ)

-- `memcmp(a, b, n) == 0`, over bytes that both objects have.
pub same_bytes : List ℕ → List ℕ → Bool
same_bytes [] [] = true
same_bytes [] (y ∷ ys) = false
same_bytes (x ∷ xs) [] = false
same_bytes (x ∷ xs) (y ∷ ys) = x == y && same_bytes xs ys

-- A completed report of `len` bytes: printed and kept, if it is the first or has changed.
pub show_report : ℕ → List ℕ → Probe → Probe
unfolding same_bytes
show_report len report p =
    if not p.have_last_hid || not (same_bytes (take len p.last_hid) (take len report))
    then record p {
      printed = p.printed ++ take len report ∷ [];
      last_hid =
          take (if ltb hid_len len then hid_len else len) report
          ++ drop (if ltb hid_len len then hid_len else len) p.last_hid;
      have_last_hid = true;
    }
    else p

-- `none`: `memcmp` would read past `last_hid`. The flag is "the transfer was submitted again".
unfoldable pub hid_cb_status : TransferStatus → Transfer → Probe → Option (Probe × Bool)
unfolding show_report
hid_cb_status TransferStatus.no_device t p = some (record p { do_quit = true }, false)
hid_cb_status s t p =
    let len = t.actual_length in
    let shown = show_report len t.buffer p in
    let again = p.running && p.hid_on && not p.do_quit in
    if p.hid_probe && is_completed s && ltb 0 len
    then (if p.have_last_hid && ltb hid_len len then none else some (shown, again))
    else some (p, again)

unfoldable pub hid_cb : Transfer → Probe → Option (Probe × Bool)
unfolding hid_cb_status
hid_cb t p = hid_cb_status t.status t p

-- The callback on each transfer in turn.
pub poll : List Transfer → Probe → Option Probe
unfolding hid_cb
poll [] p = some p
poll (t ∷ ts) p = elim (hid_cb t p) [ none ↦ none | some (p', again) ↦ poll ts p' ]
