-- ===== src/Midi/Hid/Changes.antt =====
-- With `--hid-probe`, the reports that are printed are those that differ from the one before.
use djm_t1_linux.Base.{
  ℕ, ◌≡◌, refl, sym, ap, ◌∙◌, Bool, true, false, some, List, [], ◌∷◌, ◌++◌, arith, length, take_all,
  drop_all, append-nil, append_assoc, if◌then◌else◌, All, Bool-cases, inl, inr,
}
use djm_t1_linux.Midi.Receive.{Transfer}
use djm_t1_linux.Midi.Hid.{Probe, same_bytes, poll, hid_len}
use djm_t1_linux.Usb.{TransferStatus}

-- A completed transfer of a whole report.
abbrev pub report_of : List ℕ → Transfer
report_of r = record { status = TransferStatus.completed; actual_length = hid_len; buffer = r }

abbrev pub reports_of : List (List ℕ) → List Transfer
reports_of [] = []
reports_of (r ∷ rs) = report_of r ∷ reports_of rs

-- The reports that differ from the one before, `last` standing before the first.
unfoldable pub changes : List ℕ → List (List ℕ) → List (List ℕ)
changes last [] = []
changes last (r ∷ rs) = let rest = changes r rs in if same_bytes last r then rest else r ∷ rest

abbrev pub IsReport : List ℕ → Type 0
IsReport r = length r ≡ hid_len

same_bytes-eq : (xs ys : List ℕ) → same_bytes xs ys ≡ true → xs ≡ ys
unfolding same_bytes
same_bytes-eq [] [] h = refl
same_bytes-eq [] (y ∷ ys) h = cc
same_bytes-eq (x ∷ xs) [] h = cc
same_bytes-eq (x ∷ xs) (y ∷ ys) h = ground (arith, same_bytes-eq xs ys)

-- A probe under `--hid-probe` that has shown `last`, and the reports `out` so far.
abbrev probing : Bool → Bool → Bool → List ℕ → List (List ℕ) → Probe
probing on running do_quit last out = record {
  hid_probe = true;
  hid_on = on;
  running = running;
  do_quit = do_quit;
  have_last_hid = true;
  last_hid = last;
  printed = out;
}

-- The probe before the first report.
abbrev pub fresh_probe : Bool → Bool → Bool → List ℕ → Probe
fresh_probe on running do_quit last = record {
  hid_probe = true;
  hid_on = on;
  running = running;
  do_quit = do_quit;
  have_last_hid = false;
  last_hid = last;
  printed = [];
}

module _ (on running do_quit : Bool) where
  poll_changed :
      (last r : List ℕ) (out : List (List ℕ)) (ts : List Transfer)
      → IsReport last
      → IsReport r
      → same_bytes last r ≡ false
      → poll (report_of r ∷ ts) (probing on running do_quit last out)
        ≡ poll ts (probing on running do_quit r (out ++ r ∷ []))
  unfolding poll
  poll_changed last r out ts whole_last whole_r new = rw (
    take_all 16 last (omega arith),
    take_all 16 r (omega arith),
    new,
    drop_all 16 last (omega arith),
    append-nil,
  )

  poll_same :
      (last r : List ℕ) (out : List (List ℕ)) (ts : List Transfer)
      → IsReport last
      → IsReport r
      → same_bytes last r ≡ true
      → poll (report_of r ∷ ts) (probing on running do_quit last out)
        ≡ poll ts (probing on running do_quit last out)
  unfolding poll
  poll_same last r out ts whole_last whole_r same =
      rw (take_all 16 last (omega arith), take_all 16 r (omega arith), same)

  poll_first :
      (last r : List ℕ) (ts : List Transfer)
      → IsReport last
      → IsReport r
      → poll (report_of r ∷ ts) (fresh_probe on running do_quit last)
        ≡ poll ts (probing on running do_quit r (r ∷ []))
  unfolding poll
  poll_first last r ts whole_last whole_r =
      rw (take_all 16 r (omega arith), drop_all 16 last (omega arith), append-nil)

  poll_rest :
      (rs : List (List ℕ)) (last : List ℕ) (out : List (List ℕ))
      → IsReport last
      → All IsReport rs
      → (p' : Probe) × (poll (reports_of rs) (probing on running do_quit last out) ≡ some p')
        × (p'.printed ≡ out ++ changes last rs)
  unfolding changes poll
  poll_rest [] last out whole ok = (probing on running do_quit last out, refl, sym (append-nil _))
  poll_rest (r ∷ rs) last out whole ok = elim (Bool-cases (same_bytes last r)) [
    | inl same ↦
        let (p', e, printed) = poll_rest rs r out ok.0 ok.1 in
        (
          p',
          poll_same last r out (reports_of rs) whole ok.0 same
              ∙ ap (λ l. poll (reports_of rs) (probing on running do_quit l out))
                  (same_bytes-eq last r same)
              ∙ e,
          rw same printed,
        )
    | inr new ↦
        let (p', e, printed) = poll_rest rs r (out ++ r ∷ []) ok.0 ok.1 in
        (
          p',
          poll_changed last r out (reports_of rs) whole ok.0 new ∙ e,
          rw new (printed ∙ append_assoc out (r ∷ []) (changes r rs)),
        )
  ]

  -- Over any run of whole reports `hid_cb` does not fault, and under `--hid-probe` it prints the
  -- first report and then exactly those that differ from the report before them.
  pub poll-changes :
      (last r : List ℕ) (rs : List (List ℕ))
      → IsReport last
      → IsReport r
      → All IsReport rs
      → (p' : Probe) × (poll (reports_of (r ∷ rs)) (fresh_probe on running do_quit last) ≡ some p')
        × (p'.printed ≡ r ∷ changes r rs)
  poll-changes last r rs whole_last whole_r ok =
      let (p', e, printed) = poll_rest rs r (r ∷ []) whole_r ok in
      (p', poll_first last r (reports_of rs) whole_last whole_r ∙ e, printed)
