-- ===== src/Midi/Globals/Effects.antt =====
-- What a callback, and rounds of them, leave of the shared variables.
use djm_t1_linux.Base.{
  ℕ, ◌-◌, ◌≤◌, ◌≡◌, refl, sym, ap, ◌∙◌, ◌&&◌, ◌||◌, not, Bool, true, false, Option, some, List, [],
  ◌∷◌, ◌++◌, length, All,
}
use djm_t1_linux.Usb.{TransferStatus, is_no_device}
use djm_t1_linux.Midi.Receive.Total.{midi_cb_total}
use djm_t1_linux.Midi.Hid.{hid_len}
use djm_t1_linux.Midi.Hid.Total.{hid_cb-Polled}
use djm_t1_linux.Midi.Globals.{
  Pending, Completion, Globals, bridge, probe, with_bridge, with_probe, audio_cb, audio_cb_gone,
  audio_pending, callback, handle_events, wind_down,
}

-- A transfer's data lie in its buffer.
abbrev pub IsWhole : Completion → Type 0
IsWhole (Completion.midi t takes) = t.actual_length ≤ length t.buffer
IsWhole (Completion.hid t takes) = t.actual_length ≤ hid_len
IsWhole (Completion.audio status takes) = Unit
IsWhole Completion.signal = Unit

-- A callback that finds the device gone, or a signal.
abbrev pub quits : Completion → Bool
quits (Completion.midi t takes) = is_no_device t.status
quits (Completion.hid t takes) = is_no_device t.status
quits (Completion.audio status takes) = is_no_device status
quits Completion.signal = true

-- What is still to come where no transfer is submitted again.
abbrev pub taken : Completion → Pending → Pending
taken (Completion.midi t takes) p = record p { midi = false }
taken (Completion.hid t takes) p = record p { hid = false }
taken (Completion.audio status takes) p = record p { audio = p.audio - 1 }
taken Completion.signal p = p

abbrev pub all_taken : List Completion → Pending → Pending
all_taken [] p = p
all_taken (c ∷ cs) p = all_taken cs (taken c p)

abbrev pub any_quits : List Completion → Bool
any_quits [] = false
any_quits (c ∷ cs) = quits c || any_quits cs

or_false : (b : Bool) → (b || false) ≡ b
or_false true = refl
or_false false = refl

pub or_merge : (a b c : Bool) → (b || (a || c)) ≡ ((a || b) || c)
or_merge true true c = refl
or_merge true false c = refl
or_merge false true c = refl
or_merge false false c = refl

pub or_assoc : (a b c : Bool) → (a || (b || c)) ≡ ((a || b) || c)
or_assoc true b c = refl
or_assoc false b c = refl

pub any_quits-append :
    (xs ys : List Completion) → any_quits (xs ++ ys) ≡ (any_quits xs || any_quits ys)
any_quits-append [] ys = refl
any_quits-append (x ∷ xs) ys =
    ap (λ b. quits x || b) (any_quits-append xs ys)
    ∙ or_assoc (quits x) (any_quits xs) (any_quits ys)

all_taken-append :
    (xs ys : List Completion) (p : Pending) → all_taken (xs ++ ys) p ≡ all_taken ys (all_taken xs p)
all_taken-append [] ys p = refl
all_taken-append (x ∷ xs) ys p = all_taken-append xs ys (taken x p)

-- The completions of several rounds, in order.
abbrev pub flatten : List (List Completion) → List Completion
flatten [] = []
flatten (cs ∷ rounds) = cs ++ flatten rounds

-- A transfer that is not submitted again stays so when one more reason to stop comes.
still_off : (r q n : Bool) → (r && not q) ≡ false → (r && not (n || q)) ≡ false
still_off false q n h = refl
still_off true true true h = refl
still_off true true false h = refl
still_off true false n h = cc h

off_between : (r on q n : Bool) → (r && not q) ≡ false → (r && on && not (n || q)) ≡ false
off_between false on q n h = refl
off_between true false q n h = refl
off_between true true q n h = still_off true q n h

module _ {E D Event : Type 0} where
  -- Behind some completions: the flags of the loop are as before, `do_quit` is set if one of them
  -- quits, and where `running` was cleared or `do_quit` set, nothing was submitted again.
  pub record Handled (cs : List Completion) (g g' : Globals E D Event) : Type 0 where
    pub running : g'.running ≡ g.running
    pub audio_on : g'.audio_on ≡ g.audio_on
    pub hid_on : g'.hid_on ≡ g.hid_on
    pub do_quit : g'.do_quit ≡ (any_quits cs || g.do_quit)
    pub quiet : (g.running && not g.do_quit) ≡ false → g'.pending ≡ all_taken cs g.pending

  abbrev pub Handles : List Completion → Globals E D Event → Option (Globals E D Event) → Type 0
  Handles cs g r = (g' : Globals E D Event) × (r ≡ some g') × Handled cs g g'

module _ {E D Event : Type 0} (encode_byte : E → ℕ → E × Option Event) (seq_port : ℕ) where
  audio_cb-Handled :
      (status : TransferStatus) (takes gone : Bool) (g : Globals E D Event)
      → is_no_device status ≡ gone
      → Handled (Completion.audio status takes ∷ []) g (audio_pending takes (audio_cb_gone gone g))
  unfolding audio_cb_gone
  audio_cb-Handled status takes true g same = record {
    running = refl;
    audio_on = refl;
    hid_on = refl;
    do_quit = rw same refl;
    quiet = λ off. refl;
  }
  audio_cb-Handled status takes false g same = record {
    running = refl;
    audio_on = refl;
    hid_on = refl;
    do_quit = rw same refl;
    quiet = λ off. rw (off_between g.running g.audio_on g.do_quit false off) refl;
  }

  callback-Handles :
      (c : Completion) (g : Globals E D Event)
      → IsWhole c
      → Handles (c ∷ []) g (callback encode_byte seq_port c g)
  unfolding callback audio_cb
  callback-Handles (Completion.midi t takes) g whole =
      let (b, runs, running, do_quit) = midi_cb_total encode_byte seq_port t (bridge g) whole in
      let again = b.running && not b.do_quit in
      (
        record (with_bridge g b) { pending = record g.pending { midi = again && takes } },
        rw runs refl,
        record {
          running = running;
          audio_on = refl;
          hid_on = refl;
          do_quit = rw or_false do_quit;
          quiet = λ off.
              rw (running, do_quit, still_off g.running g.do_quit (is_no_device t.status) off) refl;
        },
      )
  callback-Handles (Completion.hid t takes) g whole =
      let h = hid_cb-Polled t (probe g) whole in
      (
        record (with_probe g h.p') { pending = record g.pending { hid = h.again && takes } },
        rw h.returns refl,
        record {
          running = h.running;
          audio_on = refl;
          hid_on = h.hid_on;
          do_quit = rw or_false h.do_quit;
          quiet = λ off.
              rw
                (
                  h.submits,
                  h.do_quit,
                  off_between g.running g.hid_on g.do_quit (is_no_device t.status) off,
                )
                refl;
        },
      )
  callback-Handles (Completion.audio status takes) g whole =
      (_, refl, audio_cb-Handled status takes (is_no_device status) g refl)
  callback-Handles Completion.signal g whole = (
    record g { do_quit = true },
    refl,
    record { running = refl; audio_on = refl; hid_on = refl; do_quit = refl; quiet = λ off. refl },
  )

  nothing_Handled : (g : Globals E D Event) → Handled [] g g
  nothing_Handled g = record {
    running = refl;
    audio_on = refl;
    hid_on = refl;
    do_quit = refl;
    quiet = λ off. refl;
  }

  later_off :
      (xs : List Completion) (g mid : Globals E D Event)
      → Handled xs g mid
      → (g.running && not g.do_quit) ≡ false
      → (mid.running && not mid.do_quit) ≡ false
  later_off xs g mid h off =
      rw (h.running, h.do_quit) (still_off g.running g.do_quit (any_quits xs) off)

  append-Handled :
      (xs ys : List Completion) (g mid g' : Globals E D Event)
      → Handled xs g mid
      → Handled ys mid g'
      → Handled (xs ++ ys) g g'
  append-Handled xs ys g mid g' h k = record {
    running = k.running ∙ h.running;
    audio_on = k.audio_on ∙ h.audio_on;
    hid_on = k.hid_on ∙ h.hid_on;
    do_quit =
        k.do_quit
        ∙ ap (λ b. any_quits ys || b) h.do_quit
        ∙ or_merge (any_quits xs) (any_quits ys) g.do_quit
        ∙ ap (λ b. b || g.do_quit) (sym (any_quits-append xs ys));
    quiet = λ off.
        k.quiet (later_off xs g mid h off)
        ∙ ap (all_taken ys) (h.quiet off)
        ∙ sym (all_taken-append xs ys g.pending);
  }

  -- One call of libusb's event loop.
  pub handle_events-Handles :
      (cs : List Completion) (g : Globals E D Event)
      → All IsWhole cs
      → Handles cs g (handle_events encode_byte seq_port cs g)
  unfolding handle_events
  handle_events-Handles [] g whole = (g, refl, nothing_Handled g)
  handle_events-Handles (c ∷ cs) g (this, others) =
      let (mid, runs, h) = callback-Handles c g this in
      let (g', rest, k) = handle_events-Handles cs mid others in
      (g', rw runs rest, append-Handled (c ∷ []) cs g mid g' h k)

  -- The rounds of the teardown.
  pub wind_down-Handles :
      (rounds : List (List Completion)) (g : Globals E D Event)
      → All (All IsWhole) rounds
      → Handles (flatten rounds) g (wind_down encode_byte seq_port rounds g)
  unfolding wind_down
  wind_down-Handles [] g whole = (g, refl, nothing_Handled g)
  wind_down-Handles (cs ∷ rounds) g (this, others) =
      let (mid, runs, h) = handle_events-Handles cs g this in
      let (g', rest, k) = wind_down-Handles rounds mid others in
      (g', rw runs rest, append-Handled cs (flatten rounds) g mid g' h k)
