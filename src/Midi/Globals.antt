-- ===== src/Midi/Globals.antt =====
-- The callbacks of midi/djm_midi.c on the variables that they share, and an event loop's rounds.
pub mod Effects
pub mod Loops
pub mod Quiet
use djm_t1_linux.Base.{
  ℕ, ◌-◌, ◌&&◌, not, Bool, true, false, Option, none, some, List, [], ◌∷◌, ◌++◌, ◌>>=◌,
  if◌then◌else◌,
}
use djm_t1_linux.Usb.{TransferStatus, is_no_device}
use djm_t1_linux.Midi.Receive.{Bridge, Sent, Transfer, midi_cb}
use djm_t1_linux.Midi.Send.{drain_seq_input}
use djm_t1_linux.Midi.Hid.{Probe, hid_cb}

-- The transfers whose callback is still to come: those on the bulk and interrupt pipes, and the
-- number of isochronous ones.
pub record Pending : Type 0 where
  pub midi : Bool
  pub hid : Bool
  pub audio : ℕ

-- What `libusb_handle_events_timeout` can bring: the callback of a transfer, with libusb's answer to
-- its next submission, or a signal that arrives meanwhile.
pub data Completion : Type 0 where
  midi hid : Transfer → Bool → Completion
  audio : TransferStatus → Bool → Completion
  signal : Completion

-- The file's variables, with the ALSA encoder's and decoder's states, the events handed to the
-- sequencer and those still waiting there, and the bulk transfers made to the mixer.
pub record Globals (E D Event : Type 0) : Type 0 where
  pub running : Bool
  pub do_quit : Bool
  pub audio_on : Bool
  pub hid_on : Bool
  pub encoder : E
  pub output : List (Sent Event)
  pub midi_msgs : ℕ
  pub decoder : D
  pub waiting : List (Option Event)
  pub to_mixer : List (List ℕ)
  pub hid_probe : Bool
  pub have_last_hid : Bool
  pub last_hid : List ℕ
  pub printed : List (List ℕ)
  pub pending : Pending

module _ {E D Event : Type 0} where
  -- The variables that `midi_cb` uses, and those that `hid_cb` uses.
  abbrev pub bridge : Globals E D Event → Bridge E Event
  bridge g = record {
    encoder = g.encoder;
    output = g.output;
    midi_msgs = g.midi_msgs;
    running = g.running;
    do_quit = g.do_quit;
  }

  abbrev pub with_bridge : Globals E D Event → Bridge E Event → Globals E D Event
  with_bridge g b = record g {
    encoder = b.encoder;
    output = b.output;
    midi_msgs = b.midi_msgs;
    running = b.running;
    do_quit = b.do_quit;
  }

  abbrev pub probe : Globals E D Event → Probe
  probe g = record {
    hid_probe = g.hid_probe;
    hid_on = g.hid_on;
    running = g.running;
    do_quit = g.do_quit;
    have_last_hid = g.have_last_hid;
    last_hid = g.last_hid;
    printed = g.printed;
  }

  abbrev pub with_probe : Globals E D Event → Probe → Globals E D Event
  with_probe g p = record g {
    hid_probe = p.hid_probe;
    hid_on = p.hid_on;
    running = p.running;
    do_quit = p.do_quit;
    have_last_hid = p.have_last_hid;
    last_hid = p.last_hid;
    printed = p.printed;
  }

  -- `audio_cb`, by whether the device has gone; the flag is "the transfer was submitted again".
  pub audio_cb_gone : Bool → Globals E D Event → Globals E D Event × Bool
  audio_cb_gone true g = (record g { do_quit = true }, false)
  audio_cb_gone false g = (g, g.running && g.audio_on && not g.do_quit)

  pub audio_cb : TransferStatus → Globals E D Event → Globals E D Event × Bool
  unfolding audio_cb_gone
  audio_cb status g = audio_cb_gone (is_no_device status) g

  -- The number of isochronous transfers behind the callback.
  abbrev pub audio_pending : Bool → Globals E D Event × Bool → Globals E D Event
  audio_pending takes (g, again) = record g {
    pending = record g.pending {
      audio = if again && takes then g.pending.audio else g.pending.audio - 1;
    };
  }

-- A loop's test, and the rest of the loop.
abbrev pub unless_quit {ℓ} : {A : Type ℓ} → Bool → A → Option A → Option A
unless_quit true g rest = some g
unless_quit false g rest = rest

module _ {E D Event : Type 0} (encode_byte : E → ℕ → E × Option Event) (seq_port : ℕ) where
  -- One callback; its transfer is pending behind it if the callback submitted it and libusb took it.
  unfoldable pub callback : Completion → Globals E D Event → Option (Globals E D Event)
  unfolding audio_cb
  callback (Completion.midi t takes) g = do
    (b, again) ← midi_cb encode_byte seq_port t (bridge g)
    some (record (with_bridge g b) { pending = record g.pending { midi = again && takes } })
  callback (Completion.hid t takes) g = do
    (p, again) ← hid_cb t (probe g)
    some (record (with_probe g p) { pending = record g.pending { hid = again && takes } })
  callback (Completion.audio status takes) g = some (audio_pending takes (audio_cb status g))
  callback Completion.signal g = some (record g { do_quit = true })

  -- One call of `libusb_handle_events_timeout`.
  unfoldable pub handle_events : List Completion → Globals E D Event → Option (Globals E D Event)
  unfolding callback
  handle_events [] g = some g
  handle_events (c ∷ cs) g = do g' ← callback c g; handle_events cs g'

  -- `for (i = 0; i < n; i++)` around that call, with the rounds that bring something; the loop that
  -- lets the pipes settle stops at `do_quit`.
  unfoldable pub settle : List (List Completion) → Globals E D Event → Option (Globals E D Event)
  unfolding handle_events
  settle [] g = some g
  settle (cs ∷ rounds) g = unless_quit g.do_quit g (do g' ← handle_events cs g; settle rounds g')

  unfoldable pub wind_down : List (List Completion) → Globals E D Event → Option (Globals E D Event)
  unfolding handle_events
  wind_down [] g = some g
  wind_down (cs ∷ rounds) g = do g' ← handle_events cs g; wind_down rounds g'

-- A round of the main loop: what completes in it, and the events that reach the sequencer's port.
pub record Round (Event : Type 0) : Type 0 where
  pub completions : List Completion
  pub events : List (Option Event)

module _ {E D Event : Type 0} (encode_byte : E → ℕ → E × Option Event) (seq_port : ℕ)
    (decode : D → Event → D × List ℕ) where
  -- `drain_seq_input` over all that waits at the port.
  unfoldable pub drain : List (Option Event) → Globals E D Event → Globals E D Event
  drain events g =
      let (decoder, sent, left) = drain_seq_input decode g.decoder (g.waiting ++ events) in
      record g { decoder = decoder; to_mixer = g.to_mixer ++ sent; waiting = left }

  -- `while (!do_quit)`, as far as the rounds go.
  unfoldable pub main_loop : List (Round Event) → Globals E D Event → Option (Globals E D Event)
  unfolding handle_events drain
  main_loop [] g = some g
  main_loop (r ∷ rounds) g = unless_quit g.do_quit g (do
    g' ← handle_events encode_byte seq_port r.completions g
    main_loop rounds (drain r.events g'))
