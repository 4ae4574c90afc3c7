-- ===== src/Midi/Daemon.antt =====
-- `seq_setup` and `main` of midi/djm_midi.c: what the daemon claims and submits before it arms the
-- mixer, its loop, and what it gives back.
pub mod Ends
pub mod Setup
pub mod Quiet
pub mod Outcome
mod Tests
use djm_t1_linux.Base.{
  ℕ, zero, suc, ◌+◌, ◌-◌, ◌||◌, not, Bool, true, false, Option, none, some, List, [], ◌∷◌, ◌>>=◌,
  ◌==◌, if◌then◌else◌, take,
}
use djm_t1_linux.Base.Int.{ℤ}
use djm_t1_linux.Usb.Session.{Request, LibUsb, Session, init, control_transfer, close, exit}
use djm_t1_linux.Arm.{arm, open_loop, open_tries}
use djm_t1_linux.Midi.Globals.{
  Pending, Completion, Globals, Round, handle_events, settle, wind_down, main_loop,
}

abbrev pub iface_audio : ℕ
iface_audio = 0

abbrev pub iface_midi : ℕ
iface_midi = 2

abbrev pub iface_hid : ℕ
iface_hid = 3

-- `A_NXFR`
abbrev pub a_nxfr : ℕ
a_nxfr = 4

abbrev pub settle_rounds : ℕ
settle_rounds = 10

abbrev pub wind_down_rounds : ℕ
wind_down_rounds = 5

-- The transfer that sets 48000 Hz on the capture endpoint.
abbrev pub freq_request : Request
freq_request = record {
  request_type = 0x22;
  request = 0x01;
  value = 0x0100;
  index = 0x82;
  length = 3;
}

-- What ALSA and libusb answer to the calls of `main` that are made once: of `seq_setup`, that the
-- sequencer opens, that the port is made, and that the encoder and the decoder are; that the
-- interfaces are claimed and the audio interface goes to alternate setting 1; and that libusb takes
-- the transfers. Transfers and their buffers are taken to be allocated.
pub record Answers : Type 0 where
  pub seq_open : Bool
  pub port : Bool
  pub encoder : Bool
  pub decoder : Bool
  pub claim_audio : Bool
  pub set_alt : Bool
  pub claim_midi : Bool
  pub claim_hid : Bool
  pub takes_in : ℕ → Bool
  pub takes_out : ℕ → Bool
  pub takes_midi : Bool
  pub takes_hid : Bool

-- Whether a signal arrives before the pipes settle, and what completes while they settle, during the
-- synchronous transfers of `arm`, in the main loop, and in the teardown. What completes during a
-- synchronous transfer of `drain_seq_input` stands with its round: the callbacks and
-- `drain_seq_input` use different variables.
pub record Script (Event : Type 0) : Type 0 where
  pub signalled : Bool
  pub settling : List (List Completion)
  pub arming : List Completion
  pub rounds : List (Round Event)
  pub stopping : List (List Completion)

module _ (lib : LibUsb) (E D Event : Type 0) where
  -- The session with libusb; the sequencer and the codecs that are held; the interfaces that are
  -- claimed, the latest first, and the alternate setting of the audio interface; the transfers that
  -- are allocated, each with its buffer, which nothing frees; and the variables.
  pub record Daemon : Type 0 where
    pub session : Session lib
    pub sequencer : Bool
    pub codecs : ℕ
    pub claimed : List ℕ
    pub alt : ℕ
    pub transfers : ℕ
    pub globals : Globals E D Event

  -- `seq_setup`, by the answers to its calls; the flag is "returned 0".
  pub seq_setup_with : Bool → Bool → Bool → Bool → Daemon → Bool × Daemon
  seq_setup_with seq_open port encoder decoder d =
      if not seq_open
      then (false, d)
      else if not port
      then (false, record d { sequencer = true })
      else if not encoder
      then (false, record d { sequencer = true })
      else if not decoder
      then (false, record d { sequencer = true; codecs = d.codecs + 1 })
      else (true, record d { sequencer = true; codecs = d.codecs + 2 })

  pub seq_setup : Answers → Daemon → Bool × Daemon
  unfolding seq_setup_with
  seq_setup a d = seq_setup_with a.seq_open a.port a.encoder a.decoder d

  abbrev pub claim : ℕ → Daemon → Daemon
  claim i d = record d { claimed = i ∷ d.claimed }

  -- One more isochronous transfer, which libusb takes or not.
  abbrev pub submit_audio : Bool → Daemon → Daemon
  submit_audio takes d = record d {
    transfers = d.transfers + 1;
    globals = record d.globals {
      pending = record d.globals.pending {
        audio = if takes then d.globals.pending.audio + 1 else d.globals.pending.audio;
      };
    };
  }

  -- The loop over `ain[i]` and `aout[i]`, with `left` rounds to go.
  pub submit_loop : Answers → ℕ → ℕ → Daemon → Daemon
  submit_loop a zero i d = d
  submit_loop a (suc left) i d =
      submit_loop a left (i + 1) (submit_audio (a.takes_out i) (submit_audio (a.takes_in i) d))

  -- The sample rate, whose answer is not looked at, and the transfers.
  pub stream : Answers → Daemon → Daemon
  unfolding submit_loop
  stream a d =
      submit_loop a a_nxfr 0
        (record d { session = (control_transfer lib freq_request d.session).1 })

  -- The audio pipes, if they are on; the flag is false where `main` returns 3.
  pub audio_setup_with : Bool → Bool → Bool → Answers → Daemon → Bool × Daemon
  unfolding stream
  audio_setup_with on claims set_alt a d =
      if not on
      then (true, d)
      else if not claims
      then (false, d)
      else if not set_alt
      then (false, claim iface_audio d)
      else (true, stream a (record (claim iface_audio d) { alt = 1 }))

  pub audio_setup : Answers → Daemon → Bool × Daemon
  unfolding audio_setup_with
  audio_setup a d = audio_setup_with d.globals.audio_on a.claim_audio a.set_alt a d

  -- The bulk pipe, whose interface is claimed.
  pub midi_setup : Answers → Daemon → Daemon
  midi_setup a d = record (claim iface_midi d) {
    transfers = d.transfers + 1;
    globals = record d.globals { pending = record d.globals.pending { midi = a.takes_midi } };
  }

  -- The interrupt pipe, if it is on; the flag is `hx != NULL`.
  pub hid_setup_with : Bool → Bool → Answers → Daemon → Bool × Daemon
  hid_setup_with on claims a d =
      if not on
      then (false, d)
      else if not claims
      then (false, record d { globals = record d.globals { hid_on = false } })
      else (
        true,
        record (claim iface_hid d) {
          transfers = d.transfers + 1;
          globals = record d.globals { pending = record d.globals.pending { hid = a.takes_hid } };
        },
      )

  pub hid_setup : Answers → Daemon → Bool × Daemon
  unfolding hid_setup_with
  hid_setup a d = hid_setup_with d.globals.hid_on a.claim_hid a d

  abbrev pub arm_daemon : Daemon → Daemon
  arm_daemon d = record d { session = (arm lib d.session).1 }

-- `libusb_release_interface`
abbrev pub release : ℕ → List ℕ → List ℕ
release i [] = []
release i (j ∷ claimed) = if i == j then release i claimed else j ∷ release i claimed

-- How far a run gets: it ends with an exit code, or is still in its loop where the script ends.
abbrev pub Run {ℓ} : Type ℓ → Type ℓ
Run A = Option (Option ℕ × A)

module _ (lib : LibUsb) {E D Event : Type 0} (encode_byte : E → ℕ → E × Option Event) (seq_port : ℕ)
    (decode : D → Event → D × List ℕ) where
  -- What is given back behind the last rounds. `streamed` is `ain[0] != NULL`, `hx` is `hx != NULL`.
  pub give_back : Bool → Bool → Daemon lib E D Event → Daemon lib E D Event
  give_back streamed hx d =
      let without_midi = release iface_midi d.claimed in
      let without_hid = if hx then release iface_hid without_midi else without_midi in
      record d {
        claimed = if streamed then release iface_audio without_hid else without_hid;
        alt = if streamed then 0 else d.alt;
        session = exit lib (close lib d.session);
        codecs = d.codecs - 2;
        sequencer = false;
      }

  -- The teardown. A transfer that is cancelled completes in one of its rounds, or not at all.
  pub teardown : Script Event → Bool → Bool → Daemon lib E D Event → Option (Daemon lib E D Event)
  unfolding give_back
  teardown s streamed hx d = do
    g ←
        wind_down encode_byte seq_port (take wind_down_rounds s.stopping)
          (record d.globals { running = false; audio_on = false; hid_on = false })
    some (give_back streamed hx (record d { globals = g }))

  -- Behind the loop.
  pub finish : Script Event → Bool → Bool → Bool → Daemon lib E D Event → Run (Daemon lib E D Event)
  unfolding teardown
  finish s streamed hx false d = some (none, d)
  finish s streamed hx true d = do d' ← teardown s streamed hx d; some (some 0, d')

  -- From the pipes to the end. Nothing reads `do_quit` before: a signal that arrived shows here.
  pub run : Script Event → Bool → Bool × Daemon lib E D Event → Run (Daemon lib E D Event)
  unfolding finish
  run s streamed (hx, d) = do
    let start = record d.globals { do_quit = s.signalled || d.globals.do_quit }
    g ← settle encode_byte seq_port (take settle_rounds s.settling) start
    during ← handle_events encode_byte seq_port s.arming g
    let armed = arm_daemon lib E D Event (record d { globals = during })
    g' ← main_loop encode_byte seq_port decode s.rounds armed.globals
    finish s streamed hx g'.do_quit (record armed { globals = g' })

  pub main_midi :
      Answers → Script Event → Bool → Bool → Daemon lib E D Event → Run (Daemon lib E D Event)
  unfolding run
  main_midi a s streamed false d = some (some 4, d)
  main_midi a s streamed true d =
      run s streamed (hid_setup lib E D Event a (midi_setup lib E D Event a d))

  pub main_audio :
      Answers → Script Event → Bool → Bool × Daemon lib E D Event → Run (Daemon lib E D Event)
  unfolding main_midi
  main_audio a s streamed (false, d) = some (some 3, d)
  main_audio a s streamed (true, d) = main_midi a s streamed a.claim_midi d

  pub main_opened :
      Answers
      → Script Event
      → Daemon lib E D Event
      → Bool × Session lib
      → Run (Daemon lib E D Event)
  unfolding main_audio
  main_opened a s d (false, session) = some (some 2, record d { session = session })
  main_opened a s d (true, session) =
      main_audio a s d.globals.audio_on
        (audio_setup lib E D Event a (record d { session = session }))

  -- The device is tried for as djm_arm does, with rounds of the event loop for pauses, in which
  -- nothing can complete yet.
  pub main_ready :
      Answers
      → Script Event
      → Daemon lib E D Event
      → Bool × Session lib
      → Run (Daemon lib E D Event)
  unfolding main_opened
  main_ready a s d (false, session) = some (some 1, record d { session = session })
  main_ready a s d (true, session) = main_opened a s d (open_loop lib open_tries session)

  pub main_seq : Answers → Script Event → Bool × Daemon lib E D Event → Run (Daemon lib E D Event)
  unfolding main_ready
  main_seq a s (false, d) = some (some 1, d)
  main_seq a s (true, d) = main_ready a s d (init lib d.session)

  -- `main`, with its options in the variables that `d` holds. `none`: a callback faults.
  pub main : Answers → Script Event → Daemon lib E D Event → Run (Daemon lib E D Event)
  unfolding main_seq
  main a s d = main_seq a s (seq_setup lib E D Event a d)
