-- ===== src/Full/Threads.antt =====
-- main of midi/djm_full.c with its MIDI thread: what each of the two threads does in a step of its
-- own, in any order.
pub mod Turns
pub mod Safe
pub mod Shutdown
pub mod Start
mod Tests
use djm_t1_linux.Base.{
  ℕ, zero, suc, ◌+◌, ◌-◌, ◌/◌, Bool, true, false, Option, none, some, List, [], ◌∷◌, ◌++◌, ◌>>=◌,
}
use djm_t1_linux.Sample.{Floats}
use djm_t1_linux.Usb.Session.{LibUsb, Session, init, open_device, exit}
use djm_t1_linux.Arm.{arm}
use djm_t1_linux.Iso.Life
use djm_t1_linux.Iso.Life.{Life, Held, start, stop_joined}
use djm_t1_linux.Midi.Daemon.{settle_rounds, wind_down_rounds}
use djm_t1_linux.Full
use djm_t1_linux.Full.{Completion, Shared, Thread, handle_events, drain, let_go, out, pipes}

-- Where the MIDI thread is: in the loop that lets the pipes settle, with so many rounds to go, in
-- `while (!g_stop)`, in the loop behind it, or behind its end.
pub data Phase : Type 0 where
  settling : ℕ → Phase
  looping : Phase
  winding : ℕ → Phase
  ended : Phase

-- The thread, with `hx != NULL`.
pub record Midi (lib : LibUsb) (E D Event : Type 0) : Type 0 where
  pub phase : Phase
  pub hx : Bool
  pub thread : Thread lib E D Event

-- Where `main` is: in `pw_main_loop_run`, with whether `pw_main_loop_quit` has been called, in
-- `pthread_join`, or behind its end.
pub data Main : Type 0 where
  in_loop : Bool → Main
  joining : Main
  returned : ℕ → Main

-- What `main` holds: the engine, the sequencer, the codecs, PipeWire's loop and its streams.
pub record App : Type 0 where
  pub held : Held
  pub sequencer : Bool
  pub codecs : ℕ
  pub loop : Bool
  pub streams : ℕ

pub record System (lib : LibUsb) (E D Event : Type 0) : Type 0 where
  pub main : Main
  pub app : App
  pub midi : Midi lib E D Event

-- How `main` starts: it returns a code, or it enters its loop.
pub data Started (lib : LibUsb) (E D Event : Type 0) : Type 0 where
  failed : ℕ → App → Started lib E D Event
  runs : System lib E D Event → Started lib E D Event

-- What ALSA and `pthread_create` answer to `main`.
pub record Answers : Type 0 where
  pub seq_open : Bool
  pub port : Bool
  pub encoder : Bool
  pub decoder : Bool
  pub thread : Bool

module _ (fl : Floats) where
  -- A signal that PipeWire's loop dispatches, a return from that loop, a round of the MIDI thread's
  -- loop with what completes in it and the events that reach the sequencer's port, and a return from
  -- `pthread_join`, with the engine as its own thread has left it.
  pub data Input (Event : Type 0) : Type 0 where
    signal : Input Event
    leaves : Input Event
    turns : List Completion → List (Option Event) → Input Event
    joins : Life fl → Input Event

module _ (lib : LibUsb) {E D Event : Type 0} (encode_byte : E → ℕ → E × Option Event) (seq_port : ℕ)
    (decode : D → Event → D × List ℕ) where
  abbrev pub with_shared : Midi lib E D Event → Shared E D Event → Midi lib E D Event
  with_shared m g = record m { thread = record m.thread { shared = g } }

  abbrev pub with_stop : Midi lib E D Event → Midi lib E D Event
  with_stop m = with_shared m (record m.thread.shared { g_stop = true })

  -- Behind the loop that lets the pipes settle.
  abbrev pub armed : Midi lib E D Event → Midi lib E D Event
  armed m = record m {
    phase = Phase.looping;
    thread = record m.thread { session = (arm lib m.thread.session).1 };
  }

  -- The arming, with what completes during its synchronous transfers.
  pub arm_during : List Completion → Midi lib E D Event → Option (Midi lib E D Event)
  arm_during cs m = do
    g ← handle_events encode_byte seq_port cs m.thread.shared
    some (armed (with_shared m g))

  -- A round of the loop that the MIDI thread is in, or what it does behind that loop; the flag is
  -- `g_stop` where the loop tests it.
  pub turn_by :
      Phase
      → Bool
      → List Completion
      → List (Option Event)
      → Midi lib E D Event
      → Option (Midi lib E D Event)
  unfolding arm_during
  turn_by (Phase.settling zero) stop cs events m = arm_during cs m
  turn_by (Phase.settling (suc n)) true cs events m = arm_during cs m
  turn_by (Phase.settling (suc n)) false cs events m = do
    g ← handle_events encode_byte seq_port cs m.thread.shared
    some (record (with_shared m g) { phase = Phase.settling n })
  turn_by Phase.looping true cs events m =
      some (record m { phase = Phase.winding wind_down_rounds })
  turn_by Phase.looping false cs events m = do
    g ← handle_events encode_byte seq_port cs m.thread.shared
    some (record (with_shared m (drain encode_byte seq_port decode events g)) {
      phase = Phase.looping;
    })
  turn_by (Phase.winding (suc n)) stop cs events m = do
    g ← handle_events encode_byte seq_port cs m.thread.shared
    some (record (with_shared m g) { phase = Phase.winding n })
  turn_by (Phase.winding zero) stop cs events m = some (record m {
    phase = Phase.ended;
    thread = let_go lib encode_byte seq_port decode m.hx m.thread;
  })
  turn_by Phase.ended stop cs events m = some m

  pub turn :
      List Completion → List (Option Event) → Midi lib E D Event → Option (Midi lib E D Event)
  unfolding turn_by
  turn cs events m = turn_by m.phase m.thread.shared.g_stop cs events m

  -- The MIDI thread up to its first loop, where it neither reads nor sets `g_stop`.
  abbrev pub ended_with : Thread lib E D Event → Midi lib E D Event
  ended_with t = record { phase = Phase.ended; hx = false; thread = t }

  pub begin_claimed : Full.Answers → Bool → Thread lib E D Event → Midi lib E D Event
  unfolding pipes
  begin_claimed a false t = ended_with (out lib encode_byte seq_port decode t)
  begin_claimed a true t =
      let (hx, piped) = pipes lib encode_byte seq_port decode a t in
      record { phase = Phase.settling settle_rounds; hx = hx; thread = piped }

  pub begin_opened : Full.Answers → Thread lib E D Event → Bool × Session lib → Midi lib E D Event
  unfolding begin_claimed
  begin_opened a t (false, session) = ended_with (record t { session = exit lib session })
  begin_opened a t (true, session) = begin_claimed a a.claim_midi (record t { session = session })

  pub begin_ready : Full.Answers → Thread lib E D Event → Bool × Session lib → Midi lib E D Event
  unfolding begin_opened
  begin_ready a t (false, session) = ended_with (record t { session = session })
  begin_ready a t (true, session) = begin_opened a t (open_device lib session)

  pub begin : Full.Answers → Thread lib E D Event → Midi lib E D Event
  unfolding begin_ready
  begin a t = begin_ready a t (init lib t.session)

  -- `on_signal`, which runs in PipeWire's loop only.
  pub on_signal : Main → System lib E D Event → System lib E D Event
  on_signal (Main.in_loop quit) s = record s { main = Main.in_loop true; midi = with_stop s.midi }
  on_signal Main.joining s = s
  on_signal (Main.returned code) s = s

  -- Behind `pw_main_loop_run`, which returns once `pw_main_loop_quit` has been called.
  pub leave : Main → System lib E D Event → System lib E D Event
  leave (Main.in_loop true) s = record s { main = Main.joining; midi = with_stop s.midi }
  leave (Main.in_loop false) s = s
  leave Main.joining s = s
  leave (Main.returned code) s = s

module _ (fl : Floats) (lib : LibUsb) {E D Event : Type 0} (encode_byte : E → ℕ → E × Option Event)
    (seq_port : ℕ) (decode : D → Event → D × List ℕ) where
  -- Behind `pthread_join`.
  pub shut_down : Life fl → App → App
  shut_down engine a = record {
    held = (stop_joined fl engine a.held).1;
    sequencer = false;
    codecs = 0;
    loop = false;
    streams = 0;
  }

  -- `pthread_join` returns once the MIDI thread has ended.
  pub join : Main → Phase → Life fl → System lib E D Event → System lib E D Event
  unfolding shut_down
  join Main.joining Phase.ended engine s = record s {
    main = Main.returned 0;
    app = shut_down engine s.app;
  }
  join _ _ engine s = s

  pub step : Input fl Event → System lib E D Event → Option (System lib E D Event)
  unfolding turn on_signal leave join
  step Input.signal s = some (on_signal lib encode_byte seq_port decode s.main s)
  step Input.leaves s = some (leave lib encode_byte seq_port decode s.main s)
  step (Input.turns cs events) s = do
    m ← turn lib encode_byte seq_port decode cs events s.midi
    some (record s { midi = m })
  step (Input.joins engine) s = some (join s.main s.midi.phase engine s)

  pub steps : List (Input fl Event) → System lib E D Event → Option (System lib E D Event)
  unfolding step
  steps [] s = some s
  steps (i ∷ is) s = do s' ← step i s; steps is s'

  -- `seq_setup`, by what its calls answer; the flag is "it returned 0".
  pub seq_setup_with : Bool → Bool → Bool → Bool → App → Bool × App
  seq_setup_with false port encoder decoder a = (false, a)
  seq_setup_with true false encoder decoder a = (false, record a { sequencer = true })
  seq_setup_with true true false decoder a = (false, record a { sequencer = true })
  seq_setup_with true true true false a =
      (false, record a { sequencer = true; codecs = a.codecs + 1 })
  seq_setup_with true true true true a =
      (true, record a { sequencer = true; codecs = a.codecs + 2 })

  pub seq_setup : Answers → App → Bool × App
  unfolding seq_setup_with
  seq_setup a app = seq_setup_with a.seq_open a.port a.encoder a.decoder app

  -- An early return of `main`; what `djmt1_iso_stop` gives back does not depend on how far the
  -- engine's own thread has come.
  abbrev pub gives_up : Life fl → App → Started lib E D Event
  gives_up engine app = Started.failed 1 (record app { held = (stop_joined fl engine app.held).1 })

  -- From `pthread_create` to `pw_main_loop_run`.
  pub main_thread :
      Full.Answers → Thread lib E D Event → Life fl → Bool → App → Started lib E D Event
  unfolding begin
  main_thread usb t engine false app = gives_up engine app
  main_thread usb t engine true app = Started.runs (record {
    main = Main.in_loop false;
    app = record app { loop = true; streams = app.streams + 2 };
    midi = begin lib encode_byte seq_port decode usb t;
  })

  pub main_seq :
      Answers → Full.Answers → Thread lib E D Event → Life fl → Bool × App → Started lib E D Event
  unfolding main_thread
  main_seq a usb t engine (false, app) = gives_up engine app
  main_seq a usb t engine (true, app) = main_thread usb t engine a.thread app

  pub main_engine :
      Answers
      → Full.Answers
      → Thread lib E D Event
      → App
      → Option (Life fl) × Held
      → Started lib E D Event
  unfolding main_seq seq_setup
  main_engine a usb t app (none, held) = Started.failed 1 (record app { held = held })
  main_engine a usb t app (some engine, held) =
      main_seq a usb t engine (seq_setup a (record app { held = held }))

  -- `main` up to its loop.
  pub main :
      Life.Answers fl → Answers → Full.Answers → Thread lib E D Event → App → Started lib E D Event
  unfolding main_engine
  main engine a usb t app = main_engine a usb t app (start fl engine (48000 / 5) app.held)
