-- ===== src/Full/Threads/Start.antt =====
-- How main starts, by what its calls answer.
use djm_t1_linux.Base.{
  ℕ, ◌/◌, ◌≡◌, refl, ap, ◌⊎◌, ◌&&◌, inl, inr, Bool, true, false, Option, List, [], ◌∷◌, arith,
}
use djm_t1_linux.Sample.{Floats}
use djm_t1_linux.Usb.Session.{LibUsb, Session, initialized, opened}
use djm_t1_linux.Iso.Life
use djm_t1_linux.Iso.Life.{Life, Held, take_engine, take_context, take_handle, stop_joined, start}
use djm_t1_linux.Iso.Life.Start
use djm_t1_linux.Iso.Life.Start.{back, calls_succeed, start-Started}
use djm_t1_linux.Midi.Daemon.{iface_midi, iface_hid}
use djm_t1_linux.Full
use djm_t1_linux.Full.{Thread, pipes, pipes_with, out}
use djm_t1_linux.Full.Ends.{IsFresh, Piped}
use djm_t1_linux.Full.Threads.{
  Midi, Main, App, System, Started, Answers, begin_claimed, begin_opened, begin_ready, begin,
  seq_setup, seq_setup_with, main_thread, main_seq, main_engine, main,
}
use djm_t1_linux.Full.Threads.Turns.{HoldsIn}
use djm_t1_linux.Full.Threads.Safe.{Inv, idle}

module _ (fl : Floats) (lib : LibUsb) {E D Event : Type 0} (encode_byte : E → ℕ → E × Option Event)
    (seq_port : ℕ) (decode : D → Event → D × List ℕ) where
  pipes_with-Piped :
      (a : Full.Answers) (claims : Bool) (t : Thread lib E D Event)
      → t.claimed ≡ []
      → t.session.contexts ≡ 1
      → t.session.handles ≡ 1
      → let r = pipes_with lib encode_byte seq_port decode claims a t in Piped r.0 r.1
  unfolding pipes_with
  pipes_with-Piped a true t claimed contexts handles = record {
    claimed = ap (λ l. iface_hid ∷ iface_midi ∷ l) claimed;
    contexts = contexts;
    handles = handles;
  }
  pipes_with-Piped a false t claimed contexts handles = record {
    claimed = ap (λ l. iface_midi ∷ l) claimed;
    contexts = contexts;
    handles = handles;
  }

  abbrev Holds : Midi lib E D Event → Type 0
  Holds m = HoldsIn m.phase m

  begin_claimed-Holds :
      (a : Full.Answers) (claims : Bool) (t : Thread lib E D Event)
      → t.claimed ≡ []
      → t.session.contexts ≡ 1
      → t.session.handles ≡ 1
      → Holds (begin_claimed lib encode_byte seq_port decode a claims t)
  unfolding begin_claimed pipes
  begin_claimed-Holds a false t claimed contexts handles = record {
    claimed = claimed;
    contexts = omega (arith, contexts);
    handles = omega (arith, handles);
  }
  begin_claimed-Holds a true t claimed contexts handles =
      pipes_with-Piped a a.claim_hid t claimed contexts handles

  begin_opened-Holds :
      (a : Full.Answers) (answer : Bool × lib.World) (session : Session lib)
      (t : Thread lib E D Event)
      → t.claimed ≡ []
      → session.contexts ≡ 1
      → session.handles ≡ 0
      → Holds (begin_opened lib encode_byte seq_port decode a t (opened lib answer session))
  unfolding begin_opened
  begin_opened-Holds a (false, w) session t claimed contexts handles = record {
    claimed = claimed;
    contexts = omega (arith, contexts);
    handles = handles;
  }
  begin_opened-Holds a (true, w) session t claimed contexts handles =
      begin_claimed-Holds a a.claim_midi _ claimed contexts (omega (arith, handles))

  begin_ready-Holds :
      (a : Full.Answers) (answer : Bool × lib.World) (t : Thread lib E D Event)
      → IsFresh t
      → Holds (begin_ready lib encode_byte seq_port decode a t (initialized lib answer t.session))
  unfolding begin_ready
  begin_ready-Holds a (false, w) t v = record {
    claimed = v.claimed;
    contexts = v.contexts;
    handles = v.handles;
  }
  begin_ready-Holds a (true, w) t v =
      begin_opened-Holds a (lib.open_device w) _ t v.claimed (omega (arith, v.contexts)) v.handles

  -- `main` has returned 1 and holds no engine, loop or stream, or it is in its loop and the invariant
  -- holds.
  abbrev pub Starts : Bool → Held → Started lib E D Event → Type 0
  Starts ready h r =
      ((ready ≡ false)
        × ((app : App) × (r ≡ Started.failed 1 app)
            × (app.held ≡ h)
            × (app.loop ≡ false)
            × (app.streams ≡ 0)))
      ⊎ ((ready ≡ true)
          × ((s : System lib E D Event) × (r ≡ Started.runs s)
              × Inv h s
              × (s.main ≡ Main.in_loop false)))

  -- `main` with the engine running.
  abbrev started : Held → Held
  started h = take_handle (take_context (take_engine h))

  stopped-held : (h : Held) (engine : Life fl) → (stop_joined fl engine (started h)).1 ≡ h
  unfolding stop_joined
  stopped-held h engine = rw (back h.engines, back h.contexts, back h.handles) refl

  main_thread-Starts :
      (usb : Full.Answers) (t : Thread lib E D Event) (engine : Life fl) (thread : Bool) (h : Held)
      → IsFresh t
      → Starts thread h (
          main_thread fl lib encode_byte seq_port decode usb t engine thread
            (record (idle (started h)) { sequencer = true; codecs = 2 }))
  unfolding main_thread begin
  main_thread-Starts usb t engine false h v =
      inl (refl, (_, refl, stopped-held h engine, refl, refl))
  main_thread-Starts usb t engine true h v = inr (
    refl,
    (
      _,
      refl,
      record {
        main = (λ e. cc e, refl);
        midi = begin_ready-Holds usb (lib.init t.session.world) t v;
      },
      refl,
    ),
  )

  main_seq-Starts :
      (a : Answers) (usb : Full.Answers) (t : Thread lib E D Event) (engine : Life fl)
      (seq_open port encoder decoder : Bool) (h : Held)
      → IsFresh t
      → Starts ((seq_open && (port && (encoder && decoder))) && a.thread) h (
          main_seq fl lib encode_byte seq_port decode a usb t engine (
            seq_setup_with fl lib encode_byte seq_port decode seq_open port encoder decoder
              (idle (started h))))
  unfolding main_seq seq_setup_with
  main_seq-Starts a usb t engine false port encoder decoder h v =
      inl (refl, (_, refl, stopped-held h engine, refl, refl))
  main_seq-Starts a usb t engine true false encoder decoder h v =
      inl (refl, (_, refl, stopped-held h engine, refl, refl))
  main_seq-Starts a usb t engine true true false decoder h v =
      inl (refl, (_, refl, stopped-held h engine, refl, refl))
  main_seq-Starts a usb t engine true true true false h v =
      inl (refl, (_, refl, stopped-held h engine, refl, refl))
  main_seq-Starts a usb t engine true true true true h v =
      main_thread-Starts usb t engine a.thread h v

  -- The engine, the sequencer with its port and codecs, and the thread.
  abbrev pub ready : Life.Answers fl → Answers → Bool
  ready e a =
      calls_succeed fl e && ((a.seq_open && (a.port && (a.encoder && a.decoder))) && a.thread)

  main_engine-Starts :
      (succeeds : Bool) (s : Life fl) (a : Answers) (usb : Full.Answers) (t : Thread lib E D Event)
      (h : Held) (r : Option (Life fl) × Held)
      → IsFresh t
      → Start.Started fl succeeds s h r
      → Starts
          (succeeds && ((a.seq_open && (a.port && (a.encoder && a.decoder))) && a.thread))
          h
          (main_engine fl lib encode_byte seq_port decode a usb t (idle h) r)
  unfolding main_engine seq_setup
  main_engine-Starts succeeds s a usb t h (o, held') v (inl (fails, none_given, held)) =
      rw (fails, none_given, held) (inl (refl, (_, refl, refl, refl, refl)))
  main_engine-Starts succeeds s a usb t h (o, held') v (inr (all, given, held)) =
      rw (all, given, held) (main_seq-Starts a usb t s a.seq_open a.port a.encoder a.decoder h v)

  -- `main`, which holds nothing yet, with a MIDI thread that holds nothing: if the engine starts, the
  -- sequencer, its port and its codecs are made and the thread is created, it enters its loop, and
  -- the invariant holds there; otherwise it returns 1, with the engine given back, and without a loop
  -- or a stream.
  pub main-Starts :
      (e : Life.Answers fl) (a : Answers) (usb : Full.Answers) (t : Thread lib E D Event) (h : Held)
      → IsFresh t
      → Starts (ready e a) h (main fl lib encode_byte seq_port decode e a usb t (idle h))
  unfolding main
  main-Starts e a usb t h v =
      let (s, d) = start-Started fl e (48000 / 5) h in
      main_engine-Starts (calls_succeed fl e) s a usb t h (start fl e (48000 / 5) h) v d
