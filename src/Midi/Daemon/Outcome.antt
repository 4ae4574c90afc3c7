-- ===== src/Midi/Daemon/Outcome.antt =====
-- The ways in which the daemon ends.
use djm_t1_linux.Base.{
  ℕ, ◌+◌, ◌≤◌, ◌≡◌, refl, sym, ap, ◌∙◌, ◌⊎◌, ◌&&◌, ◌||◌, not, inl, inr, Bool, true, false, Option,
  some, List, [], ◌∷◌, arith, if◌then◌else◌, ltb, ◌==◌,
}
use mathlib.Core.Path.{subst}
use djm_t1_linux.Usb.Session.{Request, LibUsb, Session, initialized}
use djm_t1_linux.Arm.{open_loop, open_tries}
use djm_t1_linux.Arm.Outcome.{opens, open_loop-Opened, open_loop-opens}
use djm_t1_linux.Midi.Daemon.{
  Daemon, Answers, Script, Run, iface_audio, hid_setup, hid_setup_with, stream, run, midi_setup,
  audio_setup, audio_setup_with, seq_setup, seq_setup_with, main, main_seq, main_ready, main_opened,
  main_audio, main_midi,
}
use djm_t1_linux.Midi.Daemon.Ends.{Whole, quits_in, requests, freq_requests, Ran, run-Ran}
use djm_t1_linux.Midi.Daemon.Setup.{
  Holds, IsFresh, hid_setup-Ready, midi_setup-Piped, stream-Holds, stream-hid_on, claim-Holds,
  with_session-Holds, codecs_more, opened_sequencer,
}

or_nil : (b : Bool) → (b || false) ≡ b
or_nil true = refl
or_nil false = refl

module _ {lib : LibUsb} {E D Event : Type 0} where
  -- The setup failed: the daemon ends with a code from 1 to 4, without arming the mixer. It gives
  -- nothing back: from code 2 on it leaves the context, and from code 3 on the handle.
  pub record Early (streamed : Bool) (r : Run (Daemon lib E D Event)) : Type 0 where
    pub code : ℕ
    pub d' : Daemon lib E D Event
    pub returns : r ≡ some (some code, d')
    pub range : (1 ≤ code) × (code ≤ 4)
    pub contexts : d'.session.contexts ≡ (if ltb code 2 then 0 else 1)
    pub handles : d'.session.handles ≡ (if ltb code 3 then 0 else 1)
    pub made : requests d' ≡ (if code == 4 then freq_requests streamed else [])

  early :
      (streamed : Bool) (code contexts handles codecs alt : ℕ) (claimed : List ℕ)
      (made : List Request) (d : Daemon lib E D Event)
      → Holds contexts handles codecs alt claimed made d
      → (1 ≤ code) × (code ≤ 4)
      → contexts ≡ (if ltb code 2 then 0 else 1)
      → handles ≡ (if ltb code 3 then 0 else 1)
      → made ≡ (if code == 4 then freq_requests streamed else [])
      → Early streamed (some (some code, d))
  early streamed code contexts handles codecs alt claimed made d v range c h m = record {
    code = code;
    d' = d;
    returns = refl;
    range = range;
    contexts = v.contexts_eq ∙ c;
    handles = v.handles_eq ∙ h;
    made = v.made_eq ∙ m;
  }

module _ (lib : LibUsb) {E D Event : Type 0} (encode_byte : E → ℕ → E × Option Event) (seq_port : ℕ)
    (decode : D → Event → D × List ℕ) (a : Answers) (s : Script Event) (whole : Whole s) where
  -- `ready` is that the setup succeeds.
  abbrev pub Ending : Bool → Bool → Bool → Run (Daemon lib E D Event) → Type 0
  Ending ready streamed hid r =
      ((ready ≡ true)
        × Ran lib encode_byte seq_port decode s streamed (hid && a.claim_hid) (quits_in s) r)
      ⊎ ((ready ≡ false) × Early streamed r)

  main_midi-Ending :
      (streamed ok : Bool) (d : Daemon lib E D Event)
      → Holds 1 1 2
          (if streamed then 1 else 0)
          (if streamed then iface_audio ∷ [] else [])
          (freq_requests streamed)
          d
      → Ending ok streamed d.globals.hid_on
          (main_midi lib encode_byte seq_port decode a s streamed ok d)
  unfolding main_midi hid_setup midi_setup
  main_midi-Ending streamed false d v =
      inr (refl, early streamed 4 1 1 2 _ _ _ d v (omega arith) refl refl refl)
  main_midi-Ending streamed true d v =
      let midi = midi_setup lib E D Event a d in
      let h =
        hid_setup-Ready streamed midi.globals.hid_on a.claim_hid a midi
          (midi_setup-Piped streamed a d v) in
      inl (
        refl,
        subst
            (λ hx. Ran lib encode_byte seq_port decode s streamed hx (quits_in s) (
              run lib encode_byte seq_port decode s streamed
                (hid_setup_with lib E D Event midi.globals.hid_on a.claim_hid a midi)))
            h.has
            (rw h.returns (
              rw (sym (or_nil (quits_in s)), sym h.piped.do_quit)
                (run-Ran lib encode_byte seq_port decode s streamed h.hx h.d' whole h.piped))),
      )

  main_audio-Ending :
      (on claims set_alt : Bool) (d : Daemon lib E D Event)
      → Holds 1 1 2 0 [] [] d
      → Ending ((not on || (claims && set_alt)) && a.claim_midi) on d.globals.hid_on (
          main_audio lib encode_byte seq_port decode a s on
            (audio_setup_with lib E D Event on claims set_alt a d))
  unfolding main_audio audio_setup_with
  main_audio-Ending false claims set_alt d v = main_midi-Ending false a.claim_midi d v
  main_audio-Ending true false set_alt d v =
      inr (refl, early true 3 1 1 2 0 [] [] d v (omega arith) refl refl refl)
  main_audio-Ending true true false d v = inr (
    refl,
    early true 3 1 1 2 0 (iface_audio ∷ []) [] _ (claim-Holds iface_audio d v) (omega arith) refl
        refl refl,
  )
  main_audio-Ending true true true d v =
      subst
        (λ hid. Ending a.claim_midi true hid (
          main_midi lib encode_byte seq_port decode a s true a.claim_midi
            (stream lib E D Event a (record d { claimed = iface_audio ∷ d.claimed; alt = 1 }))))
        (stream-hid_on a (record d { claimed = iface_audio ∷ d.claimed; alt = 1 }))
        (main_midi-Ending true a.claim_midi _ (stream-Holds a d v))

  -- The audio interface is claimed and streams, if audio is on.
  abbrev pub audio_ready : Bool → Bool
  audio_ready on = not on || (a.claim_audio && a.set_alt)

  main_opened-Ending :
      (d : Daemon lib E D Event) (r : Bool × Session lib)
      → Holds 0 0 2 0 [] [] d
      → r.1.contexts ≡ 1
      → r.1.handles ≡ (if r.0 then 1 else 0)
      → r.1.controls ≡ []
      → Ending
          (r.0 && (audio_ready d.globals.audio_on && a.claim_midi))
          d.globals.audio_on
          d.globals.hid_on
          (main_opened lib encode_byte seq_port decode a s d r)
  unfolding main_opened audio_setup
  main_opened-Ending d (false, session) v contexts handles controls = inr (
    refl,
    early d.globals.audio_on 2 1 0 2 0 [] [] _
        (with_session-Holds 1 0 2 0 [] d session v contexts handles controls) (omega arith) refl
        refl refl,
  )
  main_opened-Ending d (true, session) v contexts handles controls =
      main_audio-Ending d.globals.audio_on a.claim_audio a.set_alt (record d { session = session })
        (with_session-Holds 1 1 2 0 [] d session v contexts handles controls)

  main_ready-Ending :
      (answer : Bool × lib.World) (d : Daemon lib E D Event)
      → Holds 0 0 2 0 [] [] d
      → d.session.controls ≡ []
      → Ending
          (answer.0
            && (opens lib open_tries answer.1 && (audio_ready d.globals.audio_on && a.claim_midi)))
          d.globals.audio_on
          d.globals.hid_on
          (main_ready lib encode_byte seq_port decode a s d (initialized lib answer d.session))
  unfolding main_ready
  main_ready-Ending (false, w) d v fresh = inr (
    refl,
    early d.globals.audio_on 1 0 0 2 0 [] [] _
        (with_session-Holds 0 0 2 0 [] d (record d.session { world = w }) v v.contexts_eq
          v.handles_eq fresh)
        (omega arith) refl refl refl,
  )
  main_ready-Ending (true, w) d v fresh =
      let session = record d.session { world = w; contexts = d.session.contexts + 1 } in
      let o = open_loop-Opened lib open_tries session in
      rw (sym (open_loop-opens lib open_tries session)) (
        main_opened-Ending d (open_loop lib open_tries session) v
          (omega (arith, o.contexts, v.contexts_eq))
          (o.handles
            ∙ ap (λ n. if (open_loop lib open_tries session).0 then n + 1 else n) v.handles_eq)
          (o.controls ∙ fresh))

  -- Everything that `main` needs before it waits for its pipes: the sequencer, its port and the
  -- codecs, libusb, the device at one of twenty tries, the audio interface and its alternate setting
  -- if audio is on, and the MIDI interface.
  abbrev pub ready : Daemon lib E D Event → Bool
  ready d =
      (a.seq_open && (a.port && (a.encoder && a.decoder)))
      && ((lib.init d.session.world).0
          && (opens lib open_tries (lib.init d.session.world).1
              && (audio_ready d.globals.audio_on && a.claim_midi)))

  main_seq-Ending :
      (seq_open port encoder decoder : Bool) (d : Daemon lib E D Event)
      → IsFresh d
      → d.session.controls ≡ []
      → Ending
          ((seq_open && (port && (encoder && decoder)))
            && ((lib.init d.session.world).0
                && (opens lib open_tries (lib.init d.session.world).1
                    && (audio_ready d.globals.audio_on && a.claim_midi))))
          d.globals.audio_on
          d.globals.hid_on
          (main_seq lib encode_byte seq_port decode a s
            (seq_setup_with lib E D Event seq_open port encoder decoder d))
  unfolding main_seq seq_setup_with
  main_seq-Ending false port encoder decoder d v fresh =
      inr (refl, early d.globals.audio_on 1 0 0 0 0 [] [] d v (omega arith) refl refl refl)
  main_seq-Ending true false encoder decoder d v fresh = inr (
    refl,
    early d.globals.audio_on 1 0 0 0 0 [] [] _ (opened_sequencer d v) (omega arith) refl refl refl,
  )
  main_seq-Ending true true false decoder d v fresh = inr (
    refl,
    early d.globals.audio_on 1 0 0 0 0 [] [] _ (opened_sequencer d v) (omega arith) refl refl refl,
  )
  main_seq-Ending true true true false d v fresh = inr (
    refl,
    early d.globals.audio_on 1 0 0 1 0 [] [] _ (codecs_more 1 d v) (omega arith) refl refl refl,
  )
  main_seq-Ending true true true true d v fresh =
      main_ready-Ending (lib.init d.session.world)
        (record d { sequencer = true; codecs = d.codecs + 2 }) (codecs_more 2 d v) fresh

  -- From a daemon that holds nothing and has not been told to quit, with completions whose data lie
  -- in their buffers, `main` faults nowhere. If the setup succeeds it sets the sample rate (if audio
  -- is on) and then makes the eight transfers of `arm`, and it ends, with code 0, exactly if a
  -- completion in the first ten rounds, during `arm` or in its loop finds the device gone, or a signal
  -- arrives there or in the setup. It has then given back the interfaces, the alternate setting, the
  -- handle, the context, the codecs and the sequencer, but none of the transfers that it allocated:
  -- eight for audio if that is on, one for MIDI, and one for HID if that is on and claimed. If the
  -- setup fails it ends with a code from 1 to 4, has not armed the mixer, and leaves the context from
  -- code 2 on and the handle from code 3 on.
  pub main-Ending :
      (d : Daemon lib E D Event)
      → IsFresh d
      → d.session.controls ≡ []
      → Ending
          (ready d)
          d.globals.audio_on
          d.globals.hid_on
          (main lib encode_byte seq_port decode a s d)
  unfolding main seq_setup
  main-Ending d v fresh = main_seq-Ending a.seq_open a.port a.encoder a.decoder d v fresh
