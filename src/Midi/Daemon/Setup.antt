-- ===== src/Midi/Daemon/Setup.antt =====
-- What the daemon holds at each step of its setup.
use djm_t1_linux.Base.{
  ℕ, zero, suc, ◌+◌, ◌*◌, ◌≡◌, refl, ap, ◌∙◌, ◌&&◌, Bool, true, false, List, [], ◌∷◌, map, arith,
  if◌then◌else◌,
}
use djm_t1_linux.Usb.Session.{Request, LibUsb, Session, control_transfer}
use djm_t1_linux.Midi.Daemon.{
  Daemon, Answers, iface_audio, iface_midi, iface_hid, a_nxfr, freq_request, submit_loop, stream,
  midi_setup, hid_setup_with,
}
use djm_t1_linux.Midi.Daemon.Ends.{Piped, transfers_made, requests, freq_requests}

module _ {lib : LibUsb} {E D Event : Type 0} where
  -- The daemon with so many contexts, handles and codecs, the interfaces claimed, the alternate
  -- setting and the control transfers made.
  pub record Holds (contexts handles codecs alt : ℕ) (claimed : List ℕ) (made : List Request)
      (d : Daemon lib E D Event) : Type 0 where
    pub contexts_eq : d.session.contexts ≡ contexts
    pub handles_eq : d.session.handles ≡ handles
    pub codecs_eq : d.codecs ≡ codecs
    pub alt_eq : d.alt ≡ alt
    pub claimed_eq : d.claimed ≡ claimed
    pub made_eq : requests d ≡ made
    pub do_quit : d.globals.do_quit ≡ false
    pub transfers_eq : d.transfers ≡ 8 * alt

  -- A session that holds so much in the place of the daemon's.
  pub with_session-Holds :
      (c h codecs alt : ℕ) (claimed : List ℕ) (d : Daemon lib E D Event) (session : Session lib)
      → Holds 0 0 codecs alt claimed [] d
      → session.contexts ≡ c
      → session.handles ≡ h
      → session.controls ≡ []
      → Holds c h codecs alt claimed [] (record d { session = session })
  with_session-Holds c h codecs alt claimed d session v contexts handles controls = record {
    contexts_eq = contexts;
    handles_eq = handles;
    codecs_eq = v.codecs_eq;
    alt_eq = v.alt_eq;
    claimed_eq = v.claimed_eq;
    made_eq = ap (map (λ e. e.0)) controls;
    do_quit = v.do_quit;
    transfers_eq = v.transfers_eq;
  }

  -- The daemon before `main`.
  abbrev pub IsFresh : Daemon lib E D Event → Type 0
  IsFresh = Holds 0 0 0 0 [] []

  -- The loop over the isochronous transfers allocates them, and has some submitted.
  record Submitted (n : ℕ) (d d' : Daemon lib E D Event) : Type 0 where
    session : d'.session ≡ d.session
    codecs : d'.codecs ≡ d.codecs
    alt : d'.alt ≡ d.alt
    claimed : d'.claimed ≡ d.claimed
    do_quit : d'.globals.do_quit ≡ d.globals.do_quit
    hid_on : d'.globals.hid_on ≡ d.globals.hid_on
    transfers : d'.transfers ≡ d.transfers + n

  submit_loop-Submitted :
      (a : Answers) (left i : ℕ) (d : Daemon lib E D Event)
      → Submitted (2 * left) d (submit_loop lib E D Event a left i d)
  unfolding submit_loop
  submit_loop-Submitted a zero i d = record {
    session = refl;
    codecs = refl;
    alt = refl;
    claimed = refl;
    do_quit = refl;
    hid_on = refl;
    transfers = omega arith;
  }
  submit_loop-Submitted a (suc left) i d =
      let rest = submit_loop-Submitted a left (i + 1) _ in
      record {
        session = rest.session;
        codecs = rest.codecs;
        alt = rest.alt;
        claimed = rest.claimed;
        do_quit = rest.do_quit;
        hid_on = rest.hid_on;
        transfers = omega (arith, rest.transfers);
      }

  -- The interrupt pipe, whether it could be claimed or not.
  pub record Ready (streamed on claims : Bool) (r : Bool × Daemon lib E D Event) : Type 0 where
    pub hx : Bool
    pub has : hx ≡ (on && claims)
    pub d' : Daemon lib E D Event
    pub returns : r ≡ (hx, d')
    pub piped : Piped streamed hx d'

  pub hid_setup-Ready :
      (streamed on claims : Bool) (a : Answers) (d : Daemon lib E D Event)
      → Piped streamed false d
      → Ready streamed on claims (hid_setup_with lib E D Event on claims a d)
  unfolding hid_setup_with
  hid_setup-Ready streamed false claims a d v = record {
    hx = false;
    has = refl;
    d' = d;
    returns = refl;
    piped = v;
  }
  hid_setup-Ready streamed true false a d v = record {
    hx = false;
    has = refl;
    d' = record d { globals = record d.globals { hid_on = false } };
    returns = refl;
    piped = record {
      claimed = v.claimed;
      alt = v.alt;
      contexts = v.contexts;
      handles = v.handles;
      codecs = v.codecs;
      before = v.before;
      do_quit = v.do_quit;
      transfers = v.transfers;
    };
  }
  hid_setup-Ready streamed true true a d v = record {
    hx = true;
    has = refl;
    d' = _;
    returns = refl;
    piped = record {
      claimed = ap (λ l. iface_hid ∷ l) v.claimed;
      alt = v.alt;
      contexts = v.contexts;
      handles = v.handles;
      codecs = v.codecs;
      before = v.before;
      do_quit = v.do_quit;
      transfers = omega (arith, v.transfers);
    };
  }

  -- The bulk pipe.
  pub midi_setup-Piped :
      (streamed : Bool) (a : Answers) (d : Daemon lib E D Event)
      → Holds 1 1 2
          (if streamed then 1 else 0)
          (if streamed then iface_audio ∷ [] else [])
          (freq_requests streamed)
          d
      → Piped streamed false (midi_setup lib E D Event a d)
  unfolding midi_setup
  midi_setup-Piped streamed a d v = record {
    claimed = ap (λ l. iface_midi ∷ l) v.claimed_eq;
    alt = v.alt_eq;
    contexts = v.contexts_eq;
    handles = v.handles_eq;
    codecs = v.codecs_eq;
    before = v.made_eq;
    do_quit = v.do_quit;
    transfers = midi_more streamed v.transfers_eq;
  }
    where
      midi_more :
          (on : Bool)
          → d.transfers ≡ 8 * (if on then 1 else 0)
          → d.transfers + 1 ≡ transfers_made on false
      midi_more true e = omega (arith, e)
      midi_more false e = omega (arith, e)

  -- The audio pipes.
  pub stream-Holds :
      (a : Answers) (d : Daemon lib E D Event)
      → Holds 1 1 2 0 [] [] d
      → Holds 1 1 2 1
          (iface_audio ∷ [])
          (freq_request ∷ [])
          (stream lib E D Event a (record d { claimed = iface_audio ∷ d.claimed; alt = 1 }))
  unfolding stream
  stream-Holds a d v =
      let rated = record d {
        session = (control_transfer lib freq_request d.session).1;
        claimed = iface_audio ∷ d.claimed;
        alt = 1;
      } in
      let loop = submit_loop-Submitted a a_nxfr 0 rated in
      record {
        contexts_eq = ap (λ s. s.contexts) loop.session ∙ v.contexts_eq;
        handles_eq = ap (λ s. s.handles) loop.session ∙ v.handles_eq;
        codecs_eq = loop.codecs ∙ v.codecs_eq;
        alt_eq = loop.alt;
        claimed_eq = loop.claimed ∙ ap (λ l. iface_audio ∷ l) v.claimed_eq;
        made_eq =
            ap (λ s. map (λ e. e.0) s.controls) loop.session ∙ ap (λ l. freq_request ∷ l) v.made_eq;
        do_quit = loop.do_quit ∙ v.do_quit;
        transfers_eq = omega (arith, loop.transfers, v.transfers_eq);
      }

  pub stream-hid_on :
      (a : Answers) (d : Daemon lib E D Event)
      → (stream lib E D Event a d).globals.hid_on ≡ d.globals.hid_on
  unfolding stream
  stream-hid_on a d =
      (submit_loop-Submitted a a_nxfr 0
        (record d { session = (control_transfer lib freq_request d.session).1 })).hid_on

  pub claim-Holds :
      (i : ℕ) (d : Daemon lib E D Event)
      → Holds 1 1 2 0 [] [] d
      → Holds 1 1 2 0 (i ∷ []) [] (record d { claimed = i ∷ d.claimed })
  claim-Holds i d v = record {
    contexts_eq = v.contexts_eq;
    handles_eq = v.handles_eq;
    codecs_eq = v.codecs_eq;
    alt_eq = v.alt_eq;
    claimed_eq = ap (λ l. i ∷ l) v.claimed_eq;
    made_eq = v.made_eq;
    do_quit = v.do_quit;
    transfers_eq = v.transfers_eq;
  }

  -- The sequencer and the codecs.
  pub codecs_more :
      (n : ℕ) (d : Daemon lib E D Event)
      → IsFresh d
      → Holds 0 0 n 0 [] [] (record d { sequencer = true; codecs = d.codecs + n })
  codecs_more n d v = record {
    contexts_eq = v.contexts_eq;
    handles_eq = v.handles_eq;
    codecs_eq = omega (arith, v.codecs_eq);
    alt_eq = v.alt_eq;
    claimed_eq = v.claimed_eq;
    made_eq = v.made_eq;
    do_quit = v.do_quit;
    transfers_eq = v.transfers_eq;
  }

  pub opened_sequencer :
      (d : Daemon lib E D Event) → IsFresh d → Holds 0 0 0 0 [] [] (record d { sequencer = true })
  opened_sequencer d v = record {
    contexts_eq = v.contexts_eq;
    handles_eq = v.handles_eq;
    codecs_eq = v.codecs_eq;
    alt_eq = v.alt_eq;
    claimed_eq = v.claimed_eq;
    made_eq = v.made_eq;
    do_quit = v.do_quit;
    transfers_eq = v.transfers_eq;
  }
