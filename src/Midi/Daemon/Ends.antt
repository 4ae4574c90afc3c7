-- ===== src/Midi/Daemon/Ends.antt =====
-- The daemon from its pipes to its end.
use djm_t1_linux.Base.{
  ℕ, ◌+◌, ◌≡◌, refl, ap, ◌∙◌, ◌||◌, Bool, true, false, Option, none, some, List, [], ◌∷◌, ◌++◌,
  arith, if◌then◌else◌, take, map, map-append, All, All-take,
}
use djm_t1_linux.Base.Int.{ℤ}
use djm_t1_linux.Usb.Session.{Request, LibUsb}
use djm_t1_linux.Arm.Outcome.{arm_requests, arm_lem}
use djm_t1_linux.Midi.Globals.{Globals}
use djm_t1_linux.Midi.Globals.Effects.{
  IsWhole, any_quits, flatten, handle_events-Handles, wind_down-Handles,
}
use djm_t1_linux.Midi.Globals.Loops.{completions_of, settle-Looped, main_loop-Looped}
use djm_t1_linux.Midi.Daemon.{
  Daemon, Script, Run, iface_audio, iface_midi, iface_hid, settle_rounds, wind_down_rounds,
  freq_request, release, give_back, teardown, finish, run, arm_daemon,
}

-- The interfaces that are claimed, the latest first.
abbrev pub claims : Bool → Bool → List ℕ
claims streamed hx =
    let below = iface_midi ∷ (if streamed then iface_audio ∷ [] else []) in
    if hx then iface_hid ∷ below else below

-- The transfers that are allocated.
abbrev pub transfers_made : Bool → Bool → ℕ
transfers_made streamed hx = (if streamed then 8 else 0) + (if hx then 2 else 1)

-- The control transfers before the arming.
abbrev pub freq_requests : Bool → List Request
freq_requests streamed = if streamed then freq_request ∷ [] else []

-- Every completion of the script carries its data in its buffer.
pub record Whole {Event : Type 0} (s : Script Event) : Type 0 where
  pub settling : All (All IsWhole) s.settling
  pub arming : All IsWhole s.arming
  pub rounds : All (All IsWhole) (completions_of s.rounds)
  pub stopping : All (All IsWhole) s.stopping

-- A completion quits while the pipes settle, during the arming or in the main loop, or a signal has
-- arrived before.
abbrev pub quits_in : {Event : Type 0} → Script Event → Bool
quits_in s =
    any_quits (flatten (completions_of s.rounds))
    || (any_quits s.arming || (any_quits (flatten (take settle_rounds s.settling)) || s.signalled))

module _ {lib : LibUsb} {E D Event : Type 0} where
  abbrev pub requests : Daemon lib E D Event → List Request
  requests d = map (λ e. e.0) d.session.controls

  -- The daemon with its pipes up, before it arms.
  pub record Piped (streamed hx : Bool) (d : Daemon lib E D Event) : Type 0 where
    pub claimed : d.claimed ≡ claims streamed hx
    pub alt : d.alt ≡ (if streamed then 1 else 0)
    pub contexts : d.session.contexts ≡ 1
    pub handles : d.session.handles ≡ 1
    pub codecs : d.codecs ≡ 2
    pub before : requests d ≡ freq_requests streamed
    pub do_quit : d.globals.do_quit ≡ false
    pub transfers : d.transfers ≡ transfers_made streamed hx

  -- The daemon with no interface, alternate setting, handle, context, codec or sequencer left.
  pub record Released (d : Daemon lib E D Event) : Type 0 where
    pub claimed : d.claimed ≡ []
    pub alt : d.alt ≡ 0
    pub contexts : d.session.contexts ≡ 0
    pub handles : d.session.handles ≡ 0
    pub codecs : d.codecs ≡ 0
    pub sequencer : d.sequencer ≡ false

  arm-Piped :
      (streamed hx : Bool) (d : Daemon lib E D Event)
      → Piped streamed hx d
      → requests (arm_daemon lib E D Event d) ≡ arm_requests ++ freq_requests streamed
  arm-Piped streamed hx d v =
      let (log, made, _, controls, _, _) = arm_lem lib d.session in
      ap (map (λ e. e.0)) controls
      ∙ map-append (λ (e : Request × ℤ). e.0) log d.session.controls
      ∙ ap (λ r. r ++ map (λ e. e.0) d.session.controls) made
      ∙ ap (λ r. arm_requests ++ r) v.before

  -- What the arming and the loop leave of the pipes.
  record Armed (streamed hx : Bool) (d : Daemon lib E D Event) : Type 0 where
    claimed : d.claimed ≡ claims streamed hx
    alt : d.alt ≡ (if streamed then 1 else 0)
    contexts : d.session.contexts ≡ 1
    handles : d.session.handles ≡ 1
    codecs : d.codecs ≡ 2
    made : requests d ≡ arm_requests ++ freq_requests streamed
    transfers : d.transfers ≡ transfers_made streamed hx

  arm-Armed :
      (streamed hx : Bool) (d : Daemon lib E D Event) (g : Globals E D Event)
      → Piped streamed hx d
      → Armed streamed hx (record (arm_daemon lib E D Event d) { globals = g })
  arm-Armed streamed hx d g v =
      let (_, _, _, _, contexts, handles) = arm_lem lib d.session in
      record {
        claimed = v.claimed;
        alt = v.alt;
        contexts = contexts ∙ v.contexts;
        handles = handles ∙ v.handles;
        codecs = v.codecs;
        made = arm-Piped streamed hx d v;
        transfers = v.transfers;
      }

module _ (lib : LibUsb) {E D Event : Type 0} (encode_byte : E → ℕ → E × Option Event) (seq_port : ℕ)
    (decode : D → Event → D × List ℕ) where
  give_back-Released :
      (streamed hx : Bool) (d : Daemon lib E D Event)
      → Armed streamed hx d
      → Released (give_back lib encode_byte seq_port decode streamed hx d)
  unfolding give_back
  give_back-Released streamed hx d v = record {
    claimed = rw v.claimed (all_released streamed hx);
    alt = reset streamed v.alt;
    contexts = omega (arith, v.contexts);
    handles = omega (arith, v.handles);
    codecs = omega (arith, v.codecs);
    sequencer = refl;
  }
    where
      all_released :
          (s h : Bool)
          → (let without_midi = release iface_midi (claims s h) in
              let without_hid = if h then release iface_hid without_midi else without_midi in
              if s then release iface_audio without_hid else without_hid)
            ≡ []
      all_released true true = refl
      all_released true false = refl
      all_released false true = refl
      all_released false false = refl

      reset : (s : Bool) → d.alt ≡ (if s then 1 else 0) → (if s then 0 else d.alt) ≡ 0
      reset true e = refl
      reset false e = e

  -- The teardown ends, and the transfers are all that is left.
  record TornDown (s : Script Event) (d : Daemon lib E D Event) (r : Option (Daemon lib E D Event))
      : Type 0 where
    d' : Daemon lib E D Event
    returns : r ≡ some d'
    released : Released d'
    made : requests d' ≡ requests d
    kept : d'.transfers ≡ d.transfers

  teardown-TornDown :
      (s : Script Event) (streamed hx : Bool) (d : Daemon lib E D Event)
      → Whole s
      → Armed streamed hx d
      → TornDown s d (teardown lib encode_byte seq_port decode s streamed hx d)
  unfolding teardown give_back
  teardown-TornDown s streamed hx d whole v =
      let (g, runs, _) =
        wind_down-Handles encode_byte seq_port (take wind_down_rounds s.stopping)
          (record d.globals { running = false; audio_on = false; hid_on = false })
          (All-take (All IsWhole) wind_down_rounds s.stopping whole.stopping) in
      record {
        d' = give_back lib encode_byte seq_port decode streamed hx (record d { globals = g });
        returns = rw runs refl;
        released =
            give_back-Released streamed hx (record d { globals = g })
              (record {
                claimed = v.claimed;
                alt = v.alt;
                contexts = v.contexts;
                handles = v.handles;
                codecs = v.codecs;
                made = v.made;
                transfers = v.transfers;
              });
        made = refl;
        kept = refl;
      }

  -- A run from the pipes on does not fault. If a completion quits, or `do_quit` was set, it ends with
  -- code 0 and nothing left but the transfers; otherwise it is in its loop. Either way it has armed the
  -- mixer.
  pub record Ran (s : Script Event) (streamed hx quit : Bool) (r : Run (Daemon lib E D Event))
      : Type 0 where
    pub d' : Daemon lib E D Event
    pub returns : r ≡ some (if quit then some 0 else none, d')
    pub made : requests d' ≡ arm_requests ++ freq_requests streamed
    pub released : quit ≡ true → Released d'
    pub kept : d'.transfers ≡ transfers_made streamed hx

  finish-Ran :
      (s : Script Event) (streamed hx quit : Bool) (d : Daemon lib E D Event)
      → Whole s
      → Armed streamed hx d
      → Ran s streamed hx quit (finish lib encode_byte seq_port decode s streamed hx quit d)
  unfolding finish
  finish-Ran s streamed hx false d whole v = record {
    d' = d;
    returns = refl;
    made = v.made;
    released = λ e. cc e;
    kept = v.transfers;
  }
  finish-Ran s streamed hx true d whole v =
      let t = teardown-TornDown s streamed hx d whole v in
      record {
        d' = t.d';
        returns = rw t.returns refl;
        made = t.made ∙ v.made;
        released = λ e. t.released;
        kept = t.kept ∙ v.transfers;
      }

  pub run-Ran :
      (s : Script Event) (streamed hx : Bool) (d : Daemon lib E D Event)
      → Whole s
      → Piped streamed hx d
      → Ran s streamed hx
          (quits_in s || d.globals.do_quit)
          (run lib encode_byte seq_port decode s streamed (hx, d))
  unfolding run
  run-Ran s streamed hx d whole v =
      let start = record d.globals { do_quit = s.signalled || d.globals.do_quit } in
      let settled =
        settle-Looped encode_byte seq_port (take settle_rounds s.settling) start
          (All-take (All IsWhole) settle_rounds s.settling whole.settling) in
      let (mid, runs, during) =
        handle_events-Handles encode_byte seq_port s.arming settled.g' whole.arming in
      let looped = main_loop-Looped encode_byte seq_port decode s.rounds mid whole.rounds in
      let quit : looped.g'.do_quit ≡ (quits_in s || d.globals.do_quit) =
        looped.do_quit
        ∙ ap (λ b. any_quits (flatten (completions_of s.rounds)) || b)
            (during.do_quit ∙ ap (λ b. any_quits s.arming || b) settled.do_quit)
        ∙ regroup (any_quits (flatten (completions_of s.rounds))) (any_quits s.arming)
            (any_quits (flatten (take settle_rounds s.settling))) s.signalled d.globals.do_quit in
      rw (settled.returns, runs, looped.returns, quit)
        (finish-Ran s streamed hx (quits_in s || d.globals.do_quit)
          (record (arm_daemon lib E D Event d) { globals = looped.g' }) whole
          (arm-Armed streamed hx d looped.g' v))
    where
      regroup : (a b c d e : Bool) → (a || (b || (c || (d || e)))) ≡ ((a || (b || (c || d))) || e)
      regroup true b c d e = refl
      regroup false true c d e = refl
      regroup false false true d e = refl
      regroup false false false d e = refl
