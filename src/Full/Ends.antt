-- ===== src/Full/Ends.antt =====
-- Where the MIDI thread's loops end, and the thread behind its pipes.
use djm_t1_linux.Base.{
  ℕ, ◌≡◌, refl, sym, ap, ◌∙◌, ◌||◌, Bool, true, false, Option, some, List, [], ◌∷◌, ◌++◌, arith,
  if◌then◌else◌, map, append-nil, take, All, All-take, some_eq,
}
use djm_t1_linux.Usb.{is_no_device}
use djm_t1_linux.Usb.Session.{LibUsb}
use djm_t1_linux.Arm.Outcome.{arm_requests, arm_lem}
use djm_t1_linux.Midi.Globals
use djm_t1_linux.Midi.Globals.{Globals}
use djm_t1_linux.Midi.Globals.Effects.{
  handle_events-Handles, any_quits, any_quits-append, or_assoc, flatten,
}
use djm_t1_linux.Midi.Globals.Effects
use djm_t1_linux.Midi.Globals.Loops.{Looped, completions_of, settle-Looped, main_loop-Looped}
use djm_t1_linux.Midi.Daemon.{iface_midi, iface_hid, settle_rounds, wind_down_rounds, release}
use djm_t1_linux.Full.{handle_events, Completion, Shared, Script, Thread, let_go, finish, run}
use djm_t1_linux.Full.Same.{
  handle_events-Same, IsWhole, WholeRounds, Same, as_globals, as_completion, as_rounds, settle-Same,
  serve-Same, wind_down-Same,
}

-- A callback that finds the device gone, or another thread that sets `g_stop`.
abbrev pub stops : Completion → Bool
stops (Completion.midi t takes) = is_no_device t.status
stops (Completion.hid status takes) = is_no_device status
stops Completion.stop = true

abbrev pub any_stops : List Completion → Bool
any_stops [] = false
any_stops (c ∷ cs) = stops c || any_stops cs

abbrev pub settling_stops : List (List Completion) → Bool
settling_stops [] = false
settling_stops (cs ∷ rounds) = any_stops cs || settling_stops rounds

abbrev pub rounds_stop : {Event : Type 0} → List (List Completion × List (Option Event)) → Bool
rounds_stop [] = false
rounds_stop ((cs, events) ∷ rounds) = any_stops cs || rounds_stop rounds

any_quits-map : (cs : List Completion) → any_quits (map as_completion cs) ≡ any_stops cs
any_quits-map [] = refl
any_quits-map (Completion.midi t takes ∷ cs) =
    ap (λ b. is_no_device t.status || b) (any_quits-map cs)
any_quits-map (Completion.hid s takes ∷ cs) = ap (λ b. is_no_device s || b) (any_quits-map cs)
any_quits-map (Completion.stop ∷ cs) = refl

settling_eq :
    (rounds : List (List Completion))
    → any_quits (flatten (map (map as_completion) rounds)) ≡ settling_stops rounds
settling_eq [] = refl
settling_eq (cs ∷ rounds) =
    any_quits-append (map as_completion cs) (flatten (map (map as_completion) rounds))
    ∙ ap (λ b. b || any_quits (flatten (map (map as_completion) rounds))) (any_quits-map cs)
    ∙ ap (λ b. any_stops cs || b) (settling_eq rounds)

rounds_eq :
    {Event : Type 0} (rounds : List (List Completion × List (Option Event)))
    → any_quits (flatten (completions_of (as_rounds rounds))) ≡ rounds_stop rounds
rounds_eq [] = refl
rounds_eq ((cs, events) ∷ rounds) =
    any_quits-append (map as_completion cs) (flatten (completions_of (as_rounds rounds)))
    ∙ ap (λ b. b || any_quits (flatten (completions_of (as_rounds rounds)))) (any_quits-map cs)
    ∙ ap (λ b. any_stops cs || b) (rounds_eq rounds)

-- Completions that carry their data there do so here.
map-IsWhole : (cs : List Completion) → All IsWhole cs → All Effects.IsWhole (map as_completion cs)
map-IsWhole [] h = tt
map-IsWhole (Completion.midi t takes ∷ cs) (this, others) = (this, map-IsWhole cs others)
map-IsWhole (Completion.hid s takes ∷ cs) (this, others) = (omega arith, map-IsWhole cs others)
map-IsWhole (Completion.stop ∷ cs) (this, others) = (tt, map-IsWhole cs others)

map-IsWhole_settling :
    (rounds : List (List Completion))
    → All (All IsWhole) rounds
    → All (All Effects.IsWhole) (map (map as_completion) rounds)
map-IsWhole_settling [] h = tt
map-IsWhole_settling (cs ∷ rounds) (this, others) =
    (map-IsWhole cs this, map-IsWhole_settling rounds others)

completions_of-IsWhole :
    {Event : Type 0} (rounds : List (List Completion × List (Option Event)))
    → WholeRounds rounds
    → All (All Effects.IsWhole) (completions_of (as_rounds rounds))
completions_of-IsWhole [] h = tt
completions_of-IsWhole ((cs, events) ∷ rounds) (this, others) =
    (map-IsWhole cs this, completions_of-IsWhole rounds others)

-- Every completion of the script carries its data in its buffer.
pub record Whole {Event : Type 0} (s : Script Event) : Type 0 where
  pub settling : All (All IsWhole) s.settling
  pub arming : All IsWhole s.arming
  pub rounds : WholeRounds s.rounds
  pub stopping : All (All IsWhole) s.stopping

-- A completion of the script stops the thread before it winds down.
abbrev pub stops_in : {Event : Type 0} → Script Event → Bool
stops_in s =
    rounds_stop s.rounds || (any_stops s.arming || settling_stops (take settle_rounds s.settling))

module _ {lib : LibUsb} {E D Event : Type 0} where
  -- The thread has given back its interfaces, its context and its handle.
  pub record Released (t : Thread lib E D Event) : Type 0 where
    pub claimed : t.claimed ≡ []
    pub contexts : t.session.contexts ≡ 0
    pub handles : t.session.handles ≡ 0

  -- The thread before it starts.
  pub record IsFresh (t : Thread lib E D Event) : Type 0 where
    pub claimed : t.claimed ≡ []
    pub contexts : t.session.contexts ≡ 0
    pub handles : t.session.handles ≡ 0
    pub controls : t.session.controls ≡ []
    pub transfers : t.transfers ≡ 0

  -- It failed to open the device or to claim the MIDI interface: it has ended, with nothing
  -- held, no transfer allocated or made, and leaves the shared variables alone, so that no other thread is told.
  pub record Failed (g : Shared E D Event) (r : Option (Bool × Thread lib E D Event)) : Type 0 where
    pub t' : Thread lib E D Event
    pub returns : r ≡ some (true, t')
    pub released : Released t'
    pub controls : t'.session.controls ≡ []
    pub transfers : t'.transfers ≡ 0
    pub shared : t'.shared ≡ g

  -- It has armed the mixer, and holds so many transfers; it has ended if `quit`, with its interfaces,
  -- its context and its handle given back, and the transfers neither freed nor their buffers.
  pub record Ran (quit : Bool) (transfers : ℕ) (r : Option (Bool × Thread lib E D Event))
      : Type 0 where
    pub t' : Thread lib E D Event
    pub returns : r ≡ some (quit, t')
    pub made : map (λ e. e.0) t'.session.controls ≡ arm_requests
    pub released : quit ≡ true → Released t'
    pub kept : t'.transfers ≡ transfers

  -- The thread with its pipes up.
  pub record Piped (hx : Bool) (t : Thread lib E D Event) : Type 0 where
    pub claimed : t.claimed ≡ (if hx then iface_hid ∷ iface_midi ∷ [] else iface_midi ∷ [])
    pub contexts : t.session.contexts ≡ 1
    pub handles : t.session.handles ≡ 1

module _ (lib : LibUsb) {E D Event : Type 0} (encode_byte : E → ℕ → E × Option Event) (seq_port : ℕ)
    (decode : D → Event → D × List ℕ) where
  all_released :
      (hx : Bool)
      → (let without_midi =
            release iface_midi (if hx then iface_hid ∷ iface_midi ∷ [] else iface_midi ∷ []) in
          if hx then release iface_hid without_midi else without_midi)
        ≡ []
  all_released true = refl
  all_released false = refl

  pub let_go-Released :
      (hx : Bool) (t : Thread lib E D Event)
      → Piped hx t
      → Released (let_go lib encode_byte seq_port decode hx t)
  let_go-Released hx t v = record {
    claimed = rw v.claimed (all_released hx);
    contexts = omega (arith, v.contexts);
    handles = omega (arith, v.handles);
  }

  finish-Ran :
      (s : Script Event) (hx quit : Bool) (n : ℕ) (t : Thread lib E D Event)
      → Whole s
      → Piped hx t
      → map (λ e. e.0) t.session.controls ≡ arm_requests
      → t.transfers ≡ n
      → Ran quit n (finish lib encode_byte seq_port decode s hx quit t)
  unfolding finish
  finish-Ran s hx false n t whole v made kept = record {
    t' = t;
    returns = refl;
    made = made;
    released = λ e. cc e;
    kept = kept;
  }
  finish-Ran s hx true n t whole v made kept =
      let w =
        wind_down-Same encode_byte seq_port (take wind_down_rounds s.stopping) t.shared
          (All-take (All IsWhole) wind_down_rounds s.stopping whole.stopping) in
      record {
        t' = let_go lib encode_byte seq_port decode hx (record t { shared = w.g' });
        returns = rw w.returns refl;
        made = made;
        released = λ e.
            let_go-Released hx _
              (record { claimed = v.claimed; contexts = v.contexts; handles = v.handles });
        kept = kept;
      }

  -- Where a loop ends, and whether it has been stopped.
  pub record Stopped (quit : Bool) (g : Shared E D Event) (r : Option (Shared E D Event))
      : Type 0 where
    pub g' : Shared E D Event
    pub returns : r ≡ some g'
    pub g_stop : g'.g_stop ≡ (quit || g.g_stop)

  Same-Stopped :
      (quit : Bool) (g : Shared E D Event) (r : Option (Shared E D Event))
      (r' : Option (Globals E D Event)) (cs : List Globals.Completion)
      → Same encode_byte seq_port r r'
      → Looped encode_byte seq_port cs (as_globals g) r'
      → any_quits cs ≡ quit
      → Stopped quit g r
  Same-Stopped quit g r r' cs h k e = record {
    g' = h.g';
    returns = h.returns;
    g_stop =
        ap (λ g. g.do_quit) (some_eq (sym h.returns_there ∙ k.returns))
        ∙ k.do_quit
        ∙ ap (λ b. b || g.g_stop) e;
  }

  pub handle_events-Stopped :
      (cs : List Completion) (g : Shared E D Event)
      → All IsWhole cs
      → Stopped (any_stops cs) g (handle_events encode_byte seq_port cs g)
  handle_events-Stopped cs g whole =
      let h = handle_events-Same encode_byte seq_port cs g whole in
      let (mid, runs, k) =
        handle_events-Handles encode_byte seq_port (map as_completion cs) (as_globals g)
          (map-IsWhole cs whole) in
      record {
        g' = h.g';
        returns = h.returns;
        g_stop =
            ap (λ g. g.do_quit) (some_eq (sym h.returns_there ∙ runs))
            ∙ k.do_quit
            ∙ ap (λ b. b || g.g_stop) (any_quits-map cs);
      }

  pub run-Ran :
      (s : Script Event) (hx : Bool) (n : ℕ) (t : Thread lib E D Event)
      → Whole s
      → Piped hx t
      → t.session.controls ≡ []
      → t.transfers ≡ n
      → Ran (stops_in s || t.shared.g_stop) n (run lib encode_byte seq_port decode s (hx, t))
  unfolding run
  run-Ran s hx n t whole v fresh kept =
      let rounds = take settle_rounds s.settling in
      let all = All-take (All IsWhole) settle_rounds s.settling whole.settling in
      let settled =
        Same-Stopped (settling_stops rounds) t.shared _ _ _
          (settle-Same encode_byte seq_port rounds t.shared all)
          (settle-Looped encode_byte seq_port (map (map as_completion) rounds) (as_globals t.shared)
            (map-IsWhole_settling rounds all))
          (settling_eq rounds) in
      let during = handle_events-Stopped s.arming settled.g' whole.arming in
      let served =
        Same-Stopped (rounds_stop s.rounds) during.g' _ _ _
          (serve-Same encode_byte seq_port decode s.rounds during.g' whole.rounds)
          (main_loop-Looped encode_byte seq_port decode (as_rounds s.rounds) (as_globals during.g')
            (completions_of-IsWhole s.rounds whole.rounds))
          (rounds_eq s.rounds) in
      let (log, made, ok, controls, contexts, handles) = arm_lem lib t.session in
      let quit : served.g'.g_stop ≡ (stops_in s || t.shared.g_stop) =
        served.g_stop
        ∙ ap (λ b. rounds_stop s.rounds || b)
            (during.g_stop
              ∙ ap (λ b. any_stops s.arming || b) settled.g_stop
              ∙ or_assoc (any_stops s.arming) (settling_stops rounds) t.shared.g_stop)
        ∙ or_assoc (rounds_stop s.rounds) (any_stops s.arming || settling_stops rounds)
            t.shared.g_stop in
      rw (settled.returns, during.returns, served.returns, sym quit)
        (finish-Ran s hx served.g'.g_stop n _ whole
          (record {
            claimed = v.claimed;
            contexts = contexts ∙ v.contexts;
            handles = handles ∙ v.handles;
          })
          (ap (map (λ e. e.0)) (controls ∙ ap (λ l. log ++ l) fresh ∙ append-nil log) ∙ made) kept)
