-- ===== src/Full/Threads/Safe.antt =====
-- What the process holds in every order of its threads' steps, and what a lost device does.
use djm_t1_linux.Base.{
  ℕ, suc, ◌+◌, ◌-◌, ◌≤◌, ◌≡◌, refl, ap, ◌∙◌, Bool, true, false, Option, some, List, [], ◌∷◌, All,
  arith,
}
use djm_t1_linux.Sample.{Floats}
use djm_t1_linux.Usb.Session.{LibUsb}
use djm_t1_linux.Iso.Life.{Life, Held, take_engine, take_context, take_handle, stop_joined}
use djm_t1_linux.Iso.Life.Start.{back}
use djm_t1_linux.Full.Same.{IsWhole}
use djm_t1_linux.Full.Threads.{
  Phase, Midi, Main, App, System, Input, on_signal, leave, shut_down, join, turn, step, steps,
}
use djm_t1_linux.Full.Threads.Turns.{rounds_left, HoldsIn, turn_by-Turned}

-- What `main` holds before it starts and behind its end, and what it holds in its loop.
abbrev pub idle : Held → App
idle h = record { held = h; sequencer = false; codecs = 0; loop = false; streams = 0 }

abbrev pub busy : Held → App
busy h = record {
  held = take_handle (take_context (take_engine h));
  sequencer = true;
  codecs = 2;
  loop = true;
  streams = 2;
}

module _ {lib : LibUsb} {E D Event : Type 0} where
  abbrev pub g_stop : System lib E D Event → Bool
  g_stop s = s.midi.thread.shared.g_stop

  -- What holds where `main` is: in its loop it holds everything, and `g_stop` is set if it has been
  -- told to quit; in `pthread_join` it holds everything, and `g_stop` is set; it returns 0 only, with
  -- the MIDI thread ended and everything given back.
  abbrev pub HoldsAt : Held → Main → System lib E D Event → Type 0
  HoldsAt h (Main.in_loop quit) s = (quit ≡ true → g_stop s ≡ true) × (s.app ≡ busy h)
  HoldsAt h Main.joining s = (g_stop s ≡ true) × (s.app ≡ busy h)
  HoldsAt h (Main.returned code) s =
      (code ≡ 0) × (s.midi.phase ≡ Phase.ended) × (s.app ≡ idle h) × (g_stop s ≡ true)

  pub record Inv (h : Held) (s : System lib E D Event) : Type 0 where
    pub main : HoldsAt h s.main s
    pub midi : HoldsIn s.midi.phase s.midi

-- What completes in a round carries its data in its buffer.
abbrev pub IsWholeInput : {fl : Floats} {Event : Type 0} → Input fl Event → Type 0
IsWholeInput Input.signal = Unit
IsWholeInput Input.leaves = Unit
IsWholeInput (Input.turns cs events) = All IsWhole cs
IsWholeInput (Input.joins engine) = Unit

-- The rounds of the MIDI thread among these.
abbrev pub turns_in : {fl : Floats} {Event : Type 0} → List (Input fl Event) → ℕ
turns_in [] = 0
turns_in (Input.turns cs events ∷ is) = suc (turns_in is)
turns_in (i ∷ is) = turns_in is

-- No signal is among these.
abbrev pub no_signal : {fl : Floats} {Event : Type 0} → List (Input fl Event) → Bool
no_signal [] = true
no_signal (Input.signal ∷ is) = false
no_signal (i ∷ is) = no_signal is

-- `pw_main_loop_run` has returned.
abbrev pub has_left : Main → Bool
has_left (Main.in_loop quit) = false
has_left Main.joining = true
has_left (Main.returned code) = true

module _ {lib : LibUsb} {E D Event : Type 0} where
  -- Steps, with so many rounds of the MIDI thread and with or without a signal: the invariant holds
  -- behind them; a set `g_stop` stays set, and every round then brings the MIDI thread nearer to its
  -- end; `main` does not go back, and without a signal it does not leave its loop.
  pub record Moved (h : Held) (turns : ℕ) (quiet : Bool) (s : System lib E D Event)
      (r : Option (System lib E D Event)) : Type 0 where
    pub s' : System lib E D Event
    pub returns : r ≡ some s'
    pub inv : Inv h s'
    pub stop : g_stop s ≡ true → g_stop s' ≡ true
    pub nearer : g_stop s ≡ true → rounds_left s'.midi.phase ≤ rounds_left s.midi.phase - turns
    pub left : has_left s.main ≡ true → has_left s'.main ≡ true
    pub waits : quiet ≡ true → s.main ≡ Main.in_loop false → s'.main ≡ Main.in_loop false

  -- A step that changes nothing.
  pub unmoved :
      (h : Held) (quiet : Bool) (s : System lib E D Event) → Inv h s → Moved h 0 quiet s (some s)
  unmoved h quiet s v = record {
    s' = s;
    returns = refl;
    inv = v;
    stop = λ e. e;
    nearer = λ e. omega arith;
    left = λ e. e;
    waits = λ q e. e;
  }

module _ (fl : Floats) (lib : LibUsb) {E D Event : Type 0} (encode_byte : E → ℕ → E × Option Event)
    (seq_port : ℕ) (decode : D → Event → D × List ℕ) where
  pub holds-stop :
      (phase : Phase) (m : Midi lib E D Event)
      → HoldsIn phase m
      → HoldsIn phase (record m {
        thread = record m.thread { shared = record m.thread.shared { g_stop = true } };
      })
  holds-stop (Phase.settling n) m v = record {
    claimed = v.claimed;
    contexts = v.contexts;
    handles = v.handles;
  }
  holds-stop Phase.looping m v = record {
    claimed = v.claimed;
    contexts = v.contexts;
    handles = v.handles;
  }
  holds-stop (Phase.winding n) m (v, few) =
      (record { claimed = v.claimed; contexts = v.contexts; handles = v.handles }, few)
  holds-stop Phase.ended m v = record {
    claimed = v.claimed;
    contexts = v.contexts;
    handles = v.handles;
  }

  on_signal-Moved :
      (h : Held) (main : Main) (s : System lib E D Event)
      → s.main ≡ main
      → HoldsAt h main s
      → Inv h s
      → Moved h 0 false s (some (on_signal lib encode_byte seq_port decode main s))
  unfolding on_signal
  on_signal-Moved h (Main.in_loop quit) s at (v, b) inv = record {
    s' = _;
    returns = refl;
    inv = record { main = (λ e. refl, b); midi = holds-stop s.midi.phase s.midi inv.midi };
    stop = λ e. refl;
    nearer = λ e. omega arith;
    left = λ e. cc (ap has_left at, e);
    waits = λ q e. cc q;
  }
  on_signal-Moved h Main.joining s at v inv = unmoved h false s inv
  on_signal-Moved h (Main.returned code) s at v inv = unmoved h false s inv

  leave-Moved :
      (h : Held) (main : Main) (s : System lib E D Event)
      → s.main ≡ main
      → HoldsAt h main s
      → Inv h s
      → Moved h 0 true s (some (leave lib encode_byte seq_port decode main s))
  unfolding leave
  leave-Moved h (Main.in_loop true) s at (v, b) inv = record {
    s' = _;
    returns = refl;
    inv = record { main = (refl, b); midi = holds-stop s.midi.phase s.midi inv.midi };
    stop = λ e. refl;
    nearer = λ e. omega arith;
    left = λ e. refl;
    waits = λ q e. cc (at, e);
  }
  leave-Moved h (Main.in_loop false) s at v inv = unmoved h true s inv
  leave-Moved h Main.joining s at v inv = unmoved h true s inv
  leave-Moved h (Main.returned code) s at v inv = unmoved h true s inv

  shut_down-idle :
      (h : Held) (engine : Life fl) (a : App)
      → a ≡ busy h
      → shut_down fl lib encode_byte seq_port decode engine a ≡ idle h
  unfolding shut_down stop_joined
  shut_down-idle h engine a e =
      rw (ap (λ a. a.held) e, back h.engines, back h.contexts, back h.handles) refl

  join-Moved :
      (h : Held) (main : Main) (phase : Phase) (engine : Life fl) (s : System lib E D Event)
      → s.main ≡ main
      → s.midi.phase ≡ phase
      → HoldsAt h main s
      → Inv h s
      → Moved h 0 true s (some (join fl lib encode_byte seq_port decode main phase engine s))
  unfolding join
  join-Moved h Main.joining Phase.ended engine s at ph (stop, b) inv = record {
    s' = _;
    returns = refl;
    inv = record { main = (refl, ph, shut_down-idle h engine s.app b, stop); midi = inv.midi };
    stop = λ e. e;
    nearer = λ e. omega arith;
    left = λ e. refl;
    waits = λ q e. cc (at, e);
  }
  join-Moved h Main.joining (Phase.settling n) engine s at ph v inv = unmoved h true s inv
  join-Moved h Main.joining Phase.looping engine s at ph v inv = unmoved h true s inv
  join-Moved h Main.joining (Phase.winding n) engine s at ph v inv = unmoved h true s inv
  join-Moved h (Main.in_loop quit) phase engine s at ph v inv = unmoved h true s inv
  join-Moved h (Main.returned code) phase engine s at ph v inv = unmoved h true s inv

  turn-HoldsAt :
      (h : Held) (main : Main) (s : System lib E D Event) (m : Midi lib E D Event)
      → (g_stop s ≡ true → m.thread.shared.g_stop ≡ true)
      → (s.midi.phase ≡ Phase.ended → m ≡ s.midi)
      → HoldsAt h main s
      → HoldsAt h main (record s { midi = m })
  turn-HoldsAt h (Main.in_loop quit) s m on stays (v, b) = (λ e. on (v e), b)
  turn-HoldsAt h Main.joining s m on stays (v, b) = (on v, b)
  turn-HoldsAt h (Main.returned code) s m on stays (same, ph, b, stop) =
      (same, ap (λ m. m.phase) (stays ph) ∙ ph, b, on stop)

  step-Moved :
      (h : Held) (i : Input fl Event) (s : System lib E D Event)
      → Inv h s
      → IsWholeInput i
      → Moved h
          (turns_in (i ∷ []))
          (no_signal (i ∷ []))
          s
          (step fl lib encode_byte seq_port decode i s)
  unfolding step turn
  step-Moved h Input.signal s v whole = on_signal-Moved h s.main s refl v.main v
  step-Moved h Input.leaves s v whole = leave-Moved h s.main s refl v.main v
  step-Moved h (Input.turns cs events) s v whole =
      let t =
        turn_by-Turned lib encode_byte seq_port decode s.midi.phase (g_stop s) cs events s.midi refl
          refl whole v.midi in
      record {
        s' = record s { midi = t.m' };
        returns = rw t.returns refl;
        inv = record {
          main = turn-HoldsAt h s.main s t.m' t.g_stop t.stays v.main;
          midi = t.holds;
        };
        stop = t.g_stop;
        nearer = t.nearer;
        left = λ e. e;
        waits = λ q e. e;
      }
  step-Moved h (Input.joins engine) s v whole =
      join-Moved h s.main s.midi.phase engine s refl refl v.main v

  turns_in-cons :
      (i : Input fl Event) (is : List (Input fl Event))
      → turns_in (i ∷ is) ≡ turns_in (i ∷ []) + turns_in is
  turns_in-cons Input.signal is = omega arith
  turns_in-cons Input.leaves is = omega arith
  turns_in-cons (Input.turns cs events) is = omega arith
  turns_in-cons (Input.joins engine) is = omega arith

  no_signal-cons :
      (i : Input fl Event) (is : List (Input fl Event))
      → no_signal (i ∷ is) ≡ true
      → (no_signal (i ∷ []) ≡ true) × (no_signal is ≡ true)
  no_signal-cons Input.signal is e = cc e
  no_signal-cons Input.leaves is e = (refl, e)
  no_signal-cons (Input.turns cs events) is e = (refl, e)
  no_signal-cons (Input.joins engine) is e = (refl, e)

  pub steps-Moved :
      (h : Held) (is : List (Input fl Event)) (s : System lib E D Event)
      → Inv h s
      → All IsWholeInput is
      → Moved h (turns_in is) (no_signal is) s (steps fl lib encode_byte seq_port decode is s)
  unfolding steps
  steps-Moved h [] s v whole = unmoved h true s v
  steps-Moved h (i ∷ is) s v (this, others) =
      let m = step-Moved h i s v this in
      let r = steps-Moved h is m.s' m.inv others in
      record {
        s' = r.s';
        returns = rw m.returns r.returns;
        inv = r.inv;
        stop = λ e. r.stop (m.stop e);
        nearer = λ e. omega (arith, r.nearer (m.stop e), m.nearer e, turns_in-cons i is);
        left = λ e. r.left (m.left e);
        waits = λ q e. let (first, rest) = no_signal-cons i is q in r.waits rest (m.waits first e);
      }

  -- In every order of signals, returns from PipeWire's loop and from `pthread_join`, and rounds of the
  -- MIDI thread whose completions carry their data, nothing faults and the process keeps its
  -- invariant: while the MIDI thread has not ended it holds its interfaces, its handle and its
  -- context; `main` gives the engine back, with all else, only once that thread has ended and has
  -- given back all of its own; and `g_stop` is set once `main` has been told to quit.
  pub steps-Inv :
      (h : Held) (is : List (Input fl Event)) (s : System lib E D Event)
      → Inv h s
      → All IsWholeInput is
      → (s' : System lib E D Event) × (steps fl lib encode_byte seq_port decode is s ≡ some s')
        × Inv h s'
  steps-Inv h is s v whole = let r = steps-Moved h is s v whole in (r.s', r.returns, r.inv)
