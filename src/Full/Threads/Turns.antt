-- ===== src/Full/Threads/Turns.antt =====
-- A round of the MIDI thread: what it holds behind it, and how far it is from its end.
use djm_t1_linux.Base.{
  ℕ, zero, suc, ◌+◌, ◌-◌, ◌≤◌, ◌≡◌, refl, sym, ap, ◌∙◌, ◌||◌, Bool, true, false, Option, some, List,
  All, arith,
}
use mathlib.Core.Path.{subst}
use djm_t1_linux.Usb.Session.{LibUsb}
use djm_t1_linux.Arm.Outcome.{arm_lem}
use djm_t1_linux.Midi.Daemon.{wind_down_rounds}
use djm_t1_linux.Full.{Completion, drain, let_go}
use djm_t1_linux.Full.Same.{IsWhole}
use djm_t1_linux.Full.Ends.{Released, Piped, any_stops, let_go-Released, handle_events-Stopped}
use djm_t1_linux.Full.Threads.{Phase, Midi, armed, arm_during, with_shared, turn_by}

-- The rounds from a phase to the end once `g_stop` is set.
abbrev pub rounds_left : Phase → ℕ
rounds_left (Phase.settling n) = 8
rounds_left Phase.looping = 7
rounds_left (Phase.winding n) = n + 1
rounds_left Phase.ended = 0

module _ {lib : LibUsb} {E D Event : Type 0} where
  -- What the thread holds in a phase.
  abbrev pub HoldsIn : Phase → Midi lib E D Event → Type 0
  HoldsIn Phase.ended m = Released m.thread
  HoldsIn (Phase.settling n) m = Piped m.hx m.thread
  HoldsIn Phase.looping m = Piped m.hx m.thread
  HoldsIn (Phase.winding n) m = Piped m.hx m.thread × (n ≤ 5)

  -- A round in a phase: it does not fault; the thread holds what its phase says; a set `g_stop` stays
  -- set and brings the thread nearer to its end, where it stays.
  pub record Turned (phase : Phase) (m : Midi lib E D Event) (r : Option (Midi lib E D Event))
      : Type 0 where
    pub m' : Midi lib E D Event
    pub returns : r ≡ some m'
    pub holds : HoldsIn m'.phase m'
    pub g_stop : m.thread.shared.g_stop ≡ true → m'.thread.shared.g_stop ≡ true
    pub nearer : m.thread.shared.g_stop ≡ true → rounds_left m'.phase ≤ rounds_left phase - 1
    pub stays : phase ≡ Phase.ended → m' ≡ m

module _ (lib : LibUsb) {E D Event : Type 0} (encode_byte : E → ℕ → E × Option Event) (seq_port : ℕ)
    (decode : D → Event → D × List ℕ) where
  or_true : (a b : Bool) → b ≡ true → (a || b) ≡ true
  or_true true b h = refl
  or_true false b h = h

  armed-Piped :
      (m : Midi lib E D Event)
      → Piped m.hx m.thread
      → Piped m.hx (armed lib encode_byte seq_port decode m).thread
  armed-Piped m v =
      let (log, made, ok, controls, contexts, handles) = arm_lem lib m.thread.session in
      record {
        claimed = v.claimed;
        contexts = contexts ∙ v.contexts;
        handles = handles ∙ v.handles;
      }

  arm_during-Turned :
      (n : ℕ) (cs : List Completion) (m : Midi lib E D Event)
      → All IsWhole cs
      → Piped m.hx m.thread
      → Turned (Phase.settling n) m (arm_during lib encode_byte seq_port decode cs m)
  unfolding arm_during
  arm_during-Turned n cs m whole v =
      let h = handle_events-Stopped lib encode_byte seq_port decode cs m.thread.shared whole in
      let handled = with_shared lib encode_byte seq_port decode m h.g' in
      record {
        m' = armed lib encode_byte seq_port decode handled;
        returns = rw h.returns refl;
        holds =
            armed-Piped handled
              (record { claimed = v.claimed; contexts = v.contexts; handles = v.handles });
        g_stop = λ q. h.g_stop ∙ or_true (any_stops cs) _ q;
        nearer = λ q. omega arith;
        stays = λ e. cc e;
      }

  pub turn_by-Turned :
      (phase : Phase) (stop : Bool) (cs : List Completion) (events : List (Option Event))
      (m : Midi lib E D Event)
      → m.phase ≡ phase
      → m.thread.shared.g_stop ≡ stop
      → All IsWhole cs
      → HoldsIn phase m
      → Turned phase m (turn_by lib encode_byte seq_port decode phase stop cs events m)
  unfolding turn_by drain
  turn_by-Turned (Phase.settling zero) stop cs events m at s whole v =
      arm_during-Turned zero cs m whole v
  turn_by-Turned (Phase.settling (suc n)) true cs events m at s whole v =
      arm_during-Turned (suc n) cs m whole v
  turn_by-Turned (Phase.settling (suc n)) false cs events m at s whole v =
      let h = handle_events-Stopped lib encode_byte seq_port decode cs m.thread.shared whole in
      record {
        m' = record (with_shared lib encode_byte seq_port decode m h.g') {
          phase = Phase.settling n;
        };
        returns = rw h.returns refl;
        holds = record { claimed = v.claimed; contexts = v.contexts; handles = v.handles };
        g_stop = λ q. h.g_stop ∙ or_true (any_stops cs) _ q;
        nearer = λ q. cc (q, s);
        stays = λ e. cc e;
      }
  turn_by-Turned Phase.looping true cs events m at s whole v = record {
    m' = record m { phase = Phase.winding wind_down_rounds };
    returns = refl;
    holds =
        (record { claimed = v.claimed; contexts = v.contexts; handles = v.handles }, omega arith);
    g_stop = λ h. h;
    nearer = λ h. omega arith;
    stays = λ e. cc e;
  }
  turn_by-Turned Phase.looping false cs events m at s whole v =
      let h = handle_events-Stopped lib encode_byte seq_port decode cs m.thread.shared whole in
      record {
        m' =
            record (with_shared lib encode_byte seq_port decode m
              (drain encode_byte seq_port decode events h.g')) { phase = Phase.looping };
        returns = rw h.returns refl;
        holds = record { claimed = v.claimed; contexts = v.contexts; handles = v.handles };
        g_stop = λ q. h.g_stop ∙ or_true (any_stops cs) _ q;
        nearer = λ q. cc (q, s);
        stays = λ e. cc e;
      }
  turn_by-Turned (Phase.winding zero) stop cs events m at s whole (v, few) = record {
    m' = record m {
      phase = Phase.ended;
      thread = let_go lib encode_byte seq_port decode m.hx m.thread;
    };
    returns = refl;
    holds = let_go-Released lib encode_byte seq_port decode m.hx m.thread v;
    g_stop = λ h. h;
    nearer = λ h. omega arith;
    stays = λ e. cc e;
  }
  turn_by-Turned (Phase.winding (suc n)) stop cs events m at s whole (v, few) =
      let h = handle_events-Stopped lib encode_byte seq_port decode cs m.thread.shared whole in
      record {
        m' = record (with_shared lib encode_byte seq_port decode m h.g') {
          phase = Phase.winding n;
        };
        returns = rw h.returns refl;
        holds = (
          record { claimed = v.claimed; contexts = v.contexts; handles = v.handles },
          omega (arith, few),
        );
        g_stop = λ q. h.g_stop ∙ or_true (any_stops cs) _ q;
        nearer = λ q. omega arith;
        stays = λ e. cc e;
      }
  turn_by-Turned Phase.ended stop cs events m at s whole v = record {
    m' = m;
    returns = refl;
    holds = subst (λ p. HoldsIn p m) (sym at) v;
    g_stop = λ h. h;
    nearer = λ h. omega (arith, ap rounds_left at);
    stays = λ e. refl;
  }
