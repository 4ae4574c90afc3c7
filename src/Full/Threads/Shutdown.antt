-- ===== src/Full/Threads/Shutdown.antt =====
-- What ends the process, and what does not.
use djm_t1_linux.Base.{
  ℕ, ◌≤◌, ◌≡◌, refl, sym, ap, ◌∙◌, Bool, true, false, Option, none, some_eq, some, List, [], ◌∷◌,
  ◌++◌, ◌>>=◌, All, arith,
}
use mathlib.Core.Path.{subst}
use djm_t1_linux.Sample.{Floats}
use djm_t1_linux.Usb.Session.{LibUsb}
use djm_t1_linux.Iso.Life.{Life, Held}
use djm_t1_linux.Full.Threads.{
  Phase, Main, Midi, with_stop, System, Input, on_signal, leave, join, step, steps,
}
use djm_t1_linux.Full.Ends.{Released}
use djm_t1_linux.Full.Threads.Turns.{HoldsIn, rounds_left}
use djm_t1_linux.Full.Threads.Safe.{
  holds-stop, busy, idle, Inv, HoldsAt, IsWholeInput, turns_in, no_signal, has_left, g_stop,
  steps-Moved,
}

module _ (fl : Floats) (lib : LibUsb) {E D Event : Type 0} (encode_byte : E → ℕ → E × Option Event)
    (seq_port : ℕ) (decode : D → Event → D × List ℕ) where
  near_ended : (phase : Phase) → rounds_left phase ≤ 0 → phase ≡ Phase.ended
  near_ended Phase.ended e = refl
  near_ended (Phase.settling n) e = ground arith
  near_ended Phase.looping e = ground arith
  near_ended (Phase.winding n) e = ground arith

  rounds_left_le :
      (phase : Phase) (m : Midi lib E D Event) → HoldsIn phase m → rounds_left phase ≤ 8
  rounds_left_le Phase.ended m v = omega arith
  rounds_left_le (Phase.settling n) m v = omega arith
  rounds_left_le Phase.looping m v = omega arith
  rounds_left_le (Phase.winding n) m (v, few) = omega (arith, few)

  bind_bind :
      {A B C : Type 0} (o : Option A) (f : A → Option B) (g : B → Option C) (k : A → Option C)
      → ((a : A) → k a ≡ (f a >>= g))
      → (o >>= k) ≡ ((o >>= f) >>= g)
  bind_bind none f g k e = refl
  bind_bind (some a) f g k e = e a

  steps-append :
      (is rest : List (Input fl Event)) (s : System lib E D Event)
      → steps fl lib encode_byte seq_port decode (is ++ rest) s ≡ (
          steps fl lib encode_byte seq_port decode is s
          >>= steps fl lib encode_byte seq_port decode rest)
  unfolding steps
  steps-append [] rest s = refl
  steps-append (i ∷ is) rest s =
      bind_bind (step fl lib encode_byte seq_port decode i s) _ _ _ (steps-append is rest)

  -- From a state with the invariant in which `main` is in its loop and has not been told to quit, as
  -- long as no signal comes `main` stays there and holds what it held, whatever else happens; and
  -- that remains so once `g_stop` is set (by a lost device) and eight rounds have ended the MIDI
  -- thread.
  pub waits_for_signal :
      (h : Held) (is : List (Input fl Event)) (s : System lib E D Event)
      → Inv h s
      → s.main ≡ Main.in_loop false
      → All IsWholeInput is
      → no_signal is ≡ true
      → (s' : System lib E D Event) × (steps fl lib encode_byte seq_port decode is s ≡ some s')
        × (s'.main ≡ Main.in_loop false)
        × (s'.app ≡ busy h)
        × (g_stop s ≡ true → 8 ≤ turns_in is → s'.midi.phase ≡ Phase.ended)
  waits_for_signal h is s v at whole quiet =
      let r = steps-Moved fl lib encode_byte seq_port decode h is s v whole in
      let there = r.waits quiet at in
      let holds = subst (λ m. HoldsAt h m r.s') there r.inv.main in
      (
        r.s',
        r.returns,
        there,
        holds.1,
        λ stopped enough.
            near_ended r.s'.midi.phase
              (omega (arith, r.nearer stopped, enough, rounds_left_le s.midi.phase s.midi v.midi)),
      )

  -- Behind a signal and the return from the loop.
  abbrev told : System lib E D Event → System lib E D Event
  told s = record s { main = Main.joining; midi = with_stop lib encode_byte seq_port decode s.midi }

  on_signal-in_loop :
      (quit : Bool) (s : System lib E D Event)
      → s.main ≡ Main.in_loop quit
      → on_signal lib encode_byte seq_port decode s.main s ≡ record s {
        main = Main.in_loop true;
        midi = with_stop lib encode_byte seq_port decode s.midi;
      }
  unfolding on_signal
  on_signal-in_loop quit s at = rw at refl

  steps-told :
      (quit : Bool) (rest : List (Input fl Event)) (s : System lib E D Event)
      → s.main ≡ Main.in_loop quit
      → steps fl lib encode_byte seq_port decode (Input.signal ∷ Input.leaves ∷ rest) s
        ≡ steps fl lib encode_byte seq_port decode rest (told s)
  unfolding steps step leave
  steps-told quit rest s at =
      ap (steps fl lib encode_byte seq_port decode (Input.leaves ∷ rest))
        (on_signal-in_loop quit s at)

  join-returned :
      (h : Held) (main : Main) (phase : Phase) (engine : Life fl) (s : System lib E D Event)
      → s.main ≡ main
      → HoldsAt h main s
      → has_left main ≡ true
      → phase ≡ Phase.ended
      → (join fl lib encode_byte seq_port decode main phase engine s).main ≡ Main.returned 0
  unfolding join
  join-returned h Main.joining Phase.ended engine s at v left e = refl
  join-returned h Main.joining (Phase.settling n) engine s at v left e = cc e
  join-returned h Main.joining Phase.looping engine s at v left e = cc e
  join-returned h Main.joining (Phase.winding n) engine s at v left e = cc e
  join-returned h (Main.in_loop quit) phase engine s at v left e = cc left
  join-returned h (Main.returned code) phase engine s at (same, ph, b, stop) left e =
      at ∙ ap Main.returned same

  -- Past its loop, and with the MIDI thread told to stop, `main` returns at the next chance behind
  -- eight rounds of that thread, if not before.
  closes :
      (h : Held) (is : List (Input fl Event)) (engine : Life fl) (s : System lib E D Event)
      → Inv h s
      → has_left s.main ≡ true
      → g_stop s ≡ true
      → All IsWholeInput is
      → 8 ≤ turns_in is
      → (s' : System lib E D Event) × (steps fl lib encode_byte seq_port decode
            (is ++ Input.joins engine ∷ [])
            s
          ≡ some s')
        × (s'.main ≡ Main.returned 0)
        × Inv h s'
  unfolding step steps
  closes h is engine s v left stop whole enough =
      let r = steps-Moved fl lib encode_byte seq_port decode h is s v whole in
      let ph =
        near_ended r.s'.midi.phase
          (omega (arith, r.nearer stop, enough, rounds_left_le s.midi.phase s.midi v.midi)) in
      let last =
        steps-Moved fl lib encode_byte seq_port decode h (Input.joins engine ∷ []) r.s' r.inv
          (omega arith) in
      (
        join fl lib encode_byte seq_port decode r.s'.main r.s'.midi.phase engine r.s',
        steps-append is (Input.joins engine ∷ []) s ∙ rw r.returns refl,
        join-returned h r.s'.main r.s'.midi.phase engine r.s' refl r.inv.main (r.left left) ph,
        subst (Inv h) (some_eq (sym last.returns)) last.inv,
      )

  given_back :
      (h : Held) (s : System lib E D Event)
      → Inv h s
      → s.main ≡ Main.returned 0
      → (s.app ≡ idle h) × Released s.midi.thread
  given_back h s v at =
      let (same, ph, app, stop) = subst (λ m. HoldsAt h m s) at v.main in
      (app, subst (λ p. HoldsIn p s.midi) ph v.midi)

  -- From a state with the invariant in which `main` is in its loop, once a signal has come and the
  -- loop has returned, any steps with at least eight rounds of the MIDI thread and then a chance for
  -- `pthread_join` to return bring `main` to its end with code 0: nothing waits for ever. The engine,
  -- the sequencer, the codecs, the loop and its streams are then given back, and so are the MIDI
  -- thread's interfaces, handle and context.
  pub ends_after_signal :
      (h : Held) (quit : Bool) (is : List (Input fl Event)) (engine : Life fl)
      (s : System lib E D Event)
      → Inv h s
      → s.main ≡ Main.in_loop quit
      → All IsWholeInput is
      → 8 ≤ turns_in is
      → (s' : System lib E D Event) × (steps fl lib encode_byte seq_port decode
            (Input.signal ∷ Input.leaves ∷ (is ++ Input.joins engine ∷ []))
            s
          ≡ some s')
        × (s'.main ≡ Main.returned 0)
        × (s'.app ≡ idle h)
        × Released s'.midi.thread
  ends_after_signal h quit is engine s v at whole enough =
      let held = subst (λ m. HoldsAt h m s) at v.main in
      let (s', runs, code, inv) =
        closes h is engine (told s)
          (record {
            main = (refl, held.1);
            midi = holds-stop fl lib encode_byte seq_port decode s.midi.phase s.midi v.midi;
          })
          refl refl whole enough in
      let (app, released) = given_back h s' inv code in
      (s', steps-told quit _ s at ∙ runs, code, app, released)
