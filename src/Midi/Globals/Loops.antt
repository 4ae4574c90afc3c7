-- ===== src/Midi/Globals/Loops.antt =====
-- The loops that stop at `do_quit`.
use djm_t1_linux.Base.{
  ℕ, ◌≡◌, refl, sym, ap, ◌∙◌, ◌||◌, Bool, true, false, Option, some, List, [], ◌∷◌, ◌++◌, All,
}
use djm_t1_linux.Midi.Globals.{Completion, Globals, Round, unless_quit, settle, drain, main_loop}
use djm_t1_linux.Midi.Globals.Effects.{
  IsWhole, Handled, any_quits, any_quits-append, or_merge, flatten, handle_events-Handles,
}

-- What completes in the rounds of the main loop.
abbrev pub completions_of : {Event : Type 0} → List (Round Event) → List (List Completion)
completions_of [] = []
completions_of (r ∷ rounds) = r.completions ∷ completions_of rounds

or_true : (b : Bool) → (b || true) ≡ true
or_true true = refl
or_true false = refl

module _ {E D Event : Type 0} (encode_byte : E → ℕ → E × Option Event) (seq_port : ℕ) where
  -- A loop that stops at `do_quit` leaves the flags alone, and ends with `do_quit` set if one of the
  -- completions quits, or it was set before.
  pub record Looped (cs : List Completion) (g : Globals E D Event) (r : Option (Globals E D Event))
      : Type 0 where
    pub g' : Globals E D Event
    pub returns : r ≡ some g'
    pub running : g'.running ≡ g.running
    pub audio_on : g'.audio_on ≡ g.audio_on
    pub hid_on : g'.hid_on ≡ g.hid_on
    pub do_quit : g'.do_quit ≡ (any_quits cs || g.do_quit)

  stopped : (cs : List Completion) (g : Globals E D Event) → g.do_quit ≡ true → Looped cs g (some g)
  stopped cs g quit = record {
    g' = g;
    returns = refl;
    running = refl;
    audio_on = refl;
    hid_on = refl;
    do_quit = quit ∙ sym (ap (λ b. any_quits cs || b) quit ∙ or_true (any_quits cs));
  }

  tested :
      (cs : List Completion) (g : Globals E D Event) (q : Bool) (rest : Option (Globals E D Event))
      → g.do_quit ≡ q
      → Looped cs g rest
      → Looped cs g (unless_quit q g rest)
  tested cs g true rest quit h = stopped cs g quit
  tested cs g false rest quit h = h

  after_round :
      (xs ys : List Completion) (g mid : Globals E D Event) (r : Option (Globals E D Event))
      → Handled xs g mid
      → Looped ys mid r
      → Looped (xs ++ ys) g r
  after_round xs ys g mid r h k = record {
    g' = k.g';
    returns = k.returns;
    running = k.running ∙ h.running;
    audio_on = k.audio_on ∙ h.audio_on;
    hid_on = k.hid_on ∙ h.hid_on;
    do_quit =
        k.do_quit
        ∙ ap (λ b. any_quits ys || b) h.do_quit
        ∙ or_merge (any_quits xs) (any_quits ys) g.do_quit
        ∙ ap (λ b. b || g.do_quit) (sym (any_quits-append xs ys));
  }

  pub settle-Looped :
      (rounds : List (List Completion)) (g : Globals E D Event)
      → All (All IsWhole) rounds
      → Looped (flatten rounds) g (settle encode_byte seq_port rounds g)
  unfolding settle
  settle-Looped [] g whole = record {
    g' = g;
    returns = refl;
    running = refl;
    audio_on = refl;
    hid_on = refl;
    do_quit = refl;
  }
  settle-Looped (cs ∷ rounds) g (this, others) =
      let (mid, runs, h) = handle_events-Handles encode_byte seq_port cs g this in
      tested (cs ++ flatten rounds) g g.do_quit _ refl
        (rw runs (after_round cs (flatten rounds) g mid _ h (settle-Looped rounds mid others)))

module _ {E D Event : Type 0} (encode_byte : E → ℕ → E × Option Event) (seq_port : ℕ)
    (decode : D → Event → D × List ℕ) where
  drain-Looped :
      (events : List (Option Event)) (cs : List Completion) (g : Globals E D Event)
      (r : Option (Globals E D Event))
      → Looped encode_byte seq_port cs (drain encode_byte seq_port decode events g) r
      → Looped encode_byte seq_port cs g r
  unfolding drain
  drain-Looped events cs g r h = record {
    g' = h.g';
    returns = h.returns;
    running = h.running;
    audio_on = h.audio_on;
    hid_on = h.hid_on;
    do_quit = h.do_quit;
  }

  pub main_loop-Looped :
      (rounds : List (Round Event)) (g : Globals E D Event)
      → All (All IsWhole) (completions_of rounds)
      → Looped encode_byte seq_port
          (flatten (completions_of rounds))
          g
          (main_loop encode_byte seq_port decode rounds g)
  unfolding main_loop
  main_loop-Looped [] g whole = record {
    g' = g;
    returns = refl;
    running = refl;
    audio_on = refl;
    hid_on = refl;
    do_quit = refl;
  }
  main_loop-Looped (r ∷ rounds) g (this, others) =
      let (mid, runs, h) = handle_events-Handles encode_byte seq_port r.completions g this in
      tested encode_byte seq_port (r.completions ++ flatten (completions_of rounds)) g g.do_quit _
        refl
        (rw runs (
          after_round encode_byte seq_port r.completions (flatten (completions_of rounds)) g mid _ h
            (drain-Looped r.events (flatten (completions_of rounds)) mid _
              (main_loop-Looped rounds (drain encode_byte seq_port decode r.events mid) others))))
