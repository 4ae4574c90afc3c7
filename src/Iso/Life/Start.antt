-- ===== src/Iso/Life/Start.antt =====
-- What `djmt1_iso_start` leaves behind.
use djm_t1_linux.Base.{
  ℕ, zero, suc, ◌+◌, ◌-◌, ◌*◌, ◌^◌, ◌<◌, ◌≡◌, ◌⊎◌, inl, inr, refl, sym, ap, ◌∙◌, ◌&&◌, Bool, true,
  false, Option, none, some, List, [], ◌∷◌, ◌++◌, arith, length, length-append, if◌then◌else◌,
  some_eq,
}
use mathlib.Core.Path.{subst}
use djm_t1_linux.Ring.Inv.{IsValid, init-IsValid}
use djm_t1_linux.Sample.{Floats}
use djm_t1_linux.Iso.{add_one}
use djm_t1_linux.Iso.Life.{
  Life, Slot, Answers, Held, slot_of, in_flight, nxfr, submit_one, submit_loop, fresh, opened,
  launched, given, start, start_with, take_engine, take_context, take_handle,
}
use djm_t1_linux.Iso.Life.Slots.{in_flight_le, in_flight-append}
use djm_t1_linux.Iso.Life.Reach.{Inv}

pub back : (n : ℕ) → n + 1 - 1 ≡ n
back n = omega arith

module _ (fl : Floats) where
  open fl use {Float}

  -- The engine after `k` submissions.
  record Submitted (k : ℕ) (s : Life fl) : Type 0 where
    cap_valid : IsValid s.engine.cap_ring
    play_valid : IsValid s.engine.play_ring
    over : s.engine.cap_over < 2 ^ 32
    counted : s.engine.inflight ≡ in_flight s.slots
    number : length s.slots ≡ k
    running : s.engine.running ≡ true
    transfers : s.transfers ≡ k
    buffers : s.buffers ≡ k
    blocks : s.blocks ≡ 2
    claimed : s.claimed ≡ true
    alt : s.alt ≡ 1
    alive : s.freed ≡ false

  counted-append :
      (n : ℕ) (slots : List Slot) (ok : Bool)
      → n ≡ in_flight slots
      → length slots < 2 * nxfr
      → (if ok then add_one n else n) ≡ in_flight (slots ++ slot_of ok ∷ [])
  counted-append n slots true e few = omega (arith, in_flight-append slots true, in_flight_le slots)
  counted-append n slots false e few = e ∙ sym (in_flight-append slots false)

  submit_one-Submitted :
      (k : ℕ) (ok : Bool) (s : Life fl)
      → k < 2 * nxfr
      → Submitted k s
      → Submitted (k + 1) (submit_one fl ok s)
  unfolding submit_one
  submit_one-Submitted k ok s small v = record {
    cap_valid = v.cap_valid;
    play_valid = v.play_valid;
    over = v.over;
    counted = counted-append s.engine.inflight s.slots ok v.counted (omega (arith, v.number));
    number = omega (arith, length-append s.slots (slot_of ok ∷ []), v.number);
    running = v.running;
    transfers = omega (arith, v.transfers);
    buffers = omega (arith, v.buffers);
    blocks = v.blocks;
    claimed = v.claimed;
    alt = v.alt;
    alive = v.alive;
  }

  submit_loop-Submitted :
      (a : Answers fl) (left i k : ℕ) (s : Life fl)
      → k + 2 * left ≡ 2 * nxfr
      → Submitted k s
      → Submitted (2 * nxfr) (submit_loop fl a left i s)
  unfolding submit_loop
  submit_loop-Submitted a zero i k s e v = record {
    cap_valid = v.cap_valid;
    play_valid = v.play_valid;
    over = v.over;
    counted = v.counted;
    number = omega (arith, v.number);
    running = v.running;
    transfers = omega (arith, v.transfers);
    buffers = omega (arith, v.buffers);
    blocks = v.blocks;
    claimed = v.claimed;
    alt = v.alt;
    alive = v.alive;
  }
  submit_loop-Submitted a (suc left) i k s e v =
      submit_loop-Submitted a left (i + 1) (k + 1 + 1) _ (omega arith) (
        submit_one-Submitted (k + 1) (a.submits_out i) _ (omega arith)
          (submit_one-Submitted k (a.submits_in i) s (omega arith) v))

  fresh-Submitted :
      (a : Answers fl) (frames : ℕ) (cap_block play_block : List (List Float))
      → a.cap_block ≡ some cap_block
      → length cap_block ≡ frames + 1
      → a.play_block ≡ some play_block
      → length play_block ≡ frames + 1
      → Submitted 0 (opened fl a frames)
  unfolding fresh in_flight
  fresh-Submitted a frames cap_block play_block cap_got cap_length play_got play_length = record {
    cap_valid = (init-IsValid (λ n. a.cap_block) frames cap_block cap_got cap_length).1;
    play_valid = (init-IsValid (λ n. a.play_block) frames play_block play_got play_length).1;
    over = omega arith;
    counted = refl;
    number = refl;
    running = refl;
    transfers = refl;
    buffers = refl;
    blocks = ap (λ b. given b + given a.play_block) cap_got ∙ ap (λ b. 1 + given b) play_got;
    claimed = refl;
    alt = refl;
    alive = refl;
  }

  -- Where a call failed the start fails and holds nothing more; where all succeed it gives the engine,
  -- and holds it, a context and a handle.
  abbrev pub Started : Bool → Life fl → Held → Option (Life fl) × Held → Type 0
  Started all_succeed s h r =
      ((all_succeed ≡ false) × (r.0 ≡ none) × (r.1 ≡ h))
      ⊎ ((all_succeed ≡ true) × (r.0 ≡ some s) × (r.1 ≡ take_handle (take_context (take_engine h))))

  start_with-Started :
      (calloc init open_device claim_alt : Bool) (s : Life fl) (h : Held)
      → Started
          (calloc && (init && (open_device && claim_alt)))
          s
          h
          (start_with fl calloc init open_device claim_alt s h)
  unfolding start_with
  start_with-Started false init open_device claim_alt s h = inl (refl, refl, refl)
  start_with-Started true false open_device claim_alt s h = inl (refl, refl, rw back refl)
  start_with-Started true true false claim_alt s h =
      inl (refl, refl, rw (back h.engines, back h.contexts) refl)
  start_with-Started true true true false s h =
      inl (refl, refl, rw (back h.engines, back h.contexts, back h.handles) refl)
  start_with-Started true true true true s h = inr (refl, refl, refl)

  -- `djmt1_iso_start` allocates the engine, opens the device and claims the interface.
  abbrev pub calls_succeed : Answers fl → Bool
  calls_succeed a = a.calloc && (a.init && (a.open_device && (a.claim && a.set_alt)))

  pub start-Started :
      (a : Answers fl) (frames : ℕ) (h : Held)
      → (s : Life fl) × Started (calls_succeed a) s h (start fl a frames h)
  unfolding start
  start-Started a frames h = (
    launched fl a frames,
    start_with-Started a.calloc a.init a.open_device (a.claim && a.set_alt) _ h,
  )

  -- What a start leaves in the engine, with the answer of `pthread_create`.
  pub record Running (a : Answers fl) (s : Life fl) : Type 0 where
    pub inv : Inv fl s
    pub running : s.engine.running ≡ true
    pub claimed : s.claimed ≡ true
    pub alt : s.alt ≡ 1
    pub thread : s.thread ≡ a.thread

  -- With both rings, the transfers and their buffers allocated: `djmt1_iso_start` fails exactly if
  -- `calloc` gives no engine, `libusb_init` fails, the device does not open, or the interface is not
  -- claimed or not set to alternate setting 1; it then holds no more engines, contexts and handles
  -- than before. Otherwise it holds one more of each and returns an engine that runs, whichever
  -- submissions libusb takes and whether or not `pthread_create` makes the thread: both rings are
  -- valid, `inflight` counts the transfers that libusb took, and all twelve with their buffers, and
  -- the two rings' blocks, are allocated.
  pub start_lem :
      (a : Answers fl) (frames : ℕ) (h : Held) (cap_block play_block : List (List Float))
      → a.cap_block ≡ some cap_block
      → length cap_block ≡ frames + 1
      → a.play_block ≡ some play_block
      → length play_block ≡ frames + 1
      → (s : Life fl) × Started (calls_succeed a) s h (start fl a frames h) × Running a s
  unfolding start
  start_lem a frames h cap_block play_block cap_got cap_length play_got play_length =
      let v =
        submit_loop-Submitted a nxfr 0 0 (opened fl a frames) refl
          (fresh-Submitted a frames cap_block play_block cap_got cap_length play_got play_length) in
      (
        launched fl a frames,
        start_with-Started a.calloc a.init a.open_device (a.claim && a.set_alt) _ h,
        record {
          inv = record {
            cap_valid = v.cap_valid;
            play_valid = v.play_valid;
            over = v.over;
            counted = v.counted;
            few = v.number;
            transfers = v.transfers;
            buffers = v.buffers;
            blocks = v.blocks;
            alive = v.alive;
          };
          running = v.running;
          claimed = v.claimed;
          alt = v.alt;
          thread = refl;
        },
      )

  -- It is the one that the loop leaves.
  pub start-some :
      (a : Answers fl) (frames : ℕ) (h : Held) (s : Life fl)
      → (start fl a frames h).0 ≡ some s
      → launched fl a frames ≡ s
  unfolding start
  start-some a frames h s begun =
      elim (start_with-Started a.calloc a.init a.open_device (a.claim && a.set_alt)
        (launched fl a frames) h) [
          | inl failed ↦ cc (failed.1, begun)
          | inr worked ↦ some_eq (sym worked.1 ∙ begun)
        ]

  -- A start that returns an engine holds it, a context and a handle.
  pub start-Held :
      (a : Answers fl) (frames : ℕ) (h : Held) (s : Life fl)
      → (start fl a frames h).0 ≡ some s
      → (start fl a frames h).1 ≡ take_handle (take_context (take_engine h))
  unfolding start
  start-Held a frames h s begun =
      elim (start_with-Started a.calloc a.init a.open_device (a.claim && a.set_alt)
        (launched fl a frames) h) [ inl failed ↦ cc (failed.1, begun) | inr worked ↦ worked.2 ]

  -- The engine that is returned is a good one.
  pub start-Running :
      (a : Answers fl) (frames : ℕ) (h : Held) (cap_block play_block : List (List Float))
      (s : Life fl)
      → a.cap_block ≡ some cap_block
      → length cap_block ≡ frames + 1
      → a.play_block ≡ some play_block
      → length play_block ≡ frames + 1
      → (start fl a frames h).0 ≡ some s
      → Running a s
  start-Running a frames h cap_block play_block s cap_got cap_length play_got play_length begun =
      let (s', ends, v) =
        start_lem a frames h cap_block play_block cap_got cap_length play_got play_length in
      elim ends [
        | inl failed ↦ cc (failed.1, begun)
        | inr worked ↦ subst (Running a) (some_eq (sym worked.1 ∙ begun)) v
      ]
