-- ===== src/Arm/Outcome.antt =====
-- The ways in which djm_arm ends.
use djm_t1_linux.Base.{
  ℕ, zero, suc, ◌+◌, ◌==◌, ◌≡◌, refl, sym, ap, ◌||◌, ◌∙◌, ◌&&◌, ◌⊎◌, inl, inr, Bool, true, false,
  List, [], ◌∷◌, ◌++◌, map, take, if◌then◌else◌, arith,
}
use mathlib.Core.Bool.{true≢false}
use djm_t1_linux.Base.Int.{ℤ}
use djm_t1_linux.Usb.Session.{Request, LibUsb, Session, initialized, opened, pass}
use djm_t1_linux.Arm.{
  is_zero, arm, arm_device, main, main_ready, main_opened, tried, open_loop, open_tries, wr, rd,
  write_ok, read_back,
}

-- A write of the vendor's request 3, and a read of three bytes of its register.
abbrev write_of : ℕ → ℕ → Request
write_of wv wi = record { request_type = 0x40; request = 0x03; value = wv; index = wi; length = 0 }

abbrev read_of : ℕ → Request
read_of wi = record { request_type = 0xc0; request = 0x00; value = 0; index = wi; length = 3 }

-- The transfers that arm the mixer, the latest first.
abbrev pub arm_requests : List Request
arm_requests =
    write_of 0x0000 0x8004
    ∷ write_of 0x0000 0x8003
    ∷ read_of 0x8002
    ∷ write_of 0x030a 0x8002
    ∷ read_of 0x8002
    ∷ write_of 0x2200 0x8002
    ∷ read_of 0x8002
    ∷ write_of 0x1100 0x8002
    ∷ []

-- Every write of a log returned 0.
abbrev pub writes_ok : List (Request × ℤ) → Bool
writes_ok [] = true
writes_ok ((r, answer) ∷ log) =
    if r.request_type == 0x40 then writes_ok log && is_zero answer else writes_ok log

module _ (lib : LibUsb) where
  -- Whatever the device answers, `arm` makes the eight transfers in their order, and says whether
  -- every write returned 0; it holds what it held before.
  pub arm_lem :
      (s : Session lib)
      → (log : List (Request × ℤ)) × (map (λ e. e.0) log ≡ arm_requests)
        × ((arm lib s).0 ≡ writes_ok log)
        × ((arm lib s).1.controls ≡ log ++ s.controls)
        × ((arm lib s).1.contexts ≡ s.contexts)
        × ((arm lib s).1.handles ≡ s.handles)
  unfolding arm write_ok read_back wr rd
  arm_lem s = (take 8 (arm lib s).1.controls, refl, refl, refl, refl, refl)

  -- A session before a call and behind it: only what is held has changed.
  pub record Opened (s : Session lib) (r : Bool × Session lib) : Type 0 where
    pub contexts : r.1.contexts ≡ s.contexts
    pub controls : r.1.controls ≡ s.controls
    pub handles : r.1.handles ≡ (if r.0 then s.handles + 1 else s.handles)

  tried-Opened :
      (answer : Bool × lib.World) (s : Session lib) (later : Session lib → Bool × Session lib)
      → ((s' : Session lib) → Opened s' (later s'))
      → Opened s (tried lib (opened lib answer s) later)
  unfolding tried
  tried-Opened (true, w) s later h = record { contexts = refl; controls = refl; handles = refl }
  tried-Opened (false, w) s later h =
      let o = h (pass lib (record s { world = w })) in
      record { contexts = o.contexts; controls = o.controls; handles = o.handles }

  pub open_loop-Opened : (left : ℕ) (s : Session lib) → Opened s (open_loop lib left s)
  unfolding open_loop
  open_loop-Opened zero s = record { contexts = refl; controls = refl; handles = refl }
  open_loop-Opened (suc left) s =
      tried-Opened (lib.open_device s.world) s (open_loop lib left) (open_loop-Opened left)

  -- The transfers of `arm` were made, and the exit code is 0 if every write returned 0, 3 otherwise.
  abbrev pub Armed : ℕ × Session lib → Type 0
  Armed r =
      (map (λ e. e.0) r.1.controls ≡ arm_requests)
      × (r.0 ≡ (if writes_ok r.1.controls then 0 else 3))

  -- Nothing is held; and djm_arm ended before the device was open, with no transfer made, or it has
  -- armed the device.
  abbrev pub Outcome : ℕ × Session lib → Type 0
  Outcome r =
      (r.1.contexts ≡ 0)
      × (r.1.handles ≡ 0)
      × ((((r.0 ≡ 1) ⊎ (r.0 ≡ 2)) × (r.1.controls ≡ [])) ⊎ Armed r)

  arm_device-Outcome :
      (s : Session lib)
      → s.contexts ≡ 1
      → s.handles ≡ 1
      → s.controls ≡ []
      → Outcome (arm_device lib s)
  unfolding arm_device arm write_ok read_back wr rd
  arm_device-Outcome s context handle fresh =
      (omega (arith, context), omega (arith, handle), inr (rw fresh refl, rw fresh refl))

  main_opened-Outcome :
      (r : Bool × Session lib)
      → r.1.contexts ≡ 1
      → r.1.handles ≡ (if r.0 then 1 else 0)
      → r.1.controls ≡ []
      → Outcome (main_opened lib r)
  unfolding main_opened
  main_opened-Outcome (false, s) context handle fresh =
      (omega (arith, context), handle, inl (inr refl, fresh))
  main_opened-Outcome (true, s) context handle fresh = arm_device-Outcome s context handle fresh

  main_ready-Outcome :
      (answer : Bool × lib.World) (s : Session lib)
      → s.contexts ≡ 0
      → s.handles ≡ 0
      → s.controls ≡ []
      → Outcome (main_ready lib (initialized lib answer s))
  unfolding main_ready
  main_ready-Outcome (false, w) s context handle fresh = (context, handle, inl (inl refl, fresh))
  main_ready-Outcome (true, w) s context handle fresh =
      let s' = record s { world = w; contexts = s.contexts + 1 } in
      let o = open_loop-Opened open_tries s' in
      main_opened-Outcome (open_loop lib open_tries s') (omega (arith, o.contexts, context))
        (o.handles ∙ ap (λ n. if (open_loop lib open_tries s').0 then n + 1 else n) handle)
        (o.controls ∙ fresh)

  -- From a session that holds nothing, on every answer of libusb and the device, djm_arm ends with
  -- nothing held: with code 1 or 2 and no transfer made, or with the eight transfers of `arm` made in
  -- order, and code 0 if every write of them returned 0 and 3 otherwise.
  pub main-Outcome :
      (s : Session lib) → s.contexts ≡ 0 → s.handles ≡ 0 → s.controls ≡ [] → Outcome (main lib s)
  unfolding main
  main-Outcome s context handle fresh = main_ready-Outcome (lib.init s.world) s context handle fresh

  -- The device is there at one of the next `n` tries.
  unfoldable pub opens : ℕ → lib.World → Bool
  opens zero w = false
  opens (suc n) w = let (ok, w') = lib.open_device w in ok || opens n (lib.pass w')

  tried-opens :
      (answer : Bool × lib.World) (s : Session lib) (later : Session lib → Bool × Session lib)
      (there : lib.World → Bool)
      → ((s' : Session lib) → (later s').0 ≡ there s'.world)
      → (tried lib (opened lib answer s) later).0 ≡ (answer.0 || there (lib.pass answer.1))
  unfolding tried
  tried-opens (true, w) s later there h = refl
  tried-opens (false, w) s later there h = h (pass lib (record s { world = w }))

  pub open_loop-opens : (n : ℕ) (s : Session lib) → (open_loop lib n s).0 ≡ opens n s.world
  unfolding open_loop opens
  open_loop-opens zero s = refl
  open_loop-opens (suc n) s =
      tried-opens (lib.open_device s.world) s (open_loop lib n) (opens n) (open_loop-opens n)

  main_opened-Armed :
      (r : Bool × Session lib) → r.0 ≡ true → r.1.controls ≡ [] → Armed (main_opened lib r)
  unfolding main_opened arm_device arm write_ok read_back wr rd
  main_opened-Armed (false, s) there fresh = absurd (true≢false (sym there))
  main_opened-Armed (true, s) there fresh = (rw fresh refl, rw fresh refl)

  main_ready-Armed :
      (answer : Bool × lib.World) (s : Session lib)
      → answer.0 ≡ true
      → opens open_tries answer.1 ≡ true
      → s.controls ≡ []
      → Armed (main_ready lib (initialized lib answer s))
  unfolding main_ready
  main_ready-Armed (false, w) s ready there fresh = absurd (true≢false (sym ready))
  main_ready-Armed (true, w) s ready there fresh =
      let s' = record s { world = w; contexts = s.contexts + 1 } in
      main_opened-Armed (open_loop lib open_tries s') (open_loop-opens open_tries s' ∙ there)
        ((open_loop-Opened open_tries s').controls ∙ fresh)

  -- If libusb_init returns 0 and the device is there at one of twenty tries, djm_arm makes the eight
  -- transfers in order, whatever they return, and its exit code is 0 if every write returned 0 and 3
  -- otherwise.
  pub main-Armed :
      (s : Session lib)
      → (lib.init s.world).0 ≡ true
      → opens open_tries (lib.init s.world).1 ≡ true
      → s.controls ≡ []
      → Armed (main lib s)
  unfolding main
  main-Armed s ready there fresh = main_ready-Armed (lib.init s.world) s ready there fresh
