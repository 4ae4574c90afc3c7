-- ===== src/Usb/Session.antt =====
-- What a program does with libusb: the calls that it makes, and what it holds between them.
use djm_t1_linux.Base.{ℕ, ◌+◌, ◌-◌, Bool, true, false, List, ◌∷◌}
use djm_t1_linux.Base.Int.{ℤ}

-- The setup packet of `libusb_control_transfer`.
pub record Request : Type 0 where
  pub request_type : ℕ
  pub request : ℕ
  pub value : ℕ
  pub index : ℕ
  pub length : ℕ

-- The answers of libusb and of the device behind it, in a world that each call may change:
-- `libusb_init` returned 0, `libusb_open_device_with_vid_pid` gave a handle, the result of
-- `libusb_control_transfer`, and time that passes.
pub record LibUsb : Type 1 where
  pub World : Type 0
  pub init : World → Bool × World
  pub open_device : World → Bool × World
  pub control : Request → World → ℤ × World
  pub pass : World → World

module _ (lib : LibUsb) where
  open lib use {World}

  -- The contexts and handles that are held, and the control transfers that were made with their
  -- results, the latest first.
  pub record Session : Type 0 where
    pub world : World
    pub contexts : ℕ
    pub handles : ℕ
    pub controls : List (Request × ℤ)

  abbrev pub initialized : Bool × World → Session → Bool × Session
  initialized (true, w) s = (true, record s { world = w; contexts = s.contexts + 1 })
  initialized (false, w) s = (false, record s { world = w })

  abbrev pub init : Session → Bool × Session
  init s = initialized (lib.init s.world) s

  abbrev pub opened : Bool × World → Session → Bool × Session
  opened (true, w) s = (true, record s { world = w; handles = s.handles + 1 })
  opened (false, w) s = (false, record s { world = w })

  abbrev pub open_device : Session → Bool × Session
  open_device s = opened (lib.open_device s.world) s

  abbrev pub control_transfer : Request → Session → ℤ × Session
  control_transfer r s =
      let (answer, w) = lib.control r s.world in
      (answer, record s { world = w; controls = (r, answer) ∷ s.controls })

  abbrev pub pass : Session → Session
  pass s = record s { world = lib.pass s.world }

  abbrev pub close : Session → Session
  close s = record s { handles = s.handles - 1 }

  abbrev pub exit : Session → Session
  exit s = record s { contexts = s.contexts - 1 }
