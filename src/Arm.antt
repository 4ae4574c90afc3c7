-- ===== src/Arm.antt =====
-- arm/djm_arm.c: the vendor control transfers that arm the mixer's MIDI mode, and the tool that makes
-- them. midi/djm_midi.c and midi/djm_full.c have the same `arm`.
pub mod Outcome
mod Tests
use djm_t1_linux.Base.{ℕ, zero, suc, ◌&&◌, Bool, true, false, if◌then◌else◌}
use djm_t1_linux.Base.Int.{ℤ, pos, negsuc}
use djm_t1_linux.Usb.Session.{
  Request, LibUsb, Session, init, open_device, control_transfer, pass, close, exit,
}

-- `r == 0`
abbrev pub is_zero : ℤ → Bool
is_zero (pos zero) = true
is_zero _ = false

abbrev pub open_tries : ℕ
open_tries = 20

module _ (lib : LibUsb) where
  pub wr : ℕ → ℕ → Session lib → ℤ × Session lib
  wr wv wi s =
      control_transfer lib
        (record { request_type = 0x40; request = 0x03; value = wv; index = wi; length = 0 }) s

  pub rd : ℕ → Session lib → ℤ × Session lib
  rd wi s =
      control_transfer lib
        (record { request_type = 0xc0; request = 0x00; value = 0; index = wi; length = 3 }) s

  -- `ok &= wr(wv, wi) == 0`
  pub write_ok : ℕ → ℕ → Bool × Session lib → Bool × Session lib
  unfolding wr
  write_ok wv wi (ok, s) = let (r, s') = wr wv wi s in (ok && is_zero r, s')

  -- `rd(wi)`, whose result is not looked at.
  pub read_back : ℕ → Bool × Session lib → Bool × Session lib
  unfolding rd
  read_back wi (ok, s) = (ok, (rd wi s).1)

  -- The writes, with the reads between them, and whether every write returned 0.
  pub arm : Session lib → Bool × Session lib
  unfolding write_ok read_back
  arm s =
      let first = read_back 0x8002 (write_ok 0x1100 0x8002 (true, s)) in
      let second = read_back 0x8002 (write_ok 0x2200 0x8002 first) in
      let third = read_back 0x8002 (write_ok 0x030a 0x8002 second) in
      write_ok 0x0000 0x8004 (write_ok 0x0000 0x8003 third)

  -- A try to open the device, and what follows one that failed.
  pub tried : Bool × Session lib → (Session lib → Bool × Session lib) → Bool × Session lib
  tried (true, s) later = (true, s)
  tried (false, s) later = later (pass lib s)

  -- The loop that opens the device, with `left` tries to go; the flag is `h != NULL`.
  pub open_loop : ℕ → Session lib → Bool × Session lib
  unfolding tried
  open_loop zero s = (false, s)
  open_loop (suc left) s = tried (open_device lib s) (open_loop left)

  -- `main` from the open device on. The printing is left out.
  pub arm_device : Session lib → ℕ × Session lib
  unfolding arm
  arm_device s = let (ok, s') = arm s in (if ok then 0 else 3, exit lib (close lib s'))

  -- `main` behind the loop.
  pub main_opened : Bool × Session lib → ℕ × Session lib
  unfolding arm_device
  main_opened (false, s) = (2, exit lib s)
  main_opened (true, s) = arm_device s

  -- `main` behind `libusb_init`.
  pub main_ready : Bool × Session lib → ℕ × Session lib
  unfolding open_loop main_opened
  main_ready (false, s) = (1, s)
  main_ready (true, s) = main_opened (open_loop open_tries s)

  -- `main`: its exit code.
  pub main : Session lib → ℕ × Session lib
  unfolding main_ready
  main s = main_ready (init lib s)
