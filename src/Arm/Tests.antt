-- ===== src/Arm/Tests.antt =====
-- djm_arm before a device that is ready at the second try, and that refuses the third write.
use djm_t1_linux.Base.{ℕ, ◌-◌, ◌==◌, ◌≡◌, refl, true, [], if◌then◌else◌}
use djm_t1_linux.Base.Int.{pos, negsuc}
use djm_t1_linux.Usb.Session.{LibUsb, Session}
use djm_t1_linux.Arm.{main, open_tries}
use djm_t1_linux.Arm.Outcome.{opens, Outcome, Armed, main-Outcome, main-Armed}

-- The world is the number of tries before the device is there.
abbrev late : LibUsb
late = record {
  World = ℕ;
  init = λ w. (true, w);
  open_device = λ w. (w == 0, w);
  control = λ r w. (if r.value == 0x030a then negsuc 8 else pos 0, w);
  pass = λ w. w - 1;
}

abbrev start : Session late
start = record { world = 1; contexts = 0; handles = 0; controls = [] }

opens_at : opens late open_tries 1 ≡ true
unfolding opens
opens_at = refl

main_refused : (main late start).0 ≡ 3
unfolding main
main_refused = refl

main-Outcome_example : Outcome late (main late start)
main-Outcome_example = main-Outcome late start refl refl refl

main-Armed_example : Armed late (main late start)
main-Armed_example = main-Armed late start refl opens_at refl
