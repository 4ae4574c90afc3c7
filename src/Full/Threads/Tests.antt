-- ===== src/Full/Threads/Tests.antt =====
-- The process on a device that goes, and its shutdown by a signal.
use djm_t1_linux.Base.{ℕ, ◌≤◌, ◌≡◌, refl, true, false, some, List, [], ◌∷◌, ◌++◌, replicate, arith}
use djm_t1_linux.Base.Int.{ℤ, pos}
use djm_t1_linux.Sample.Fixed.{fixed}
use djm_t1_linux.Iso.Life
use djm_t1_linux.Iso.Life.{Life, Held, Slot}
use djm_t1_linux.Midi.Daemon.{iface_midi, iface_hid}
use djm_t1_linux.Full.Ends.{Released}
use djm_t1_linux.Full.Tests.{there, each, back, note, gone, thread, thread-IsFresh, answers}
use djm_t1_linux.Full.Threads.{Phase, Main, System, Answers, Input, main, steps}
use djm_t1_linux.Full.Threads.Safe.{Inv, g_stop, idle, busy, turns_in, steps-Inv}
use djm_t1_linux.Full.Threads.Shutdown.{waits_for_signal, ends_after_signal}
use djm_t1_linux.Full.Threads.Start.{Starts, ready, main-Starts}

abbrev block : List (List ℤ)
block = replicate 3 (replicate 6 (pos 0))

abbrev engine_answers : Life.Answers fixed
engine_answers = record {
  calloc = true;
  init = true;
  open_device = true;
  claim = true;
  set_alt = true;
  cap_block = some block;
  play_block = some block;
  submits_in = λ i. true;
  submits_out = λ i. true;
  thread = true;
}

abbrev all_well : Answers
all_well = record { seq_open = true; port = true; encoder = true; decoder = true; thread = true }

abbrev nothing : Held
nothing = record { engines = 0; contexts = 0; handles = 0 }

main-Starts_example :
    Starts fixed there each 9 back
      (ready fixed there each 9 back engine_answers all_well)
      nothing
      (main fixed there each 9 back engine_answers all_well answers thread (idle nothing))
main-Starts_example =
    main-Starts fixed there each 9 back engine_answers all_well answers thread nothing
      thread-IsFresh

-- `main` in its loop, and the MIDI thread in its own, with both interfaces.
abbrev looping : System there ℕ ℕ ℕ
looping = record {
  main = Main.in_loop false;
  app = busy nothing;
  midi = record {
    phase = Phase.looping;
    hx = true;
    thread = record thread {
      session = record thread.session { contexts = 1; handles = 1 };
      claimed = iface_hid ∷ iface_midi ∷ [];
    };
  };
}

looping-Inv : Inv nothing looping
looping-Inv = record {
  main = (λ e. cc e, refl);
  midi = record { claimed = refl; contexts = refl; handles = refl };
}

-- A note, the device's end, and eight rounds.
abbrev inputs : List (Input fixed ℕ)
inputs =
    Input.turns (note ∷ []) (some 0xf8 ∷ [])
    ∷ Input.turns (gone ∷ []) []
    ∷ replicate 8 (Input.turns [] [])

-- The engine as it is left when no transfer is taken.
abbrev engine : Life fixed
engine = record {
  engine = record {
    running = true;
    inflight = 0;
    cap_ring = record { buf = block; cap = 3; w = 0; r = 0 };
    play_ring = record { buf = block; cap = 3; w = 0; r = 0 };
    cap_over = 0;
    play_under = 0;
    xfer_err = 0;
  };
  slots = replicate 12 Slot.idle;
  transfers = 12;
  buffers = 12;
  blocks = 2;
  claimed = true;
  alt = 1;
  thread = true;
  freed = false;
}

steps-Inv_example :
    (s' : System there ℕ ℕ ℕ) × (steps fixed there each 9 back
        (Input.signal ∷ Input.leaves ∷ inputs)
        looping
      ≡ some s')
    × Inv nothing s'
steps-Inv_example =
    steps-Inv fixed there each 9 back nothing (Input.signal ∷ Input.leaves ∷ inputs) looping
      looping-Inv (omega arith)

waits_for_signal_example :
    (s' : System there ℕ ℕ ℕ) × (steps fixed there each 9 back inputs looping ≡ some s')
    × (s'.main ≡ Main.in_loop false)
    × (s'.app ≡ busy nothing)
    × (g_stop looping ≡ true → 8 ≤ turns_in inputs → s'.midi.phase ≡ Phase.ended)
waits_for_signal_example =
    waits_for_signal fixed there each 9 back nothing inputs looping looping-Inv refl (omega arith)
      refl

ends_after_signal_example :
    (s' : System there ℕ ℕ ℕ) × (steps fixed there each 9 back
        (Input.signal ∷ Input.leaves ∷ (inputs ++ Input.joins engine ∷ []))
        looping
      ≡ some s')
    × (s'.main ≡ Main.returned 0)
    × (s'.app ≡ idle nothing)
    × Released s'.midi.thread
ends_after_signal_example =
    ends_after_signal fixed there each 9 back nothing false inputs engine looping looping-Inv refl
      (omega arith) (omega arith)
