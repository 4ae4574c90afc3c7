-- ===== src/Midi/Daemon/Tests.antt =====
-- The daemon on a device that is there at the third try: it bridges a note, and then the device goes.
use djm_t1_linux.Base.{
  ℕ, ◌-◌, ◌==◌, ◌≡◌, refl, ◌&&◌, not, true, false, Option, some, List, [], ◌∷◌, arith, take,
}
use djm_t1_linux.Base.Int.{pos}
use djm_t1_linux.Usb.{TransferStatus}
use djm_t1_linux.Usb.Session.{LibUsb}
use djm_t1_linux.Midi.Globals.{Completion}
use djm_t1_linux.Midi.Globals.Effects.{flatten}
use djm_t1_linux.Midi.Globals.Quiet.{midi_comes, hid_comes, audio_comes}
use djm_t1_linux.Midi.Daemon.{Daemon, Answers, Script, main, teardown, wind_down_rounds}
use djm_t1_linux.Midi.Daemon.Ends.{Whole}
use djm_t1_linux.Midi.Daemon.Setup.{IsFresh}
use djm_t1_linux.Midi.Daemon.Outcome.{Ending, ready, main-Ending}
use djm_t1_linux.Midi.Daemon.Quiet.{teardown-quiet}

-- The world is the number of tries before the device is there.
abbrev late : LibUsb
late = record {
  World = ℕ;
  init = λ w. (true, w);
  open_device = λ w. (w == 0, w);
  control = λ r w. (pos 0, w);
  pass = λ w. w - 1;
}

-- An encoder that makes an event of every byte, and a decoder that takes it back.
abbrev each : ℕ → ℕ → ℕ × Option ℕ
each e byte = (e, some byte)

abbrev back : ℕ → ℕ → ℕ × List ℕ
back d event = (d, event ∷ [])

abbrev all_well : Answers
all_well = record {
  seq_open = true;
  port = true;
  encoder = true;
  decoder = true;
  claim_audio = true;
  set_alt = true;
  claim_midi = true;
  claim_hid = false;
  takes_in = λ i. true;
  takes_out = λ i. true;
  takes_midi = true;
  takes_hid = true;
}

abbrev bulk : TransferStatus → List ℕ → ℕ → Completion
bulk s bytes n = Completion.midi (record { status = s; actual_length = n; buffer = bytes }) true

abbrev script : Script ℕ
script = record {
  signalled = false;
  arming = Completion.audio TransferStatus.completed true ∷ [];
  settling = (Completion.audio TransferStatus.completed true ∷ []) ∷ [];
  rounds =
      record {
        completions = bulk TransferStatus.completed (0x09 ∷ 0x90 ∷ 0x3c ∷ 0x7f ∷ []) 4 ∷ [];
        events = some 0xf8 ∷ [];
      }
      ∷ record { completions = bulk TransferStatus.no_device [] 0 ∷ []; events = [] }
      ∷ [];
  stopping =
      (Completion.audio TransferStatus.cancelled true
        ∷ Completion.audio TransferStatus.cancelled true
        ∷ [])
      ∷ [];
}

script-Whole : Whole script
script-Whole = record {
  settling = omega arith;
  arming = omega arith;
  rounds = omega arith;
  stopping = omega arith;
}

abbrev fresh : Daemon late ℕ ℕ ℕ
fresh = record {
  session = record { world = 2; contexts = 0; handles = 0; controls = [] };
  sequencer = false;
  codecs = 0;
  claimed = [];
  alt = 0;
  transfers = 0;
  globals = record {
    running = true;
    do_quit = false;
    audio_on = true;
    hid_on = true;
    encoder = 0;
    output = [];
    midi_msgs = 0;
    decoder = 0;
    waiting = [];
    to_mixer = [];
    hid_probe = false;
    have_last_hid = false;
    last_hid = [];
    printed = [];
    pending = record { midi = false; hid = false; audio = 0 };
  };
}

fresh-IsFresh : IsFresh fresh
fresh-IsFresh = record {
  contexts_eq = refl;
  handles_eq = refl;
  codecs_eq = refl;
  alt_eq = refl;
  claimed_eq = refl;
  made_eq = refl;
  do_quit = refl;
  transfers_eq = refl;
}

main-Ending_example :
    Ending late each 9 back all_well script script-Whole
      (ready late each 9 back all_well script script-Whole fresh)
      true
      true
      (main late each 9 back all_well script fresh)
main-Ending_example =
    main-Ending late each 9 back all_well script script-Whole fresh fresh-IsFresh refl

-- With eight isochronous transfers pending, two of which come back.
abbrev eight : Daemon late ℕ ℕ ℕ
eight = record fresh {
  globals = record fresh.globals { pending = record { midi = true; hid = false; audio = 8 } };
}

teardown-quiet_example :
    let cs = flatten (take wind_down_rounds script.stopping) in
    (d' : Daemon late ℕ ℕ ℕ) × (teardown late each 9 back script true false eight ≡ some d')
    × (d'.globals.pending ≡ record {
      midi = true && not (midi_comes cs);
      hid = false && not (hid_comes cs);
      audio = 8 - audio_comes cs;
    })
teardown-quiet_example = teardown-quiet late each 9 back script true false eight (omega arith)
