-- ===== src/Full/Tests.antt =====
-- The MIDI thread on a device that goes in its second round.
use djm_t1_linux.Base.{ℕ, refl, true, false, Option, some, List, [], ◌∷◌, map, arith}
use djm_t1_linux.Base.Int.{pos}
use djm_t1_linux.Usb.{TransferStatus}
use djm_t1_linux.Usb.Session.{LibUsb}
use djm_t1_linux.Midi.Globals
use djm_t1_linux.Full.{Completion, Shared, Script, Answers, Thread, handle_events, midi_thread}
use djm_t1_linux.Full.Same.{Same, as_globals, as_completion, handle_events-Same}
use djm_t1_linux.Full.Ends.{Whole, IsFresh}
use djm_t1_linux.Full.Outcome.{Outcome, ready, midi_thread-Outcome}

-- A device that is there and takes every transfer.
abbrev pub there : LibUsb
there = record {
  World = ℕ;
  init = λ w. (true, w);
  open_device = λ w. (true, w);
  control = λ r w. (pos 0, w);
  pass = λ w. w;
}

-- An encoder that makes an event of every byte, and a decoder that takes it back.
abbrev pub each : ℕ → ℕ → ℕ × Option ℕ
each e byte = (e, some byte)

abbrev pub back : ℕ → ℕ → ℕ × List ℕ
back d event = (d, event ∷ [])

abbrev pub note : Completion
note =
    Completion.midi
      (record {
        status = TransferStatus.completed;
        actual_length = 4;
        buffer = 0x09 ∷ 0x90 ∷ 0x3c ∷ 0x7f ∷ [];
      })
      true

abbrev pub gone : Completion
gone = Completion.hid TransferStatus.no_device true

abbrev script : Script ℕ
script = record {
  settling = (Completion.hid TransferStatus.completed true ∷ []) ∷ [];
  arming = note ∷ [];
  rounds = (note ∷ [], some 0xf8 ∷ []) ∷ (gone ∷ [], []) ∷ [];
  stopping = (Completion.hid TransferStatus.cancelled true ∷ []) ∷ [];
}

script-Whole : Whole script
script-Whole = record {
  settling = omega arith;
  arming = omega arith;
  rounds = omega arith;
  stopping = omega arith;
}

abbrev variables : Shared ℕ ℕ ℕ
variables = record {
  g_stop = false;
  encoder = 0;
  output = [];
  midi_msgs = 0;
  decoder = 0;
  waiting = [];
  to_mixer = [];
  midi_pending = false;
  hid_pending = false;
}

abbrev pub thread : Thread there ℕ ℕ ℕ
thread = record {
  session = record { world = 0; contexts = 0; handles = 0; controls = [] };
  claimed = [];
  transfers = 0;
  shared = variables;
}

pub thread-IsFresh : IsFresh thread
thread-IsFresh = record {
  claimed = refl;
  contexts = refl;
  handles = refl;
  controls = refl;
  transfers = refl;
}

abbrev pub answers : Answers
answers = record { claim_midi = true; claim_hid = true; takes_midi = true; takes_hid = true }

midi_thread-Outcome_example :
    Outcome there each 9 back answers script
      (ready there each 9 back answers thread)
      variables
      (midi_thread there each 9 back answers script thread)
midi_thread-Outcome_example =
    midi_thread-Outcome there each 9 back answers script thread script-Whole thread-IsFresh

handle_events-Same_example :
    Same each 9
      (handle_events each 9 (note ∷ gone ∷ []) variables)
      (Globals.handle_events each 9 (map as_completion (note ∷ gone ∷ [])) (as_globals variables))
handle_events-Same_example = handle_events-Same each 9 (note ∷ gone ∷ []) variables (omega arith)
