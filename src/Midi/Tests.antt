-- ===== src/Midi/Tests.antt =====
-- Runs of the bridge, and its theorems at concrete inputs.
use djm_t1_linux.Base.{
  ℕ, ◌+◌, ◌≡◌, refl, ◌&&◌, ◌||◌, not, true, false, Option, none, some, List, [], ◌∷◌, ◌++◌, arith,
  All, length, get_or, replicate, if◌then◌else◌, ltb,
}
use djm_t1_linux.Usb.{TransferStatus, is_no_device}
use djm_t1_linux.Midi.Message.{Message, long, short, single, bytes}
use djm_t1_linux.Midi.Send.{classify, pack, send_to_device, drain_seq_input}
use djm_t1_linux.Midi.Send.Drain.{IsBulk, drain_seq_input-IsBulk}
use djm_t1_linux.Midi.Receive.{Bridge, Transfer, midi_cb, cin_len, low_nibble, resubmit}
use djm_t1_linux.Midi.Receive.Packets.{classify-cin_len, padding}
use djm_t1_linux.Midi.Receive.Total.{midi_cb_total}
use djm_t1_linux.Midi.RoundTrip.{midi_cb-pack, received}
use djm_t1_linux.Midi.Hid.{Probe, hid_len, poll}
use djm_t1_linux.Midi.Hid.Changes.{changes, reports_of, fresh_probe, poll-changes}

-- An encoder that makes an event of every three bytes.
abbrev by_three : List ℕ → ℕ → List ℕ × Option (List ℕ)
by_three e x = if ltb 1 (length e) then ([], some (e ++ x ∷ [])) else (e ++ x ∷ [], none)

abbrev idle_bridge : Bridge (List ℕ) (List ℕ)
idle_bridge = record { encoder = []; output = []; midi_msgs = 0; running = true; do_quit = false }

-- A note on, a program change, a clock tick.
abbrev three_messages : List Message
three_messages = long 0x90 0x3c 0x7f ∷ short 0xc1 0x05 ∷ single 0xf8 ∷ []

pack_run :
    pack (bytes three_messages)
    ≡ 0x09 ∷ 0x90 ∷ 0x3c ∷ 0x7f ∷ 0x0c ∷ 0xc1 ∷ 0x05 ∷ 0 ∷ 0x0f ∷ 0xf8 ∷ 0 ∷ 0 ∷ []
unfolding pack
pack_run = refl

-- A message cut short is filled up with zeros.
pack_cut : pack (0x90 ∷ 0x3c ∷ []) ≡ 0x09 ∷ 0x90 ∷ 0x3c ∷ 0 ∷ []
unfolding pack
pack_cut = refl

drain_run :
    drain_seq_input
      (λ (d : ℕ) (ev : List ℕ). (d + 1, ev))
      0
      (some (0xf8 ∷ []) ∷ some [] ∷ none ∷ some (0xfa ∷ []) ∷ [])
    ≡ (2, (0x0f ∷ 0xf8 ∷ 0 ∷ 0 ∷ []) ∷ [], some (0xfa ∷ []) ∷ [])
unfolding drain_seq_input send_to_device
drain_run = refl

one_note : Transfer
one_note = record {
  status = TransferStatus.completed;
  actual_length = 8;
  buffer = 0x09 ∷ 0x90 ∷ 0x3c ∷ 0x7f ∷ 0 ∷ 0 ∷ 0 ∷ 0 ∷ [];
}

midi_cb_run :
    midi_cb by_three 7 one_note idle_bridge
    ≡ some (
      record idle_bridge {
        output =
            record {
              event = 0x90 ∷ 0x3c ∷ 0x7f ∷ [];
              source = 7;
              to_subscribers = true;
              direct = true;
            }
            ∷ [];
        midi_msgs = 1;
      },
      true,
    )
unfolding midi_cb one_note
midi_cb_run = refl

midi_cb-pack_example :
    midi_cb by_three 7
      (record {
        status = TransferStatus.completed;
        actual_length = length (pack (bytes three_messages) ++ padding 2);
        buffer = pack (bytes three_messages) ++ padding 2;
      })
      idle_bridge
    ≡ some (resubmit by_three 7 (received by_three 7 three_messages idle_bridge))
midi_cb-pack_example =
    midi_cb-pack by_three 7 three_messages 2 idle_bridge (omega arith) (omega arith) (omega arith)

midi_cb_total_example :
    (b' : Bridge (List ℕ) (List ℕ)) × (midi_cb by_three 7
        (record { status = TransferStatus.no_device; actual_length = 0; buffer = [] })
        idle_bridge
      ≡ some (b', b'.running && not b'.do_quit))
    × (b'.running ≡ true)
    × (b'.do_quit ≡ (is_no_device TransferStatus.no_device || false))
midi_cb_total_example =
    midi_cb_total by_three 7
      (record { status = TransferStatus.no_device; actual_length = 0; buffer = [] }) idle_bridge
      (omega arith)

classify-cin_len_example : get_or cin_len (low_nibble (classify 12).1) 0 ≡ (classify 12).0
classify-cin_len_example = classify-cin_len 12 (omega arith) (omega arith)

abbrev blank : List ℕ
blank = replicate hid_len 0

abbrev moved : List ℕ
moved = 3 ∷ replicate 15 0

poll-changes_example :
    (p' : Probe) × (poll
        (reports_of (blank ∷ blank ∷ moved ∷ moved ∷ []))
        (fresh_probe true true false blank)
      ≡ some p')
    × (p'.printed ≡ blank ∷ changes blank (blank ∷ moved ∷ moved ∷ []))
poll-changes_example =
    poll-changes true true false blank blank (blank ∷ moved ∷ moved ∷ []) refl refl (omega arith)

-- A note on, an event that the decoder drops, one that cannot be read, and one left pending.
abbrev pending : List (Option (List ℕ))
pending = some (0x90 ∷ 0x3c ∷ 0x7f ∷ []) ∷ some [] ∷ none ∷ some (0xfa ∷ []) ∷ []

drain_seq_input-IsBulk_example :
    All IsBulk (drain_seq_input (λ (d : ℕ) (ev : List ℕ). (d, ev)) 0 pending).1
drain_seq_input-IsBulk_example = drain_seq_input-IsBulk (λ (d : ℕ) (ev : List ℕ). (d, ev)) 0 pending
