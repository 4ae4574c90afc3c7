-- ===== src/Midi/Receive.antt =====
-- From the mixer to the sequencer: `emit_midi` and `midi_cb`.
pub mod Emit
pub mod Packets
pub mod Total
use djm_t1_linux.Base.{
  ℕ, zero, suc, ◌+◌, ◌-◌, ◌*◌, ◌/◌, ◌%◌, ◌^◌, ◌&&◌, Option, none, some, Bool, true, false, not,
  List, [], ◌∷◌, ◌++◌, ◌==◌, if◌then◌else◌, get_or, take, ◌>>=◌,
}
use djm_t1_linux.Usb.{TransferStatus}

pub record Transfer : Type 0 where
  pub status : TransferStatus
  pub actual_length : ℕ
  pub buffer : List ℕ

-- The number of MIDI bytes in a packet, by its code index number.
abbrev pub cin_len : List ℕ
cin_len = 0 ∷ 0 ∷ 2 ∷ 3 ∷ 3 ∷ 1 ∷ 2 ∷ 3 ∷ 3 ∷ 3 ∷ 3 ∷ 3 ∷ 2 ∷ 2 ∷ 3 ∷ 1 ∷ []

-- `x & 0x0f`
abbrev pub low_nibble : ℕ → ℕ
low_nibble x = x % 16

-- An event as `emit_midi` hands it to the sequencer: from the port, to its subscribers, unqueued.
pub record Sent (Event : Type 0) : Type 0 where
  pub event : Event
  pub source : ℕ
  pub to_subscribers : Bool
  pub direct : Bool

-- The bridge's state: ALSA's encoder, the events handed over, the count of messages, and the flags.
pub record Bridge (E Event : Type 0) : Type 0 where
  pub encoder : E
  pub output : List (Sent Event)
  pub midi_msgs : ℕ
  pub running : Bool
  pub do_quit : Bool

-- `encode_byte` is ALSA's encoder: its state after a byte, and the event that the byte completes.
module _ {E Event : Type 0} (encode_byte : E → ℕ → E × Option Event) (seq_port : ℕ) where
  -- The event goes to the sequencer only where the encoder's result is 1.
  unfoldable pub output_direct : Option Event → List (Sent Event) → List (Sent Event)
  output_direct none out = out
  output_direct (some ev) out =
      out ++ record { event = ev; source = seq_port; to_subscribers = true; direct = true } ∷ []

  unfoldable pub emit_midi : List ℕ → Bridge E Event → Bridge E Event
  unfolding output_direct
  emit_midi [] b = b
  emit_midi (m ∷ ms) b =
      let (e, ev) = encode_byte b.encoder m in
      emit_midi ms (record b { encoder = e; output = output_direct ev b.output })

  -- One packet of four bytes. The printing of `-v` is left out.
  unfoldable pub handle_packet : ℕ → ℕ → ℕ → ℕ → Bridge E Event → Bridge E Event
  unfolding emit_midi
  handle_packet p0 p1 p2 p3 b =
      let n = get_or cin_len (low_nibble p0) 0 in
      if p0 == 0 && p1 == 0 && p2 == 0 && p3 == 0
      then b
      else if n == 0
      then b
      else emit_midi (take n (p1 ∷ p2 ∷ p3 ∷ []))
          (record b { midi_msgs = (b.midi_msgs + 1) % 2 ^ 64 })

  -- The loop, with the bytes from `buffer + i` on; a round for each four bytes of `actual_length`.
  -- `none`: a packet is read outside the buffer.
  unfoldable pub packet_loop : ℕ → List ℕ → Bridge E Event → Option (Bridge E Event)
  unfolding handle_packet
  packet_loop zero p b = some b
  packet_loop (suc left) (p0 ∷ p1 ∷ p2 ∷ p3 ∷ p) b =
      packet_loop left p (handle_packet p0 p1 p2 p3 b)
  packet_loop (suc left) _ b = none

  -- The last line: submit again unless stopping. The flag is "the transfer was submitted".
  unfoldable pub resubmit : Bridge E Event → Bridge E Event × Bool
  resubmit b = (b, b.running && not b.do_quit)

  unfoldable pub midi_cb_status :
      TransferStatus → Transfer → Bridge E Event → Option (Bridge E Event × Bool)
  unfolding packet_loop resubmit
  midi_cb_status TransferStatus.completed t b = do
    b' ← packet_loop (t.actual_length / 4) t.buffer b
    some (resubmit b')
  midi_cb_status TransferStatus.no_device t b = some (record b { do_quit = true }, false)
  midi_cb_status _ t b = some (resubmit b)

  unfoldable pub midi_cb : Transfer → Bridge E Event → Option (Bridge E Event × Bool)
  unfolding midi_cb_status
  midi_cb t b = midi_cb_status t.status t b
