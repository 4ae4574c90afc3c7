-- ===== src/Midi/RoundTrip.antt =====
-- What the bridge packs for the mixer, its own parser reads back.
use djm_t1_linux.Base.{
  ℕ, ◌+◌, ◌*◌, ◌/◌, ◌%◌, ◌^◌, ◌≤◌, ◌<◌, ◌≡◌, refl, ap, ◌∙◌, Option, some, List, [], ◌∷◌, ◌++◌,
  arith, length, length-append, take_all, All, append_assoc,
}
use djm_t1_linux.Midi.Message.{Message, long, short, single, IsMessage, bytes, bytes_of, packets}
use djm_t1_linux.Midi.Send.{pack}
use djm_t1_linux.Midi.Send.Pack.{pack-bytes}
use djm_t1_linux.Midi.Receive.{Bridge, emit_midi, packet_loop, resubmit, midi_cb}
use djm_t1_linux.Midi.Receive.Emit.{emit_midi-append, emit_midi-msgs, emit_midi-nil}
use djm_t1_linux.Midi.Receive.Packets.{
  padding, length-padding, packet_loop_message, packet_loop-padding, midi_cb_completed,
}
use native.Mathlib.Nat.{zero-add, suc-add}
use djm_t1_linux.Usb.{TransferStatus}

length-packets : (ms : List Message) → length (packets ms) ≡ 4 * length ms
length-packets [] = refl
length-packets (long s a b ∷ ms) = omega (arith, length-packets ms)
length-packets (short s a ∷ ms) = omega (arith, length-packets ms)
length-packets (single s ∷ ms) = omega (arith, length-packets ms)

module _ {E Event : Type 0} (encode_byte : E → ℕ → E × Option Event) (seq_port : ℕ) where
  -- The bridge after a stretch of messages: their bytes emitted in order, each message counted.
  abbrev pub received : List Message → Bridge E Event → Bridge E Event
  received ms b = record (emit_midi encode_byte seq_port (bytes ms) b) {
    midi_msgs = (b.midi_msgs + length ms) % 2 ^ 64;
  }

  packet_loop-packets :
      (ms : List Message) (rest : List ℕ) (left : ℕ) (b : Bridge E Event)
      → All IsMessage ms
      → b.midi_msgs < 2 ^ 64
      → packet_loop encode_byte seq_port (length ms + left) (packets ms ++ rest) b
        ≡ packet_loop encode_byte seq_port left rest (received ms b)
  packet_loop-packets [] rest left b ok small =
      rw (zero-add, emit_midi-nil encode_byte seq_port b)
        (ap (λ k. packet_loop encode_byte seq_port left rest (record b { midi_msgs = k }))
          (omega arith))
  packet_loop-packets (m ∷ ms) rest left b ok small =
      rw (suc-add, append_assoc)
        (packet_loop_message encode_byte seq_port m (packets ms ++ rest) (length ms + left) b ok.0
          ∙ ap (packet_loop encode_byte seq_port (length ms + left) (packets ms ++ rest))
              (emit_midi-msgs encode_byte seq_port (bytes_of m) counted b)
          ∙ packet_loop-packets ms rest left (record after { midi_msgs = counted }) ok.1
              (omega arith)
          ∙ ap (packet_loop encode_byte seq_port left rest) joined)
    where
      counted : ℕ
      counted = (b.midi_msgs + 1) % 2 ^ 64

      after : Bridge E Event
      after = emit_midi encode_byte seq_port (bytes_of m) b

      joined : received ms (record after { midi_msgs = counted }) ≡ received (m ∷ ms) b
      joined =
          rw
            (
              emit_midi-msgs encode_byte seq_port (bytes ms) counted after,
              emit_midi-append encode_byte seq_port (bytes_of m) (bytes ms) b,
            )
            (ap (λ k. record (emit_midi encode_byte seq_port (bytes ms) after) { midi_msgs = k })
              (omega arith))

  -- What `send_to_device` sends of at most sixteen whole messages, with any padding behind it,
  -- `midi_cb` takes apart again: without a fault it feeds the encoder the very bytes of the
  -- messages, in order, counts each message, and asks for the next transfer unless stopping.
  pub midi_cb-pack :
      (ms : List Message) (pad : ℕ) (b : Bridge E Event)
      → All IsMessage ms
      → length ms ≤ 16
      → b.midi_msgs < 2 ^ 64
      → midi_cb encode_byte seq_port
          (record {
            status = TransferStatus.completed;
            actual_length = length (pack (bytes ms) ++ padding pad);
            buffer = pack (bytes ms) ++ padding pad;
          })
          b
        ≡ some (resubmit encode_byte seq_port (received ms b))
  midi_cb-pack ms pad b ok few small =
      rw (pack-bytes ms ok, take_all 16 ms few)
        (midi_cb_completed encode_byte seq_port (length (packets ms ++ padding pad))
          (packets ms ++ padding pad) b (received ms b)
          (ap (λ k. packet_loop encode_byte seq_port k (packets ms ++ padding pad) b) rounds
            ∙ packet_loop-packets ms (padding pad) pad b ok small
            ∙ packet_loop-padding encode_byte seq_port pad (received ms b)))
    where
      rounds : length (packets ms ++ padding pad) / 4 ≡ length ms + pad
      rounds =
          omega
            (arith, length-append (packets ms) (padding pad), length-packets ms, length-padding pad)
