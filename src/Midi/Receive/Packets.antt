-- ===== src/Midi/Receive/Packets.antt =====
-- One round of the parser's loop, at the packet of a message and at padding.
use djm_t1_linux.Base.{
  ℕ, zero, suc, ◌+◌, ◌*◌, ◌/◌, ◌%◌, ◌^◌, ◌<◌, ◌≤◌, ◌≡◌, ◌≢◌, refl, ap, Option, some, List, [], ◌∷◌,
  ◌++◌, arith, take, get_or, length, ◌==◌, Bool, true, passes, passes_at, ==_iff, ne→not-==,
}
use djm_t1_linux.Midi.Message.{
  Message, long, short, single, IsMessage, IsLong, IsShort, bytes_of, packet_of,
}
use djm_t1_linux.Midi.Send.{classify}
use djm_t1_linux.Midi.Send.Pack.{classify_long, classify_short}
use djm_t1_linux.Midi.Receive.{
  Bridge, resubmit, midi_cb, cin_len, low_nibble, emit_midi, handle_packet, packet_loop,
}
use djm_t1_linux.Usb.{TransferStatus}

-- The packer's `switch` and the parser's table agree: for every status byte's high nibble, the
-- table gives the packet that the `switch` labels the length that the `switch` takes.
pub classify-cin_len :
    (hi : ℕ) → 8 ≤ hi → hi < 16 → get_or cin_len (low_nibble (classify hi).1) 0 ≡ (classify hi).0
unfolding classify passes
classify-cin_len hi low high =
    (==_iff (get_or cin_len (low_nibble (classify hi).1) 0) (classify hi).0).0
      (passes_at 8 8 agree hi table low high)
  where
    agree : ℕ → Bool
    agree k = get_or cin_len (low_nibble (classify k).1) 0 == (classify k).0

    table : passes 8 8 agree ≡ true
    table = refl

-- The table's entries at the code index numbers of channel messages.
cin_len_long : (hi : ℕ) → IsLong hi → get_or cin_len (low_nibble hi) 0 ≡ 3
cin_len_long hi h = rw (classify_long hi h) at (classify-cin_len hi (omega arith) (omega arith))

cin_len_short : (hi : ℕ) → IsShort hi → get_or cin_len (low_nibble hi) 0 ≡ 2
cin_len_short hi h = rw (classify_short hi h) at (classify-cin_len hi (omega arith) (omega arith))

-- Packets of four zeros.
abbrev pub padding : ℕ → List ℕ
padding zero = []
padding (suc n) = 0 ∷ 0 ∷ 0 ∷ 0 ∷ padding n

pub length-padding : (n : ℕ) → length (padding n) ≡ 4 * n
length-padding zero = refl
length-padding (suc n) = omega (arith, length-padding n)

module _ {E Event : Type 0} (encode_byte : E → ℕ → E × Option Event) (seq_port : ℕ) where
  handle_full :
      (p0 p1 p2 p3 n : ℕ) (b : Bridge E Event)
      → p0 ≢ 0
      → get_or cin_len (low_nibble p0) 0 ≡ suc n
      → handle_packet encode_byte seq_port p0 p1 p2 p3 b
        ≡ emit_midi encode_byte seq_port
            (take (suc n) (p1 ∷ p2 ∷ p3 ∷ []))
            (record b { midi_msgs = (b.midi_msgs + 1) % 2 ^ 64 })
  unfolding handle_packet
  handle_full p0 p1 p2 p3 n b ne e = rw (ne→not-== p0 0 ne, e, ne→not-== (suc n) 0 (omega arith))

  pub packet_loop_message :
      (m : Message) (rest : List ℕ) (left : ℕ) (b : Bridge E Event)
      → IsMessage m
      → packet_loop encode_byte seq_port (suc left) (packet_of m ++ rest) b
        ≡ packet_loop encode_byte seq_port left rest (
            emit_midi encode_byte seq_port
              (bytes_of m)
              (record b { midi_msgs = (b.midi_msgs + 1) % 2 ^ 64 }))
  unfolding packet_loop
  packet_loop_message (long s x y) rest left b ok =
      ap (packet_loop encode_byte seq_port left rest)
        (handle_full (s / 16) s x y 2 b (omega arith) (cin_len_long (s / 16) ok))
  packet_loop_message (short s x) rest left b ok =
      ap (packet_loop encode_byte seq_port left rest)
        (handle_full (s / 16) s x 0 1 b (omega arith) (cin_len_short (s / 16) ok))
  packet_loop_message (single s) rest left b ok =
      ap (packet_loop encode_byte seq_port left rest) (handle_full 15 s 0 0 0 b (omega arith) refl)

  -- Padding is passed over.
  pub packet_loop-padding :
      (left : ℕ) (b : Bridge E Event)
      → packet_loop encode_byte seq_port left (padding left) b ≡ some b
  unfolding packet_loop handle_packet
  packet_loop-padding zero b = refl
  packet_loop-padding (suc left) b = packet_loop-padding left b

  -- A completed transfer without its loop.
  pub midi_cb_completed :
      (n : ℕ) (buf : List ℕ) (b b' : Bridge E Event)
      → packet_loop encode_byte seq_port (n / 4) buf b ≡ some b'
      → midi_cb encode_byte seq_port
          (record { status = TransferStatus.completed; actual_length = n; buffer = buf })
          b
        ≡ some (resubmit encode_byte seq_port b')
  unfolding midi_cb
  midi_cb_completed n buf b b' e = rw e
