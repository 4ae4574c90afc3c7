-- ===== src/Midi/Receive/Total.antt =====
-- `midi_cb` on every transfer.
use djm_t1_linux.Base.{
  ℕ, zero, suc, ◌+◌, ◌*◌, ◌/◌, ◌^◌, ◌%◌, ◌≤◌, ◌≡◌, refl, ◌∙◌, ◌&&◌, ◌||◌, not, Bool, true, false,
  Option, some, List, [], ◌∷◌, arith, length, ◌==◌, if◌then◌else◌, take, get_or,
}
use djm_t1_linux.Midi.Receive.{
  Bridge, Transfer, emit_midi, handle_packet, packet_loop, midi_cb_status, midi_cb, cin_len,
  low_nibble,
}
use djm_t1_linux.Midi.Receive.Emit.{emit_midi-keeps}
use djm_t1_linux.Usb.{TransferStatus, is_no_device}

module _ {E Event : Type 0} (encode_byte : E → ℕ → E × Option Event) (seq_port : ℕ) where
  pub record SameFlags (b b' : Bridge E Event) : Type 0 where
    pub running : b'.running ≡ b.running
    pub do_quit : b'.do_quit ≡ b.do_quit

  if-SameFlags :
      (c : Bool) {b x y : Bridge E Event}
      → SameFlags b x
      → SameFlags b y
      → SameFlags b (if c then x else y)
  if-SameFlags true p q = p
  if-SameFlags false p q = q

  pub handle_packet-SameFlags :
      (p0 p1 p2 p3 : ℕ) (b : Bridge E Event)
      → SameFlags b (handle_packet encode_byte seq_port p0 p1 p2 p3 b)
  unfolding handle_packet
  handle_packet-SameFlags p0 p1 p2 p3 b =
      if-SameFlags (p0 == 0 && p1 == 0 && p2 == 0 && p3 == 0) same (
        if-SameFlags (get_or cin_len (low_nibble p0) 0 == 0) same
          (record { running = emitted.1; do_quit = emitted.2 }))
    where
      same : SameFlags b b
      same = record { running = refl; do_quit = refl }

      payload : List ℕ
      payload = take (get_or cin_len (low_nibble p0) 0) (p1 ∷ p2 ∷ p3 ∷ [])

      counted : Bridge E Event
      counted = record b { midi_msgs = (b.midi_msgs + 1) % 2 ^ 64 }

      emitted :
          ((emit_midi encode_byte seq_port payload counted).midi_msgs ≡ counted.midi_msgs)
          × ((emit_midi encode_byte seq_port payload counted).running ≡ b.running)
          × ((emit_midi encode_byte seq_port payload counted).do_quit ≡ b.do_quit)
      emitted = emit_midi-keeps encode_byte seq_port payload counted

  -- With four bytes for each round the loop faults nowhere, and keeps the flags.
  pub packet_loop_total :
      (left : ℕ) (p : List ℕ) (b : Bridge E Event)
      → 4 * left ≤ length p
      → (b' : Bridge E Event) × (packet_loop encode_byte seq_port left p b ≡ some b')
        × SameFlags b b'
  unfolding packet_loop
  packet_loop_total zero p b h = (b, refl, record { running = refl; do_quit = refl })
  packet_loop_total (suc left) [] b h = absurd (omega arith)
  packet_loop_total (suc left) (p0 ∷ []) b h = absurd (omega arith)
  packet_loop_total (suc left) (p0 ∷ p1 ∷ []) b h = absurd (omega arith)
  packet_loop_total (suc left) (p0 ∷ p1 ∷ p2 ∷ []) b h = absurd (omega arith)
  packet_loop_total (suc left) (p0 ∷ p1 ∷ p2 ∷ p3 ∷ p) b h =
      let now = handle_packet-SameFlags p0 p1 p2 p3 b in
      let (b', e, later) =
        packet_loop_total left p (handle_packet encode_byte seq_port p0 p1 p2 p3 b) (omega arith) in
      (
        b',
        e,
        record { running = later.running ∙ now.running; do_quit = later.do_quit ∙ now.do_quit },
      )

  -- On a transfer of any status whose data lie in its buffer, `midi_cb` does not fault; it asks for
  -- the next transfer exactly when the bridge runs and is not quitting; and it begins to quit
  -- exactly when the device has gone.
  pub midi_cb_total :
      (t : Transfer) (b : Bridge E Event)
      → t.actual_length ≤ length t.buffer
      → (b' : Bridge E Event) × (midi_cb encode_byte seq_port t b
          ≡ some (b', b'.running && not b'.do_quit))
        × (b'.running ≡ b.running)
        × (b'.do_quit ≡ (is_no_device t.status || b.do_quit))
  unfolding midi_cb
  midi_cb_total t b h = by_status t.status
    where
      by_status :
          (s : TransferStatus)
          → (b' : Bridge E Event) × (midi_cb_status encode_byte seq_port s t b
              ≡ some (b', b'.running && not b'.do_quit))
            × (b'.running ≡ b.running)
            × (b'.do_quit ≡ (is_no_device s || b.do_quit))
      by_status TransferStatus.completed =
          let (b', e, same) = packet_loop_total (t.actual_length / 4) t.buffer b (omega arith) in
          (b', rw e, same.running, same.do_quit)
      by_status TransferStatus.no_device = (record b { do_quit = true }, ground arith, refl, refl)
      by_status TransferStatus.error = (b, refl, refl, refl)
      by_status TransferStatus.timed_out = (b, refl, refl, refl)
      by_status TransferStatus.cancelled = (b, refl, refl, refl)
      by_status TransferStatus.stall = (b, refl, refl, refl)
      by_status TransferStatus.overflow = (b, refl, refl, refl)
