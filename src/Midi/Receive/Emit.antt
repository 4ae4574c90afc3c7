-- ===== src/Midi/Receive/Emit.antt =====
-- `emit_midi` goes byte by byte, and leaves the counter and the flags alone.
use djm_t1_linux.Base.{ℕ, ◌≡◌, refl, Option, List, [], ◌∷◌, ◌++◌}
use djm_t1_linux.Midi.Receive.{Bridge, emit_midi, output_direct}

module _ {E Event : Type 0} (encode_byte : E → ℕ → E × Option Event) (seq_port : ℕ) where
  pub emit_midi-nil : (b : Bridge E Event) → emit_midi encode_byte seq_port [] b ≡ b
  unfolding emit_midi
  emit_midi-nil b = refl

  pub emit_midi-append :
      (xs ys : List ℕ) (b : Bridge E Event)
      → emit_midi encode_byte seq_port (xs ++ ys) b
        ≡ emit_midi encode_byte seq_port ys (emit_midi encode_byte seq_port xs b)
  unfolding emit_midi
  emit_midi-append [] ys b = refl
  emit_midi-append (x ∷ xs) ys b =
      let (e, ev) = encode_byte b.encoder x in
      emit_midi-append xs ys
        (record b { encoder = e; output = output_direct encode_byte seq_port ev b.output })

  -- The count of messages passes through.
  pub emit_midi-msgs :
      (xs : List ℕ) (k : ℕ) (b : Bridge E Event)
      → emit_midi encode_byte seq_port xs (record b { midi_msgs = k })
        ≡ record (emit_midi encode_byte seq_port xs b) { midi_msgs = k }
  unfolding emit_midi
  emit_midi-msgs [] k b = refl
  emit_midi-msgs (x ∷ xs) k b =
      let (e, ev) = encode_byte b.encoder x in
      emit_midi-msgs xs k
        (record b { encoder = e; output = output_direct encode_byte seq_port ev b.output })

  pub emit_midi-keeps :
      (xs : List ℕ) (b : Bridge E Event)
      → ((emit_midi encode_byte seq_port xs b).midi_msgs ≡ b.midi_msgs)
        × ((emit_midi encode_byte seq_port xs b).running ≡ b.running)
        × ((emit_midi encode_byte seq_port xs b).do_quit ≡ b.do_quit)
  unfolding emit_midi
  emit_midi-keeps [] b = (refl, refl, refl)
  emit_midi-keeps (x ∷ xs) b =
      let (e, ev) = encode_byte b.encoder x in
      emit_midi-keeps xs
        (record b { encoder = e; output = output_direct encode_byte seq_port ev b.output })
