-- ===== src/Midi/Globals/Quiet.antt =====
-- What is still to come when no transfer is submitted again.
use djm_t1_linux.Base.{
  ℕ, suc, ◌-◌, ◌≡◌, refl, ap, ◌∙◌, ◌&&◌, not, Bool, true, false, List, [], ◌∷◌, arith,
}
use djm_t1_linux.Midi.Globals.{Pending, Completion}
use djm_t1_linux.Midi.Globals.Effects.{all_taken}

-- The callback of the bulk transfer is among these, that of the interrupt transfer is, and how many
-- of isochronous transfers are.
abbrev pub midi_comes : List Completion → Bool
midi_comes [] = false
midi_comes (Completion.midi t takes ∷ cs) = true
midi_comes (c ∷ cs) = midi_comes cs

abbrev pub hid_comes : List Completion → Bool
hid_comes [] = false
hid_comes (Completion.hid t takes ∷ cs) = true
hid_comes (c ∷ cs) = hid_comes cs

abbrev pub audio_comes : List Completion → ℕ
audio_comes [] = 0
audio_comes (Completion.audio status takes ∷ cs) = suc (audio_comes cs)
audio_comes (c ∷ cs) = audio_comes cs

and_true : (b : Bool) → (b && true) ≡ b
and_true true = refl
and_true false = refl

and_false : (b : Bool) → (b && false) ≡ false
and_false true = refl
and_false false = refl

pub all_taken-eq :
    (cs : List Completion) (p : Pending)
    → all_taken cs p ≡ record {
      midi = p.midi && not (midi_comes cs);
      hid = p.hid && not (hid_comes cs);
      audio = p.audio - audio_comes cs;
    }
all_taken-eq [] p =
    rw (and_true p.midi, and_true p.hid)
      (let same : p.audio ≡ p.audio - 0 = omega arith in ap (λ n. record p { audio = n }) same)
all_taken-eq (Completion.midi t takes ∷ cs) p = all_taken-eq cs _ ∙ rw (and_false p.midi) refl
all_taken-eq (Completion.hid t takes ∷ cs) p = all_taken-eq cs _ ∙ rw (and_false p.hid) refl
all_taken-eq (Completion.audio status takes ∷ cs) p =
    all_taken-eq cs _
    ∙ (let same : p.audio - 1 - audio_comes cs ≡ p.audio - suc (audio_comes cs) = omega arith in
        ap
          (λ n. record {
            midi = p.midi && not (midi_comes cs);
            hid = p.hid && not (hid_comes cs);
            audio = n;
          })
          same)
all_taken-eq (Completion.signal ∷ cs) p = all_taken-eq cs p
