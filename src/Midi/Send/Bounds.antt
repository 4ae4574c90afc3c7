-- ===== src/Midi/Send/Bounds.antt =====
-- `send_to_device` stays inside `pkt`, and does not depend on the loop's fuel.
use djm_t1_linux.Base.{
  ℕ, zero, suc, ◌+◌, ◌-◌, ◌/◌, ◌%◌, ◌≤◌, ◌≡◌, refl, List, [], ◌∷◌, arith, ltb, leb, length, drop,
  length-drop, Bool-cases, inl, inr,
}
use djm_t1_linux.Midi.Send.{classify, pack_loop, pack, sizeof_pkt}

-- With fuel for every byte left, more fuel changes nothing.
pub pack_loop-fuel :
    (f g pn : ℕ) (midi : List ℕ)
    → length midi ≤ f
    → length midi ≤ g
    → pack_loop f pn midi ≡ pack_loop g pn midi
unfolding pack_loop
pack_loop-fuel zero zero pn [] p q = refl
pack_loop-fuel zero (suc g) pn [] p q = refl
pack_loop-fuel (suc f) zero pn [] p q = refl
pack_loop-fuel (suc f) (suc g) pn [] p q = refl
pack_loop-fuel zero g pn (s ∷ midi) p q = absurd (omega arith)
pack_loop-fuel (suc f) zero pn (s ∷ midi) p q = absurd (omega arith)
pack_loop-fuel (suc f) (suc g) pn (s ∷ midi) p q =
    let m = (classify (s / 16)).0 - 1 in
    rw (
      pack_loop-fuel f g pn midi (omega arith) (omega arith),
      pack_loop-fuel f g (pn + 4) (drop m midi) (omega (arith, length-drop m midi))
          (omega (arith, length-drop m midi)),
    )

-- Whole packets, within `pkt`.
pub pack_loop-length :
    (f pn : ℕ) (midi : List ℕ)
    → pn ≤ sizeof_pkt
    → (pn + length (pack_loop f pn midi) ≤ sizeof_pkt) × (length (pack_loop f pn midi) % 4 ≡ 0)
unfolding pack_loop
pack_loop-length zero pn midi h = omega arith
pack_loop-length (suc f) pn [] h = omega arith
pack_loop-length (suc f) pn (s ∷ midi) h = elim (Bool-cases (leb (pn + 4) sizeof_pkt)) [
  | inl fits ↦ elim (Bool-cases (ltb s 0x80)) [
    | inl data_byte ↦ rw (fits, data_byte) (pack_loop-length f pn midi h)
    | inr status ↦
        rw (fits, status)
          (omega (
            arith,
            pack_loop-length f (pn + 4) (drop ((classify (s / 16)).0 - 1) midi) (ground arith),
          ))
  ]
  | inr full ↦ rw full (omega arith)
]

-- What goes to the mixer is whole packets, sixteen at most, whatever the bytes: `pkt[64]` does not
-- overflow.
pub pack-length : (midi : List ℕ) → (length (pack midi) ≤ sizeof_pkt) × (length (pack midi) % 4 ≡ 0)
unfolding pack
pack-length midi = omega (arith, pack_loop-length (length midi) 0 midi (omega arith))
