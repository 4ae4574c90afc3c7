-- ===== src/Midi/Send/Pack.antt =====
-- What `send_to_device` sends of a stretch of whole messages.
use djm_t1_linux.Base.{
  ℕ, zero, suc, ◌+◌, ◌-◌, ◌*◌, ◌/◌, ◌≤◌, ◌<◌, ◌≡◌, refl, sym, ap, ◌∙◌, List, [], ◌∷◌, ◌++◌, arith,
  ltb, length, get_or, drop, take, All, take_nil, le→leb, le→not-ltb, lt→not-leb, lt→ltb,
  if◌then◌else◌,
}
use djm_t1_linux.Midi.Message.{
  Message, long, short, single, IsMessage, IsLong, IsShort, bytes, packets,
}
use djm_t1_linux.Midi.Send.{classify, pack_loop, pack, sizeof_pkt}

pub classify_long : (hi : ℕ) → IsLong hi → classify hi ≡ (3, hi)
unfolding classify
classify_long hi h = ground arith

pub classify_short : (hi : ℕ) → IsShort hi → classify hi ≡ (2, hi)
unfolding classify
classify_short hi h = ground arith

pub classify_single : (hi : ℕ) → hi ≡ 15 → classify hi ≡ (1, 15)
unfolding classify
classify_single hi h = ground arith

-- One round of the loop at a status byte.
round :
    (f pn s mlen cin : ℕ) (rest : List ℕ)
    → pn + 4 ≤ sizeof_pkt
    → 128 ≤ s
    → classify (s / 16) ≡ (mlen, cin)
    → pack_loop (suc f) pn (s ∷ rest)
      ≡ cin
        ∷ s
        ∷ (if ltb 1 mlen then get_or rest 0 0 else 0)
        ∷ (if ltb 2 mlen then get_or rest 1 0 else 0)
        ∷ pack_loop f (pn + 4) (drop (mlen - 1) rest)
unfolding pack_loop
round f pn s mlen cin rest room status e =
    rw (e, le→leb (pn + 4) sizeof_pkt room, le→not-ltb s 128 status)

pkt_full : (f pn s : ℕ) (rest : List ℕ) → sizeof_pkt < pn + 4 → pack_loop (suc f) pn (s ∷ rest) ≡ []
unfolding pack_loop
pkt_full f pn s rest full = rw (lt→not-leb (pn + 4) sizeof_pkt full)

nothing_left : (f pn : ℕ) → pack_loop f pn [] ≡ []
unfolding pack_loop
nothing_left zero pn = refl
nothing_left (suc f) pn = refl

-- `k` packets fit.
pack_loop-bytes :
    (f pn k : ℕ) (ms : List Message)
    → All IsMessage ms
    → length (bytes ms) ≤ f
    → pn + 4 * k ≤ sizeof_pkt
    → sizeof_pkt < pn + 4 * k + 4
    → pack_loop f pn (bytes ms) ≡ packets (take k ms)
pack_loop-bytes f pn k [] ok enough fits full =
    nothing_left f pn ∙ sym (ap packets (take_nil Message k))
pack_loop-bytes zero pn k (long s a b ∷ ms) ok enough fits full = absurd (omega arith)
pack_loop-bytes zero pn k (short s a ∷ ms) ok enough fits full = absurd (omega arith)
pack_loop-bytes zero pn k (single s ∷ ms) ok enough fits full = absurd (omega arith)
pack_loop-bytes (suc f) pn zero (long s a b ∷ ms) ok enough fits full =
    pkt_full f pn s _ (omega arith)
pack_loop-bytes (suc f) pn zero (short s a ∷ ms) ok enough fits full =
    pkt_full f pn s _ (omega arith)
pack_loop-bytes (suc f) pn zero (single s ∷ ms) ok enough fits full =
    pkt_full f pn s _ (omega arith)
pack_loop-bytes (suc f) pn (suc k) (long s a b ∷ ms) ok enough fits full =
    round f pn s 3 (s / 16) (a ∷ b ∷ bytes ms) (omega arith) (omega arith)
      (classify_long (s / 16) ok.0)
    ∙ ap (λ more. (s / 16) ∷ s ∷ a ∷ b ∷ more)
        (pack_loop-bytes f (pn + 4) k ms ok.1 (omega arith) (omega arith) (omega arith))
pack_loop-bytes (suc f) pn (suc k) (short s a ∷ ms) ok enough fits full =
    round f pn s 2 (s / 16) (a ∷ bytes ms) (omega arith) (omega arith)
      (classify_short (s / 16) ok.0)
    ∙ ap (λ more. (s / 16) ∷ s ∷ a ∷ 0 ∷ more)
        (pack_loop-bytes f (pn + 4) k ms ok.1 (omega arith) (omega arith) (omega arith))
pack_loop-bytes (suc f) pn (suc k) (single s ∷ ms) ok enough fits full =
    round f pn s 1 15 (bytes ms) (omega arith) (omega arith)
      (classify_single (s / 16) (omega arith))
    ∙ ap (λ more. 15 ∷ s ∷ 0 ∷ 0 ∷ more)
        (pack_loop-bytes f (pn + 4) k ms ok.1 (omega arith) (omega arith) (omega arith))

-- Of a stretch of whole messages the first sixteen are packed, each in the packet of its kind.
pub pack-bytes : (ms : List Message) → All IsMessage ms → pack (bytes ms) ≡ packets (take 16 ms)
unfolding pack
pack-bytes ms ok =
    pack_loop-bytes (length (bytes ms)) 0 16 ms ok (omega arith) (omega arith) (omega arith)

-- Data bytes that stand in front of the first status byte are dropped.
pub pack_stray : (stray midi : List ℕ) → All (λ x. x < 128) stray → pack (stray ++ midi) ≡ pack midi
unfolding pack
pack_stray [] midi ok = refl
pack_stray (x ∷ stray) midi ok = skip ∙ pack_stray stray midi ok.1
  where
    skip :
        pack_loop (suc (length (stray ++ midi))) 0 (x ∷ stray ++ midi)
        ≡ pack_loop (length (stray ++ midi)) 0 (stray ++ midi)
    skip = rw (lt→ltb x 128 ok.0)
