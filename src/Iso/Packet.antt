-- ===== src/Iso/Packet.antt =====
-- One packet of `in_cb` against the queue of captured frames.
use djm_t1_linux.Base.{
  ℕ, suc, ◌-◌, ◌*◌, ◌/◌, ◌≤◌, ◌≡◌, refl, sym, ap, ◌∙◌, Option, none, some, List, [], ◌∷◌, ◌++◌,
  arith, ltb, leb, length, min, take, if◌then◌else◌, Bool-cases, inl, inr, le→not-ltb, le→leb,
  lt→not-leb, take-min, take_nil, eq_nil, lt→ltb, append-nil,
}
use native.Mathlib.Decide.{dec_lt}
use djm_t1_linux.Ring.{Ring, write}
use djm_t1_linux.Ring.Inv.{IsValid}
use djm_t1_linux.Ring.Window.{contents}
use djm_t1_linux.Ring.Queue
use djm_t1_linux.Ring.Refine.{room, write_refines}
use djm_t1_linux.Sample.{Floats, decode_frames}
use djm_t1_linux.Sample.Frames.{decode_frames_total}
use djm_t1_linux.Iso.{Engine, IsoPacket, in_max_frames, add_one, push_frames, in_packet}
use djm_t1_linux.Usb.{is_completed}

ltb-min : (n a : ℕ) → ltb (min n a) n ≡ ltb a n
ltb-min n a = ground arith

clipped :
    {A : Type 0} (nf : ℕ) (stay : Option A) (push : ℕ → Option A)
    → (if leb nf 0 then stay else push (if ltb in_max_frames nf then in_max_frames else nf))
      ≡ (if ltb 0 (min nf in_max_frames) then push (min nf in_max_frames) else stay)
clipped nf stay push = elim (dec_lt 0 nf) [
  | yes some_frames ↦
      rw (lt→not-leb nf 0 some_frames, lt→ltb 0 (min nf in_max_frames) (omega arith))
        (ap push (ground arith))
  | no none_left ↦ rw (le→leb nf 0 (omega arith), le→not-ltb 0 (min nf in_max_frames) (omega arith))
]

-- How many frames of a packet are used: none if it failed, and at most 56.
abbrev pub usable : IsoPacket → ℕ
usable d = if is_completed d.status then min (d.actual_length / 18) in_max_frames else 0

-- A packet's data lie in its part of the buffer.
abbrev pub InBuffer : IsoPacket → Type 0
InBuffer d = d.actual_length ≤ length d.bytes

module _ (fl : Floats) where
  open fl use {Float}

  abbrev pub or_nil : Option (List (List Float)) → List (List Float)
  or_nil none = []
  or_nil (some fs) = fs

  abbrev pub frames_of : IsoPacket → List (List Float)
  frames_of d = or_nil (decode_frames fl (usable d) d.bytes)

  -- The queue after packets in order: of each, the first frames that fit.
  unfoldable pub absorb : ℕ → List (List Float) → List IsoPacket → List (List Float)
  absorb n q [] = q
  absorb n q (d ∷ ds) = absorb n (q ++ take (n - length q) (frames_of d)) ds

  -- How many of the packets do not fit whole.
  unfoldable pub overruns : ℕ → List (List Float) → List IsoPacket → ℕ
  overruns n q [] = 0
  overruns n q (d ∷ ds) =
      let later = overruns n (q ++ take (n - length q) (frames_of d)) ds in
      if ltb (n - length q) (usable d) then suc later else later

  -- What a callback does to an engine: the ring and the counter of overruns change, nothing else.
  pub record Captured (e : Engine fl) (q : List (List Float)) (over : ℕ) (out : Option (Engine fl))
      : Type 0 where
    pub ring : Ring (List Float)
    pub returns : out ≡ some (record e { cap_ring = ring; cap_over = over })
    pub valid : IsValid ring
    pub same_cap : ring.cap ≡ e.cap_ring.cap
    pub holds : contents ring ≡ q

  push_frames-eq :
      (nf wrote : ℕ) (pkt : List ℕ) (e : Engine fl) (frames : List (List Float))
      (ring : Ring (List Float))
      → decode_frames fl nf pkt ≡ some frames
      → write e.cap_ring frames nf ≡ some (wrote, ring)
      → push_frames fl nf pkt e
        ≡ some (record e {
          cap_ring = ring;
          cap_over = if ltb wrote nf then add_one e.cap_over else e.cap_over;
        })
  unfolding push_frames
  push_frames-eq nf wrote pkt e frames ring decoded written = rw (decoded, written)

  push_frames-Captured :
      (nf : ℕ) (pkt : List ℕ) (e : Engine fl) (frames : List (List Float))
      → IsValid e.cap_ring
      → decode_frames fl nf pkt ≡ some frames
      → length frames ≡ nf
      → let q = contents e.cap_ring in
        Captured e
          (q ++ take (room e.cap_ring - length q) frames)
          (if ltb (room e.cap_ring - length q) nf then add_one e.cap_over else e.cap_over)
          (push_frames fl nf pkt e)
  unfolding Queue.write
  push_frames-Captured nf pkt e frames v decoded len =
      let w = write_refines e.cap_ring frames nf v (omega arith) in
      record {
        ring = w.ring;
        returns =
            push_frames-eq nf _ pkt e frames w.ring decoded w.returns
            ∙ ap
                (λ c. some (record e {
                  cap_ring = w.ring;
                  cap_over = if c then add_one e.cap_over else e.cap_over;
                }))
                (ltb-min nf (room e.cap_ring - length (contents e.cap_ring)));
        valid = w.valid;
        same_cap = w.same_cap;
        holds =
            w.holds
            ∙ ap (◌++◌ (contents e.cap_ring))
                (take-min nf (room e.cap_ring - length (contents e.cap_ring)) frames len);
      }

  usable_fits : (d : IsoPacket) → InBuffer d → usable d * 18 ≤ length d.bytes
  usable_fits d fits = ground arith

  in_packet-eq :
      (d : IsoPacket) (e : Engine fl)
      → in_packet fl d e
        ≡ (if ltb 0 (usable d) then push_frames fl (usable d) d.bytes e else some e)
  unfolding in_packet
  in_packet-eq d e = elim (Bool-cases (is_completed d.status)) [
    | inl good ↦ rw good (clipped (d.actual_length / 18) (some e) (λ n. push_frames fl n d.bytes e))
    | inr failed ↦ rw failed
  ]

  -- What `in_cb` does with one packet.
  pub in_packet-Captured :
      (d : IsoPacket) (e : Engine fl)
      → IsValid e.cap_ring
      → InBuffer d
      → let q = contents e.cap_ring in
        Captured e
          (q ++ take (room e.cap_ring - length q) (frames_of d))
          (if ltb (room e.cap_ring - length q) (usable d) then add_one e.cap_over else e.cap_over)
          (in_packet fl d e)
  in_packet-Captured d e v fits =
      let (fs, decoded', len', _) =
        decode_frames_total fl (usable d) d.bytes (usable_fits d fits) in
      let decoded : decode_frames fl (usable d) d.bytes ≡ some (frames_of d) =
        decoded' ∙ ap some (sym (ap or_nil decoded')) in
      let len : length (frames_of d) ≡ usable d = ap length (ap or_nil decoded') ∙ len' in
      elim (Bool-cases (ltb 0 (usable d))) [
        | inl used ↦
            let c = push_frames-Captured (usable d) d.bytes e (frames_of d) v decoded len in
            record {
              ring = c.ring;
              returns =
                  in_packet-eq d e
                  ∙ ap (λ b. if b then push_frames fl (usable d) d.bytes e else some e) used
                  ∙ c.returns;
              valid = c.valid;
              same_cap = c.same_cap;
              holds = c.holds;
            }
        | inr unused ↦
            let zero_used : usable d ≡ 0 = ground arith in
            record {
              ring = e.cap_ring;
              returns =
                  in_packet-eq d e
                  ∙ ap (λ b. if b then push_frames fl (usable d) d.bytes e else some e) unused
                  ∙ ap
                      (λ c.
                        some (record e { cap_over = if c then add_one e.cap_over else e.cap_over }))
                      (sym (
                        le→not-ltb (room e.cap_ring - length (contents e.cap_ring)) (usable d)
                          (omega arith)));
              valid = v;
              same_cap = refl;
              holds =
                  sym (append-nil (contents e.cap_ring))
                  ∙ ap (◌++◌ (contents e.cap_ring)) (
                      sym (take_nil (List Float) (room e.cap_ring - length (contents e.cap_ring)))
                      ∙ ap (take (room e.cap_ring - length (contents e.cap_ring)))
                          (sym (eq_nil (frames_of d) (len ∙ zero_used))));
            }
      ]
