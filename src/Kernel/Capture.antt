-- ===== src/Kernel/Capture.antt =====
-- `djmt1_in_complete` against the ring of captured frames.
use djm_t1_linux.Base.{
  ℕ, ◌+◌, ◌*◌, ◌/◌, ◌%◌, ◌≤◌, ◌<◌, ◌≡◌, ◌≢◌, refl, sym, ap, ◌∙◌, ◌||◌, true, not, none, some, List,
  [], ◌∷◌, ◌++◌, arith, length, length-append, length-take, get_elem?, take, if◌then◌else◌,
  append-nil, append_assoc, All, Bool-cases, inl, inr, ltb, some_eq,
}
use native.Mathlib.Nat.{mod-add-mod, mod-eq_of_lt, add-zero}
use djm_t1_linux.Base.Int.{ℤ, pos}
use djm_t1_linux.Ring.Window.{window}
use djm_t1_linux.Ring.Copy.{copy_in-Filled}
use djm_t1_linux.Kernel.{
  Stream, Packet, nonzero, frame_bytes, frames_per_pkt, pkt_bytes, advance, transfer, in_packets,
  in_complete, layout,
}
use djm_t1_linux.Kernel.Copy.{copy_loop_capture, copy_in-keeps}
use djm_t1_linux.Kernel.Period.{HwParams, IsValid, advance-IsValid, advance_hwptr, advance_periods}

-- How many frames of a packet are used: none if it failed.
abbrev pub usable {ℓ} : {A : Type ℓ} → Packet A → ℕ
usable p =
    if nonzero p.status || ltb p.actual_length frame_bytes then 0 else p.actual_length / frame_bytes

-- A packet's place has 48 frames, and its length does not pass the place's end.
pub record InPlace {ℓ} {A : Type ℓ} (p : Packet A) : Type ℓ where
  pub whole : length p.frames ≡ frames_per_pkt
  pub fits : p.actual_length ≤ pkt_bytes

-- The frames of the packets that did not fail, in order.
abbrev pub captured {ℓ} : {A : Type ℓ} → List (Packet A) → List A
captured [] = []
captured (p ∷ ps) = take (usable p) p.frames ++ captured ps

module _ {ℓ} {A : Type ℓ} (size period : ℕ) where
  -- `t` is `s` with the frames `fs` captured, `n` frames behind the place `h` in the ring.
  pub record Captured (h n : ℕ) (fs : List A) (s t : Stream A) : Type ℓ where
    pub valid : IsValid size period t
    pub hwptr_at : t.hwptr ≡ (h + (n + length fs)) % size
    pub same_running : t.running ≡ s.running
    pub counted : t.periods * period + t.period_pos ≡ s.periods * period + s.period_pos + length fs
    pub holds : window t.dma_area size h (n + length fs) ≡ window s.dma_area size h n ++ fs
    pub keeps :
        (k : ℕ)
        → ((j : ℕ) → n ≤ j → j < n + length fs → (h + j) % size ≢ k)
        → get_elem? t.dma_area k ≡ get_elem? s.dma_area k

  Captured-nothing :
      (h n : ℕ) (s : Stream A)
      → IsValid size period s
      → s.hwptr ≡ (h + n) % size
      → Captured h n [] s s
  Captured-nothing h n s v at_h = record {
    valid = v;
    hwptr_at = at_h ∙ ap (λ k. (h + k) % size) (sym (add-zero n));
    same_running = refl;
    counted = omega arith;
    holds = ap (window s.dma_area size h) (add-zero n) ∙ sym (append-nil _);
    keeps = λ k apart. refl;
  }

  Captured-more :
      (h n : ℕ) (fs gs : List A) (s t u : Stream A)
      → Captured h n fs s t
      → Captured h (n + length fs) gs t u
      → Captured h n (fs ++ gs) s u
  Captured-more h n fs gs s t u c d =
      let both : n + length (fs ++ gs) ≡ n + length fs + length gs =
        omega (arith, length-append fs gs) in
      record {
        valid = d.valid;
        hwptr_at = d.hwptr_at ∙ ap (λ k. (h + k) % size) (sym both);
        same_running = d.same_running ∙ c.same_running;
        counted = omega (arith, c.counted, d.counted, length-append fs gs);
        holds =
            ap (window u.dma_area size h) both
            ∙ d.holds
            ∙ ap (λ l. l ++ gs) c.holds
            ∙ append_assoc (window s.dma_area size h n) fs gs;
        keeps = λ k apart.
            d.keeps k (λ j lo hi. apart j (omega arith) (omega (arith, both)))
            ∙ c.keeps k (λ j lo hi. apart j lo (omega (arith, both)));
      }

  transfer_capture :
      (h n m : ℕ) (s : Stream A) (pkt : List A)
      → HwParams size period
      → IsValid size period s
      → m ≤ frames_per_pkt
      → m ≤ length pkt
      → s.hwptr ≡ (h + n) % size
      → n + m ≤ size
      → (t : Stream A) × (transfer size period true m pkt s ≡ some (t, pkt))
        × Captured h n (take m pkt) s t
  unfolding transfer
  transfer_capture h n m s pkt hw v few enough at_h fits =
      let f =
        copy_in-Filled size s.hwptr h pkt m 0 n s.dma_area v.storage
          (ap (λ k. k % size) (add-zero s.hwptr) ∙ small_hwptr) fits (omega arith) in
      let (b, r, same) =
        copy_in-keeps size s.hwptr m 0 s.dma_area pkt v.storage (omega (arith, v.hwptr_in))
          (omega arith) in
      let eq : f.buf' ≡ b = some_eq (sym f.returns ∙ r) in
      let filled : Stream A = record s { dma_area = f.buf' } in
      let vf : IsValid size period filled = record {
        storage = f.same_length;
        hwptr_in = v.hwptr_in;
        period_pos_in = v.period_pos_in;
      } in
      (
        advance size period m filled,
        rw (
          copy_loop_capture size s.hwptr m 0 s.dma_area pkt
              (omega (arith, v.hwptr_in, hw.buffer_bytes_max)),
          f.returns,
        ),
        record {
          valid = advance-IsValid size period m filled hw vf few;
          hwptr_at =
              advance_hwptr size period m filled hw vf few
              ∙ place m
              ∙ ap (λ k. (h + (n + k)) % size) (sym len);
          same_running = refl;
          counted = omega (arith, advance_periods size period m filled hw vf few, len);
          holds = ap (λ k. window f.buf' size h (n + k)) len ∙ f.frames;
          keeps = λ k apart.
              ap (λ l. get_elem? l k) eq
              ∙ same k (λ j lo hi q.
                apart (n + j) (omega arith) (omega (arith, len)) (sym (place j) ∙ q));
        },
      )
    where
      len : length (take m pkt) ≡ m
      len = omega (arith, length-take m pkt)

      place : (j : ℕ) → (s.hwptr + j) % size ≡ (h + (n + j)) % size
      place j =
          ap (λ k. (k + j) % size) at_h
          ∙ mod-add-mod (h + n) size j
          ∙ ap (λ k. k % size) (omega arith)

      small_hwptr : s.hwptr % size ≡ (h + n) % size
      small_hwptr = mod-eq_of_lt v.hwptr_in ∙ at_h

  packet-Captured :
      (h n : ℕ) (p : Packet A) (s : Stream A)
      → HwParams size period
      → IsValid size period s
      → InPlace p
      → s.hwptr ≡ (h + n) % size
      → n + usable p ≤ size
      → (t : Stream A) × ((if nonzero p.status || ltb p.actual_length frame_bytes
            then some (s, p.frames)
            else transfer size period true (p.actual_length / frame_bytes) p.frames s)
          ≡ some (t, p.frames))
        × Captured h n (take (usable p) p.frames) s t
  packet-Captured h n p s hw v ok at_h fits =
      elim (Bool-cases (nonzero p.status || ltb p.actual_length frame_bytes)) [
        | inl bad ↦ rw bad (s, refl, Captured-nothing h n s v at_h)
        | inr good ↦ rw good (
            transfer_capture h n (p.actual_length / frame_bytes) s p.frames hw v
              (omega (arith, ok.fits)) (omega (arith, ok.fits, ok.whole)) at_h (rw good at fits))
      ]

  in_packets-Captured :
      (h n : ℕ) (ps : List (Packet A)) (s : Stream A)
      → HwParams size period
      → IsValid size period s
      → All InPlace ps
      → s.hwptr ≡ (h + n) % size
      → n + length (captured ps) ≤ size
      → (t : Stream A) × (in_packets size period ps s ≡ some t) × Captured h n (captured ps) s t
  unfolding in_packets
  in_packets-Captured h n [] s hw v ok at_h fits = (s, refl, Captured-nothing h n s v at_h)
  in_packets-Captured h n (p ∷ ps) s hw v ok at_h fits =
      let fs = take (usable p) p.frames in
      let few : usable p ≤ frames_per_pkt = ground (arith, ok.0.fits) in
      let len : length fs ≡ usable p = omega (arith, length-take (usable p) p.frames, ok.0.whole) in
      let joined = length-append fs (captured ps) in
      let (t, r, c) = packet-Captured h n p s hw v ok.0 at_h (omega arith) in
      let (u, r', d) =
        in_packets-Captured h (n + length fs) ps t hw c.valid ok.1
          (c.hwptr_at ∙ ap (λ k. k % size) (omega arith)) (omega arith) in
      (u, rw r r', Captured-more h n fs (captured ps) s t u c d)

  in_complete_runs :
      (ps : List (Packet A)) (s t : Stream A)
      → s.running ≡ true
      → t.running ≡ true
      → in_packets size period ps s ≡ some t
      → in_complete size period (pos 0) ps s ≡ some (t, some (layout (length ps) 0))
  unfolding in_complete
  in_complete_runs ps s t on on' r = simp (on, r, on')

  -- A capture URB that completes while its stream runs is copied without a fault, if its frames go
  -- into the ring once: the frames of the packets that did not fail stand in the ring, in order,
  -- from the hardware pointer on, and no other slot changes; the pointer moves on behind them; a
  -- period is reported for each boundary that is crossed, none twice and none left out; and the URB
  -- is submitted again with its descriptors reset.
  pub in_complete-captured :
      (ps : List (Packet A)) (s : Stream A)
      → HwParams size period
      → IsValid size period s
      → s.running ≡ true
      → All InPlace ps
      → length (captured ps) ≤ size
      → let n = length (captured ps) in
        (t : Stream A) × (in_complete size period (pos 0) ps s
          ≡ some (t, some (layout (length ps) 0)))
        × IsValid size period t
        × (t.hwptr ≡ (s.hwptr + n) % size)
        × (t.periods * period + t.period_pos ≡ s.periods * period + s.period_pos + n)
        × (window t.dma_area size s.hwptr n ≡ captured ps)
        × ((k : ℕ)
            → ((j : ℕ) → j < n → (s.hwptr + j) % size ≢ k)
            → get_elem? t.dma_area k ≡ get_elem? s.dma_area k)
  in_complete-captured ps s hw v on ok fits =
      let n = length (captured ps) in
      let start : s.hwptr ≡ (s.hwptr + 0) % size =
        sym (ap (λ k. k % size) (add-zero s.hwptr) ∙ mod-eq_of_lt v.hwptr_in) in
      let (t, r, c) = in_packets-Captured s.hwptr 0 ps s hw v ok start (omega arith) in
      let all : 0 + n ≡ n = omega arith in
      (
        t,
        in_complete_runs ps s t on (c.same_running ∙ on) r,
        c.valid,
        c.hwptr_at ∙ ap (λ k. (s.hwptr + k) % size) all,
        c.counted,
        ap (window t.dma_area size s.hwptr) (sym all) ∙ c.holds,
        λ k apart. c.keeps k (λ j lo hi. apart j (omega arith)),
      )

  -- A URB that failed, or that completes after its stream has stopped, leaves the stream alone; it
  -- is submitted again exactly if the stream runs.
  pub in_complete_skipped :
      (status : ℤ) (ps : List (Packet A)) (s : Stream A)
      → (not s.running || nonzero status) ≡ true
      → in_complete size period status ps s
        ≡ some (s, if s.running then some (layout (length ps) 0) else none)
  unfolding in_complete
  in_complete_skipped status ps s skipped = rw skipped
