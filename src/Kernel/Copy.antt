-- ===== src/Kernel/Copy.antt =====
-- The loop of `djmt1_transfer` against the frames that follow the hardware pointer in the ring.
use djm_t1_linux.Base.{
  ℕ, zero, suc, ◌+◌, ◌%◌, ◌^◌, ◌≤◌, ◌<◌, ◌≡◌, ◌≢◌, refl, sym, ap, ◌∙◌, true, false, some, List, [],
  ◌∷◌, ◌++◌, arith, length, length-append, get_elem?, store, ◌>>=◌, Option-cases, inl, inr,
  append_assoc, store-eq-set, get_elem?-set_ne, set, get_elem?-lt, length-set,
}
use djm_t1_linux.Ring.{copy_in}
use djm_t1_linux.Ring.Copy.{copy_in-suc}
use djm_t1_linux.Ring.Window.{window, window-cons}
use djm_t1_linux.Kernel.{add32, copy_loop}
use native.Mathlib.Nat.{mod-lt}

module _ {ℓ} {A : Type ℓ} where
  -- While nothing wraps at 32 bits, capture copies as `ring_write`'s loop does.
  pub copy_loop_capture :
      (size hwptr left i : ℕ) (dma pkt : List A)
      → hwptr + (i + left) < 2 ^ 32
      → copy_loop size true hwptr left i dma pkt
        ≡ (copy_in size hwptr pkt left i dma >>= λ b. some (b, pkt))
  unfolding copy_loop copy_in
  copy_loop_capture size hwptr zero i dma pkt small = refl
  copy_loop_capture size hwptr (suc left) i dma pkt small =
      let plain : add32 hwptr i ≡ hwptr + i = omega arith in
      elim (Option-cases (get_elem? pkt i)) [
        | inl e ↦ rw e
        | inr (x, e) ↦ elim (Option-cases (store dma ((hwptr + i) % size) x)) [
          | inl f ↦ rw (e, plain, f)
          | inr (b, f) ↦
              rw (e, plain, f) (copy_loop_capture size hwptr left (i + 1) b pkt (omega arith))
        ]
      ]

  store_next :
      (before after : List A) (y x : A) (i : ℕ)
      → length before ≡ i
      → store (before ++ (y ∷ after)) i x ≡ some (before ++ (x ∷ after))
  store_next [] after y x zero e = refl
  store_next [] after y x (suc i) e = absurd (omega arith)
  store_next (b ∷ before) after y x zero e = absurd (omega arith)
  store_next (b ∷ before) after y x (suc i) e = rw (store_next before after y x i (omega arith))

  playback_round :
      (size hwptr left i : ℕ) (dma pkt pkt' : List A) (x : A)
      → hwptr + i < 2 ^ 32
      → get_elem? dma ((hwptr + i) % size) ≡ some x
      → store pkt i x ≡ some pkt'
      → copy_loop size false hwptr (suc left) i dma pkt
        ≡ copy_loop size false hwptr left (i + 1) dma pkt'
  unfolding copy_loop
  playback_round size hwptr left i dma pkt pkt' x small g s =
      let plain : add32 hwptr i ≡ hwptr + i = omega arith in rw (plain, g, s)

  -- Playback stores the frames that follow the hardware pointer at the places of `old`.
  pub copy_loop_playback :
      (size hwptr i : ℕ) (dma before old after : List A)
      → length dma ≡ size
      → 0 < size
      → length before ≡ i
      → hwptr + (i + length old) < 2 ^ 32
      → copy_loop size false hwptr (length old) i dma (before ++ (old ++ after))
        ≡ some (dma, before ++ (window dma size (hwptr + i) (length old) ++ after))
  unfolding copy_loop
  copy_loop_playback size hwptr i dma before [] after e p at_i small = refl
  copy_loop_playback size hwptr i dma before (y ∷ old) after e p at_i small =
      let (x, g, c) = window-cons dma size (hwptr + i) (length old) e p in
      let shift : hwptr + (i + 1) ≡ hwptr + i + 1 = omega arith in
      playback_round size hwptr (length old) i dma (before ++ (y ∷ (old ++ after)))
        (before ++ (x ∷ (old ++ after))) x (omega arith) g
        (store_next before (old ++ after) y x i at_i)
      ∙ ap (copy_loop size false hwptr (length old) (i + 1) dma)
          (sym (append_assoc before (x ∷ []) (old ++ after)))
      ∙ copy_loop_playback size hwptr (i + 1) dma (before ++ (x ∷ [])) old after e p
          (omega (arith, length-append before (x ∷ []))) (omega arith)
      ∙ ap (λ l. some (dma, l))
          (append_assoc before (x ∷ []) _
            ∙ ap (λ k. before ++ (x ∷ (window dma size k (length old) ++ after))) shift)
      ∙ ap (λ l. some (dma, before ++ (l ++ after))) (sym c)

  -- Capture leaves the other slots of the ring alone.
  pub copy_in-keeps :
      (size hwptr left i : ℕ) (dma pkt : List A)
      → length dma ≡ size
      → 0 < size
      → i + left ≤ length pkt
      → (b : List A) × (copy_in size hwptr pkt left i dma ≡ some b)
        × ((k : ℕ)
            → ((j : ℕ) → i ≤ j → j < i + left → (hwptr + j) % size ≢ k)
            → get_elem? b k ≡ get_elem? dma k)
  unfolding copy_in
  copy_in-keeps size hwptr zero i dma pkt e p enough = (dma, refl, λ k apart. refl)
  copy_in-keeps size hwptr (suc left) i dma pkt e p enough =
      let (x, g) = get_elem?-lt pkt i (omega arith) in
      let slot = (hwptr + i) % size in
      let inside : slot < length dma = omega (arith, mod-lt (hwptr + i) {m = size} p) in
      let (b, r, keeps) =
        copy_in-keeps size hwptr left (i + 1) (set dma slot x) pkt (length-set dma slot x ∙ e) p
          (omega arith) in
      (
        b,
        copy_in-suc size hwptr pkt left i dma (set dma slot x) x g (store-eq-set dma slot x inside)
            ∙ r,
        λ k apart.
            keeps k (λ j lo hi. apart j (omega arith) (omega arith))
            ∙ get_elem?-set_ne dma slot k x (apart i (omega arith) (omega arith)),
      )
