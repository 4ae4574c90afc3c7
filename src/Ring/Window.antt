-- ===== src/Ring/Window.antt =====
-- The frames that stand in a stretch of the ring, going round at its end.
use djm_t1_linux.Base.{
  ℕ, zero, suc, ◌+◌, ◌-◌, ◌%◌, ◌≤◌, ◌<◌, ◌≡◌, ◌≢◌, refl, sym, ap, ap₂, ◌∙◌, Option, none, some,
  List, [], ◌∷◌, ◌++◌, arith, length, get_elem?, get_elem?-lt, set, get_elem?-set_self,
  get_elem?-set_ne, take, drop, min, take_all, take-append_length, drop_all, drop-append_length,
}
use native.Mathlib.Decide.{dec_lt}
use djm_t1_linux.Base.Modular.{mod-ne}
use native.Mathlib.Nat.{mod-lt, mod-add-mod, mod-mod, zero-add, add-zero, suc-add}
use djm_t1_linux.Ring.{Ring, avail}

module _ {ℓ} {A : Type ℓ} where
  -- A frame in front of a list, if there is one.
  abbrev pub cons_some : Option A → List A → List A
  cons_some none xs = xs
  cons_some (some x) xs = x ∷ xs

  -- The `n` frames from index `h` on; the indices are taken modulo `cap`.
  abbrev pub window : List A → ℕ → ℕ → ℕ → List A
  window buf cap h zero = []
  window buf cap h (suc n) = cons_some (get_elem? buf (h % cap)) (window buf cap (h + 1) n)

  -- What a ring holds, oldest first.
  abbrev pub contents : Ring A → List A
  contents R = window R.buf R.cap R.r (avail R)

  pub window-cons :
      (buf : List A) (cap h n : ℕ)
      → length buf ≡ cap
      → 0 < cap
      → (x : A) × (get_elem? buf (h % cap) ≡ some x)
        × (window buf cap h (suc n) ≡ x ∷ window buf cap (h + 1) n)
  window-cons buf cap h n e p =
      let (x, g) = get_elem?-lt buf (h % cap) (omega (arith, mod-lt h {m = cap} p)) in (x, g, rw g)

  pub window-mod : (buf : List A) (cap h n : ℕ) → window buf cap (h % cap) n ≡ window buf cap h n
  window-mod buf cap h zero = refl
  window-mod buf cap h (suc n) = ap₂ cons_some (ap (get_elem? buf) (mod-mod h cap)) (
      sym (window-mod buf cap (h % cap + 1) n)
      ∙ rw (mod-add-mod h cap 1) (window-mod buf cap (h + 1) n))

  pub length-window :
      (buf : List A) (cap h n : ℕ) → length buf ≡ cap → 0 < cap → length (window buf cap h n) ≡ n
  length-window buf cap h zero e p = refl
  length-window buf cap h (suc n) e p =
      let (x, g, c) = window-cons buf cap h n e p in
      rw c (ap suc (length-window buf cap (h + 1) n e p))

  cons_some-append : (o : Option A) (xs ys : List A) → cons_some o (xs ++ ys) ≡ cons_some o xs ++ ys
  cons_some-append none xs ys = refl
  cons_some-append (some x) xs ys = refl

  -- A window is its first `n` frames and the window that follows them.
  pub window-append :
      (buf : List A) (cap h n k : ℕ)
      → window buf cap h (n + k) ≡ window buf cap h n ++ window buf cap (h + n) k
  window-append buf cap h zero k = rw (zero-add, add-zero)
  window-append buf cap h (suc n) k =
      let shift : h + 1 + n ≡ h + suc n = omega arith in
      rw (suc-add, window-append buf cap (h + 1) n k, shift)
        (cons_some-append (get_elem? buf (h % cap)) (window buf cap (h + 1) n) _)

  split :
      (buf : List A) (cap h a m : ℕ)
      → m ≤ a
      → window buf cap h a ≡ window buf cap h m ++ window buf cap (h + m) (a - m)
  split buf cap h a m le = ap (window buf cap h) (omega arith) ∙ window-append buf cap h m (a - m)

  -- The oldest `n` frames of a window, or all of them.
  pub take-window :
      (buf : List A) (cap h n a : ℕ)
      → length buf ≡ cap
      → 0 < cap
      → take n (window buf cap h a) ≡ window buf cap h (min n a)
  take-window buf cap h n a e p = elim (dec_lt n a) [
    | yes lt ↦
        let m : min n a ≡ n = omega arith in
        rw (m, split buf cap h a n (omega arith))
          (take-append_length _ _ n (sym (length-window buf cap h n e p)))
    | no ge ↦
        let m : min n a ≡ a = omega arith in
        rw m (take_all n _ (omega (arith, length-window buf cap h a e p)))
  ]

  -- What is left of a window without its oldest `n` frames.
  pub drop-window :
      (buf : List A) (cap h n a : ℕ)
      → length buf ≡ cap
      → 0 < cap
      → drop n (window buf cap h a) ≡ window buf cap (h + min n a) (a - min n a)
  drop-window buf cap h n a e p = elim (dec_lt n a) [
    | yes lt ↦
        let m : min n a ≡ n = omega arith in
        rw (m, split buf cap h a n (omega arith))
          (drop-append_length _ _ n (sym (length-window buf cap h n e p)))
    | no ge ↦
        let m : min n a ≡ a = omega arith in
        let none_left : a - a ≡ 0 = omega arith in
        rw (m, none_left) (drop_all n _ (omega (arith, length-window buf cap h a e p)))
  ]

  pub get_elem?-window :
      (buf : List A) (cap h n i : ℕ)
      → length buf ≡ cap
      → 0 < cap
      → i < n
      → get_elem? (window buf cap h n) i ≡ get_elem? buf ((h + i) % cap)
  get_elem?-window buf cap h zero i e p lt = absurd (omega arith)
  get_elem?-window buf cap h (suc n) zero e p lt =
      let (x, g, c) = window-cons buf cap h n e p in rw (add-zero, g)
  get_elem?-window buf cap h (suc n) (suc i) e p lt =
      let (x, g, c) = window-cons buf cap h n e p in
      let shift : h + 1 + i ≡ h + suc i = omega arith in
      rw g (
        get_elem?-window buf cap (h + 1) n i e p (omega arith)
        ∙ ap (λ k. get_elem? buf (k % cap)) shift)

  -- A store outside a window does not change it.
  pub window-set_ne :
      (buf : List A) (cap h n i : ℕ) (v : A)
      → ((j : ℕ) → j < n → i ≢ (h + j) % cap)
      → window (set buf i v) cap h n ≡ window buf cap h n
  window-set_ne buf cap h zero i v ne = refl
  window-set_ne buf cap h (suc n) i v ne =
      ap₂ cons_some
        (get_elem?-set_ne buf i (h % cap) v
          (λ q. ne 0 (omega arith) (q ∙ ap (λ k. k % cap) (omega arith))))
        (window-set_ne buf cap (h + 1) n i v
          (λ j lt q. ne (suc j) (omega arith) (q ∙ ap (λ k. k % cap) (omega arith))))

  -- A store just past a window extends it by the frame.
  pub window-set :
      (buf : List A) (cap h n : ℕ) (v : A)
      → length buf ≡ cap
      → n < cap
      → window (set buf ((h + n) % cap) v) cap h (n + 1) ≡ window buf cap h n ++ (v ∷ [])
  window-set buf cap h n v e lt =
      rw (window-append (set buf ((h + n) % cap) v) cap h n 1)
        (ap₂ ◌++◌ (window-set_ne buf cap h n ((h + n) % cap) v apart) last)
    where
      apart : (j : ℕ) → j < n → (h + n) % cap ≢ (h + j) % cap
      apart j p q =
          mod-ne cap (h + j) (n - j) (omega arith) (omega arith)
            (ap (λ k. k % cap) (omega arith) ∙ q)

      last : window (set buf ((h + n) % cap) v) cap (h + n) 1 ≡ v ∷ []
      last = rw (
          get_elem?-set_self buf ((h + n) % cap) v
            (omega (arith, mod-lt (h + n) {m = cap} (omega arith))))
