-- ===== src/Ring/Copy.antt =====
-- The two copy loops against the window of frames that a ring holds.
use djm_t1_linux.Base.{
  ℕ, zero, suc, ◌+◌, ◌%◌, ◌≤◌, ◌<◌, ◌≡◌, refl, ap, ◌∙◌, Option, some, List, ◌++◌, arith, length,
  get_elem?, get_elem?-lt, set, store, store-eq-set, length-set, take, drop, drop-cons, append-nil,
  append_assoc,
}
use native.Mathlib.Nat.{mod-lt, add-zero}
use native.Mathlib.Numerals.{add-one}
use djm_t1_linux.Base.Modular.{mod_step}
use djm_t1_linux.Ring.{copy_in, copy_out}
use djm_t1_linux.Ring.Window.{window, window-cons, window-set}

module _ {ℓ} {A : Type ℓ} where
  -- `ring_read`'s loop runs without a fault, and stores the window from its first index on.
  pub copy_out-window :
      (cap r : ℕ) (buf : List A) (left i : ℕ)
      → length buf ≡ cap
      → 0 < cap
      → copy_out cap r buf left i ≡ some (window buf cap (r + i) left)
  unfolding copy_out
  copy_out-window cap r buf zero i e p = refl
  copy_out-window cap r buf (suc left) i e p =
      let (x, g, c) = window-cons buf cap (r + i) left e p in
      let shift : r + i + 1 ≡ r + (i + 1) = omega arith in
      rw (g, shift, copy_out-window cap r buf left (i + 1) e p)

  pub copy_in-suc :
      (cap w : ℕ) (src : List A) (left i : ℕ) (buf b : List A) (x : A)
      → get_elem? src i ≡ some x
      → store buf ((w + i) % cap) x ≡ some b
      → copy_in cap w src (suc left) i buf ≡ copy_in cap w src left (i + 1) b
  unfolding copy_in
  copy_in-suc cap w src left i buf b x g h = rw (g, h)

  -- What `ring_write`'s loop leaves behind, over a ring whose window at `h` is `n` long.
  pub record Filled (cap h n left i : ℕ) (src buf : List A) (out : Option (List A)) : Type ℓ where
    pub buf' : List A
    pub returns : out ≡ some buf'
    pub same_length : length buf' ≡ cap
    pub frames : window buf' cap h (n + left) ≡ window buf cap h n ++ take left (drop i src)

  pub copy_in-Filled :
      (cap w h : ℕ) (src : List A) (left i n : ℕ) (buf : List A)
      → length buf ≡ cap
      → (w + i) % cap ≡ (h + n) % cap
      → n + left ≤ cap
      → i + left ≤ length src
      → Filled cap h n left i src buf (copy_in cap w src left i buf)
  unfolding copy_in
  copy_in-Filled cap w h src zero i n buf e same fits enough = record {
    buf' = buf;
    returns = refl;
    same_length = e;
    frames = rw (add-zero, append-nil);
  }
  copy_in-Filled cap w h src (suc left) i n buf e same fits enough =
      let (x, g) = get_elem?-lt src i (omega arith) in
      let slot = (h + n) % cap in
      let inside : slot < length buf = omega (arith, mod-lt (h + n) {m = cap} (omega arith)) in
      let step : (w + (i + 1)) % cap ≡ (h + n + 1) % cap =
        ap (λ k. k % cap) (omega arith) ∙ mod_step (w + i) (h + n) cap same in
      let rest =
        copy_in-Filled cap w h src left (i + 1) (n + 1) (set buf slot x) (length-set buf slot x ∙ e)
          (step ∙ ap (λ k. k % cap) (omega arith)) (omega arith) (omega arith) in
      record {
        buf' = rest.buf';
        returns =
            copy_in-suc cap w src left i buf (set buf slot x) x g
              (ap (λ k. store buf k x) same ∙ store-eq-set buf slot x inside)
            ∙ rest.returns;
        same_length = rest.same_length;
        frames =
            ap (λ k. window rest.buf' cap h k) (omega arith)
            ∙ rest.frames
            ∙ rw (
              window-set buf cap h n x e (omega arith),
              append_assoc,
              drop-cons i src g,
              add-one,
            );
      }
