-- ===== src/Ring/Refine.antt =====
-- The ring's calls against the queue of the frames that it holds.
use djm_t1_linux.Base.{
  ℕ, ◌+◌, ◌-◌, ◌%◌, ◌≤◌, ◌<◌, ◌≡◌, refl, sym, ap, ◌∙◌, Option, some, List, ◌++◌, min, arith, length,
  take, ltb, if◌then◌else◌, ◌>>=◌,
}
use native.Mathlib.Nat.{mod-lt, mod-eq_of_lt, add-zero}
use djm_t1_linux.Ring.{Ring, avail, space, write, read, copy_in, copy_out}
use djm_t1_linux.Ring.Inv.{IsValid, add-avail, space-add-avail, avail-write, avail-read}
use djm_t1_linux.Ring.Window.{window, contents, length-window, window-mod, take-window, drop-window}
use djm_t1_linux.Ring.Copy.{copy_in-Filled, copy_out-window}
use djm_t1_linux.Ring.Queue

pub clip : (a b : ℕ) → (if ltb a b then a else b) ≡ min b a
clip a b = ground arith

module _ {ℓ} {A : Type ℓ} where
  -- The room of a ring: it keeps one slot spare.
  abbrev pub room : Ring A → ℕ
  room R = R.cap - 1

  pub length-contents : (R : Ring A) → IsValid R → length (contents R) ≡ avail R
  length-contents R v = length-window R.buf R.cap R.r (avail R) v.storage (omega (arith, v.r_in))

  -- The result of a call that cannot fault: the count or frames that it returns, and the ring.
  pub record Refined {κ} {B : Type κ} (R : Ring A) (out : Option (B × Ring A)) (spec : B × List A)
      : Type (ℓ ⊔ κ) where
    pub ring : Ring A
    pub returns : out ≡ some (spec.0, ring)
    pub valid : IsValid ring
    pub same_cap : ring.cap ≡ R.cap
    pub holds : contents ring ≡ spec.1

  write-clip :
      (R : Ring A) (src : List A) (n : ℕ)
      → write R src n ≡ (
          copy_in R.cap R.w src (min n (space R)) 0 R.buf >>= λ b.
          some (min n (space R), record R { buf = b; w = (R.w + min n (space R)) % R.cap }))
  unfolding write
  write-clip R src n =
      ap
        (λ m. copy_in R.cap R.w src m 0 R.buf >>= λ b.
          some (m, record R { buf = b; w = (R.w + m) % R.cap }))
        (clip (space R) n)

  -- `ring_write` does not fault: it takes what fits of the `n` frames and appends them in order.
  pub write_refines :
      (R : Ring A) (src : List A) (n : ℕ)
      → IsValid R
      → n ≤ length src
      → Refined R (write R src n) (Queue.write (room R) (contents R) src n)
  unfolding Queue.write
  write_refines R src n v enough =
      let m = min n (space R) in
      let fits : avail R + m < R.cap = omega (arith, space-add-avail R v) in
      let at_w : (R.w + 0) % R.cap ≡ (R.r + avail R) % R.cap =
        omega (arith, add-avail R v, mod-eq_of_lt v.w_in, ap (λ k. k % R.cap) (add-zero R.w)) in
      let f =
        copy_in-Filled R.cap R.w R.r src m 0 (avail R) R.buf v.storage at_w (omega arith)
          (omega arith) in
      let same : m ≡ min n (room R - length (contents R)) =
        omega (arith, length-contents R v, space-add-avail R v) in
      record {
        ring = record R { buf = f.buf'; w = (R.w + m) % R.cap };
        returns =
            write-clip R src n
            ∙ ap (λ o. o >>= λ b. some (m, record R { buf = b; w = (R.w + m) % R.cap })) f.returns
            ∙ ap (λ k. some (k, record R { buf = f.buf'; w = (R.w + m) % R.cap })) same;
        valid = record {
          storage = f.same_length;
          w_in = mod-lt (R.w + m) {m = R.cap} (omega arith);
          r_in = v.r_in;
        };
        same_cap = refl;
        holds =
            ap (window f.buf' R.cap R.r) (avail-write R f.buf' m v fits)
            ∙ f.frames
            ∙ ap (λ k. contents R ++ take k src) same;
      }

  read-clip :
      (R : Ring A) (n : ℕ)
      → read R n ≡ (
          copy_out R.cap R.r R.buf (min n (avail R)) 0 >>= λ out.
          some (out, record R { r = (R.r + min n (avail R)) % R.cap }))
  unfolding read
  read-clip R n =
      ap
        (λ m.
          copy_out R.cap R.r R.buf m 0 >>= λ out. some (out, record R { r = (R.r + m) % R.cap }))
        (clip (avail R) n)

  -- `ring_read` does not fault: it gives the oldest frames, `n` of them if there are so many.
  pub read_refines :
      (R : Ring A) (n : ℕ) → IsValid R → Refined R (read R n) (Queue.read (contents R) n)
  unfolding Queue.read
  read_refines R n v =
      let m = min n (avail R) in
      let pos : 0 < R.cap = omega (arith, v.r_in) in
      let taken : window R.buf R.cap (R.r + 0) m ≡ take n (contents R) =
        rw add-zero (sym (take-window R.buf R.cap R.r n (avail R) v.storage pos)) in
      record {
        ring = record R { r = (R.r + m) % R.cap };
        returns =
            read-clip R n
            ∙ ap (λ o. o >>= λ out. some (out, record R { r = (R.r + m) % R.cap }))
                (copy_out-window R.cap R.r R.buf m 0 v.storage pos)
            ∙ ap (λ out. some (out, record R { r = (R.r + m) % R.cap })) taken;
        valid = record {
          storage = v.storage;
          w_in = v.w_in;
          r_in = mod-lt (R.r + m) {m = R.cap} (omega (arith, v.r_in));
        };
        same_cap = refl;
        holds =
            ap (window R.buf R.cap ((R.r + m) % R.cap)) (avail-read R m v (omega arith))
            ∙ window-mod R.buf R.cap (R.r + m) (avail R - m)
            ∙ sym (drop-window R.buf R.cap R.r n (avail R) v.storage pos);
      }
