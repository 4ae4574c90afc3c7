-- ===== src/Ring/Inv.antt =====
-- The representation invariant of a ring.
use djm_t1_linux.Base.{
  ℕ, ◌+◌, ◌-◌, ◌%◌, ◌≤◌, ◌<◌, ◌≡◌, refl, sym, ap, ◌∙◌, List, arith, length, true, Option, some,
}
use djm_t1_linux.Base.Modular.{add-distance, distance-add}
use native.Mathlib.Nat.{mod-lt, mod-add-mod, mod_self}
use djm_t1_linux.Ring.{Ring, init, avail, space}

pub record IsValid {ℓ} {A : Type ℓ} (R : Ring A) : Type ℓ where
  pub storage : length R.buf ≡ R.cap
  pub w_in : R.w < R.cap
  pub r_in : R.r < R.cap

module _ {ℓ} {A : Type ℓ} where
  pub avail-lt : (R : Ring A) → R.r < R.cap → avail R < R.cap
  unfolding avail
  avail-lt R h = omega arith

  -- The writer's index stands `avail` frames ahead of the reader's.
  pub add-avail : (R : Ring A) → IsValid R → (R.r + avail R) % R.cap ≡ R.w
  unfolding avail
  add-avail R v = add-distance R.cap R.w R.r v.w_in v.r_in

  -- What can be read and what can be written make up all slots but the spare one.
  pub space-add-avail : (R : Ring A) → IsValid R → space R + avail R + 1 ≡ R.cap
  unfolding space
  space-add-avail R v = omega (arith, avail-lt R v.r_in)

  -- Publishing `m` more frames adds `m` to what can be read.
  pub avail-write :
      (R : Ring A) (b : List A) (m : ℕ)
      → IsValid R
      → avail R + m < R.cap
      → avail (record R { buf = b; w = (R.w + m) % R.cap }) ≡ avail R + m
  unfolding avail
  avail-write R b m v fits =
      ap (λ k. (k + R.cap - R.r) % R.cap)
        (ap (λ k. (k + m) % R.cap) (sym (add-avail R v))
          ∙ mod-add-mod (R.r + avail R) R.cap m
          ∙ regroup)
      ∙ distance-add R.cap R.r (avail R + m) v.r_in fits
    where
      regroup : (R.r + avail R + m) % R.cap ≡ (R.r + (avail R + m)) % R.cap
      regroup = ap (λ k. k % R.cap) (omega arith)

  -- Giving back the `m` oldest takes `m` from it.
  pub avail-read :
      (R : Ring A) (m : ℕ)
      → IsValid R
      → m ≤ avail R
      → avail (record R { r = (R.r + m) % R.cap }) ≡ avail R - m
  unfolding avail
  avail-read R m v enough =
      ap (λ k. (k + R.cap - (R.r + m) % R.cap) % R.cap)
        (sym (add-avail R v) ∙ regroup ∙ sym (mod-add-mod (R.r + m) R.cap (avail R - m)))
      ∙ distance-add R.cap ((R.r + m) % R.cap) (avail R - m)
          (mod-lt (R.r + m) {m = R.cap} (omega (arith, v.r_in))) (omega (arith, avail-lt R v.r_in))
    where
      regroup : (R.r + avail R) % R.cap ≡ (R.r + m + (avail R - m)) % R.cap
      regroup = ap (λ k. k % R.cap) (omega arith)

  -- If the block that `calloc` returns has the length asked for, a fresh ring is valid and empty.
  pub init-IsValid :
      (calloc : ℕ → Option (List A)) (frames : ℕ) (b : List A)
      → calloc (frames + 1) ≡ some b
      → length b ≡ frames + 1
      → ((init calloc frames).0 ≡ true)
        × IsValid (init calloc frames).1
        × ((init calloc frames).1.cap ≡ frames + 1)
        × (avail (init calloc frames).1 ≡ 0)
  unfolding init avail
  init-IsValid calloc frames b got len = rw got (
    refl,
    record { storage = len; w_in = omega arith; r_in = omega arith },
    refl,
    let whole : 0 + (frames + 1) - 0 ≡ frames + 1 = omega arith in rw whole (mod_self (frames + 1)),
  )
