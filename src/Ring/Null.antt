-- ===== src/Ring/Null.antt =====
-- The ring that `ring_init` leaves where `calloc` gives no block.
use djm_t1_linux.Base.{
  ℕ, zero, suc, ◌+◌, ◌-◌, ◌≤◌, ◌<◌, ◌≡◌, refl, Option, none, List, [], ◌∷◌, arith, length, ltb,
  if◌then◌else◌,
}
use native.Mathlib.Nat.{mod_self}
use djm_t1_linux.Ring.{init, init_with, avail, space, copy_in, write}

module _ {ℓ} {A : Type ℓ} where
  copy_in_null :
      (cap w m : ℕ) (src : List A) → 0 < m → 0 < length src → copy_in cap w src m 0 [] ≡ none
  unfolding copy_in
  copy_in_null cap w zero src some_left h = absurd (omega arith)
  copy_in_null cap w (suc m) [] some_left h = absurd (omega arith)
  copy_in_null cap w (suc m) (x ∷ src) some_left h = refl

  -- To write a frame there faults.
  pub write-null :
      (calloc : ℕ → Option (List A)) (frames : ℕ) (src : List A) (n : ℕ)
      → calloc (frames + 1) ≡ none
      → 0 < frames
      → 0 < n
      → n ≤ length src
      → write (init calloc frames).1 src n ≡ none
  unfolding write init init_with space avail
  write-null calloc frames src n failed some_frames asked enough =
      let whole : 0 + (frames + 1) - 0 ≡ frames + 1 = omega arith in
      let taken = if ltb (frames + 1 - 1 - 0) n then frames + 1 - 1 - 0 else n in
      let some_taken : 0 < taken = ground arith in
      rw
        (
          failed,
          whole,
          mod_self (frames + 1),
          copy_in_null (frames + 1) 0 taken src some_taken (omega arith),
        )
        refl
