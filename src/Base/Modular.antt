-- ===== src/Base/Modular.antt =====
-- Remainders by a variable modulus, as the index arithmetic of rings uses them.
use Prim.Native.Nat.{ℕ, ◌+◌, ◌-◌, ◌%◌, ◌≤◌, ◌<◌}
use mathlib.Core.Path.{◌≡◌, ◌∙◌, sym, ap}
use mathlib.Core.Logic.{◌≢◌, ◌⊎◌, inl, inr}
use native.Mathlib.Decide.{dec_lt}
use native.Mathlib.Nat.{mod-eq_of_lt, mod-eq-sub-mod, mod-add-mod, mod-lt}
use native.Mathlib.Omega.{arith}

pub mod_small : (x m : ℕ) → x < m → x % m ≡ x
mod_small x m h = mod-eq_of_lt h

pub mod_wrap : (x m : ℕ) → m ≤ x → x < m + m → x % m ≡ x - m
mod_wrap x m h k = mod-eq-sub-mod h ∙ mod-eq_of_lt (omega arith)

-- Fewer than `m` steps round a ring of `m` do not come back to the start.
pub mod-ne : (m h k : ℕ) → 0 < k → k < m → (h + k) % m ≢ h % m
mod-ne m h k hk lt e = elim (dec_lt (h % m + k) m) [
  | yes p ↦
      omega (arith, mod_small (h % m + k) m p, mod-add-mod h m k, mod-lt h {m = m} (omega arith))
  | no p ↦ omega (
    arith,
    mod_wrap (h % m + k) m (omega arith) (omega (arith, mod-lt h {m = m} (omega arith))),
    mod-add-mod h m k,
    mod-lt h {m = m} (omega arith),
  )
]

-- The distance from `r` to `w` going up round a ring of `m`.
pub distance_cases :
    (m w r : ℕ)
    → w < m
    → r < m
    → ((w + m - r) % m + r ≡ w) × (r ≤ w) ⊎ ((w + m - r) % m + r ≡ w + m) × (w < r)
distance_cases m w r hw hr = elim (dec_lt w r) [
  | yes p ↦ inr (omega (arith, mod_small (w + m - r) m (omega arith)), p)
  | no p ↦ inl (omega (arith, mod_wrap (w + m - r) m (omega arith) (omega arith)), omega arith)
]

-- Going back by the distance: `w` lies `(w - r) mod m` ahead of `r`.
pub add-distance : (m w r : ℕ) → w < m → r < m → (r + (w + m - r) % m) % m ≡ w
add-distance m w r hw hr = elim (distance_cases m w r hw hr) [
  | inl (e, p) ↦ let back : r + (w + m - r) % m ≡ w = omega arith in rw back (mod_small w m hw)
  | inr (e, p) ↦
      let back : r + (w + m - r) % m ≡ w + m = omega arith in
      rw back (omega (arith, mod_wrap (w + m) m (omega arith) (omega arith)))
]

-- The index `n` ahead of `r` is at distance `n` again, for less than a turn.
pub distance-add : (m r n : ℕ) → r < m → n < m → ((r + n) % m + m - r) % m ≡ n
distance-add m r n hr hn = elim (dec_lt (r + n) m) [
  | yes p ↦
      rw (mod_small (r + n) m p)
        (omega (arith, mod_wrap (r + n + m - r) m (omega arith) (omega arith)))
  | no p ↦
      rw (mod_wrap (r + n) m (omega arith) (omega arith))
        (omega (arith, mod_small (r + n - m + m - r) m (omega arith)))
]

-- Two indices at one slot move on together.
pub mod_step : (a b m : ℕ) → a % m ≡ b % m → (a + 1) % m ≡ (b + 1) % m
mod_step a b m e = sym (mod-add-mod a m 1) ∙ ap (λ k. (k + 1) % m) e ∙ mod-add-mod b m 1
