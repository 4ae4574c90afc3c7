-- ===== src/Capture/Bins.antt =====
-- The histogram of packet lengths.
use djm_t1_linux.Base.{
  ℕ, zero, suc, ◌+◌, ◌%◌, ◌^◌, ◌≤◌, ◌<◌, ◌≡◌, ◌≢◌, refl, ap, true, some, List, [], ◌∷◌, arith, ◌==◌,
  if◌then◌else◌, length, get_or, set, store-eq-set, length-set, eq_cases, inl, inr, ne→not-==,
  le→leb, lt→not-leb,
}
use mathlib.Core.Path.{subst}
use native.Mathlib.Decide.{dec_lt}
use djm_t1_linux.Capture.{pkt_max, add64, count_length}

-- The same number on 64 bits, `k` further on.
abbrev pub Further : ℕ → ℕ → ℕ → Type 0
Further n k n' = n' % 2 ^ 64 ≡ (n + k) % 2 ^ 64

get_or-set_same : (xs : List ℕ) (i v : ℕ) → i < length xs → get_or (set xs i v) i 0 ≡ v
get_or-set_same [] i v h = absurd (omega arith)
get_or-set_same (x ∷ xs) zero v h = refl
get_or-set_same (x ∷ xs) (suc i) v h = get_or-set_same xs i v (omega arith)

get_or-set_other : (xs : List ℕ) (i j v : ℕ) → i ≢ j → get_or (set xs i v) j 0 ≡ get_or xs j 0
get_or-set_other [] i j v ne = refl
get_or-set_other (x ∷ xs) zero zero v ne = absurd (ne refl)
get_or-set_other (x ∷ xs) zero (suc j) v ne = refl
get_or-set_other (x ∷ xs) (suc i) zero v ne = refl
get_or-set_other (x ∷ xs) (suc i) (suc j) v ne = get_or-set_other xs i j v (λ e. ne (ap suc e))

-- The histogram with a length counted: its bin has gone up by one, and no other has changed.
pub record Binned (len : ℕ) (hist : List ℕ) : Type 0 where
  pub hist' : List ℕ
  pub returns : count_length len hist ≡ some hist'
  pub same_length : length hist' ≡ length hist
  pub bins :
      (l : ℕ)
      → l ≤ pkt_max
      → Further (get_or hist l 0) (if len == l then 1 else 0) (get_or hist' l 0)

pub count_length-Binned : (len : ℕ) (hist : List ℕ) → length hist ≡ pkt_max + 1 → Binned len hist
unfolding count_length
count_length-Binned len hist e = elim (dec_lt pkt_max len) [
  | yes long ↦ record {
    hist' = hist;
    returns = rw (lt→not-leb len pkt_max long) refl;
    same_length = refl;
    bins = λ l small.
        let other : len ≢ l = λ same. omega (arith, same) in
        rw (ne→not-== len l other) (omega arith);
  }
  | no short ↦
      let fits : len < length hist = omega arith in
      record {
        hist' = set hist len (add64 (get_or hist len 0) 1);
        returns =
            rw
              (
                le→leb len pkt_max (omega arith),
                store-eq-set hist len (add64 (get_or hist len 0) 1) fits,
              )
              refl;
        same_length = length-set hist len (add64 (get_or hist len 0) 1);
        bins = λ l small. set-Further hist len l fits;
      }
]
  where
    equal : (n : ℕ) → (n == n) ≡ true
    equal n = ground arith

    set-Further :
        (xs : List ℕ) (i l : ℕ)
        → i < length xs
        → Further
            (get_or xs l 0)
            (if i == l then 1 else 0)
            (get_or (set xs i (add64 (get_or xs i 0) 1)) l 0)
    set-Further xs i l fits = elim (eq_cases i l) [
      | inl same ↦
          subst
            (λ j.
              Further (get_or xs j 0) (if i == j then 1 else 0)
                (get_or (set xs i (add64 (get_or xs i 0) 1)) j 0))
            same (rw (equal i, get_or-set_same xs i (add64 (get_or xs i 0) 1) fits) (omega arith))
      | inr other ↦
          rw (ne→not-== i l other, get_or-set_other xs i l (add64 (get_or xs i 0) 1) other)
            (omega arith)
    ]
