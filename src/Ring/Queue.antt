-- ===== src/Ring/Queue.antt =====
-- What a ring promises: a first-in first-out queue of at most `room` frames.
use djm_t1_linux.Base.{ℕ, ◌-◌, List, ◌++◌, min, length, take, drop}

module _ {ℓ} {A : Type ℓ} where
  -- As many frames as fit are taken, and stand last.
  unfoldable pub write : ℕ → List A → List A → ℕ → ℕ × List A
  write room q src n = let m = min n (room - length q) in (m, q ++ take m src)

  -- At most `n` frames, the oldest, leave.
  unfoldable pub read : List A → ℕ → List A × List A
  read q n = (take n q, drop n q)
