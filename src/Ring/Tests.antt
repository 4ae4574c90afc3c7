-- ===== src/Ring/Tests.antt =====
-- Runs of the ring, and its theorems at concrete rings.
use djm_t1_linux.Base.{ℕ, ◌+◌, ◌≡◌, refl, true, List, [], ◌∷◌, Option, some, arith, replicate}
use djm_t1_linux.Ring.{Ring, init, avail, write, read}
use djm_t1_linux.Ring.Inv.{IsValid, init-IsValid}
use djm_t1_linux.Ring.Window.{contents}
use djm_t1_linux.Ring.Queue
use djm_t1_linux.Ring.Refine.{Refined, room, write_refines, read_refines}

-- 8, then 5, round the end of the block.
abbrev wrapped : Ring ℕ
wrapped = record { buf = 5 ∷ 6 ∷ 7 ∷ 8 ∷ []; cap = 4; w = 1; r = 3 }

abbrev zeroed : ℕ → Option (List ℕ)
zeroed n = some (replicate n 0)

wrapped-IsValid : IsValid wrapped
wrapped-IsValid = record { storage = refl; w_in = omega arith; r_in = omega arith }

contents-wrapped : contents wrapped ≡ 8 ∷ 5 ∷ []
unfolding avail
contents-wrapped = refl

-- One of three frames fits.
write-wrapped :
    write wrapped (1 ∷ 2 ∷ 3 ∷ []) 3 ≡ some (1, record wrapped { buf = 5 ∷ 1 ∷ 7 ∷ 8 ∷ []; w = 2 })
unfolding write avail
write-wrapped = refl

read-wrapped : read wrapped 9 ≡ some (8 ∷ 5 ∷ [], record wrapped { r = 1 })
unfolding read avail
read-wrapped = refl

init-IsValid_example :
    ((init zeroed 3).0 ≡ true)
    × IsValid (init zeroed 3).1
    × ((init zeroed 3).1.cap ≡ 3 + 1)
    × (avail (init zeroed 3).1 ≡ 0)
init-IsValid_example = init-IsValid zeroed 3 (0 ∷ 0 ∷ 0 ∷ 0 ∷ []) refl refl

write_refines_example :
    Refined wrapped
      (write wrapped (1 ∷ 2 ∷ 3 ∷ []) 3)
      (Queue.write (room wrapped) (contents wrapped) (1 ∷ 2 ∷ 3 ∷ []) 3)
write_refines_example = write_refines wrapped (1 ∷ 2 ∷ 3 ∷ []) 3 wrapped-IsValid (omega arith)

read_refines_example : Refined wrapped (read wrapped 1) (Queue.read (contents wrapped) 1)
read_refines_example = read_refines wrapped 1 wrapped-IsValid
