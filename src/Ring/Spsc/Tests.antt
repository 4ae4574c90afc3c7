-- ===== src/Ring/Spsc/Tests.antt =====
-- A history in which a second write is under way while a read is.
use djm_t1_linux.Base.{
  ℕ, ◌+◌, ◌%◌, ◌<◌, ◌≡◌, ◌≢◌, refl, List, [], ◌∷◌, ◌++◌, some, arith, length, get_elem?, store,
}
use djm_t1_linux.Ring.{Ring, avail, space}
use djm_t1_linux.Ring.Inv.{IsValid}
use djm_t1_linux.Ring.Spsc.{
  State, Writer, Reader, Reach, start, begin_write, copy_write, end_write, begin_read, here, next,
}
use djm_t1_linux.Ring.Spsc.Safety.{Reach-fifo, Reach-disjoint, Reach-copy_write, Reach-copy_read}

abbrev fresh : Ring ℕ
fresh = record { buf = 0 ∷ 0 ∷ 0 ∷ []; cap = 3; w = 0; r = 0 }

abbrev stored : Ring ℕ
stored = record { buf = 9 ∷ 0 ∷ 0 ∷ []; cap = 3; w = 0; r = 0 }

-- 9 is published; the writer is to store 8, and the reader to load 9.
abbrev both : State ℕ
both = record {
  ring = record stored { w = 1 };
  writer = Writer.copying (8 ∷ []) 1 0;
  reader = Reader.copying 1 0 [];
  sent = 9 ∷ [];
  got = [];
}

fresh-IsValid : IsValid fresh
fresh-IsValid = record { storage = refl; w_in = omega arith; r_in = omega arith }

both-Reach : Reach (start fresh) both
unfolding space avail
both-Reach =
    next
      (next
        (next
          (next (next here (begin_write (9 ∷ []) 1 refl (omega arith)))
            (copy_write (9 ∷ []) 1 0 9 (9 ∷ 0 ∷ 0 ∷ []) refl (omega arith) refl refl))
          (end_write (9 ∷ []) 1 refl))
        (begin_write (8 ∷ []) 1 refl (omega arith)))
      (begin_read 1 refl)

Reach-fifo_example :
    (pending : List ℕ) × (both.sent ≡ both.got ++ pending) × (length pending < both.ring.cap)
Reach-fifo_example = Reach-fifo fresh both fresh-IsValid refl refl both-Reach

Reach-disjoint_example : (1 + 0) % 3 ≢ (0 + 0) % 3
Reach-disjoint_example =
    Reach-disjoint fresh both (8 ∷ []) [] 1 0 1 0 fresh-IsValid refl refl both-Reach refl
      (omega arith) refl (omega arith)

Reach-copy_write_example :
    (x : ℕ) × (b : List ℕ) × (get_elem? (8 ∷ []) 0 ≡ some x)
    × (store both.ring.buf ((1 + 0) % 3) x ≡ some b)
Reach-copy_write_example =
    Reach-copy_write fresh both (8 ∷ []) 1 0 fresh-IsValid refl refl both-Reach refl (omega arith)

Reach-copy_read_example :
    (x : ℕ) × (get_elem? both.ring.buf ((0 + 0) % 3) ≡ some x)
    × (get_elem? both.sent (0 + 0) ≡ some x)
Reach-copy_read_example =
    Reach-copy_read fresh both 1 0 [] fresh-IsValid refl refl both-Reach refl (omega arith)
