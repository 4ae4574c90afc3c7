-- ===== src/Ring/Spsc.antt =====
-- `ring_write` on one thread and `ring_read` on the other, as interleaved steps. A call observes
-- the other thread's index once, when it begins; each frame is copied in a step of its own; the
-- call's own index is published in its last step. The default atomics are sequentially consistent.
pub mod Inv
pub mod Steps
pub mod Safety
mod Tests
use djm_t1_linux.Base.{
  ℕ, ◌+◌, ◌%◌, ◌≤◌, ◌<◌, ◌≡◌, List, [], ◌∷◌, ◌++◌, Option, some, min, length, take, get_elem?,
  store,
}
use djm_t1_linux.Ring.{Ring, avail, space}

-- Where `ring_write` stands: `copying src n i` has stored `i` of the `n` frames that it takes.
pub data Writer {ℓ} (A : Type ℓ) : Type ℓ where
  idle : Writer A
  copying : List A → ℕ → ℕ → Writer A

-- Where `ring_read` stands: `copying n i out` has loaded the `i` frames `out` of `n`.
pub data Reader {ℓ} (A : Type ℓ) : Type ℓ where
  idle : Reader A
  copying : ℕ → ℕ → List A → Reader A

-- `sent` and `got` are history: the frames that completed calls took and gave, in order.
pub record State {ℓ} (A : Type ℓ) : Type ℓ where
  pub ring : Ring A
  pub writer : Writer A
  pub reader : Reader A
  pub sent : List A
  pub got : List A

module _ {ℓ} {A : Type ℓ} where
  pub data Step (s : State A) : State A → Type ℓ where
    begin_write :
        (src : List A) (n : ℕ)
        → s.writer ≡ Writer.idle
        → n ≤ length src
        → Step s (record s { writer = Writer.copying src (min n (space s.ring)) 0 })
    copy_write :
        (src : List A) (n i : ℕ) (x : A) (b : List A)
        → s.writer ≡ Writer.copying src n i
        → i < n
        → get_elem? src i ≡ some x
        → store s.ring.buf ((s.ring.w + i) % s.ring.cap) x ≡ some b
        → Step s
            (record s { ring = record s.ring { buf = b }; writer = Writer.copying src n (i + 1) })
    end_write :
        (src : List A) (n : ℕ)
        → s.writer ≡ Writer.copying src n n
        → Step s (record s {
          ring = record s.ring { w = (s.ring.w + n) % s.ring.cap };
          writer = Writer.idle;
          sent = s.sent ++ take n src;
        })
    begin_read :
        (n : ℕ)
        → s.reader ≡ Reader.idle
        → Step s (record s { reader = Reader.copying (min n (avail s.ring)) 0 [] })
    copy_read :
        (n i : ℕ) (out : List A) (x : A)
        → s.reader ≡ Reader.copying n i out
        → i < n
        → get_elem? s.ring.buf ((s.ring.r + i) % s.ring.cap) ≡ some x
        → Step s (record s { reader = Reader.copying n (i + 1) (out ++ (x ∷ [])) })
    end_read :
        (n : ℕ) (out : List A)
        → s.reader ≡ Reader.copying n n out
        → Step s (record s {
          ring = record s.ring { r = (s.ring.r + n) % s.ring.cap };
          reader = Reader.idle;
          got = s.got ++ out;
        })

  pub data Reach (s : State A) : State A → Type ℓ where
    here : Reach s s
    next : {t u : State A} → Reach s t → Step t u → Reach s u

  abbrev pub start : Ring A → State A
  start R = record { ring = R; writer = Writer.idle; reader = Reader.idle; sent = []; got = [] }
