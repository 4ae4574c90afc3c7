-- ===== src/Ring.antt =====
-- audio/djmt1_iso.c: the single-producer single-consumer ring of frames. Here a call runs alone;
-- `Ring.Spsc` interleaves the two threads.
pub mod Inv
pub mod Window
pub mod Copy
pub mod Queue
pub mod Refine
pub mod Null
pub mod Spsc
mod Tests
use djm_t1_linux.Base.{
  ℕ, zero, suc, ◌+◌, ◌-◌, ◌%◌, Bool, true, false, Option, none, some, List, [], ◌∷◌, ltb,
  if◌then◌else◌, ◌>>=◌, get_elem?, store,
}

-- `ring`, over any type of frames: a frame is six floats, and is only copied whole.
-- `buf` is the object that `R->buf` points to; a null pointer is the object of no frames.
pub record Ring {ℓ} (A : Type ℓ) : Type ℓ where
  pub buf : List A
  pub cap : ℕ
  pub w : ℕ
  pub r : ℕ

module _ {ℓ} {A : Type ℓ} where
  unfoldable pub init_with : ℕ → Option (List A) → Bool × Ring A
  init_with frames none = (false, record { buf = []; cap = frames + 1; w = 0; r = 0 })
  init_with frames (some b) = (true, record { buf = b; cap = frames + 1; w = 0; r = 0 })

  -- `calloc` is the C library's: a block of so many frames, or none. The flag is "returned 0".
  unfoldable pub init : (ℕ → Option (List A)) → ℕ → Bool × Ring A
  unfolding init_with
  init calloc frames = init_with frames (calloc (frames + 1))

  -- `w - r + cap` in `int`, whose value is not negative as `r < cap`.
  pub avail : Ring A → ℕ
  avail R = (R.w + R.cap - R.r) % R.cap

  pub space : Ring A → ℕ
  unfolding avail
  space R = R.cap - 1 - avail R

  -- The loop of `ring_write` at index `i`, with `left` rounds to go.
  unfoldable pub copy_in : ℕ → ℕ → List A → ℕ → ℕ → List A → Option (List A)
  copy_in cap w src zero i buf = some buf
  copy_in cap w src (suc left) i buf = do
    x ← get_elem? src i
    buf' ← store buf ((w + i) % cap) x
    copy_in cap w src left (i + 1) buf'

  -- The loop of `ring_read`; the frames that it stores at `dst`, in order.
  unfoldable pub copy_out : ℕ → ℕ → List A → ℕ → ℕ → Option (List A)
  copy_out cap r buf zero i = some []
  copy_out cap r buf (suc left) i = do
    x ← get_elem? buf ((r + i) % cap)
    rest ← copy_out cap r buf left (i + 1)
    some (x ∷ rest)

  -- `ring_write`: how many frames it takes from `src`, and the ring after it. `n` is not negative.
  unfoldable pub write : Ring A → List A → ℕ → Option (ℕ × Ring A)
  unfolding space copy_in
  write R src n = do
    let sp = space R
    let n' = if ltb sp n then sp else n
    let w = R.w
    buf' ← copy_in R.cap w src n' 0 R.buf
    some (n', record R { buf = buf'; w = (w + n') % R.cap })

  -- `ring_read`: the frames that it stores at `dst` (their number is its result), and the ring.
  unfoldable pub read : Ring A → ℕ → Option (List A × Ring A)
  unfolding avail copy_out
  read R n = do
    let av = avail R
    let n' = if ltb av n then av else n
    let r = R.r
    out ← copy_out R.cap r R.buf n' 0
    some (out, record R { r = (r + n') % R.cap })
