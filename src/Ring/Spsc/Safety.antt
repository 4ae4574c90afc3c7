-- ===== src/Ring/Spsc/Safety.antt =====
-- What holds of every interleaving of a writer and a reader.
use djm_t1_linux.Base.{
  ℕ, ◌+◌, ◌-◌, ◌%◌, ◌<◌, ◌≡◌, ◌≢◌, refl, sym, ap, ◌∙◌, List, [], ◌++◌, some, arith, length, store,
  set, store-eq-set, get_elem?, get_elem?-lt, get_elem?-append,
}
use native.Mathlib.Nat.{mod-lt, mod-eq_of_lt}
use djm_t1_linux.Base.Modular.{mod-ne}
use djm_t1_linux.Ring.{Ring}
use djm_t1_linux.Ring.Inv.{IsValid}
use djm_t1_linux.Ring.Spsc.{State, Writer, Reader, Reach, start, here, next}
use djm_t1_linux.Ring.Spsc.Inv.{Inv, Storing, Loading, writer_slot}
use djm_t1_linux.Ring.Spsc.Steps.{Step-Inv, room_lem, as_writer, as_reader, write_slot, read_slot}

module _ {ℓ} {A : Type ℓ} where
  -- A ring is fresh when it is valid and holds nothing, both indices at 0.
  pub start-Inv : (R : Ring A) → IsValid R → R.w ≡ 0 → R.r ≡ 0 → Inv (start R)
  start-Inv R v w r = record {
    pending = [];
    fifo = refl;
    storage = v.storage;
    w_at = w ∙ sym (mod-eq_of_lt {n = 0} (omega (arith, v.w_in)));
    r_at = r ∙ sym (mod-eq_of_lt {n = 0} (omega (arith, v.w_in)));
    writing = record {
      fits = omega (arith, v.w_in);
      some_left = omega arith;
      enough = omega arith;
      frames = refl;
    };
    reading = record { some_left = omega arith; published = omega arith; copied = refl };
  }

  pub Reach-Inv : {s t : State A} → Inv s → Reach s t → Inv t
  Reach-Inv v here = v
  Reach-Inv v (next r st) = Step-Inv st (Reach-Inv v r)

  -- However the two threads interleave, from a fresh ring: the frames that completed reads gave
  -- are, in order, the first of those that completed writes took, and the rest, fewer than `cap`,
  -- still stand in the ring.
  pub Reach-fifo :
      (R : Ring A) (s : State A)
      → IsValid R
      → R.w ≡ 0
      → R.r ≡ 0
      → Reach (start R) s
      → (pending : List A) × (s.sent ≡ s.got ++ pending) × (length pending < s.ring.cap)
  Reach-fifo R s v w r reach =
      let inv = Reach-Inv (start-Inv R v w r) reach in (inv.pending, inv.fifo, room_lem s inv)

  -- In no reachable state do the two threads touch one slot: the slot that the writer stores next
  -- is none that the reader still has to load.
  pub Reach-disjoint :
      (R : Ring A) (s : State A) (src out : List A) (n i m j : ℕ)
      → IsValid R
      → R.w ≡ 0
      → R.r ≡ 0
      → Reach (start R) s
      → s.writer ≡ Writer.copying src n i
      → i < n
      → s.reader ≡ Reader.copying m j out
      → j < m
      → (s.ring.w + i) % s.ring.cap ≢ (s.ring.r + j) % s.ring.cap
  Reach-disjoint R s src out n i m j v w r reach ew lt er lt' same =
      mod-ne s.ring.cap (length s.got + j) (length inv.pending + i - j)
        (omega (arith, loading.published)) (omega (arith, storing.fits))
        (ap (λ k. k % s.ring.cap) (omega (arith, loading.published))
          ∙ sym (write_slot s inv i)
          ∙ same
          ∙ read_slot s inv j)
    where
      inv : Inv s
      inv = Reach-Inv (start-Inv R v w r) reach

      storing : Storing s.ring.buf s.ring.cap (length s.got) inv.pending src n i
      storing = as_writer s inv ew

      loading : Loading inv.pending m j out
      loading = as_reader s inv er

  inside : (s : State A) → Inv s → (k : ℕ) → k % s.ring.cap < length s.ring.buf
  inside s v k =
      omega
        (arith, v.storage, room_lem s v, mod-lt k {m = s.ring.cap} (omega (arith, room_lem s v)))

  -- A writer in its loop never faults: the frame is in its source and the slot is in the ring.
  pub Reach-copy_write :
      (R : Ring A) (s : State A) (src : List A) (n i : ℕ)
      → IsValid R
      → R.w ≡ 0
      → R.r ≡ 0
      → Reach (start R) s
      → s.writer ≡ Writer.copying src n i
      → i < n
      → (x : A) × (b : List A) × (get_elem? src i ≡ some x)
        × (store s.ring.buf ((s.ring.w + i) % s.ring.cap) x ≡ some b)
  Reach-copy_write R s src n i v w r reach e lt =
      let inv = Reach-Inv (start-Inv R v w r) reach in
      let (x, g) = get_elem?-lt src i (omega (arith, (as_writer s inv e).enough)) in
      let slot = (s.ring.w + i) % s.ring.cap in
      (x, set s.ring.buf slot x, g, store-eq-set s.ring.buf slot x (inside s inv (s.ring.w + i)))

  -- A reader in its loop never faults, and what it loads is the next frame in the order of writing.
  pub Reach-copy_read :
      (R : Ring A) (s : State A) (n i : ℕ) (out : List A)
      → IsValid R
      → R.w ≡ 0
      → R.r ≡ 0
      → Reach (start R) s
      → s.reader ≡ Reader.copying n i out
      → i < n
      → (x : A) × (get_elem? s.ring.buf ((s.ring.r + i) % s.ring.cap) ≡ some x)
        × (get_elem? s.sent (length s.got + i) ≡ some x)
  Reach-copy_read R s n i out v w r reach e lt =
      let inv = Reach-Inv (start-Inv R v w r) reach in
      let unread : i < length inv.pending = omega (arith, (as_reader s inv e).published) in
      let (x, g) = get_elem?-lt inv.pending i unread in
      (
        x,
        ap (get_elem? s.ring.buf) (read_slot s inv i)
            ∙ writer_slot s.ring.buf s.ring.cap (length s.got) inv.pending s.writer i inv.storage
                inv.writing unread
            ∙ g,
        ap (λ l. get_elem? l (length s.got + i)) inv.fifo
            ∙ get_elem?-append s.got inv.pending i
            ∙ g,
      )
