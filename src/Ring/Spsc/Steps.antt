-- ===== src/Ring/Spsc/Steps.antt =====
-- Every step of either thread keeps the invariant.
use djm_t1_linux.Base.{
  ℕ, ◌+◌, ◌-◌, ◌%◌, ◌<◌, ◌≡◌, refl, sym, ap, ◌∙◌, ◌++◌, arith, min, length, take, drop, set, store,
  store-eq-set, length-set, length-append, length-take, length-drop, get_elem?, append_assoc,
  take-append-drop, some_eq,
}
use mathlib.Core.Path.{subst}
use native.Mathlib.Nat.{mod-lt, mod-add-mod}
use djm_t1_linux.Base.Modular.{distance-add}
use djm_t1_linux.Ring.{avail, space}
use djm_t1_linux.Ring.Inv.{IsValid}
use djm_t1_linux.Ring.Spsc.{
  State, Writer, Reader, Step, begin_write, copy_write, end_write, begin_read, copy_read, end_read,
}
use djm_t1_linux.Ring.Spsc.Inv.{
  Inv, WriterIs, ReaderIs, Storing, Loading, begin_storing, copy_storing, end_storing, copy-Loading,
  writer_advance, reader_extend, writer_room, writer_slot,
}

module _ {ℓ} {A : Type ℓ} where
  pub room_lem : (s : State A) (v : Inv s) → length v.pending < s.ring.cap
  room_lem s v = writer_room s.ring.buf s.ring.cap (length s.got) v.pending s.writer v.writing

  pub valid : (s : State A) → Inv s → IsValid s.ring
  valid s v =
      let pos : 0 < s.ring.cap = omega (arith, room_lem s v) in
      record {
        storage = v.storage;
        w_in = omega (arith, v.w_at, mod-lt (length s.got + length v.pending) {m = s.ring.cap} pos);
        r_in = omega (arith, v.r_at, mod-lt (length s.got) {m = s.ring.cap} pos);
      }

  -- Both threads read off how many frames are unread.
  pub avail-pending : (s : State A) (v : Inv s) → avail s.ring ≡ length v.pending
  unfolding avail
  avail-pending s v =
      ap (λ k. (k + cap - s.ring.r) % cap)
        (v.w_at ∙ sym (mod-add-mod (length s.got) cap p) ∙ ap (λ k. (k + p) % cap) (sym v.r_at))
      ∙ distance-add cap s.ring.r p (valid s v).r_in (room_lem s v)
    where
      cap : ℕ
      cap = s.ring.cap

      p : ℕ
      p = length v.pending

  pub as_writer :
      (s : State A) (v : Inv s) {t : Writer A}
      → s.writer ≡ t
      → WriterIs s.ring.buf s.ring.cap (length s.got) v.pending t
  as_writer s v e = subst (WriterIs s.ring.buf s.ring.cap (length s.got) v.pending) e v.writing

  pub as_reader : (s : State A) (v : Inv s) {t : Reader A} → s.reader ≡ t → ReaderIs v.pending t
  as_reader s v e = subst (ReaderIs v.pending) e v.reading

  -- The slot that the writer stores into, counted from the oldest unread frame.
  pub write_slot :
      (s : State A) (v : Inv s) (i : ℕ)
      → (s.ring.w + i) % s.ring.cap ≡ (length s.got + (length v.pending + i)) % s.ring.cap
  write_slot s v i =
      ap (λ k. (k + i) % s.ring.cap) v.w_at
      ∙ mod-add-mod (length s.got + length v.pending) s.ring.cap i
      ∙ ap (λ k. k % s.ring.cap) (omega arith)

  pub read_slot :
      (s : State A) (v : Inv s) (i : ℕ)
      → (s.ring.r + i) % s.ring.cap ≡ (length s.got + i) % s.ring.cap
  read_slot s v i = ap (λ k. (k + i) % s.ring.cap) v.r_at ∙ mod-add-mod (length s.got) s.ring.cap i

  pub Step-Inv : {s t : State A} → Step s t → Inv s → Inv t
  unfolding space
  Step-Inv {s} (begin_write src n e le) v = record {
    pending = v.pending;
    fifo = v.fifo;
    storage = v.storage;
    w_at = v.w_at;
    r_at = v.r_at;
    reading = v.reading;
    writing =
        begin_storing s.ring.buf s.ring.cap (length s.got) v.pending src (min n (space s.ring))
          (as_writer s v e) (omega (arith, avail-pending s v, room_lem s v)) (omega arith);
  }
  Step-Inv {s} (copy_write src n i x b e lt g st) v = record {
    pending = v.pending;
    fifo = v.fifo;
    w_at = v.w_at;
    r_at = v.r_at;
    reading = v.reading;
    storage = ap length stored ∙ length-set s.ring.buf slot x ∙ v.storage;
    writing =
        subst (λ buf. Storing buf s.ring.cap (length s.got) v.pending src n (i + 1)) (sym stored)
          (copy_storing s.ring.buf s.ring.cap (length s.got) v.pending src n i x v.storage
            (as_writer s v e) lt g);
  }
    where
      slot : ℕ
      slot = (length s.got + (length v.pending + i)) % s.ring.cap

      inside : slot < length s.ring.buf
      inside = omega (
        arith,
        v.storage,
        room_lem s v,
        mod-lt (length s.got + (length v.pending + i)) {m = s.ring.cap}
            (omega (arith, room_lem s v)),
      )

      stored : b ≡ set s.ring.buf slot x
      stored = some_eq (
          sym st
          ∙ ap (λ k. store s.ring.buf k x) (write_slot s v i)
          ∙ store-eq-set s.ring.buf slot x inside)
  Step-Inv {s} (end_write src n e) v = record {
    pending = v.pending ++ take n src;
    fifo = ap (λ l. l ++ take n src) v.fifo ∙ append_assoc s.got v.pending (take n src);
    storage = v.storage;
    w_at = write_slot s v n ∙ ap (λ k. (length s.got + k) % s.ring.cap) longer;
    r_at = v.r_at;
    writing = end_storing s.ring.buf s.ring.cap (length s.got) v.pending src n (as_writer s v e);
    reading = reader_extend v.pending (take n src) s.reader v.reading;
  }
    where
      longer : length v.pending + n ≡ length (v.pending ++ take n src)
      longer =
          omega (
            arith,
            length-append v.pending (take n src),
            length-take n src,
            (as_writer s v e).enough,
          )
  Step-Inv {s} (begin_read n e) v = record {
    pending = v.pending;
    fifo = v.fifo;
    storage = v.storage;
    w_at = v.w_at;
    r_at = v.r_at;
    writing = v.writing;
    reading = record {
      some_left = omega arith;
      published = omega (arith, avail-pending s v);
      copied = refl;
    };
  }
  Step-Inv {s} (copy_read n i out x e lt g) v = record {
    pending = v.pending;
    fifo = v.fifo;
    storage = v.storage;
    w_at = v.w_at;
    r_at = v.r_at;
    writing = v.writing;
    reading = copy-Loading v.pending n i out x (as_reader s v e) lt (
        sym (
          writer_slot s.ring.buf s.ring.cap (length s.got) v.pending s.writer i v.storage v.writing
            unread)
        ∙ ap (get_elem? s.ring.buf) (sym (read_slot s v i))
        ∙ g);
  }
    where
      unread : i < length v.pending
      unread = omega (arith, (as_reader s v e).published)
  Step-Inv {s} (end_read n out e) v = record {
    pending = drop n v.pending;
    fifo =
        v.fifo
        ∙ ap (◌++◌ s.got) (sym (take-append-drop n v.pending))
        ∙ sym (append_assoc s.got _ _)
        ∙ ap (λ l. (s.got ++ l) ++ drop n v.pending) (sym read.copied);
    storage = v.storage;
    w_at =
        v.w_at
        ∙ ap (λ k. k % s.ring.cap) (omega (arith, moved, length-drop n v.pending, read.published));
    r_at = read_slot s v n ∙ ap (λ k. k % s.ring.cap) moved;
    writing =
        subst (λ h. WriterIs s.ring.buf s.ring.cap h (drop n v.pending) s.writer) moved
          (writer_advance s.ring.buf s.ring.cap (length s.got) v.pending n s.writer v.storage
            v.writing read.published);
    reading = record { some_left = omega arith; published = omega arith; copied = refl };
  }
    where
      read : Loading v.pending n n out
      read = as_reader s v e

      moved : length s.got + n ≡ length (s.got ++ out)
      moved = omega (
        arith,
        length-append s.got out,
        ap length read.copied,
        length-take n v.pending,
        read.published,
      )
