-- ===== src/Ring/Spsc/Inv.antt =====
-- The invariant of the interleaving.
use djm_t1_linux.Base.{
  ℕ, ◌+◌, ◌-◌, ◌%◌, ◌≤◌, ◌<◌, ◌≡◌, sym, ap, ◌∙◌, List, [], ◌∷◌, ◌++◌, some, arith, min, length,
  take, drop, set, length-append, length-take, length-drop, take-append_le, drop-append_le,
  get_elem?, get_elem?-append_lt, take_step, append-nil, append_assoc,
}
use native.Mathlib.Nat.{add-zero}
use native.Mathlib.Numerals.{add-one}
use djm_t1_linux.Ring.Window.{window, window-set, drop-window, get_elem?-window}
use djm_t1_linux.Ring.Spsc.{State, Writer, Reader}

module _ {ℓ} {A : Type ℓ} where
  -- The unread frames stand at index `h`, followed by the `i` frames that the writer has stored.
  pub record Storing (buf : List A) (cap h : ℕ) (pending src : List A) (n i : ℕ) : Type ℓ where
    pub fits : length pending + n < cap
    pub some_left : i ≤ n
    pub enough : n ≤ length src
    pub frames : window buf cap h (length pending + i) ≡ pending ++ take i src

  pub record Loading (pending : List A) (n i : ℕ) (out : List A) : Type ℓ where
    pub some_left : i ≤ n
    pub published : n ≤ length pending
    pub copied : out ≡ take i pending

  abbrev pub WriterIs : List A → ℕ → ℕ → List A → Writer A → Type ℓ
  WriterIs buf cap h pending Writer.idle = Storing buf cap h pending [] 0 0
  WriterIs buf cap h pending (Writer.copying src n i) = Storing buf cap h pending src n i

  abbrev pub ReaderIs : List A → Reader A → Type ℓ
  ReaderIs pending Reader.idle = Loading pending 0 0 []
  ReaderIs pending (Reader.copying n i out) = Loading pending n i out

  -- `pending` are the frames written and not yet read.
  pub record Inv (s : State A) : Type ℓ where
    pub pending : List A
    pub fifo : s.sent ≡ s.got ++ pending
    pub storage : length s.ring.buf ≡ s.ring.cap
    pub w_at : s.ring.w ≡ (length s.got + length pending) % s.ring.cap
    pub r_at : s.ring.r ≡ length s.got % s.ring.cap
    pub writing : WriterIs s.ring.buf s.ring.cap (length s.got) pending s.writer
    pub reading : ReaderIs pending s.reader

  pub begin_storing :
      (buf : List A) (cap h : ℕ) (pending src : List A) (n : ℕ)
      → WriterIs buf cap h pending Writer.idle
      → length pending + n < cap
      → n ≤ length src
      → Storing buf cap h pending src n 0
  begin_storing buf cap h pending src n v fits enough = record {
    fits = fits;
    some_left = omega arith;
    enough = enough;
    frames = v.frames;
  }

  pub copy_storing :
      (buf : List A) (cap h : ℕ) (pending src : List A) (n i : ℕ) (x : A)
      → length buf ≡ cap
      → Storing buf cap h pending src n i
      → i < n
      → get_elem? src i ≡ some x
      → Storing (set buf ((h + (length pending + i)) % cap) x) cap h pending src n (i + 1)
  copy_storing buf cap h pending src n i x e v lt g =
      let regroup : length pending + (i + 1) ≡ length pending + i + 1 = omega arith in
      record {
        fits = v.fits;
        some_left = omega arith;
        enough = v.enough;
        frames =
            ap (window (set buf ((h + (length pending + i)) % cap) x) cap h) regroup
            ∙ window-set buf cap h (length pending + i) x e (omega (arith, v.fits))
            ∙ ap (λ l. l ++ (x ∷ [])) v.frames
            ∙ rw (append_assoc, add-one, take_step i src g);
      }

  pub end_storing :
      (buf : List A) (cap h : ℕ) (pending src : List A) (n : ℕ)
      → Storing buf cap h pending src n n
      → Storing buf cap h (pending ++ take n src) [] 0 0
  end_storing buf cap h pending src n v =
      let len : length (pending ++ take n src) ≡ length pending + n =
        omega (arith, length-append pending (take n src), length-take n src, v.enough) in
      record {
        fits = omega (arith, v.fits);
        some_left = omega arith;
        enough = omega arith;
        frames = ap (window buf cap h) (rw add-zero len) ∙ v.frames ∙ sym (append-nil _);
      }

  -- The reader gives `n` slots back.
  advance :
      (buf : List A) (cap h : ℕ) (pending src : List A) (n i k : ℕ)
      → length buf ≡ cap
      → Storing buf cap h pending src n i
      → k ≤ length pending
      → Storing buf cap (h + k) (drop k pending) src n i
  advance buf cap h pending src n i k e v le = record {
    fits = omega (arith, length-drop k pending, v.fits);
    some_left = v.some_left;
    enough = v.enough;
    frames =
        ap (window buf cap (h + k)) left
        ∙ (rw m at (sym (drop-window buf cap h k (length pending + i) e pos)))
        ∙ ap (drop k) v.frames
        ∙ drop-append_le k pending (take i src) le;
  }
    where
      pos : 0 < cap
      pos = omega (arith, v.fits)

      m : min k (length pending + i) ≡ k
      m = omega arith

      left : length (drop k pending) + i ≡ length pending + i - k
      left = omega (arith, length-drop k pending)

  -- What a writer stores leaves what a reader has loaded.
  pub extend-Loading :
      (pending more : List A) (n i : ℕ) (out : List A)
      → Loading pending n i out
      → Loading (pending ++ more) n i out
  extend-Loading pending more n i out v = record {
    some_left = v.some_left;
    published = omega (arith, v.published, length-append pending more);
    copied =
        v.copied ∙ sym (take-append_le i pending more (omega (arith, v.some_left, v.published)));
  }

  pub copy-Loading :
      (pending : List A) (n i : ℕ) (out : List A) (x : A)
      → Loading pending n i out
      → i < n
      → get_elem? pending i ≡ some x
      → Loading pending n (i + 1) (out ++ (x ∷ []))
  copy-Loading pending n i out x v lt g = record {
    some_left = omega arith;
    published = v.published;
    copied = ap (λ l. l ++ (x ∷ [])) v.copied ∙ rw (add-one, take_step i pending g);
  }

  pub writer_advance :
      (buf : List A) (cap h : ℕ) (pending : List A) (k : ℕ) (t : Writer A)
      → length buf ≡ cap
      → WriterIs buf cap h pending t
      → k ≤ length pending
      → WriterIs buf cap (h + k) (drop k pending) t
  writer_advance buf cap h pending k Writer.idle e v le = advance buf cap h pending [] 0 0 k e v le
  writer_advance buf cap h pending k (Writer.copying src n i) e v le =
      advance buf cap h pending src n i k e v le

  pub reader_extend :
      (pending more : List A) (t : Reader A) → ReaderIs pending t → ReaderIs (pending ++ more) t
  reader_extend pending more Reader.idle v = extend-Loading pending more 0 0 [] v
  reader_extend pending more (Reader.copying n i out) v = extend-Loading pending more n i out v

  -- The frames that stand in the ring, whatever the writer does.
  pub writer_room :
      (buf : List A) (cap h : ℕ) (pending : List A) (t : Writer A)
      → WriterIs buf cap h pending t
      → length pending < cap
  writer_room buf cap h pending Writer.idle v = omega (arith, v.fits)
  writer_room buf cap h pending (Writer.copying src n i) v = omega (arith, v.fits)

  storing_slot :
      (buf : List A) (cap h : ℕ) (pending src : List A) (n j i : ℕ)
      → length buf ≡ cap
      → Storing buf cap h pending src n j
      → i < length pending
      → get_elem? buf ((h + i) % cap) ≡ get_elem? pending i
  storing_slot buf cap h pending src n j i e v lt =
      sym
        (get_elem?-window buf cap h (length pending + j) i e (omega (arith, v.fits)) (omega arith))
      ∙ ap (λ l. get_elem? l i) v.frames
      ∙ get_elem?-append_lt pending (take j src) i lt

  -- What a reader finds in slot `i` from its index on.
  pub writer_slot :
      (buf : List A) (cap h : ℕ) (pending : List A) (t : Writer A) (i : ℕ)
      → length buf ≡ cap
      → WriterIs buf cap h pending t
      → i < length pending
      → get_elem? buf ((h + i) % cap) ≡ get_elem? pending i
  writer_slot buf cap h pending Writer.idle i e v lt =
      storing_slot buf cap h pending [] 0 0 i e v lt
  writer_slot buf cap h pending (Writer.copying src n j) i e v lt =
      storing_slot buf cap h pending src n j i e v lt
