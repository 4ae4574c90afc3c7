-- ===== src/Kernel/Probe/Release.antt =====
-- A device that is bound, or fails to be, and goes again leaves nothing behind.
use djm_t1_linux.Base.{
  ℕ, ◌+◌, ◌*◌, ◌≡◌, ◌⊎◌, inl, inr, refl, sym, ap, true, false, Option, none, some, List, arith,
  Bool-cases, ◌==◌, replicate,
}
use mathlib.Core.Path.{subst}
use djm_t1_linux.Base.Int.{ℤ, pos}
use djm_t1_linux.Kernel.Urbs.{Urb, Heap, nurb, alloc_urbs, free_urbs}
use djm_t1_linux.Kernel.Urbs.Balance.{
  held, held_buffers, Allocated, alloc_urbs-Allocated, Freed, free_urbs-Freed,
}
use djm_t1_linux.Kernel.Probe.{
  Chip, Host, Answers, negative, fail, fail_urbs, bind_urbs, probe, disconnect, disconnect_chip,
  ep_in, ep_out,
}

-- All that was taken has been given back, and no device is bound.
pub record IsClean (h : Host) : Type 0 where
  pub cards : h.cards ≡ h.cards_freed
  pub urbs : h.heap.urbs ≡ h.heap.urbs_freed
  pub buffers : h.heap.buffers ≡ h.heap.buffers_freed
  pub unbound : h.intfdata ≡ none

-- A device is bound: its card, and four URBs with their buffers in either direction, are all that
-- is held.
pub record IsBound (h : Host) : Type 0 where
  pub chip : Chip
  pub bound : h.intfdata ≡ some chip
  pub cards : h.cards ≡ h.cards_freed + 1
  pub capture : (held chip.capture ≡ nurb) × (held_buffers chip.capture ≡ nurb)
  pub playback : (held chip.playback ≡ nurb) × (held_buffers chip.playback ≡ nurb)
  pub urbs : h.heap.urbs ≡ h.heap.urbs_freed + 2 * nurb
  pub buffers : h.heap.buffers ≡ h.heap.buffers_freed + 2 * nurb

-- The URBs in these slots, with their buffers, are all that is held beside a card.
record Holds (capture playback : List (Option Urb)) (h : Host) : Type 0 where
  cards : h.cards ≡ h.cards_freed + 1
  urbs : h.heap.urbs ≡ h.heap.urbs_freed + (held capture + held playback)
  buffers : h.heap.buffers ≡ h.heap.buffers_freed + (held_buffers capture + held_buffers playback)
  unbound : h.intfdata ≡ none

fail_urbs-IsClean :
    (err : ℤ) (capture playback : List (Option Urb)) (h : Host)
    → Holds capture playback h
    → IsClean (fail_urbs err capture playback h).0
unfolding fail_urbs
fail_urbs-IsClean err capture playback h held_by =
    let c = free_urbs-Freed capture h.heap in
    let p = free_urbs-Freed playback (free_urbs capture h.heap).0 in
    record {
      cards = omega (arith, held_by.cards);
      urbs = omega (arith, held_by.urbs, c.urbs, p.urbs, c.urbs_freed, p.urbs_freed);
      buffers =
          omega (arith, held_by.buffers, c.buffers, p.buffers, c.buffers_freed, p.buffers_freed);
      unbound = held_by.unbound;
    }

-- A probe that succeeds has bound the device; one that fails has left nothing behind.
abbrev pub Outcome : Host × ℤ → Type 0
Outcome r = ((r.1 ≡ pos 0) × IsBound r.0) ⊎ ((negative r.1 ≡ true) × IsClean r.0)

-- All four URBs and their buffers are there, or the result says that some are not.
Complete : List (Option Urb) → ℤ → Type 0
Complete slots err =
    ((negative err ≡ false) × (held slots ≡ nurb) × (held_buffers slots ≡ nurb))
    ⊎ (negative err ≡ true)

complete : {h : Heap} {r : Heap × List (Option Urb) × ℤ} → Allocated nurb h r → Complete r.1 r.2
unfolding Complete
complete a = elim a.outcome [
  | inl (ret, urbs, buffers) ↦ inl (ap negative ret, urbs, buffers)
  | inr ret ↦ inr (ap negative ret)
]

bind_urbs-Outcome :
    (ans : Answers) (h : Host)
    → h.cards ≡ h.cards_freed + 1
    → h.heap.urbs ≡ h.heap.urbs_freed
    → h.heap.buffers ≡ h.heap.buffers_freed
    → h.intfdata ≡ none
    → Outcome (bind_urbs ans h)
unfolding bind_urbs Complete
bind_urbs-Outcome ans h card urbs buffers unbound = elim (complete a) [
  | inr short ↦
      rw short (
        inr
          (short, fail_urbs-IsClean r.2 r.1 (replicate nurb none) (record h { heap = r.0 }) first))
  | inl (got, all, full) ↦ elim (complete b) [
    | inr short ↦
        rw (got, short) (inr (short, fail_urbs-IsClean q.2 r.1 q.1 (record h { heap = q.0 }) both))
    | inl (got', all', full') ↦ elim (Bool-cases (negative ans.card_register)) [
      | inl refused ↦
          rw (got, got', refused)
            (inr
              (refused, fail_urbs-IsClean ans.card_register r.1 q.1 (record h { heap = q.0 }) both))
      | inr registered ↦
          rw (got, got', registered)
            (inl (
              refl,
              record {
                chip = record {
                  capture = r.1;
                  playback = q.1;
                  capture_running = false;
                  playback_running = false;
                };
                bound = refl;
                cards = card;
                capture = (all, full);
                playback = (all', full');
                urbs = omega (arith, both.urbs);
                buffers = omega (arith, both.buffers);
              },
            ))
    ]
  ]
]
  where
    r : Heap × List (Option Urb) × ℤ
    r = alloc_urbs ans.grants ep_in h.heap

    a : Allocated nurb h.heap r
    a = alloc_urbs-Allocated ans.grants ep_in h.heap

    first : Holds r.1 (replicate nurb none) (record h { heap = r.0 })
    first = record {
      cards = card;
      urbs = omega (arith, a.urbs, a.urbs_freed);
      buffers = omega (arith, a.buffers, a.buffers_freed);
      unbound = unbound;
    }

    q : Heap × List (Option Urb) × ℤ
    q = alloc_urbs ans.grants ep_out r.0

    b : Allocated nurb r.0 q
    b = alloc_urbs-Allocated ans.grants ep_out r.0

    both : Holds r.1 q.1 (record h { heap = q.0 })
    both = record {
      cards = card;
      urbs = omega (arith, a.urbs, b.urbs, a.urbs_freed, b.urbs_freed);
      buffers = omega (arith, a.buffers, b.buffers, a.buffers_freed, b.buffers_freed);
      unbound = unbound;
    }

-- `djmt1_probe`, from a host on which nothing is held, on every answer of ALSA, the USB core and the
-- allocators: if it returns 0 the device is bound, and a card and eight URBs with their buffers are
-- held; or it returns a negative error, and whatever it took it has given back.
pub probe-Outcome :
    (ans : Answers) (interface : ℕ) (h : Host) → IsClean h → Outcome (probe ans interface h)
unfolding probe fail
probe-Outcome ans interface h v = elim (Bool-cases (interface == 0)) [
  | inr other ↦ rw other (inr (refl, v))
  | inl audio ↦ elim (Bool-cases (negative ans.card_new)) [
    | inl no_card ↦ rw (audio, no_card) (inr (no_card, v))
    | inr card ↦ elim (Bool-cases (negative ans.pcm_new)) [
      | inl no_pcm ↦ rw (audio, card, no_pcm) (inr (no_pcm, freed))
      | inr pcm ↦ elim (Bool-cases (negative ans.set_interface)) [
        | inl refused ↦ rw (audio, card, pcm, refused) (inr (refused, freed))
        | inr set ↦
            rw (audio, card, pcm, set)
              (bind_urbs-Outcome ans (record h { cards = h.cards + 1 }) (omega (arith, v.cards))
                v.urbs v.buffers v.unbound)
      ]
    ]
  ]
]
  where
    freed : IsClean (record h { cards = h.cards + 1; cards_freed = h.cards_freed + 1 })
    freed = record {
      cards = omega (arith, v.cards);
      urbs = v.urbs;
      buffers = v.buffers;
      unbound = v.unbound;
    }

disconnect_bound : (h : Host) → IsBound h → IsClean (disconnect h)
unfolding disconnect
disconnect_bound h b =
    subst (λ i. IsClean (disconnect_chip i h)) (sym b.bound)
      (record {
        cards = omega (arith, b.cards);
        urbs =
            omega
              (arith, b.urbs, b.capture, b.playback, c.urbs, p.urbs, c.urbs_freed, p.urbs_freed);
        buffers = omega (
          arith, b.buffers, b.capture, b.playback, c.buffers, p.buffers, c.buffers_freed,
          p.buffers_freed,
        );
        unbound = refl;
      })
  where
    c : Freed b.chip.capture h.heap (free_urbs b.chip.capture h.heap)
    c = free_urbs-Freed b.chip.capture h.heap

    p :
        Freed b.chip.playback
          (free_urbs b.chip.capture h.heap).0
          (free_urbs b.chip.playback (free_urbs b.chip.capture h.heap).0)
    p = free_urbs-Freed b.chip.playback (free_urbs b.chip.capture h.heap).0

disconnect-IsClean : (h : Host) → IsClean h → IsClean (disconnect h)
unfolding disconnect
disconnect-IsClean h v = subst (λ i. IsClean (disconnect_chip i h)) (sym v.unbound) v

-- Whatever becomes of `djmt1_probe`, behind `djmt1_disconnect` nothing is held any more: no card, no
-- URB, no buffer, and no device is bound.
pub disconnect-probe :
    (ans : Answers) (interface : ℕ) (h : Host)
    → IsClean h
    → IsClean (disconnect (probe ans interface h).0)
disconnect-probe ans interface h v = elim (probe-Outcome ans interface h v) [
  | inl (ret, bound) ↦ disconnect_bound (probe ans interface h).0 bound
  | inr (err, clean) ↦ disconnect-IsClean (probe ans interface h).0 clean
]
