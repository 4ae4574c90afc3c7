-- ===== src/Kernel/Urbs/Balance.antt =====
-- What `djmt1_alloc_urbs` takes, and that `djmt1_free_urbs` gives all of it back.
use djm_t1_linux.Base.{
  ℕ, zero, suc, ◌+◌, ◌≡◌, ◌⊎◌, inl, inr, refl, ap, Bool, true, false, Option, none, some, List, [],
  ◌∷◌, arith, Bool-cases, length, replicate, length-replicate,
}
use djm_t1_linux.Base.Int.{ℤ, pos}
use djm_t1_linux.Kernel.Urbs.{
  Urb, Heap, nurb, alloc_urbs, alloc_loop, free_urbs, kfree, usb_free_urb, enomem,
}

abbrev pub one_if : Bool → ℕ
one_if true = 1
one_if false = 0

-- How many URBs stand in slots, and how many of them have a buffer.
abbrev pub held : List (Option Urb) → ℕ
held [] = 0
held (none ∷ slots) = held slots
held (some u ∷ slots) = suc (held slots)

abbrev pub held_buffers : List (Option Urb) → ℕ
held_buffers [] = 0
held_buffers (none ∷ slots) = held_buffers slots
held_buffers (some u ∷ slots) = one_if u.transfer_buffer + held_buffers slots

held-replicate : (n : ℕ) → (held (replicate n none) ≡ 0) × (held_buffers (replicate n none) ≡ 0)
held-replicate zero = (refl, refl)
held-replicate (suc n) = held-replicate n

-- What an allocation of `left` URBs leaves behind: what stands in the slots is what has been taken.
pub record Allocated (left : ℕ) (h : Heap) (r : Heap × List (Option Urb) × ℤ) : Type 0 where
  pub urbs : r.0.urbs ≡ h.urbs + held r.1
  pub buffers : r.0.buffers ≡ h.buffers + held_buffers r.1
  pub urbs_freed : r.0.urbs_freed ≡ h.urbs_freed
  pub buffers_freed : r.0.buffers_freed ≡ h.buffers_freed
  pub slots : length r.1 ≡ left
  pub outcome : ((r.2 ≡ pos 0) × (held r.1 ≡ left) × (held_buffers r.1 ≡ left)) ⊎ (r.2 ≡ enomem)

module _ (grants : ℕ → Bool) where
  pub alloc_loop-Allocated :
      (ep left : ℕ) (h : Heap) → Allocated left h (alloc_loop grants ep left h)
  unfolding alloc_loop
  alloc_loop-Allocated ep zero h = record {
    urbs = omega arith;
    buffers = omega arith;
    urbs_freed = refl;
    buffers_freed = refl;
    slots = refl;
    outcome = inl (refl, refl, refl);
  }
  alloc_loop-Allocated ep (suc left) h = elim (Bool-cases (grants h.asked)) [
    | inl urb ↦ elim (Bool-cases (grants (h.asked + 1))) [
      | inl buffer ↦
          let rest =
            alloc_loop-Allocated ep left
              (record h { asked = h.asked + 1 + 1; urbs = h.urbs + 1; buffers = h.buffers + 1 }) in
          rw (urb, buffer)
            (record {
              urbs = omega (arith, rest.urbs);
              buffers = omega (arith, rest.buffers);
              urbs_freed = rest.urbs_freed;
              buffers_freed = rest.buffers_freed;
              slots = ap suc rest.slots;
              outcome = elim rest.outcome [
                | inl (ret, all, full) ↦ inl (ret, ap suc all, omega (arith, full))
                | inr ret ↦ inr ret
              ];
            })
      | inr no_buffer ↦
          rw (urb, no_buffer)
            (record {
              urbs = omega (arith, held-replicate left);
              buffers = omega (arith, held-replicate left);
              urbs_freed = refl;
              buffers_freed = refl;
              slots = ap suc (length-replicate left none);
              outcome = inr refl;
            })
    ]
    | inr no_urb ↦ rw no_urb (record {
      urbs = omega (arith, held-replicate left);
      buffers = omega (arith, held-replicate left);
      urbs_freed = refl;
      buffers_freed = refl;
      slots = ap suc (length-replicate left none);
      outcome = inr refl;
    })
  ]

  pub alloc_urbs-Allocated : (ep : ℕ) (h : Heap) → Allocated nurb h (alloc_urbs grants ep h)
  unfolding alloc_urbs
  alloc_urbs-Allocated ep h = alloc_loop-Allocated ep nurb h

-- `free_urbs` gives back the URBs that stand in the slots, and their buffers.
pub record Freed (slots : List (Option Urb)) (h : Heap) (r : Heap × List (Option Urb))
    : Type 0 where
  pub urbs : r.0.urbs ≡ h.urbs
  pub buffers : r.0.buffers ≡ h.buffers
  pub urbs_freed : r.0.urbs_freed ≡ h.urbs_freed + held slots
  pub buffers_freed : r.0.buffers_freed ≡ h.buffers_freed + held_buffers slots
  pub nulled : r.1 ≡ replicate (length slots) none

kfree_counts :
    (b : Bool) (h : Heap)
    → ((kfree b h).urbs ≡ h.urbs)
      × ((kfree b h).buffers ≡ h.buffers)
      × ((kfree b h).urbs_freed ≡ h.urbs_freed)
      × ((kfree b h).buffers_freed ≡ h.buffers_freed + one_if b)
unfolding kfree
kfree_counts true h = omega arith
kfree_counts false h = omega arith

pub free_urbs-Freed : (slots : List (Option Urb)) (h : Heap) → Freed slots h (free_urbs slots h)
unfolding free_urbs
free_urbs-Freed [] h = record {
  urbs = refl;
  buffers = refl;
  urbs_freed = omega arith;
  buffers_freed = omega arith;
  nulled = refl;
}
free_urbs-Freed (none ∷ slots) h =
    let rest = free_urbs-Freed slots h in
    record {
      urbs = rest.urbs;
      buffers = rest.buffers;
      urbs_freed = rest.urbs_freed;
      buffers_freed = rest.buffers_freed;
      nulled = ap (◌∷◌ none) rest.nulled;
    }
free_urbs-Freed (some u ∷ slots) h =
    let b = u.transfer_buffer in
    let rest = free_urbs-Freed slots (usb_free_urb (kfree b h)) in
    record {
      urbs = omega (arith, rest.urbs, kfree_counts b h);
      buffers = omega (arith, rest.buffers, kfree_counts b h);
      urbs_freed = omega (arith, rest.urbs_freed, kfree_counts b h);
      buffers_freed = omega (arith, rest.buffers_freed, kfree_counts b h);
      nulled = ap (◌∷◌ none) rest.nulled;
    }
