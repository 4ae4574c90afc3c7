-- ===== src/Kernel/Urbs.antt =====
-- kernel/djmt1_audio.c: the URBs of a stream, from their allocation to their release, and
-- `djmt1_trigger`, which submits them.
pub mod Balance
pub mod Trigger
use djm_t1_linux.Base.{
  ℕ, zero, suc, ◌+◌, ◌-◌, ◌%◌, ◌/◌, ◌==◌, Bool, true, false, Option, none, some, List, [], ◌∷◌,
  if◌then◌else◌, replicate,
}
use djm_t1_linux.Base.Int.{ℤ, pos, negsuc}
use djm_t1_linux.Kernel.{Slot, layout, npkt, nonzero}

abbrev pub nurb : ℕ
nurb = 4

-- `-ENOMEM` and `-EINVAL`
abbrev pub enomem : ℤ
enomem = negsuc 11

abbrev pub einval : ℤ
einval = negsuc 21

-- `struct urb`, as `djmt1_alloc_urbs` fills it in. `transfer_buffer` is "is not null".
pub record Urb : Type 0 where
  pub endpoint : ℕ
  pub dir_in : Bool
  pub number_of_packets : ℕ
  pub iso_frame_desc : List Slot
  pub transfer_buffer : Bool

-- What has been taken from the kernel's allocators and given back, and how often they were asked.
pub record Heap : Type 0 where
  pub asked : ℕ
  pub urbs : ℕ
  pub urbs_freed : ℕ
  pub buffers : ℕ
  pub buffers_freed : ℕ

-- `grants n` is whether the allocation that is asked for as the `n`-th succeeds.
module _ (grants : ℕ → Bool) where
  pub usb_alloc_urb : Heap → Bool × Heap
  usb_alloc_urb h =
      if grants h.asked
      then (true, record h { asked = h.asked + 1; urbs = h.urbs + 1 })
      else (false, record h { asked = h.asked + 1 })

  pub kzalloc : Heap → Bool × Heap
  kzalloc h =
      if grants h.asked
      then (true, record h { asked = h.asked + 1; buffers = h.buffers + 1 })
      else (false, record h { asked = h.asked + 1 })

  -- `ep & USB_DIR_IN` and `ep & 0x0f`
  pub new_urb : ℕ → Bool → Urb
  new_urb ep buffer = record {
    endpoint = ep % 16;
    dir_in = ep / 128 % 2 == 1;
    number_of_packets = npkt;
    iso_frame_desc = if buffer then layout npkt 0 else [];
    transfer_buffer = buffer;
  }

  -- The loop of `djmt1_alloc_urbs`, with `left` URBs to go: what it leaves in their slots of
  -- `s->urb`, which were null, and its result.
  pub alloc_loop : ℕ → ℕ → Heap → Heap × List (Option Urb) × ℤ
  unfolding usb_alloc_urb kzalloc new_urb layout
  alloc_loop ep zero h = (h, [], pos 0)
  alloc_loop ep (suc left) h =
      let (urb, h1) = usb_alloc_urb h in
      let (buffer, h2) = kzalloc h1 in
      let rest = alloc_loop ep left h2 in
      if urb
      then (if buffer
          then (rest.0, some (new_urb ep true) ∷ rest.1, rest.2)
          else (h2, some (new_urb ep false) ∷ replicate left none, enomem))
      else (h1, none ∷ replicate left none, enomem)

  pub alloc_urbs : ℕ → Heap → Heap × List (Option Urb) × ℤ
  unfolding alloc_loop
  alloc_urbs ep h = alloc_loop ep nurb h

-- `kfree(urb->transfer_buffer)`: of a null pointer nothing is freed.
pub kfree : Bool → Heap → Heap
kfree buffer h = if buffer then record h { buffers_freed = h.buffers_freed + 1 } else h

pub usb_free_urb : Heap → Heap
usb_free_urb h = record h { urbs_freed = h.urbs_freed + 1 }

-- `djmt1_free_urbs`: the slots are null after it.
unfoldable pub free_urbs : List (Option Urb) → Heap → Heap × List (Option Urb)
unfolding kfree usb_free_urb
free_urbs [] h = (h, [])
free_urbs (none ∷ slots) h = let (h', rest) = free_urbs slots h in (h', none ∷ rest)
free_urbs (some u ∷ slots) h =
    let (h', rest) = free_urbs slots (usb_free_urb (kfree u.transfer_buffer h)) in (h', none ∷ rest)

pub data Command : Type 0 where
  start stop other : Command

-- A stream as the trigger sees it: `active u` is "URB `u` is submitted and has not completed".
pub record Endpoint : Type 0 where
  pub running : Bool
  pub active : ℕ → Bool

abbrev pub activate : ℕ → (ℕ → Bool) → ℕ → Bool
activate u active k = if k == u then true else active k

-- `submit` is `usb_submit_urb`: its result for URB `u`, by which URBs are active.
module _ (submit : (ℕ → Bool) → ℕ → ℤ) where
  -- The loop of `djmt1_trigger` at URB `u`, with `left` to go.
  pub submit_loop : ℕ → ℕ → Endpoint → Endpoint × ℤ
  submit_loop zero u e = (e, pos 0)
  submit_loop (suc left) u e =
      let ret = submit e.active u in
      let rest = submit_loop left (u + 1) (record e { active = activate u e.active }) in
      if nonzero ret then (record e { running = false }, ret) else rest

  pub trigger : Command → Endpoint → Endpoint × ℤ
  unfolding submit_loop
  trigger start e = submit_loop nurb 0 (record e { running = true })
  trigger stop e = (record e { running = false }, pos 0)
  trigger other e = (e, einval)
