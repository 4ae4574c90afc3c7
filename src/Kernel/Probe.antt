-- ===== src/Kernel/Probe.antt =====
-- kernel/djmt1_audio.c: `djmt1_probe` and `djmt1_disconnect`, with the card and the URBs that they
-- take and give back. Names and operations of the card are left out.
pub mod Release
use djm_t1_linux.Base.{
  ℕ, suc, ◌+◌, ◌==◌, not, Bool, true, false, Option, none, some, List, [], if◌then◌else◌, replicate,
}
use djm_t1_linux.Base.Int.{ℤ, pos, negsuc}
use djm_t1_linux.Kernel.Urbs.{Urb, Heap, nurb, alloc_urbs, free_urbs}

-- `err < 0`
abbrev pub negative : ℤ → Bool
negative (pos n) = false
negative (negsuc n) = true

abbrev pub enodev : ℤ
enodev = negsuc 18

abbrev pub ep_in : ℕ
ep_in = 0x82

abbrev pub ep_out : ℕ
ep_out = 0x01

-- `struct djmt1`: the URBs of its two streams, and whether they run.
pub record Chip : Type 0 where
  pub capture : List (Option Urb)
  pub playback : List (Option Urb)
  pub capture_running : Bool
  pub playback_running : Bool

-- The cards that were made and given back, the allocators, and the interface's `intfdata`.
pub record Host : Type 0 where
  pub cards : ℕ
  pub cards_freed : ℕ
  pub heap : Heap
  pub intfdata : Option Chip

-- What ALSA and the USB core answer. A call of `snd_card_new` that fails makes no card; the memory
-- of a new one is zeroed, so its slots of URBs are null.
pub record Answers : Type 0 where
  pub card_new : ℤ
  pub pcm_new : ℤ
  pub set_interface : ℤ
  pub grants : ℕ → Bool
  pub card_register : ℤ

-- The label `fail`.
pub fail : ℤ → Host → Host × ℤ
fail err h = (record h { cards_freed = h.cards_freed + 1 }, err)

-- The label `fail_urbs`.
pub fail_urbs : ℤ → List (Option Urb) → List (Option Urb) → Host → Host × ℤ
unfolding fail
fail_urbs err capture playback h =
    let c = free_urbs capture h.heap in
    let p = free_urbs playback c.0 in fail err (record h { heap = p.0 })

-- From the allocation of the URBs on.
pub bind_urbs : Answers → Host → Host × ℤ
unfolding fail_urbs
bind_urbs ans h =
    let (heap, capture, err) = alloc_urbs ans.grants ep_in h.heap in
    let (heap', playback, err') = alloc_urbs ans.grants ep_out heap in
    if negative err
    then fail_urbs err capture (replicate nurb none) (record h { heap = heap })
    else if negative err'
    then fail_urbs err' capture playback (record h { heap = heap' })
    else if negative ans.card_register
    then fail_urbs ans.card_register capture playback (record h { heap = heap' })
    else (
      record h {
        heap = heap';
        intfdata = some (record {
          capture = capture;
          playback = playback;
          capture_running = false;
          playback_running = false;
        });
      },
      pos 0,
    )

-- `djmt1_probe` of the interface of the given number.
pub probe : Answers → ℕ → Host → Host × ℤ
unfolding fail bind_urbs
probe ans interface h =
    let made = record h { cards = h.cards + 1 } in
    if not (interface == 0)
    then (h, enodev)
    else if negative ans.card_new
    then (h, ans.card_new)
    else if negative ans.pcm_new
    then fail ans.pcm_new made
    else if negative ans.set_interface
    then fail ans.set_interface made
    else bind_urbs ans made

-- `snd_card_free_when_closed` gives the card to ALSA, which frees it with its last user.
pub disconnect_chip : Option Chip → Host → Host
disconnect_chip none h = h
disconnect_chip (some chip) h =
    let c = free_urbs chip.capture h.heap in
    let p = free_urbs chip.playback c.0 in
    record h { heap = p.0; cards_freed = h.cards_freed + 1; intfdata = none }

-- `djmt1_disconnect`
pub disconnect : Host → Host
unfolding disconnect_chip
disconnect h = disconnect_chip h.intfdata h
