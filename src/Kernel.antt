-- ===== src/Kernel.antt =====
-- kernel/djmt1_audio.c: the ALSA driver. Here are a PCM stream and what the URB completions do to
-- it; `Kernel.Urbs` has the URBs' allocation and the trigger, `Kernel.Probe` the binding of a device.
pub mod Copy
pub mod Period
pub mod Capture
pub mod Playback
pub mod Urbs
pub mod Probe
mod Tests
use djm_t1_linux.Base.{
  ℕ, zero, suc, ◌+◌, ◌*◌, ◌/◌, ◌%◌, ◌^◌, ◌||◌, Bool, true, false, Option, none, some, List, [], ◌∷◌,
  ltb, leb, if◌then◌else◌, ◌>>=◌, get_elem?, store, not, length,
}
use djm_t1_linux.Base.Int.{ℤ, pos, negsuc}

abbrev pub pkt_bytes : ℕ
pkt_bytes = 864

abbrev pub frame_bytes : ℕ
frame_bytes = 18

abbrev pub frames_per_pkt : ℕ
frames_per_pkt = 48

abbrev pub npkt : ℕ
npkt = 8

-- A C condition on an `int`.
abbrev pub nonzero : ℤ → Bool
nonzero (pos zero) = false
nonzero _ = true

-- `unsigned int` addition.
abbrev pub add32 : ℕ → ℕ → ℕ
add32 a b = (a + b) % 2 ^ 32

-- `struct djmt1_stream` with the PCM's ring, over any type of frames: eighteen bytes, which are
-- only copied whole. `periods` is history: how often `snd_pcm_period_elapsed` has been called.
pub record Stream {ℓ} (A : Type ℓ) : Type ℓ where
  pub dma_area : List A
  pub hwptr : ℕ
  pub period_pos : ℕ
  pub running : Bool
  pub periods : ℕ

-- An entry of `iso_frame_desc`, with the frames that stand at its offset in the URB's buffer.
pub record Packet {ℓ} (A : Type ℓ) : Type ℓ where
  pub status : ℤ
  pub actual_length : ℕ
  pub frames : List A

-- The offset and length that a completion writes into a descriptor before it submits the URB.
pub record Slot : Type 0 where
  pub offset : ℕ
  pub size : ℕ

-- The descriptors from number `i` on, for `left` packets.
pub layout : ℕ → ℕ → List Slot
layout zero i = []
layout (suc left) i = record { offset = i * pkt_bytes; size = pkt_bytes } ∷ layout left (i + 1)

-- `djmt1_prepare`: the stream starts over. The `dma_area` is ALSA's, and stays.
pub prepare {ℓ} : {A : Type ℓ} → Stream A → Stream A
prepare s = record s { hwptr = 0; period_pos = 0 }

-- `djmt1_pointer`
pub pointer {ℓ} : {A : Type ℓ} → Stream A → ℕ
pointer s = s.hwptr

-- `buffer_size` of the PCM's runtime, in frames.
module _ {ℓ} {A : Type ℓ} (buffer_size : ℕ) where
  -- The loop of `djmt1_transfer` at index `i`, with `left` rounds to go: the ring and the packet
  -- after it. `none`: a frame outside one of them.
  pub copy_loop : Bool → ℕ → ℕ → ℕ → List A → List A → Option (List A × List A)
  copy_loop capture hwptr zero i dma pkt = some (dma, pkt)
  copy_loop true hwptr (suc left) i dma pkt = do
    x ← get_elem? pkt i
    dma' ← store dma (add32 hwptr i % buffer_size) x
    copy_loop true hwptr left (i + 1) dma' pkt
  copy_loop false hwptr (suc left) i dma pkt = do
    x ← get_elem? dma (add32 hwptr i % buffer_size)
    pkt' ← store pkt i x
    copy_loop false hwptr left (i + 1) dma pkt'

-- The same, and `period_size`.
module _ {ℓ} {A : Type ℓ} (buffer_size period_size : ℕ) where
  -- The lines of `djmt1_transfer` behind the loop.
  pub advance : ℕ → Stream A → Stream A
  advance nframes s =
      let reached = add32 s.period_pos nframes in
      let elapsed = leb period_size reached in
      record s {
        hwptr = add32 s.hwptr nframes % buffer_size;
        period_pos = if elapsed then reached % period_size else reached;
        periods = if elapsed then s.periods + 1 else s.periods;
      }

  -- `djmt1_transfer`: the stream and the packet after it.
  pub transfer : Bool → ℕ → List A → Stream A → Option (Stream A × List A)
  unfolding copy_loop advance
  transfer capture nframes pkt s = do
    (dma, pkt') ← copy_loop buffer_size capture s.hwptr nframes 0 s.dma_area pkt
    some (advance nframes (record s { dma_area = dma }), pkt')

  -- The loop of `djmt1_in_complete`.
  pub in_packets : List (Packet A) → Stream A → Option (Stream A)
  unfolding transfer
  in_packets [] s = some s
  in_packets (p ∷ ps) s = do
    (s', _) ←
        if nonzero p.status || ltb p.actual_length frame_bytes
        then some (s, p.frames)
        else transfer true (p.actual_length / frame_bytes) p.frames s
    in_packets ps s'

  -- The lines from `resubmit` on: how the URB is submitted, if it is.
  pub resubmit : ℕ → Stream A → Option (List Slot)
  unfolding layout
  resubmit number_of_packets s = if s.running then some (layout number_of_packets 0) else none

  -- `djmt1_in_complete`: the stream, and the descriptors with which the URB is submitted again.
  pub in_complete : ℤ → List (Packet A) → Stream A → Option (Stream A × Option (List Slot))
  unfolding in_packets resubmit
  in_complete status packets s =
      if not s.running || nonzero status
      then some (s, resubmit (length packets) s)
      else (in_packets packets s >>= λ s'. some (s', resubmit (length packets) s'))

  -- The loop of `djmt1_out_complete`, over the packets' places in the URB's buffer.
  pub out_packets : List (List A) → Stream A → Option (Stream A × List (List A))
  unfolding transfer
  out_packets [] s = some (s, [])
  out_packets (pkt ∷ pkts) s = do
    (s', pkt') ← transfer false frames_per_pkt pkt s
    (s'', rest) ← out_packets pkts s'
    some (s'', pkt' ∷ rest)

  -- `djmt1_out_complete`: the stream, and the descriptors and the buffer with which the URB is
  -- submitted again.
  pub out_complete :
      List (List A) → Stream A → Option (Stream A × Option (List Slot × List (List A)))
  unfolding out_packets layout
  out_complete pkts s =
      if s.running
      then (out_packets pkts s >>= λ r. some (r.0, some (layout (length pkts) 0, r.1)))
      else some (s, none)
