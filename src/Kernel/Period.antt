-- ===== src/Kernel/Period.antt =====
-- The invariant of a PCM stream, and the account of its periods.
use djm_t1_linux.Base.{
  ℕ, ◌+◌, ◌-◌, ◌*◌, ◌%◌, ◌≤◌, ◌<◌, ◌≡◌, arith, length, leb, Bool-cases, inl, inr, if◌then◌else◌,
}
use native.Mathlib.Nat.{mod-lt}
use djm_t1_linux.Base.Modular.{mod_wrap}
use djm_t1_linux.Kernel.{Stream, add32, advance, frames_per_pkt, frame_bytes}

-- What `djmt1_hw` asks of ALSA: a period of a packet at least, two periods at least in a ring, and
-- a ring of 256 KiB at most.
pub record HwParams (buffer_size period_size : ℕ) : Type 0 where
  pub period_bytes_min : frame_bytes * frames_per_pkt ≤ period_size * frame_bytes
  pub periods_min : 2 * period_size ≤ buffer_size
  pub buffer_bytes_max : buffer_size * frame_bytes ≤ 256 * 1024

pub record IsValid {ℓ} {A : Type ℓ} (buffer_size period_size : ℕ) (s : Stream A) : Type ℓ where
  pub storage : length s.dma_area ≡ buffer_size
  pub hwptr_in : s.hwptr < buffer_size
  pub period_pos_in : s.period_pos < period_size

module _ {ℓ} {A : Type ℓ} where
  pub advance_hwptr :
      (size period n : ℕ) (s : Stream A)
      → HwParams size period
      → IsValid size period s
      → n ≤ frames_per_pkt
      → (advance size period n s).hwptr ≡ (s.hwptr + n) % size
  unfolding advance
  advance_hwptr size period n s hw v few =
      let plain : add32 s.hwptr n ≡ s.hwptr + n = omega (arith, hw.buffer_bytes_max, v.hwptr_in) in
      rw plain

  pub advance-IsValid :
      (size period n : ℕ) (s : Stream A)
      → HwParams size period
      → IsValid size period s
      → n ≤ frames_per_pkt
      → IsValid size period (advance size period n s)
  unfolding advance
  advance-IsValid size period n s hw v few = record {
    storage = v.storage;
    hwptr_in = mod-lt (add32 s.hwptr n) {m = size} (omega (arith, v.hwptr_in));
    period_pos_in = position;
  }
    where
      position :
          (if leb period (add32 s.period_pos n)
            then add32 s.period_pos n % period
            else add32 s.period_pos n)
          < period
      position = elim (Bool-cases (leb period (add32 s.period_pos n))) [
        | inl over ↦
            rw over (mod-lt (add32 s.period_pos n) {m = period} (omega (arith, v.period_pos_in)))
        | inr under ↦ rw under (ground arith)
      ]

  -- Every frame is accounted for: the periods that have elapsed, and the frames since the last.
  pub advance_periods :
      (size period n : ℕ) (s : Stream A)
      → HwParams size period
      → IsValid size period s
      → n ≤ frames_per_pkt
      → (advance size period n s).periods * period + (advance size period n s).period_pos
        ≡ s.periods * period + s.period_pos + n
  unfolding advance
  advance_periods size period n s hw v few =
      let plain : add32 s.period_pos n ≡ s.period_pos + n =
        omega (arith, hw.buffer_bytes_max, hw.periods_min, v.period_pos_in) in
      elim (Bool-cases (leb period (s.period_pos + n))) [
        | inl over ↦
            let wrap : (s.period_pos + n) % period ≡ s.period_pos + n - period =
              mod_wrap (s.period_pos + n) period (ground arith)
                (omega (arith, v.period_pos_in, hw.period_bytes_min)) in
            rw (plain, over, wrap) (ground arith)
        | inr under ↦ rw (plain, under) (omega arith)
      ]
