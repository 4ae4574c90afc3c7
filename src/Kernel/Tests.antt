-- ===== src/Kernel/Tests.antt =====
-- The kernel driver at concrete URBs and answers, its theorems included.
use djm_t1_linux.Base.{
  ℕ, ◌+◌, ◌*◌, ◌%◌, ◌<◌, ◌≡◌, ◌≢◌, ◌⊎◌, refl, Bool, true, false, none, some, List, [], ◌∷◌, arith,
  length, get_elem?, replicate, if◌then◌else◌, ltb,
}
use djm_t1_linux.Base.Int.{ℤ, pos, negsuc}
use djm_t1_linux.Ring.Window.{window}
use djm_t1_linux.Kernel.{
  Stream, Packet, in_complete, out_complete, layout, nonzero, frames_per_pkt, advance,
}
use djm_t1_linux.Kernel.Period.{HwParams, IsValid}
use djm_t1_linux.Kernel.Capture.{captured, in_complete-captured}
use djm_t1_linux.Kernel.Playback.{payload, out_complete_played}
use djm_t1_linux.Kernel.Urbs.{Endpoint, start, stop, trigger, nurb}
use djm_t1_linux.Kernel.Urbs.Trigger.{Started, Refused, trigger-start, restart_busy}
use djm_t1_linux.Kernel.Probe.{Host, Answers, probe, disconnect}
use djm_t1_linux.Kernel.Probe.Release.{IsClean, Outcome, probe-Outcome, disconnect-probe}

-- Two periods of a packet each.
smallest : HwParams 96 48
smallest = omega arith

-- Thirty frames before the end of the ring.
abbrev stream : Stream ℕ
stream = record {
  dma_area = replicate 96 5;
  hwptr = 66;
  period_pos = 18;
  running = true;
  periods = 1;
}

stream-IsValid : IsValid 96 48 stream
stream-IsValid = omega arith

advance_run : advance 96 48 48 stream ≡ record stream { hwptr = 18; period_pos = 18; periods = 2 }
unfolding advance
advance_run = refl

-- A packet of two frames, and one that failed.
abbrev packets : List (Packet ℕ)
packets =
    record { status = pos 0; actual_length = 40; frames = replicate 48 7 }
    ∷ record { status = negsuc 17; actual_length = 864; frames = replicate 48 9 }
    ∷ []

captured_run : captured packets ≡ 7 ∷ 7 ∷ []
captured_run = refl

in_complete-captured_example :
    let n = length (captured packets) in
    (t : Stream ℕ) × (in_complete 96 48 (pos 0) packets stream
      ≡ some (t, some (layout (length packets) 0)))
    × IsValid 96 48 t
    × (t.hwptr ≡ (66 + n) % 96)
    × (t.periods * 48 + t.period_pos ≡ 1 * 48 + 18 + n)
    × (window t.dma_area 96 66 n ≡ captured packets)
    × ((k : ℕ)
        → ((j : ℕ) → j < n → (66 + j) % 96 ≢ k)
        → get_elem? t.dma_area k ≡ get_elem? stream.dma_area k)
in_complete-captured_example =
    in_complete-captured 96 48 packets stream smallest stream-IsValid refl (omega arith)
      (omega arith)

out_complete_played_example :
    let n = frames_per_pkt * 1 in
    (t : Stream ℕ) × (sent : List (List ℕ)) × (out_complete 96 48 (replicate 48 0 ∷ []) stream
      ≡ some (t, some (layout 1 0, sent)))
    × (payload sent ≡ window stream.dma_area 96 66 n)
    × IsValid 96 48 t
    × (t.dma_area ≡ stream.dma_area)
    × (t.hwptr ≡ (66 + n) % 96)
    × (t.periods * 48 + t.period_pos ≡ 1 * 48 + 18 + n)
out_complete_played_example =
    out_complete_played 96 48 (replicate 48 0 ∷ []) stream smallest stream-IsValid refl
      (omega arith)

-- A USB core that refuses a URB that is active, with `-EBUSY`, and URB 2 always, with `-ENOSPC`.
abbrev submit : (ℕ → Bool) → ℕ → ℤ
submit active u = if active u then negsuc 15 else if ltb 1 u then negsuc 27 else pos 0

submit_busy : (active : ℕ → Bool) (k : ℕ) → active k ≡ true → nonzero (submit active k) ≡ true
submit_busy active k on = rw on

abbrev quiet : Endpoint
quiet = record { running = false; active = λ u. false }

-- URB 3 is still active.
abbrev draining : Endpoint
draining = record { running = true; active = λ u. ltb 2 u }

trigger-start_example :
    Started 0 nurb (record quiet { running = true }) (trigger submit start quiet)
    ⊎ Refused submit 0 nurb (record quiet { running = true }) (trigger submit start quiet)
trigger-start_example = trigger-start submit quiet

restart_busy_example :
    let r = trigger submit start (trigger submit stop draining).0 in
    (nonzero r.1 ≡ true) × (r.0.running ≡ false)
restart_busy_example = restart_busy submit draining 3 submit_busy (omega arith) refl

abbrev empty_host : Host
empty_host = record {
  cards = 0;
  cards_freed = 0;
  heap = record { asked = 0; urbs = 0; urbs_freed = 0; buffers = 0; buffers_freed = 0 };
  intfdata = none;
}

-- The seventh allocation fails: a buffer of the capture URBs is missing.
abbrev answers : Answers
answers = record {
  card_new = pos 0;
  pcm_new = pos 0;
  set_interface = pos 0;
  grants = λ n. ltb n 7;
  card_register = pos 0;
}

empty_host-IsClean : IsClean empty_host
empty_host-IsClean = record { cards = refl; urbs = refl; buffers = refl; unbound = refl }

probe-Outcome_example : Outcome (probe answers 0 empty_host)
probe-Outcome_example = probe-Outcome answers 0 empty_host empty_host-IsClean

disconnect-probe_example : IsClean (disconnect (probe answers 0 empty_host).0)
disconnect-probe_example = disconnect-probe answers 0 empty_host empty_host-IsClean
