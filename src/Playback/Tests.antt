-- ===== src/Playback/Tests.antt =====
-- The tone over whole numbers in place of doubles, and two transfers that come back.
use djm_t1_linux.Base.{
  ℕ, Bool, ◌>>=◌, ◌+◌, ◌-◌, ◌*◌, ◌==◌, ◌≡◌, true, false, some, List, [], ◌∷◌, ◌++◌, length, map,
  All, replicate, drop, ltb, arith,
}
use djm_t1_linux.Base.Int.{pos}
use djm_t1_linux.Usb.{TransferStatus}
use djm_t1_linux.Sample.{channels, decode_frames}
use djm_t1_linux.Sample.Fixed.{fixed}
use djm_t1_linux.Sample.RoundTrip.{Fits24}
use djm_t1_linux.Playback.{
  Math, Tool, Done, value, advance, Player, frames_per_pkt, fill_tone, nxfr, submit_loop, play,
  drain,
}
use djm_t1_linux.Playback.Wave.{wave, phase_after, fill_tone_lem}
use djm_t1_linux.Playback.Counted.{taken, out_after, idle, drain-play}
use djm_t1_linux.Playback.Drained.{Stopped, callbacks}

-- A phase that grows by the frequency up to ten, and a tone that is its phase.
abbrev whole : Math
whole = record {
  Double = ℕ;
  add = λ a b. a + b;
  sub = λ a b. a - b;
  mul = λ a b. a * b;
  div = λ a b. a;
  gt = λ a b. ltb b a;
  sin = λ a. a;
  two_pi = 10;
  rate = 1;
  full_scale = 1;
  to_int = λ a. pos a;
}

abbrev tool : Tool whole
tool = record {
  running = true;
  phase = 3;
  freq = 1;
  amp = 5;
  out_pkts = 0;
  out_err = 0;
  xfr_errs = 0;
  inflight = 2;
}

-- Room for a packet, and two bytes more.
abbrev room : List ℕ
room = replicate 866 7

values_fit : All Fits24 (wave whole (1 * frames_per_pkt) 1 5 3)
unfolding value advance
values_fit = omega arith

fill_tone_lem_example :
    let n = 1 * frames_per_pkt in
    (bytes : List ℕ) × (fill_tone whole room 1 tool
      ≡ some (bytes ++ drop (1 * 864) room, record tool { phase = phase_after whole n 1 3 }))
    × (length bytes ≡ 1 * 864)
    × (decode_frames fixed n bytes
        ≡ some (map (λ v. replicate channels (fixed.quotient v)) (wave whole n 1 5 3)))
fill_tone_lem_example = fill_tone_lem whole fixed room 1 tool (omega arith) values_fit

abbrev cancelled : Done whole
cancelled = record {
  status = TransferStatus.cancelled;
  packets = TransferStatus.cancelled ∷ [];
  buffer = room;
  submits = true;
}

abbrev played : Done whole
played = record {
  status = TransferStatus.completed;
  packets = TransferStatus.completed ∷ [];
  buffer = room;
  submits = true;
}

-- libusb takes the first two transfers only.
abbrev first_two : ℕ → Bool
first_two i = ltb i 2

abbrev rounds : List (List (Done whole) × Bool)
rounds = (played ∷ played ∷ [], false) ∷ (played ∷ [], true) ∷ []

abbrev last : List (List (Done whole))
last = [] ∷ (cancelled ∷ []) ∷ (cancelled ∷ []) ∷ []

drain-play_example :
    let n = taken whole first_two nxfr 0 in
    (p : Player whole) × ((submit_loop whole first_two nxfr 0 (idle whole tool)
        >>= play whole rounds)
      ≡ some p)
    × (p.tool.inflight ≡ out_after whole rounds n)
    × (p' : Player whole) × (drain whole last p ≡ some (p.busy == callbacks whole last, p'))
    × (p.busy ≡ out_after whole rounds n)
    × Stopped whole (p.busy - callbacks whole last) p'
drain-play_example = drain-play whole first_two tool rounds last (omega arith) (omega arith)
