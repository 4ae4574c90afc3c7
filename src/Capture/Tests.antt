-- ===== src/Capture/Tests.antt =====
-- The capture tool's callback at a concrete transfer, over whole numbers for `double`.
use djm_t1_linux.Base.{
  ◌+◌, ◌&&◌, ◌≡◌, refl, true, false, none, some, List, [], ◌∷◌, arith, replicate, if◌then◌else◌,
  ltb,
}
use djm_t1_linux.Base.Int.{ℤ, pos, pos_part, neg_part}
use djm_t1_linux.Usb.{TransferStatus, is_failure}
use djm_t1_linux.Iso.{IsoPacket, sub_one}
use djm_t1_linux.Capture.{Doubles, Stats, cb, add64}
use djm_t1_linux.Capture.Packet.{Counted}
use djm_t1_linux.Capture.Counts.{cb_lem}

abbrev whole : Doubles
whole = record {
  Double = ℤ;
  normalized = λ v. v;
  is_negative = λ x. ltb 0 (neg_part x);
  minus = λ x. pos (neg_part x);
  gt = λ x y. ltb (pos_part y) (pos_part x);
  add = λ x y. pos (pos_part x + pos_part y);
  mul = λ x y. x;
}

abbrev fresh : Stats whole
fresh = record {
  total_pkts = 0;
  total_bytes = 0;
  err_pkts = 0;
  xfr_errs = 0;
  frames = 0;
  pktlen_hist = replicate 1025 0;
  levels = replicate 6 (pos 0, pos 0);
  raw = none;
  running = true;
  inflight = 8;
}

-- A packet of two frames, an empty one, and one that failed.
abbrev packets : List IsoPacket
packets =
    record { status = TransferStatus.completed; actual_length = 36; bytes = replicate 36 1 }
    ∷ record { status = TransferStatus.completed; actual_length = 0; bytes = [] }
    ∷ record { status = TransferStatus.overflow; actual_length = 18; bytes = replicate 18 1 }
    ∷ []

cb_lem_example :
    (st' : Stats whole) × Counted whole packets
      (record fresh { xfr_errs = if is_failure TransferStatus.stall then add64 0 1 else 0 })
      st'
    × (cb whole TransferStatus.stall packets false fresh
        ≡ some (record st' { inflight = if true && false then 8 else sub_one 8 }, true && false))
cb_lem_example = cb_lem whole TransferStatus.stall packets false fresh refl refl (omega arith)
