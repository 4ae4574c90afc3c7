-- ===== src/Iso/Tests.antt =====
-- Callbacks of the engine at concrete transfers, over fixed-point numbers.
use djm_t1_linux.Base.{
  ℕ, ◌+◌, ◌*◌, ◌%◌, ◌^◌, ◌&&◌, ◌≡◌, refl, true, false, some, List, [], ◌∷◌, arith, length, drop,
  replicate, if◌then◌else◌, ltb,
}
use djm_t1_linux.Base.Int.{ℤ, pos}
use djm_t1_linux.Usb.{TransferStatus, is_failure}
use djm_t1_linux.Ring.{Ring}
use djm_t1_linux.Ring.Inv.{IsValid}
use djm_t1_linux.Ring.Window.{contents}
use djm_t1_linux.Ring.Refine.{room}
use djm_t1_linux.Sample.{encode_frames}
use djm_t1_linux.Sample.Fixed.{fixed}
use djm_t1_linux.Iso.{Engine, IsoPacket, in_cb, out_cb, frames_per_pkt, add_one, sub_one}
use djm_t1_linux.Iso.Packet.{absorb, overruns}
use djm_t1_linux.Iso.Capture.{in_cb_lem}
use djm_t1_linux.Iso.Playback.{sent_frames, out_cb_lem}

abbrev frame : ℕ → List ℤ
frame n = replicate 6 (pos n)

-- Room for two frames, one of them taken.
abbrev one_frame : Ring (List ℤ)
one_frame = record { buf = frame 1 ∷ frame 0 ∷ frame 0 ∷ []; cap = 3; w = 1; r = 0 }

one_frame-IsValid : IsValid one_frame
one_frame-IsValid = record { storage = refl; w_in = omega arith; r_in = omega arith }

abbrev engine : Engine fixed
engine = record {
  running = true;
  inflight = 12;
  cap_ring = one_frame;
  play_ring = one_frame;
  cap_over = 0;
  play_under = 0;
  xfer_err = 0;
}

-- A packet of two frames, and one that failed.
abbrev packets : List IsoPacket
packets =
    record { status = TransferStatus.completed; actual_length = 36; bytes = replicate 40 1 }
    ∷ record { status = TransferStatus.error; actual_length = 18; bytes = replicate 18 1 }
    ∷ []

in_cb_lem_example :
    (ring : Ring (List ℤ)) × IsValid ring
    × (ring.cap ≡ 3)
    × (contents ring ≡ absorb fixed (room one_frame) (contents one_frame) packets)
    × (in_cb fixed TransferStatus.stall packets true engine
        ≡ some (
          record engine {
            inflight = if true && true then 12 else sub_one 12;
            cap_ring = ring;
            cap_over = (0 + overruns fixed (room one_frame) (contents one_frame) packets) % 2 ^ 32;
            xfer_err = if is_failure TransferStatus.stall then add_one 0 else 0;
          },
          true && true,
        ))
in_cb_lem_example =
    in_cb_lem fixed TransferStatus.stall packets true engine one_frame-IsValid (omega arith)
      (omega arith)

out_cb_lem_example :
    let total = 1 * frames_per_pkt in
    let q = contents one_frame in
    (ring : Ring (List ℤ)) × IsValid ring
    × (ring.cap ≡ 3)
    × (contents ring ≡ drop total q)
    × (out_cb fixed TransferStatus.completed 1 false engine
        ≡ some (
          encode_frames fixed (sent_frames fixed total q),
          record engine {
            inflight = if true && false then 12 else sub_one 12;
            play_ring = ring;
            play_under = if ltb (length q) total then add_one 0 else 0;
            xfer_err = if is_failure TransferStatus.completed then add_one 0 else 0;
          },
          true && false,
        ))
out_cb_lem_example =
    out_cb_lem fixed TransferStatus.completed 1 false engine one_frame-IsValid (omega arith)
