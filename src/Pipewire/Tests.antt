-- ===== src/Pipewire/Tests.antt =====
-- The PipeWire callbacks at concrete buffers, over fixed-point numbers.
use djm_t1_linux.Base.{
  ℕ, ◌*◌, ◌&&◌, ◌≡◌, refl, true, some, List, [], ◌∷◌, ◌++◌, arith, drop, replicate,
}
use djm_t1_linux.Base.Int.{ℤ, pos}
use djm_t1_linux.Usb.{TransferStatus}
use djm_t1_linux.Ring.{Ring}
use djm_t1_linux.Ring.Inv.{IsValid}
use djm_t1_linux.Ring.Window.{contents}
use djm_t1_linux.Ring.Refine.{room}
use djm_t1_linux.Sample.{encode_frames}
use djm_t1_linux.Sample.Fixed.{fixed}
use djm_t1_linux.Iso.{Engine, IsoPacket, frames_per_pkt, in_cb, out_cb}
use djm_t1_linux.Iso.Packet.{absorb}
use djm_t1_linux.Iso.Playback.{sent_frames}
use djm_t1_linux.Pipewire.{Buffer, frame_bytes, on_source_process, on_sink_process}
use djm_t1_linux.Pipewire.Sink.{accepted}
use djm_t1_linux.Pipewire.Wire.{on_sink_process-out_cb, in_cb-on_source_process}

abbrev level : ℕ → List ℤ
level n = replicate 6 (pos n)

-- Room for three frames, one of them taken.
abbrev half_full : Ring (List ℤ)
half_full = record { buf = level 0 ∷ level 4 ∷ level 0 ∷ level 0 ∷ []; cap = 4; w = 2; r = 1 }

half_full-IsValid : IsValid half_full
half_full-IsValid = record { storage = refl; w_in = omega arith; r_in = omega arith }

abbrev streaming : Engine fixed
streaming = record {
  running = true;
  inflight = 12;
  cap_ring = half_full;
  play_ring = half_full;
  cap_over = 0;
  play_under = 0;
  xfer_err = 0;
}

abbrev three_frames : List (List ℤ)
three_frames = level 7 ∷ level 8 ∷ level 9 ∷ []

-- 80 bytes hold three frames; the graph asks for two.
abbrev buffer : Buffer fixed
buffer = record {
  frames = some three_frames;
  maxsize = 80;
  requested = 2;
  offset = 5;
  stride = 0;
  size = 75;
}

-- A packet of two frames.
abbrev packets : List IsoPacket
packets =
    record { status = TransferStatus.completed; actual_length = 36; bytes = replicate 36 1 } ∷ []

on_sink_process-out_cb_example :
    let q = contents half_full in
    (mid : Engine fixed) × (on_sink_process fixed (some buffer) streaming ≡ some (some buffer, mid))
    × (after : Engine fixed) × (out_cb fixed TransferStatus.completed 1 true mid
        ≡ some (
          encode_frames fixed (
              sent_frames fixed
                (1 * frames_per_pkt)
                (q ++ accepted fixed (room half_full) q three_frames 3)),
          after,
          true && true,
        ))
on_sink_process-out_cb_example =
    on_sink_process-out_cb fixed buffer three_frames TransferStatus.completed 1 true streaming
      half_full-IsValid refl (omega arith) (omega arith)

in_cb-on_source_process_example :
    let queue = absorb fixed (room half_full) (contents half_full) packets in
    (mid : Engine fixed) × (in_cb fixed TransferStatus.completed packets true streaming
      ≡ some (mid, true && true))
    × (after : Engine fixed) × (on_source_process fixed (some buffer) mid
        ≡ some (
          some (record buffer {
            frames = some (sent_frames fixed 2 queue ++ drop 2 three_frames);
            offset = 0;
            stride = frame_bytes;
            size = 2 * frame_bytes;
          }),
          after,
        ))
in_cb-on_source_process_example =
    in_cb-on_source_process fixed TransferStatus.completed packets true streaming buffer
      three_frames half_full-IsValid (omega arith) (omega arith) refl refl (omega arith)
      (omega arith)
