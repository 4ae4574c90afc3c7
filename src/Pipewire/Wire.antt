-- ===== src/Pipewire/Wire.antt =====
-- The way of a frame through the daemon: from the graph to the wire, and from the wire to the graph.
use djm_t1_linux.Base.{
  ℕ, ◌+◌, ◌*◌, ◌/◌, ◌%◌, ◌^◌, ◌≤◌, ◌<◌, ◌≡◌, ◌&&◌, if◌then◌else◌, Bool, some, List, ◌++◌, length,
  All, drop,
}
use djm_t1_linux.Ring.Inv.{IsValid}
use djm_t1_linux.Ring.Window.{contents}
use djm_t1_linux.Ring.Refine.{room}
use djm_t1_linux.Sample.{Floats, encode_frames}
use djm_t1_linux.Iso.{Engine, IsoPacket, npkt, frames_per_pkt, add_one, sub_one, in_cb, out_cb}
use djm_t1_linux.Iso.Packet.{InBuffer, absorb, overruns}
use djm_t1_linux.Iso.Capture.{in_cb_lem}
use djm_t1_linux.Iso.Playback.{sent_frames, out_cb_lem}
use djm_t1_linux.Usb.{TransferStatus, is_failure}
use djm_t1_linux.Pipewire.{Buffer, frame_bytes, on_source_process, on_sink_process}
use djm_t1_linux.Pipewire.Source.{source_frames, on_source_process_lem}
use djm_t1_linux.Pipewire.Sink.{accepted, on_sink_process_lem}

module _ (fl : Floats) where
  open fl use {Float}

  -- A transfer that completes behind `on_sink_process`, over a valid playback ring and a buffer with
  -- as many frames as its chunk says, carries the frames that the ring held, then those that it took
  -- of the buffer, 48 a packet, and silence for those that are missing.
  pub on_sink_process-out_cb :
      (b : Buffer fl) (src : List (List Float)) (status : TransferStatus) (packets : ℕ)
      (submits : Bool) (e : Engine fl)
      → IsValid e.play_ring
      → b.frames ≡ some src
      → b.size / frame_bytes ≤ length src
      → packets ≤ npkt
      → let q = contents e.play_ring in
        let queue = q ++ accepted fl (room e.play_ring) q src (b.size / frame_bytes) in
        (mid : Engine fl) × (on_sink_process fl (some b) e ≡ some (some b, mid))
        × (after : Engine fl) × (out_cb fl status packets submits mid
            ≡ some (
              encode_frames fl (sent_frames fl (packets * frames_per_pkt) queue),
              after,
              e.running && submits,
            ))
  on_sink_process-out_cb b src status packets submits e v at enough few =
      let (ring, valid, _, holds, runs) = on_sink_process_lem fl b src e v at enough in
      let mid = record e { play_ring = ring } in
      let (_, _, _, _, sends) = out_cb_lem fl status packets submits mid valid few in
      (mid, runs, _, rw holds at sends)

  -- A buffer of whole frames, smaller than 4 GiB and with a request below 2^31, that
  -- `on_source_process` fills behind a transfer of packets in their buffers, over a valid capture
  -- ring and an overrun count of 32 bits, carries the frames that the ring held and then those of
  -- the good packets as far as they fitted, as many as are asked for, and silence for those missing.
  pub in_cb-on_source_process :
      (status : TransferStatus) (packets : List IsoPacket) (submits : Bool) (e : Engine fl)
      (b : Buffer fl) (dst : List (List Float))
      → IsValid e.cap_ring
      → All InBuffer packets
      → e.cap_over < 2 ^ 32
      → b.frames ≡ some dst
      → b.maxsize / frame_bytes ≡ length dst
      → b.maxsize < 2 ^ 32
      → b.requested < 2 ^ 31
      → let want = source_frames b.requested (length dst) in
        let queue = absorb fl (room e.cap_ring) (contents e.cap_ring) packets in
        (mid : Engine fl) × (in_cb fl status packets submits e ≡ some (mid, e.running && submits))
        × (after : Engine fl) × (on_source_process fl (some b) mid
            ≡ some (
              some (record b {
                frames = some (sent_frames fl want queue ++ drop want dst);
                offset = 0;
                stride = frame_bytes;
                size = want * frame_bytes;
              }),
              after,
            ))
  in_cb-on_source_process status packets submits e b dst v fits counted at whole small asked =
      let (ring, valid, _, holds, runs) = in_cb_lem fl status packets submits e v fits counted in
      let want = source_frames b.requested (length dst) in
      let mid = record e {
        inflight = if e.running && submits then e.inflight else sub_one e.inflight;
        cap_ring = ring;
        cap_over =
            (e.cap_over + overruns fl (room e.cap_ring) (contents e.cap_ring) packets) % 2 ^ 32;
        xfer_err = if is_failure status then add_one e.xfer_err else e.xfer_err;
      } in
      let (_, _, _, _, fills) = on_source_process_lem fl b dst mid valid at whole small asked in
      (mid, runs, _, rw holds at fills)
