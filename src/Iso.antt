-- ===== src/Iso.antt =====
-- audio/djmt1_iso.c: the engine between the isochronous endpoints and the two rings. Its callbacks
-- are here, one call at a time; `Ring.Spsc` shows that a ring's other thread does not disturb them.
pub mod Counters
pub mod Packet
pub mod Capture
pub mod Playback
pub mod Life
mod Tests
use djm_t1_linux.Base.{
  ℕ, ◌+◌, ◌-◌, ◌*◌, ◌/◌, ◌%◌, ◌^◌, ◌&&◌, not, Bool, true, false, Option, none, some, List, [], ◌∷◌,
  ◌++◌, ltb, leb, ◌==◌, if◌then◌else◌, ◌>>=◌, length, replicate,
}
use djm_t1_linux.Usb.{TransferStatus, is_completed, is_cancelled}
use djm_t1_linux.Ring.{Ring, write, read}
use djm_t1_linux.Sample.{Floats, channels, decode_frames, encode_frames}

abbrev pub in_max_frames : ℕ
in_max_frames = 56

abbrev pub npkt : ℕ
npkt = 24

abbrev pub frames_per_pkt : ℕ
frames_per_pkt = 48

-- An entry of `iso_packet_desc`, with the bytes that stand at its packet's place in the buffer.
pub record IsoPacket : Type 0 where
  pub status : TransferStatus
  pub actual_length : ℕ
  pub bytes : List ℕ

-- `atomic_fetch_add` and `atomic_fetch_sub` of 1 on 32 bits.
abbrev pub add_one : ℕ → ℕ
add_one n = (n + 1) % 2 ^ 32

abbrev pub sub_one : ℕ → ℕ
sub_one n = (n + 2 ^ 32 - 1) % 2 ^ 32

module _ (fl : Floats) where
  open fl use {Float, zero_f}

  -- `struct djmt1_iso`, but for the handles that only libusb and the threads library read.
  pub record Engine : Type 0 where
    pub running : Bool
    pub inflight : ℕ
    pub cap_ring : Ring (List Float)
    pub play_ring : Ring (List Float)
    pub cap_over : ℕ
    pub play_under : ℕ
    pub xfer_err : ℕ

  -- The last lines of both callbacks. `submits` is whether `libusb_submit_transfer` would succeed;
  -- the flag is "the transfer was submitted again".
  pub resubmit : Bool → Engine → Engine × Bool
  resubmit submits e =
      if e.running && submits
      then (e, true)
      else (record e { inflight = sub_one e.inflight }, false)

  pub count_error : TransferStatus → Engine → Engine
  count_error s e =
      if not (is_completed s) && not (is_cancelled s)
      then record e { xfer_err = add_one e.xfer_err }
      else e

  -- The frames of one packet go into the ring, and a packet that does not fit whole is counted.
  pub push_frames : ℕ → List ℕ → Engine → Option Engine
  push_frames nf pkt e = do
    tmp ← decode_frames fl nf pkt
    (wrote, ring) ← write e.cap_ring tmp nf
    some (record e {
      cap_ring = ring;
      cap_over = if ltb wrote nf then add_one e.cap_over else e.cap_over;
    })

  -- One packet of `in_cb`. `none`: bytes or slots outside their objects.
  pub in_packet : IsoPacket → Engine → Option Engine
  unfolding push_frames
  in_packet d e =
      let nf = d.actual_length / (channels * 3) in
      if not (is_completed d.status)
      then some e
      else if leb nf 0
      then some e
      else push_frames (if ltb in_max_frames nf then in_max_frames else nf) d.bytes e

  pub in_packets : List IsoPacket → Engine → Option Engine
  unfolding in_packet
  in_packets [] e = some e
  in_packets (d ∷ ds) e = do e' ← in_packet d e; in_packets ds e'

  pub in_cb : TransferStatus → List IsoPacket → Bool → Engine → Option (Engine × Bool)
  unfolding in_packets resubmit count_error
  in_cb status packets submits e = do
    e' ← in_packets packets (count_error status e)
    some (resubmit submits e')

  abbrev pub silence : List Float
  silence = replicate channels zero_f

  -- `out_cb` with `total` frames to send: the engine after it, the bytes that it leaves in the
  -- transfer's buffer, and whether the transfer was submitted again.
  pub send_frames : ℕ → Bool → Engine → Option (List ℕ × Engine × Bool)
  unfolding resubmit
  send_frames total submits e = do
    (tmp, ring) ← read e.play_ring total
    let got = length tmp
    let e' = record e {
      play_ring = ring;
      play_under = if ltb got total then add_one e.play_under else e.play_under;
    }
    let after = resubmit submits e'
    some (encode_frames fl (tmp ++ replicate (total - got) silence), after.0, after.1)

  -- `none`: more packets than `tmp` and the transfer's buffer have room for.
  pub out_cb : TransferStatus → ℕ → Bool → Engine → Option (List ℕ × Engine × Bool)
  unfolding send_frames count_error
  out_cb status num_iso_packets submits e =
      if ltb npkt num_iso_packets
      then none
      else send_frames (num_iso_packets * frames_per_pkt) submits (count_error status e)

  -- `djmt1_iso_read` and `djmt1_iso_write`.
  unfoldable pub iso_read : Engine → ℕ → Option (List (List Float) × Engine)
  iso_read e n = do (out, ring) ← read e.cap_ring n; some (out, record e { cap_ring = ring })

  unfoldable pub iso_write : Engine → List (List Float) → ℕ → Option (ℕ × Engine)
  iso_write e src n = do
    (wrote, ring) ← write e.play_ring src n
    some (wrote, record e { play_ring = ring })
