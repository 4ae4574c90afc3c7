-- ===== src/Capture.antt =====
-- audio/djmt1-capture.c: the capture tool's callback, which keeps the statistics of a stream.
pub mod Bins
pub mod Packet
pub mod Counts
mod Tests
use djm_t1_linux.Base.{
  ℕ, zero, suc, ◌+◌, ◌*◌, ◌/◌, ◌%◌, ◌^◌, ◌&&◌, not, Bool, true, false, Option, none, some, List, [],
  ◌∷◌, ◌++◌, ltb, leb, ◌==◌, if◌then◌else◌, ◌>>=◌, length, take, drop, get_or, store,
}
use djm_t1_linux.Base.Int.{ℤ}
use djm_t1_linux.Usb.{TransferStatus, is_completed, is_cancelled}
use djm_t1_linux.Sample.{s24, channels}
use djm_t1_linux.Iso.{IsoPacket, sub_one}

abbrev pub pkt_max : ℕ
pkt_max = 1024

-- `FRAME_BYTES`
abbrev pub frame_bytes : ℕ
frame_bytes = 18

-- C's `double`, and the operations on it that the tool uses: `normalized v` is `v / 8388608.0`.
pub record Doubles : Type 1 where
  pub Double : Type 0
  pub normalized : ℤ → Double
  pub is_negative : Double → Bool
  pub minus : Double → Double
  pub gt : Double → Double → Bool
  pub add : Double → Double → Double
  pub mul : Double → Double → Double

-- `n++` and `n += k` on 64 bits.
abbrev pub add64 : ℕ → ℕ → ℕ
add64 n k = (n + k) % 2 ^ 64

-- `if (len <= PKT_MAX) pktlen_hist[len]++`
pub count_length : ℕ → List ℕ → Option (List ℕ)
count_length len hist =
    if leb len pkt_max then store hist len (add64 (get_or hist len 0) 1) else some hist

module _ (db : Doubles) where
  open db use {Double}

  -- The tool's globals; `levels` has each channel's `ch_peak` and `ch_sumsq`, and `raw` what was
  -- written to the file of -o, if there is one.
  pub record Stats : Type 0 where
    pub total_pkts : ℕ
    pub total_bytes : ℕ
    pub err_pkts : ℕ
    pub xfr_errs : ℕ
    pub frames : ℕ
    pub pktlen_hist : List ℕ
    pub levels : List (Double × Double)
    pub raw : Option (List ℕ)
    pub running : Bool
    pub inflight : ℕ

  -- One sample of a channel.
  pub level : ℤ → Double × Double → Double × Double
  level v (peak, sumsq) =
      let x = db.normalized v in
      let a = if db.is_negative x then db.minus x else x in
      (if db.gt a peak then a else peak, db.add sumsq (db.mul x x))

  -- The loop over the channels; `none` if the bytes end before them.
  pub level_samples : List (Double × Double) → List ℕ → Option (List (Double × Double))
  unfolding level
  level_samples [] fr = some []
  level_samples (l ∷ ls) (p0 ∷ p1 ∷ p2 ∷ fr) = do
    rest ← level_samples ls fr
    some (level (s24 p0 p1 p2) l ∷ rest)
  level_samples (l ∷ ls) _ = none

  -- The loop over the frames that stand at `d`.
  pub level_frames : ℕ → List ℕ → Stats → Option Stats
  unfolding level_samples
  level_frames zero d st = some st
  level_frames (suc nf) d st = do
    levels ← level_samples st.levels d
    level_frames nf (drop frame_bytes d) (record st { levels = levels; frames = add64 st.frames 1 })

  -- `if (rawf) fwrite(d, 1, len, rawf)`; `none` if there are not so many bytes.
  pub write_raw : List ℕ → ℕ → Option (List ℕ) → Option (Option (List ℕ))
  write_raw d len none = some none
  write_raw d len (some out) = if ltb (length d) len then none else some (some (out ++ take len d))

  pub process_packet : List ℕ → ℕ → Stats → Option Stats
  unfolding level_frames write_raw
  process_packet d len st = do
    raw ← write_raw d len st.raw
    level_frames (len / frame_bytes) d (record st { raw = raw })

  -- One packet of `cb`.
  pub capture_packet : IsoPacket → Stats → Option Stats
  unfolding process_packet count_length
  capture_packet p st =
      if not (is_completed p.status)
      then some (record st { err_pkts = add64 st.err_pkts 1 })
      else if p.actual_length == 0
      then some st
      else do
        hist ← count_length p.actual_length st.pktlen_hist
        process_packet p.bytes p.actual_length (record st {
          total_pkts = add64 st.total_pkts 1;
          total_bytes = add64 st.total_bytes p.actual_length;
          pktlen_hist = hist;
        })

  pub capture_packets : List IsoPacket → Stats → Option Stats
  unfolding capture_packet
  capture_packets [] st = some st
  capture_packets (p ∷ ps) st = do st' ← capture_packet p st; capture_packets ps st'

  -- `submits` is whether `libusb_submit_transfer` would succeed; the flag is "submitted again".
  pub cb : TransferStatus → List IsoPacket → Bool → Stats → Option (Stats × Bool)
  unfolding capture_packets
  cb status packets submits st = do
    st' ← capture_packets packets (
        if not (is_completed status) && not (is_cancelled status)
        then record st { xfr_errs = add64 st.xfr_errs 1 }
        else st)
    some (
        if st'.running && submits
        then (st', true)
        else (record st' { inflight = sub_one st'.inflight }, false))
