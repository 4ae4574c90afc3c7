-- ===== src/Capture/Counts.antt =====
-- What the capture tool counts over a transfer.
use djm_t1_linux.Base.{
  ℕ, ◌+◌, ◌≡◌, refl, sym, ap, ◌∙◌, ◌&&◌, Bool, true, false, some, List, [], ◌∷◌, arith,
  if◌then◌else◌, length, All,
}
use djm_t1_linux.Usb.{TransferStatus, is_failure}
use djm_t1_linux.Iso.{IsoPacket, sub_one}
use djm_t1_linux.Iso.Packet.{InBuffer}
use djm_t1_linux.Capture.Packet.{Counted, Result, capture_packet_lem}
use djm_t1_linux.Capture.{Doubles, Stats, pkt_max, add64, capture_packets, cb}

module _ (db : Doubles) where
  join :
      (p : IsoPacket) (ps : List IsoPacket) (st mid st' : Stats db)
      → Counted db (p ∷ []) st mid
      → Counted db ps mid st'
      → Counted db (p ∷ ps) st st'
  join p ps st mid st' c d = record {
    pkts = omega (arith, c.pkts, d.pkts);
    bytes = omega (arith, c.bytes, d.bytes);
    frames = omega (arith, c.frames, d.frames);
    errors = omega (arith, c.errors, d.errors);
    bins = λ l small. omega (arith, c.bins l small, d.bins l small);
    hist_length = d.hist_length ∙ c.hist_length;
    channels = d.channels ∙ c.channels;
    transfers = d.transfers ∙ c.transfers;
    running = d.running ∙ c.running;
    inflight = d.inflight ∙ c.inflight;
  }

  capture_packets_lem :
      (ps : List IsoPacket) (st : Stats db)
      → length st.levels ≡ 6
      → length st.pktlen_hist ≡ pkt_max + 1
      → All InBuffer ps
      → Result db ps st (capture_packets db ps st)
  unfolding capture_packets
  capture_packets_lem [] st six hist fits = (
    st,
    refl,
    record {
      pkts = omega arith;
      bytes = omega arith;
      frames = omega arith;
      errors = omega arith;
      bins = λ l small. omega arith;
      hist_length = refl;
      channels = refl;
      transfers = refl;
      running = refl;
      inflight = refl;
    },
  )
  capture_packets_lem (p ∷ ps) st six hist (fit, fits) =
      let (mid, runs, c) = capture_packet_lem db p st six hist fit in
      let (st', rest, d) =
        capture_packets_lem ps mid (c.channels ∙ six) (c.hist_length ∙ hist) fits in
      (st', rw runs rest, join p ps st mid st' c d)

  -- `cb` on a transfer whose packets lie in their buffers, with a histogram of 1025 bins and six
  -- channels, does not fault. It counts a failed transfer; the good packets, their bytes and their
  -- frames, the failed packets, and in the histogram the good packets of each length, all on 64 bits;
  -- and it submits the transfer again exactly if the tool runs and libusb takes it, or else lowers
  -- the count of transfers in flight.
  pub cb_lem :
      (status : TransferStatus) (ps : List IsoPacket) (submits : Bool) (st : Stats db)
      → length st.levels ≡ 6
      → length st.pktlen_hist ≡ pkt_max + 1
      → All InBuffer ps
      → (st' : Stats db) × Counted db ps
          (record st { xfr_errs = if is_failure status then add64 st.xfr_errs 1 else st.xfr_errs })
          st'
        × (cb db status ps submits st
            ≡ some (
              record st' {
                inflight = if st.running && submits then st.inflight else sub_one st.inflight;
              },
              st.running && submits,
            ))
  unfolding cb
  cb_lem status ps submits st six hist fits =
      let st1 = record st {
        xfr_errs = if is_failure status then add64 st.xfr_errs 1 else st.xfr_errs;
      } in
      let (st', runs, c) = capture_packets_lem ps st1 six hist fits in
      (
        st',
        c,
        rw (failure (is_failure status), runs)
            (ap some (finish st' st.running st.inflight c.running c.inflight)),
      )
    where
      failure :
          (b : Bool)
          → (if b then record st { xfr_errs = add64 st.xfr_errs 1 } else st)
            ≡ record st { xfr_errs = if b then add64 st.xfr_errs 1 else st.xfr_errs }
      failure true = refl
      failure false = refl

      ends :
          (b : Bool) (s : Stats db)
          → (if b
              then (let r : Stats db × Bool = (s, true) in r)
              else (record s { inflight = sub_one s.inflight }, false))
            ≡ (record s { inflight = if b then s.inflight else sub_one s.inflight }, b)
      ends true s = refl
      ends false s = refl

      finish :
          (s : Stats db) (on : Bool) (n : ℕ)
          → s.running ≡ on
          → s.inflight ≡ n
          → (if s.running && submits
              then (let r : Stats db × Bool = (s, true) in r)
              else (record s { inflight = sub_one s.inflight }, false))
            ≡ (record s { inflight = if on && submits then n else sub_one n }, on && submits)
      finish s on n h k = rw (sym h, sym k) (ends (s.running && submits) s)
