-- ===== src/Capture/Packet.antt =====
-- One packet of the capture tool's callback.
use djm_t1_linux.Base.{
  ℕ, zero, suc, ◌+◌, ◌*◌, ◌/◌, ◌≤◌, ◌≡◌, refl, ap, ◌∙◌, ◌&&◌, not, Bool, true, false, Option, none,
  some, List, [], ◌∷◌, ◌++◌, arith, ◌==◌, if◌then◌else◌, length, take, drop, get_or, Bool-cases,
  inl, inr, le→not-ltb, length-drop,
}
use djm_t1_linux.Usb.{is_completed}
use djm_t1_linux.Sample.{s24}
use djm_t1_linux.Iso.{IsoPacket}
use djm_t1_linux.Iso.Packet.{InBuffer}
use djm_t1_linux.Capture.Bins.{Further, count_length-Binned}
use djm_t1_linux.Capture.{
  Doubles, Stats, level, pkt_max, frame_bytes, add64, level_samples, level_frames, write_raw,
  process_packet, capture_packet,
}

-- A packet that did not fail and has bytes.
abbrev pub is_good : IsoPacket → Bool
is_good p = is_completed p.status && not (p.actual_length == 0)

-- A sum over the good packets.
abbrev pub good_sum : (IsoPacket → ℕ) → List IsoPacket → ℕ
good_sum f [] = 0
good_sum f (p ∷ ps) = (if is_good p then f p else 0) + good_sum f ps

abbrev pub failed : List IsoPacket → ℕ
failed [] = 0
failed (p ∷ ps) = (if is_completed p.status then 0 else 1) + failed ps

module _ (db : Doubles) where
  open db use {Double}

  -- The statistics behind some packets: each counter has gone up by what the packets add to it, the
  -- bin of a length by the number of good packets of that length; all on 64 bits.
  pub record Counted (ps : List IsoPacket) (st st' : Stats db) : Type 0 where
    pub pkts : Further st.total_pkts (good_sum (λ p. 1) ps) st'.total_pkts
    pub bytes : Further st.total_bytes (good_sum (λ p. p.actual_length) ps) st'.total_bytes
    pub frames : Further st.frames (good_sum (λ p. p.actual_length / frame_bytes) ps) st'.frames
    pub errors : Further st.err_pkts (failed ps) st'.err_pkts
    pub bins :
        (l : ℕ)
        → l ≤ pkt_max
        → Further
            (get_or st.pktlen_hist l 0)
            (good_sum (λ p. if p.actual_length == l then 1 else 0) ps)
            (get_or st'.pktlen_hist l 0)
    pub hist_length : length st'.pktlen_hist ≡ length st.pktlen_hist
    pub channels : length st'.levels ≡ length st.levels
    pub transfers : st'.xfr_errs ≡ st.xfr_errs
    pub running : st'.running ≡ st.running
    pub inflight : st'.inflight ≡ st.inflight

  level_samples_total :
      (ls : List (Double × Double)) (d : List ℕ)
      → 3 * length ls ≤ length d
      → (ls' : List (Double × Double)) × (level_samples db ls d ≡ some ls')
        × (length ls' ≡ length ls)
  unfolding level_samples
  level_samples_total [] d h = ([], refl, refl)
  level_samples_total (l ∷ ls) [] h = absurd (omega arith)
  level_samples_total (l ∷ ls) (a ∷ []) h = absurd (omega arith)
  level_samples_total (l ∷ ls) (a ∷ b ∷ []) h = absurd (omega arith)
  level_samples_total (l ∷ ls) (a ∷ b ∷ c ∷ d) h =
      let (rest, runs, same) = level_samples_total ls d (omega arith) in
      (level db (s24 a b c) l ∷ rest, rw runs refl, ap suc same)

  record Leveled (nf : ℕ) (d : List ℕ) (st : Stats db) : Type 0 where
    ls : List (Double × Double)
    n : ℕ
    returns : level_frames db nf d st ≡ some (record st { levels = ls; frames = n })
    same : length ls ≡ length st.levels
    counted : Further st.frames nf n

  level_frames_total :
      (nf : ℕ) (d : List ℕ) (st : Stats db)
      → length st.levels ≡ 6
      → nf * frame_bytes ≤ length d
      → Leveled nf d st
  unfolding level_frames
  level_frames_total zero d st six h = record {
    ls = st.levels;
    n = st.frames;
    returns = refl;
    same = refl;
    counted = omega arith;
  }
  level_frames_total (suc nf) d st six h =
      let (ls, runs, same) = level_samples_total st.levels d (omega arith) in
      let rest =
        level_frames_total nf (drop frame_bytes d)
          (record st { levels = ls; frames = add64 st.frames 1 }) (same ∙ six)
          (omega (arith, length-drop frame_bytes d)) in
      record {
        ls = rest.ls;
        n = rest.n;
        returns = rw runs rest.returns;
        same = rest.same ∙ same;
        counted = omega (arith, rest.counted);
      }

  write_raw_total :
      (d : List ℕ) (len : ℕ) (raw : Option (List ℕ))
      → len ≤ length d
      → (raw' : Option (List ℕ)) × (write_raw db d len raw ≡ some raw')
  unfolding write_raw
  write_raw_total d len none h = (none, refl)
  write_raw_total d len (some out) h =
      (some (out ++ take len d), rw (le→not-ltb (length d) len h) refl)

  abbrev pub Result : List IsoPacket → Stats db → Option (Stats db) → Type 0
  Result ps st r = (st' : Stats db) × (r ≡ some st') × Counted ps st st'

  capture_packet_failed :
      (p : IsoPacket) (st : Stats db)
      → is_completed p.status ≡ false
      → Result (p ∷ []) st (capture_packet db p st)
  unfolding capture_packet
  capture_packet_failed p st bad = (
    record st { err_pkts = add64 st.err_pkts 1 },
    rw bad refl,
    record {
      pkts = rw bad (omega arith);
      bytes = rw bad (omega arith);
      frames = rw bad (omega arith);
      errors = rw bad (omega arith);
      bins = λ l small. rw bad (omega arith);
      hist_length = refl;
      channels = refl;
      transfers = refl;
      running = refl;
      inflight = refl;
    },
  )

  capture_packet_empty :
      (p : IsoPacket) (st : Stats db)
      → is_completed p.status ≡ true
      → (p.actual_length == 0) ≡ true
      → Result (p ∷ []) st (capture_packet db p st)
  unfolding capture_packet
  capture_packet_empty p st good empty = (
    st,
    rw (good, empty) refl,
    record {
      pkts = rw (good, empty) (omega arith);
      bytes = rw (good, empty) (omega arith);
      frames = rw (good, empty) (omega arith);
      errors = rw good (omega arith);
      bins = λ l small. rw (good, empty) (omega arith);
      hist_length = refl;
      channels = refl;
      transfers = refl;
      running = refl;
      inflight = refl;
    },
  )

  capture_packet_good :
      (p : IsoPacket) (st : Stats db)
      → is_completed p.status ≡ true
      → (p.actual_length == 0) ≡ false
      → length st.levels ≡ 6
      → length st.pktlen_hist ≡ pkt_max + 1
      → InBuffer p
      → Result (p ∷ []) st (capture_packet db p st)
  unfolding capture_packet process_packet
  capture_packet_good p st good some_bytes six hist fits =
      let b = count_length-Binned p.actual_length st.pktlen_hist hist in
      let (raw, written) = write_raw_total p.bytes p.actual_length st.raw fits in
      let mid = record st {
        total_pkts = add64 st.total_pkts 1;
        total_bytes = add64 st.total_bytes p.actual_length;
        pktlen_hist = b.hist';
        raw = raw;
      } in
      let r =
        level_frames_total (p.actual_length / frame_bytes) p.bytes mid six (omega (arith, fits)) in
      (
        record mid { levels = r.ls; frames = r.n },
        rw (good, some_bytes, b.returns, written) r.returns,
        record {
          pkts = rw (good, some_bytes) (omega arith);
          bytes = rw (good, some_bytes) (omega arith);
          frames = rw (good, some_bytes) (omega (arith, r.counted));
          errors = rw good (omega arith);
          bins = λ l small. rw (good, some_bytes) (omega (arith, b.bins l small));
          hist_length = b.same_length;
          channels = r.same;
          transfers = refl;
          running = refl;
          inflight = refl;
        },
      )

  pub capture_packet_lem :
      (p : IsoPacket) (st : Stats db)
      → length st.levels ≡ 6
      → length st.pktlen_hist ≡ pkt_max + 1
      → InBuffer p
      → Result (p ∷ []) st (capture_packet db p st)
  capture_packet_lem p st six hist fits = elim (Bool-cases (is_completed p.status)) [
    | inl good ↦ elim (Bool-cases (p.actual_length == 0)) [
      | inl empty ↦ capture_packet_empty p st good empty
      | inr some_bytes ↦ capture_packet_good p st good some_bytes six hist fits
    ]
    | inr bad ↦ capture_packet_failed p st bad
  ]
