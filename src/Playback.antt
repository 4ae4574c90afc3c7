-- ===== src/Playback.antt =====
-- audio/djmt1-playback.c: the tone, the callback that refills a transfer with it, and the loops of main.
pub mod Wave
pub mod Drained
pub mod Counted
mod Tests
use djm_t1_linux.Base.{
  ℕ, zero, suc, ◌-◌, ◌<◌, ◌&&◌, not, Bool, true, false, Option, none, some, List, [], ◌∷◌, ◌++◌,
  ltb, if◌then◌else◌, ◌>>=◌, length, store_all, ◌+◌, ◌*◌, ◌≡◌, replicate, length-replicate,
}
use djm_t1_linux.Base.Int.{ℤ}
use djm_t1_linux.Usb.{TransferStatus, is_completed, is_cancelled}
use djm_t1_linux.Sample.{split, channels}
use djm_t1_linux.Iso.{add_one, sub_one}
use djm_t1_linux.Capture.{add64}

-- `FRAMES_PER_PKT`
abbrev pub frames_per_pkt : ℕ
frames_per_pkt = 48

abbrev pub pkt : ℕ
pkt = 864

abbrev pub npkt : ℕ
npkt = 32

abbrev pub nxfr : ℕ
nxfr = 8

-- `calloc(NPKT, PKT)`
pub blank : List ℕ
blank = replicate (npkt * pkt) 0

pub length-blank : length blank ≡ npkt * pkt
unfolding blank
length-blank = length-replicate {A = ℕ} (npkt * pkt) 0

-- C's `double` and the operations on it that the tool uses: `two_pi` is `2.0 * M_PI`, `rate` is
-- `SR`, `full_scale` is 8388607.0, and `to_int` the conversion to `int32_t`.
pub record Math : Type 1 where
  pub Double : Type 0
  pub add : Double → Double → Double
  pub sub : Double → Double → Double
  pub mul : Double → Double → Double
  pub div : Double → Double → Double
  pub gt : Double → Double → Bool
  pub sin : Double → Double
  pub two_pi : Double
  pub rate : Double
  pub full_scale : Double
  pub to_int : Double → ℤ

module _ (mt : Math) where
  open mt use {Double}

  -- The tool's globals.
  pub record Tool : Type 0 where
    pub running : Bool
    pub phase : Double
    pub freq : Double
    pub amp : Double
    pub out_pkts : ℕ
    pub out_err : ℕ
    pub xfr_errs : ℕ
    pub inflight : ℕ

  -- The phase of the next frame.
  pub advance : Double → Double → Double
  advance freq phase =
      let next = mt.add phase (mt.div (mt.mul mt.two_pi freq) mt.rate) in
      if mt.gt next mt.two_pi then mt.sub next mt.two_pi else next

  pub value : Double → Double → ℤ
  value amp phase = mt.to_int (mt.mul (mt.mul amp (mt.sin phase)) mt.full_scale)

  -- The loop over the channels.
  pub fill_frame : ℕ → ℤ → List ℕ
  fill_frame zero v = []
  fill_frame (suc n) v = let (p0, p1, p2) = split v in p0 ∷ p1 ∷ p2 ∷ fill_frame n v

  -- The loop over the frames of a packet: the bytes in order, and the phase behind them.
  pub fill_frames : ℕ → Double → Double → Double → List ℕ × Double
  unfolding fill_frame advance value
  fill_frames zero freq amp phase = ([], phase)
  fill_frames (suc n) freq amp phase =
      let (rest, end) = fill_frames n freq amp (advance freq phase) in
      (fill_frame channels (value amp phase) ++ rest, end)

  -- The loop over the packets, which lie one behind the other.
  pub fill_packets : ℕ → Double → Double → Double → List ℕ × Double
  unfolding fill_frames
  fill_packets zero freq amp phase = ([], phase)
  fill_packets (suc n) freq amp phase =
      let (packet, next) = fill_frames frames_per_pkt freq amp phase in
      let (rest, end) = fill_packets n freq amp next in (packet ++ rest, end)

  -- `fill_tone` on a buffer; `none` if it is too short.
  pub fill_tone : List ℕ → ℕ → Tool → Option (List ℕ × Tool)
  unfolding fill_packets
  fill_tone buf npkts t =
      let (bytes, phase) = fill_packets npkts t.freq t.amp t.phase in
      do buf' ← store_all bytes buf; some (buf', record t { phase = phase })

  -- A transfer that has ended, with its packets' status, its buffer, and whether
  -- `libusb_submit_transfer` would take it again.
  pub record Done : Type 0 where
    pub status : TransferStatus
    pub packets : List TransferStatus
    pub buffer : List ℕ
    pub submits : Bool

  -- A packet is counted, by whether it was completed.
  pub count_packet : Bool → Tool → Tool
  count_packet true t = record t { out_pkts = add64 t.out_pkts 1 }
  count_packet false t = record t { out_err = add64 t.out_err 1 }

  pub count_packets : List TransferStatus → Tool → Tool
  unfolding count_packet
  count_packets [] t = t
  count_packets (s ∷ packets) t = count_packets packets (count_packet (is_completed s) t)

  pub count_transfer : Bool → Tool → Tool
  count_transfer failed t = if failed then record t { xfr_errs = add64 t.xfr_errs 1 } else t

  -- `cb` behind its counters, by `running`; the flag is "the transfer was submitted again".
  pub refill : Bool → Done → Tool → Option (List ℕ × Tool × Bool)
  unfolding fill_tone
  refill false d t = some (d.buffer, record t { inflight = sub_one t.inflight }, false)
  refill true d t = do
    (buf, t') ← fill_tone d.buffer (length d.packets) t
    some (buf, if d.submits then t' else record t' { inflight = sub_one t'.inflight }, d.submits)

  pub cb : Done → Tool → Option (List ℕ × Tool × Bool)
  unfolding count_packets count_transfer refill
  cb d t =
      let failed = not (is_completed d.status) && not (is_cancelled d.status) in
      refill t.running d (count_packets d.packets (count_transfer failed t))

  -- The tool, and how many transfers libusb has.
  pub record Player : Type 0 where
    pub tool : Tool
    pub busy : ℕ

  -- One call of `libusb_handle_events_timeout`.
  pub handle_events : List Done → Player → Option Player
  unfolding cb
  handle_events [] p = some p
  handle_events (d ∷ ds) p = do
    (buf, tool, again) ← cb d p.tool
    handle_events ds (record { tool = tool; busy = if again then p.busy else p.busy - 1 })

  -- A buffer is filled and submitted, and counted if libusb takes it.
  pub submit_one : Bool → Tool → ℕ → Player
  submit_one true t busy = record {
    tool = record t { inflight = add_one t.inflight };
    busy = busy + 1;
  }
  submit_one false t busy = record { tool = t; busy = busy }

  -- The loop over `xfrs` at index `i`, with `left` rounds to go; `submits` is what libusb answers.
  pub submit_loop : (ℕ → Bool) → ℕ → ℕ → Player → Option Player
  unfolding fill_tone submit_one
  submit_loop submits zero i p = some p
  submit_loop submits (suc left) i p = do
    (buf, t) ← fill_tone blank npkt p.tool
    submit_loop submits left (i + 1) (submit_one (submits i) t p.busy)

  -- `while (running)`, as far as its rounds go; the flag is that `running` is cleared, by the time or
  -- by SIGINT. Callbacks of a round that run behind a SIGINT stand in the first round of `drain`.
  pub play : List (List Done × Bool) → Player → Option Player
  unfolding handle_events
  play [] p = some p
  play ((ds, true) ∷ rounds) p = do
    p' ← handle_events ds p
    some (record p' { tool = record p'.tool { running = false } })
  play ((ds, false) ∷ rounds) p = do p' ← handle_events ds p; play rounds p'

  -- `inflight > 0`
  pub waits : Player → Bool
  waits p = ltb 0 p.tool.inflight && ltb p.tool.inflight 0x80000000

  -- `while (inflight > 0)`; the flag is that the loop has ended, behind which all is closed.
  pub drain_by : Bool → List (List Done) → Player → Option (Bool × Player)
  unfolding handle_events waits
  drain_by false rounds p = some (true, p)
  drain_by true [] p = some (false, p)
  drain_by true (ds ∷ rounds) p = do p' ← handle_events ds p; drain_by (waits p') rounds p'

  -- Behind the first loop.
  pub drain : List (List Done) → Player → Option (Bool × Player)
  unfolding drain_by waits
  drain rounds p =
      let stopped = record p { tool = record p.tool { running = false } } in
      drain_by (waits stopped) rounds stopped
