-- ===== src/Playback/Drained.antt =====
-- The loop behind the stop, which waits for every transfer.
use djm_t1_linux.Base.{
  ℕ, ◌+◌, ◌-◌, ◌≤◌, ◌≡◌, refl, sym, ap, ◌∙◌, ◌&&◌, not, Bool, true, false, some, List, [], ◌∷◌,
  ◌==◌, arith, length,
}
use djm_t1_linux.Usb.{TransferStatus, is_completed, is_cancelled}
use djm_t1_linux.Iso.{sub_one}
use djm_t1_linux.Playback.{
  Math, Tool, Done, Player, count_packet, count_transfer, count_packets, refill, cb, handle_events,
  waits, drain_by, drain,
}

module _ (mt : Math) where
  -- The callbacks in these rounds.
  abbrev pub callbacks : List (List (Done mt)) → ℕ
  callbacks [] = 0
  callbacks (ds ∷ rounds) = length ds + callbacks rounds

  -- Stopped, with `inflight` the number of transfers that libusb has.
  pub record Stopped (n : ℕ) (p : Player mt) : Type 0 where
    pub running : p.tool.running ≡ false
    pub busy : p.busy ≡ n
    pub inflight : p.tool.inflight ≡ n

  -- The counters leave the flag and `inflight` alone.
  pub record Kept (t t' : Tool mt) : Type 0 where
    pub running : t'.running ≡ t.running
    pub inflight : t'.inflight ≡ t.inflight

  count_packet-Kept : (ok : Bool) (t : Tool mt) → Kept t (count_packet mt ok t)
  unfolding count_packet
  count_packet-Kept true t = record { running = refl; inflight = refl }
  count_packet-Kept false t = record { running = refl; inflight = refl }

  pub count_packets-Kept :
      (packets : List TransferStatus) (t : Tool mt) → Kept t (count_packets mt packets t)
  unfolding count_packets
  count_packets-Kept [] t = record { running = refl; inflight = refl }
  count_packets-Kept (s ∷ packets) t =
      let one = count_packet-Kept (is_completed s) t in
      let rest = count_packets-Kept packets (count_packet mt (is_completed s) t) in
      record { running = rest.running ∙ one.running; inflight = rest.inflight ∙ one.inflight }

  pub count_transfer-Kept : (failed : Bool) (t : Tool mt) → Kept t (count_transfer mt failed t)
  unfolding count_transfer
  count_transfer-Kept true t = record { running = refl; inflight = refl }
  count_transfer-Kept false t = record { running = refl; inflight = refl }

  cb-stopped :
      (d : Done mt) (t : Tool mt)
      → t.running ≡ false
      → (t' : Tool mt) × (cb mt d t ≡ some (d.buffer, t', false))
        × (t'.running ≡ false)
        × (t'.inflight ≡ sub_one t.inflight)
  unfolding cb refill
  cb-stopped d t stopped =
      let failed = not (is_completed d.status) && not (is_cancelled d.status) in
      let t1 = count_transfer mt failed t in
      let t2 = count_packets mt d.packets t1 in
      let k1 = count_transfer-Kept failed t in
      let k2 = count_packets-Kept d.packets t1 in
      (
        record t2 { inflight = sub_one t2.inflight },
        rw stopped refl,
        k2.running ∙ k1.running ∙ stopped,
        ap sub_one (k2.inflight ∙ k1.inflight),
      )

  -- Each callback gives one transfer back.
  handle_events-Stopped :
      (ds : List (Done mt)) (n : ℕ) (p : Player mt)
      → Stopped n p
      → n ≤ 8
      → length ds ≤ n
      → (p' : Player mt) × (handle_events mt ds p ≡ some p') × Stopped (n - length ds) p'
  unfolding handle_events
  handle_events-Stopped [] n p v small enough = (
    p,
    refl,
    record {
      running = v.running;
      busy = omega (arith, v.busy);
      inflight = omega (arith, v.inflight);
    },
  )
  handle_events-Stopped (d ∷ ds) n p v small enough =
      let (t', runs, running, inflight) = cb-stopped d p.tool v.running in
      let (p', rest, w) =
        handle_events-Stopped ds (n - 1) (record { tool = t'; busy = p.busy - 1 })
          (record {
            running = running;
            busy = omega (arith, v.busy);
            inflight = omega (arith, inflight, v.inflight);
          })
          (omega arith) (omega (arith, enough)) in
      (
        p',
        rw runs rest,
        record {
          running = w.running;
          busy = omega (arith, w.busy);
          inflight = omega (arith, w.inflight);
        },
      )

  waits_lem : (n : ℕ) (p : Player mt) → Stopped n p → n ≤ 8 → waits mt p ≡ not (n == 0)
  unfolding waits
  waits_lem n p v small = rw v.inflight (ground arith)

  none_left : (n : ℕ) → false ≡ not (n == 0) → n ≡ 0
  none_left n e = ground arith

  some_left : (n : ℕ) → true ≡ not (n == 0) → (n == 0) ≡ false
  some_left n e = ground arith

  all_back : (m n : ℕ) → m ≡ 0 → n ≤ m → true ≡ (m == n)
  all_back m n e h = ground arith

  later : (n k m : ℕ) → k ≤ n → (n - k == m) ≡ (n == k + m)
  later n k m h = ground arith

  drain_by-Stopped :
      (rounds : List (List (Done mt))) (n : ℕ) (p : Player mt) (waiting : Bool)
      → Stopped n p
      → waiting ≡ not (n == 0)
      → n ≤ 8
      → callbacks rounds ≤ n
      → (p' : Player mt) × (drain_by mt waiting rounds p ≡ some (n == callbacks rounds, p'))
        × Stopped (n - callbacks rounds) p'
  unfolding drain_by
  drain_by-Stopped rounds n p false v e small enough =
      let empty = none_left n e in
      (
        p,
        ap (λ b. some (b, p)) (all_back n (callbacks rounds) empty enough),
        record {
          running = v.running;
          busy = omega (arith, v.busy, empty);
          inflight = omega (arith, v.inflight, empty);
        },
      )
  drain_by-Stopped [] n p true v e small enough = (
    p,
    ap (λ b. some (b, p)) (sym (some_left n e)),
    record {
      running = v.running;
      busy = omega (arith, v.busy);
      inflight = omega (arith, v.inflight);
    },
  )
  drain_by-Stopped (ds ∷ rounds) n p true v e small enough =
      let (p1, runs, w) = handle_events-Stopped ds n p v small (omega (arith, enough)) in
      let (p', rest, u) =
        drain_by-Stopped rounds (n - length ds) p1 (waits mt p1) w
          (waits_lem (n - length ds) p1 w (omega (arith, small))) (omega (arith, small))
          (omega (arith, enough)) in
      (
        p',
        rw runs (
            rest
            ∙ ap (λ b. some (b, p'))
                (later n (length ds) (callbacks rounds) (omega (arith, enough)))),
        record {
          running = u.running;
          busy = omega (arith, u.busy);
          inflight = omega (arith, u.inflight);
        },
      )

  -- With at most eight transfers out, as many as `inflight` says, and no more callbacks to come than
  -- transfers: whatever their status and whatever libusb would answer to a submission, the tool
  -- submits none again and faults nowhere, `inflight` goes on counting the transfers that libusb has,
  -- and the loop ends exactly if every transfer has come back: nothing is closed before.
  pub drain_lem :
      (rounds : List (List (Done mt))) (p : Player mt)
      → p.tool.inflight ≡ p.busy
      → p.busy ≤ 8
      → callbacks rounds ≤ p.busy
      → (p' : Player mt) × (drain mt rounds p ≡ some (p.busy == callbacks rounds, p'))
        × Stopped (p.busy - callbacks rounds) p'
  unfolding drain
  drain_lem rounds p counted small enough =
      let stopped = record p { tool = record p.tool { running = false } } in
      let v : Stopped p.busy stopped = record { running = refl; busy = refl; inflight = counted } in
      drain_by-Stopped rounds p.busy stopped (waits mt stopped) v (waits_lem p.busy stopped v small)
        small enough
