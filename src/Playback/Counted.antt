-- ===== src/Playback/Counted.antt =====
-- `inflight` in the loops before the stop: it counts the transfers that libusb has.
use djm_t1_linux.Base.{
  ℕ, ◌==◌, zero, suc, ◌+◌, ◌-◌, ◌*◌, ◌≤◌, ◌≡◌, refl, sym, ap, ◌∙◌, ◌&&◌, not, Bool, true, false,
  Option, some, List, [], ◌∷◌, ◌>>=◌, arith, length, if◌then◌else◌,
}
use mathlib.Core.Path.{subst}
use djm_t1_linux.Usb.{is_completed, is_cancelled}
use djm_t1_linux.Iso.{sub_one}
use djm_t1_linux.Playback.{
  Math, Tool, Done, Player, count_packets, count_transfer, fill_tone, refill, cb, handle_events,
  submit_one, submit_loop, play, drain, blank, length-blank, npkt, nxfr,
}
use djm_t1_linux.Playback.Wave.{fill_tone_total}
use djm_t1_linux.Playback.Drained.{
  Stopped, callbacks, drain_lem, count_packets-Kept, count_transfer-Kept,
}

module _ (mt : Math) where
  -- `inflight` counts the transfers that libusb has.
  pub record Counted (p : Player mt) : Type 0 where
    pub counted : p.tool.inflight ≡ p.busy
    pub few : p.busy ≤ 8

  -- How many transfers are out behind these callbacks, the tool running.
  abbrev pub out_behind : List (Done mt) → ℕ → ℕ
  out_behind [] n = n
  out_behind (d ∷ ds) n = out_behind ds (if d.submits then n else n - 1)

  -- Each is the callback of a transfer that is out, with room for its packets.
  abbrev pub Possible : List (Done mt) → ℕ → Type 0
  Possible [] n = Unit
  Possible (d ∷ ds) n =
      (1 ≤ n)
      × (length d.packets * 864 ≤ length d.buffer)
      × Possible ds (if d.submits then n else n - 1)

  -- So are those of every round.
  abbrev pub AllPossible : List (List (Done mt) × Bool) → ℕ → Type 0
  AllPossible [] n = Unit
  AllPossible ((ds, over) ∷ rounds) n = Possible ds n × AllPossible rounds (out_behind ds n)

  -- How many transfers are out behind the loop.
  abbrev pub out_after : List (List (Done mt) × Bool) → ℕ → ℕ
  out_after [] n = n
  out_after ((ds, true) ∷ rounds) n = out_behind ds n
  out_after ((ds, false) ∷ rounds) n = out_after rounds (out_behind ds n)

  -- How many of the submissions from index `i` on libusb takes.
  abbrev pub taken : (ℕ → Bool) → ℕ → ℕ → ℕ
  taken submits zero i = 0
  taken submits (suc left) i = (if submits i then 1 else 0) + taken submits left (i + 1)

  refill-running :
      (submits : Bool) (d : Done mt) (t : Tool mt)
      → d.submits ≡ submits
      → length d.packets * 864 ≤ length d.buffer
      → t.running ≡ true
      → (buf : List ℕ) × (t' : Tool mt) × (refill mt true d t ≡ some (buf, t', submits))
        × (t'.running ≡ true)
        × (t'.inflight ≡ (if submits then t.inflight else sub_one t.inflight))
  unfolding refill
  refill-running true d t e room on =
      let (buf, phase, fills) = fill_tone_total mt d.buffer (length d.packets) t room in
      (buf, record t { phase = phase }, rw (fills, e) refl, on, refl)
  refill-running false d t e room on =
      let (buf, phase, fills) = fill_tone_total mt d.buffer (length d.packets) t room in
      (buf, record t { phase = phase; inflight = sub_one t.inflight }, rw (fills, e) refl, on, refl)

  cb-running :
      (d : Done mt) (t : Tool mt)
      → length d.packets * 864 ≤ length d.buffer
      → t.running ≡ true
      → (buf : List ℕ) × (t' : Tool mt) × (cb mt d t ≡ some (buf, t', d.submits))
        × (t'.running ≡ true)
        × (t'.inflight ≡ (if d.submits then t.inflight else sub_one t.inflight))
  unfolding cb
  cb-running d t room on =
      let failed = not (is_completed d.status) && not (is_cancelled d.status) in
      let t1 = count_transfer mt failed t in
      let t2 = count_packets mt d.packets t1 in
      let k1 = count_transfer-Kept mt failed t in
      let k2 = count_packets-Kept mt d.packets t1 in
      let (buf, t', fills, running, inflight) =
        refill-running d.submits d t2 refl room (k2.running ∙ k1.running ∙ on) in
      (
        buf,
        t',
        ap (λ q. refill mt q d t2) on ∙ fills,
        running,
        inflight ∙ ap (λ n. if d.submits then n else sub_one n) (k2.inflight ∙ k1.inflight),
      )

  one_less :
      (submits : Bool) (inflight busy n : ℕ)
      → inflight ≡ (if submits then n else sub_one n)
      → n ≡ busy
      → 1 ≤ busy
      → busy ≤ 8
      → (inflight ≡ (if submits then busy else busy - 1))
        × ((if submits then busy else busy - 1) ≤ 8)
  one_less true inflight busy n e same some_out few = (e ∙ same, few)
  one_less false inflight busy n e same some_out few = (omega (arith, e, same), omega (arith, few))

  handle_events-Counted :
      (ds : List (Done mt)) (p : Player mt)
      → Counted p
      → p.tool.running ≡ true
      → Possible ds p.busy
      → (p' : Player mt) × (handle_events mt ds p ≡ some p')
        × Counted p'
        × (p'.tool.running ≡ true)
        × (p'.busy ≡ out_behind ds p.busy)
  unfolding handle_events
  handle_events-Counted [] p v on possible = (p, refl, v, on, refl)
  handle_events-Counted (d ∷ ds) p v on (some_out, room, others) =
      let (buf, t', runs, running, inflight) = cb-running d p.tool room on in
      let (counted, few) =
        one_less d.submits t'.inflight p.busy p.tool.inflight inflight v.counted some_out v.few in
      let (p', rest, w, on', behind) =
        handle_events-Counted ds
          (record { tool = t'; busy = if d.submits then p.busy else p.busy - 1 })
          (record { counted = counted; few = few }) running others in
      (p', rw runs rest, w, on', behind)

  play-Counted :
      (rounds : List (List (Done mt) × Bool)) (p : Player mt)
      → Counted p
      → p.tool.running ≡ true
      → AllPossible rounds p.busy
      → (p' : Player mt) × (play mt rounds p ≡ some p')
        × Counted p'
        × (p'.busy ≡ out_after rounds p.busy)
  unfolding play
  play-Counted [] p v on possible = (p, refl, v, refl)
  play-Counted ((ds, true) ∷ rounds) p v on (this, others) =
      let (p1, runs, w, on', behind) = handle_events-Counted ds p v on this in
      (
        record p1 { tool = record p1.tool { running = false } },
        rw runs refl,
        record { counted = w.counted; few = w.few },
        behind,
      )
  play-Counted ((ds, false) ∷ rounds) p v on (this, others) =
      let (p1, runs, w, on', behind) = handle_events-Counted ds p v on this in
      let (p', rest, u, after) =
        play-Counted rounds p1 w on' (subst (AllPossible rounds) (sym behind) others) in
      (p', rw runs rest, u, after ∙ ap (out_after rounds) behind)

  bind_known :
      {A B : Type 0} (o : Option A) (a : A) (f : A → Option B) (r : Option B)
      → o ≡ some a
      → f a ≡ r
      → (o >>= f) ≡ r
  bind_known o a f r e h = ap (λ o. o >>= f) e ∙ h

  submit_one-Counted :
      (ok : Bool) (t : Tool mt) (busy left : ℕ)
      → t.inflight ≡ busy
      → busy + suc left ≤ 8
      → ((submit_one mt ok t busy).tool.inflight ≡ (submit_one mt ok t busy).busy)
        × ((submit_one mt ok t busy).busy + left ≤ 8)
        × ((submit_one mt ok t busy).tool.running ≡ t.running)
        × ((submit_one mt ok t busy).busy ≡ busy + (if ok then 1 else 0))
  unfolding submit_one
  submit_one-Counted true t busy left e few =
      (omega (arith, e, few), omega (arith, few), refl, refl)
  submit_one-Counted false t busy left e few = (e, omega (arith, few), refl, omega arith)

  submit_loop-Counted :
      (submits : ℕ → Bool) (left i : ℕ) (p : Player mt)
      → p.tool.inflight ≡ p.busy
      → p.busy + left ≤ 8
      → p.tool.running ≡ true
      → (p' : Player mt) × (submit_loop mt submits left i p ≡ some p')
        × Counted p'
        × (p'.tool.running ≡ true)
        × (p'.busy ≡ p.busy + taken submits left i)
  unfolding submit_loop
  submit_loop-Counted submits zero i p e few on =
      (p, refl, record { counted = e; few = omega (arith, few) }, on, omega arith)
  submit_loop-Counted submits (suc left) i p e few on =
      let (buf, phase, fills) =
        fill_tone_total mt blank npkt p.tool (omega (arith, length-blank)) in
      let t = record p.tool { phase = phase } in
      let (counted, room, running, one) = submit_one-Counted (submits i) t p.busy left e few in
      let (p', rest, v, on', more) =
        submit_loop-Counted submits left (i + 1) (submit_one mt (submits i) t p.busy) counted room
          (running ∙ on) in
      (
        p',
        bind_known (fill_tone mt blank npkt p.tool) (buf, t)
            (λ r. submit_loop mt submits left (i + 1) (submit_one mt (submits i) r.1 p.busy))
            (some p') fills rest,
        v,
        on',
        omega (arith, more, one),
      )

  -- Before its transfers are submitted.
  abbrev pub idle : Tool mt → Player mt
  idle t = record { tool = record t { running = true; inflight = 0 }; busy = 0 }

  -- From the first submission on, whichever of the eight transfers libusb takes, then and later, and
  -- while every callback is that of a transfer that is out and has room for its packets: neither the
  -- submissions nor the loop fault, and `inflight` is then the number of transfers that libusb has.
  -- Behind the stop, with no more callbacks to come than transfers, the last loop faults nowhere
  -- either, and ends exactly if every transfer has come back: nothing is closed before.
  pub drain-play :
      (submits : ℕ → Bool) (t : Tool mt) (rounds : List (List (Done mt) × Bool))
      (last : List (List (Done mt)))
      → let n = taken submits nxfr 0 in
        AllPossible rounds n
        → callbacks mt last ≤ out_after rounds n
        → (p : Player mt) × ((submit_loop mt submits nxfr 0 (idle t) >>= play mt rounds) ≡ some p)
          × (p.tool.inflight ≡ out_after rounds n)
          × (p' : Player mt) × (drain mt last p ≡ some (p.busy == callbacks mt last, p'))
          × (p.busy ≡ out_after rounds n)
          × Stopped mt (p.busy - callbacks mt last) p'
  drain-play submits t rounds last possible few =
      let (p1, starts, v, on, all) =
        submit_loop-Counted submits nxfr 0 (idle t) refl (omega arith) refl in
      let n : p1.busy ≡ taken submits nxfr 0 = omega (arith, all) in
      let (p2, plays, w, after) =
        play-Counted rounds p1 v on (subst (AllPossible rounds) (sym n) possible) in
      let out = after ∙ ap (out_after rounds) n in
      let (p3, drains, u) = drain_lem mt last p2 w.counted w.few (omega (arith, few, out)) in
      (p2, rw starts plays, w.counted ∙ out, p3, drains, out, u)
