-- ===== src/Midi/Send/Drain.antt =====
-- The transfers of `drain_seq_input`.
use djm_t1_linux.Base.{
  ℕ, ◌%◌, ◌≤◌, ◌<◌, ◌≡◌, Bool, true, false, Option, none, some, List, [], ◌∷◌, arith, ltb, length,
  All, Bool-cases, inl, inr, if◌then◌else◌,
}
use djm_t1_linux.Midi.Send.{pack, send_to_device, cons_transfer, drain_seq_input, sizeof_pkt}
use djm_t1_linux.Midi.Send.Bounds.{pack-length}

-- One to sixteen whole packets.
abbrev pub IsBulk : List ℕ → Type 0
IsBulk t = (0 < length t) × (length t ≤ sizeof_pkt) × (length t % 4 ≡ 0)

send_to_device-IsBulk :
    (buf : List ℕ) (sent : List (List ℕ))
    → All IsBulk sent
    → All IsBulk (cons_transfer (send_to_device buf) sent)
unfolding send_to_device
send_to_device-IsBulk buf sent h = elim (Bool-cases (ltb 0 (length (pack buf)))) [
  | inl some_bytes ↦
      let (fits, whole) = pack-length buf in
      let filled : 0 < length (pack buf) = ground arith in rw some_bytes ((filled, fits, whole), h)
  | inr no_bytes ↦ rw no_bytes h
]

sent_event-IsBulk :
    (b : Bool) (buf : List ℕ) (sent : List (List ℕ))
    → All IsBulk sent
    → All IsBulk (if b then cons_transfer (send_to_device buf) sent else sent)
sent_event-IsBulk true buf sent h = send_to_device-IsBulk buf sent h
sent_event-IsBulk false buf sent h = h

-- Whatever events are pending and whatever the decoder makes of them, `drain_seq_input` makes only
-- transfers of one to sixteen whole packets.
pub drain_seq_input-IsBulk :
    {D Event : Type 0} (decode : D → Event → D × List ℕ) (d : D) (evs : List (Option Event))
    → All IsBulk (drain_seq_input decode d evs).1
unfolding drain_seq_input
drain_seq_input-IsBulk decode d [] = tt
drain_seq_input-IsBulk decode d (none ∷ evs) = tt
drain_seq_input-IsBulk decode d (some ev ∷ evs) =
    let (d', buf) = decode d ev in
    sent_event-IsBulk (ltb 0 (length buf)) buf (drain_seq_input decode d' evs).1
      (drain_seq_input-IsBulk decode d' evs)
