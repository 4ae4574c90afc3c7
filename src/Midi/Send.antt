-- ===== src/Midi/Send.antt =====
-- From the sequencer to the mixer: `send_to_device` and `drain_seq_input`.
pub mod Bounds
pub mod Pack
pub mod Drain
use djm_t1_linux.Base.{
  ℕ, zero, suc, ◌+◌, ◌-◌, ◌/◌, ◌||◌, Option, none, some, List, [], ◌∷◌, ◌++◌, ltb, leb, ◌==◌,
  if◌then◌else◌, length, get_or, drop,
}

-- The `switch` on the status' high nibble: the message's length and the code index number.
unfoldable pub classify : ℕ → ℕ × ℕ
classify hi =
    if hi == 0x8 || hi == 0x9 || hi == 0xa || hi == 0xb || hi == 0xe
    then (3, hi)
    else if hi == 0xc || hi == 0xd
    then (2, hi)
    else (1, 0x0f)

abbrev pub sizeof_pkt : ℕ
sizeof_pkt = 64

-- The loop, with the bytes from `midi[i]` on and `pn` bytes packed: what it still packs.
-- Each round takes at least one byte, so the number of bytes is fuel enough.
pub pack_loop : ℕ → ℕ → List ℕ → List ℕ
unfolding classify
pack_loop zero pn midi = []
pack_loop (suc fuel) pn [] = []
pack_loop (suc fuel) pn (status ∷ midi) =
    let (mlen, cin) = classify (status / 16) in
    let stray = pack_loop fuel pn midi in
    let more = pack_loop fuel (pn + 4) (drop (mlen - 1) midi) in
    if leb (pn + 4) sizeof_pkt
    then (if ltb status 0x80
        then stray
        else cin
          ∷ status
          ∷ (if ltb 1 mlen then get_or midi 0 0 else 0)
          ∷ (if ltb 2 mlen then get_or midi 1 0 else 0)
          ∷ more)
    else []

unfoldable pub pack : List ℕ → List ℕ
unfolding pack_loop
pack midi = pack_loop (length midi) 0 midi

-- The data of the bulk transfer to the mixer, if one is made.
unfoldable pub send_to_device : List ℕ → Option (List ℕ)
unfolding pack
send_to_device midi = let pkt = pack midi in if ltb 0 (length pkt) then some pkt else none

abbrev pub cons_transfer : Option (List ℕ) → List (List ℕ) → List (List ℕ)
cons_transfer none ts = ts
cons_transfer (some t) ts = t ∷ ts

-- `drain_seq_input`. A pending event that cannot be read is `none`, and ends the loop; `decode` is
-- ALSA's decoder: its state, and the bytes of an event (none for a result that is not positive).
-- Returned: the decoder, the transfers made in order, and the events that are still pending.
module _ {D Event : Type 0} (decode : D → Event → D × List ℕ) where
  unfoldable pub drain_seq_input : D → List (Option Event) → D × List (List ℕ) × List (Option Event)
  drain_seq_input d [] = (d, [], [])
  drain_seq_input d (none ∷ evs) = (d, [], evs)
  drain_seq_input d (some ev ∷ evs) =
      let (d', buf) = decode d ev in
      let (d'', sent, left) = drain_seq_input d' evs in
      (d'', if ltb 0 (length buf) then cons_transfer (send_to_device buf) sent else sent, left)
