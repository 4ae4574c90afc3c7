-- ===== src/Iso/Life.antt =====
-- djmt1_iso_start, iso_thread and djmt1_iso_stop of audio/djmt1_iso.c: the engine from its first
-- transfer to its last, with the transfers that libusb has in flight.
pub mod Slots
pub mod Reach
pub mod Start
pub mod Stop
pub mod Null
mod Tests
use djm_t1_linux.Base.{
  ℕ, zero, suc, ◌+◌, ◌-◌, ◌*◌, ◌≤◌, ◌≡◌, Bool, true, false, not, ◌&&◌, Option, none, some, List, [],
  ◌∷◌, ◌++◌, get_elem?, set, All, length, if◌then◌else◌,
}
use djm_t1_linux.Usb.{TransferStatus}
use djm_t1_linux.Ring
use djm_t1_linux.Sample.{Floats}
use djm_t1_linux.Iso.{Engine, IsoPacket, npkt, add_one, in_cb, out_cb, iso_read, iso_write}
use djm_t1_linux.Iso.Packet.{InBuffer}

abbrev pub nxfr : ℕ
nxfr = 6

-- A transfer of `in_x` or `out_x`: libusb has it, from its submission until its callback returns
-- without submitting it again, or not.
pub data Slot : Type 0 where
  idle active : Slot

abbrev pub has : Slot → ℕ
has Slot.idle = 0
has Slot.active = 1

abbrev pub slot_of : Bool → Slot
slot_of true = Slot.active
slot_of false = Slot.idle

-- The transfers that libusb has.
unfoldable pub in_flight : List Slot → ℕ
in_flight [] = 0
in_flight (Slot.idle ∷ slots) = in_flight slots
in_flight (Slot.active ∷ slots) = suc (in_flight slots)

-- A callback's or a call's result; on an engine that is freed it is a fault.
abbrev pub usable {ℓ} : {A : Type ℓ} → Bool → Option A → Option A
usable true result = none
usable false result = result

-- The engines, contexts and handles that `djmt1_iso_start` takes and `djmt1_iso_stop` gives back; the
-- rest of what it takes belongs to the engine and stands in `Life`.
pub record Held : Type 0 where
  pub engines : ℕ
  pub contexts : ℕ
  pub handles : ℕ

-- One block, if `calloc` gave it.
abbrev pub given {ℓ} : {A : Type ℓ} → Option A → ℕ
given none = 0
given (some block) = 1

abbrev pub take_engine : Held → Held
take_engine h = record h { engines = h.engines + 1 }

abbrev pub free_engine : Held → Held
free_engine h = record h { engines = h.engines - 1 }

abbrev pub take_context : Held → Held
take_context h = record h { contexts = h.contexts + 1 }

abbrev pub exit_context : Held → Held
exit_context h = record h { contexts = h.contexts - 1 }

abbrev pub take_handle : Held → Held
take_handle h = record h { handles = h.handles + 1 }

abbrev pub close_handle : Held → Held
close_handle h = record h { handles = h.handles - 1 }

module _ (fl : Floats) where
  open fl use {Float}

  -- Which calls of `djmt1_iso_start` succeed, and the blocks that `calloc` gives to the rings; then
  -- which submissions libusb takes, and whether `pthread_create` makes the thread, which is not looked
  -- at. The transfers and their buffers, which are not looked at either, are taken to be allocated.
  pub record Answers : Type 0 where
    pub calloc : Bool
    pub init : Bool
    pub open_device : Bool
    pub claim : Bool
    pub set_alt : Bool
    pub cap_block : Option (List (List Float))
    pub play_block : Option (List (List Float))
    pub submits_in : ℕ → Bool
    pub submits_out : ℕ → Bool
    pub thread : Bool

  -- The engine, and its transfers as libusb sees them: `in_x[i]` stands at 2 i, `out_x[i]` behind it;
  -- how many transfers, buffers of transfers and blocks of rings are allocated; whether the interface
  -- is claimed, and its alternate setting; whether the thread was made; and whether all is freed.
  pub record Life : Type 0 where
    pub engine : Engine fl
    pub slots : List Slot
    pub transfers : ℕ
    pub buffers : ℕ
    pub blocks : ℕ
    pub claimed : Bool
    pub alt : ℕ
    pub thread : Bool
    pub freed : Bool

  -- A transfer and its buffer are allocated; it is submitted, and counted if libusb takes it.
  pub submit_one : Bool → Life → Life
  submit_one ok s = record s {
    engine = record s.engine {
      inflight = if ok then add_one s.engine.inflight else s.engine.inflight;
    };
    slots = s.slots ++ slot_of ok ∷ [];
    transfers = s.transfers + 1;
    buffers = s.buffers + 1;
  }

  -- The loop at index `i`, with `left` rounds to go.
  pub submit_loop : Answers → ℕ → ℕ → Life → Life
  unfolding submit_one
  submit_loop a zero i s = s
  submit_loop a (suc left) i s =
      submit_loop a left (i + 1) (submit_one (a.submits_out i) (submit_one (a.submits_in i) s))

  -- The engine behind `calloc` and the two calls of `ring_init`, whose results are not looked at.
  pub fresh : Answers → ℕ → Engine fl
  fresh a ring_frames = record {
    running = true;
    inflight = 0;
    cap_ring = (Ring.init (λ n. a.cap_block) ring_frames).1;
    play_ring = (Ring.init (λ n. a.play_block) ring_frames).1;
    cap_over = 0;
    play_under = 0;
    xfer_err = 0;
  }

  -- The engine before its first transfer, its interface claimed and on alternate setting 1.
  abbrev pub opened : Answers → ℕ → Life
  opened a ring_frames = record {
    engine = fresh a ring_frames;
    slots = [];
    transfers = 0;
    buffers = 0;
    blocks = given a.cap_block + given a.play_block;
    claimed = true;
    alt = 1;
    thread = false;
    freed = false;
  }

  -- Behind its last transfer, with the thread.
  abbrev pub launched : Answers → ℕ → Life
  launched a ring_frames = record (submit_loop a nxfr 0 (opened a ring_frames)) {
    thread = a.thread;
  }

  -- `djmt1_iso_start` by what its calls answer; `s` is the engine that it returns if all succeed.
  pub start_with : Bool → Bool → Bool → Bool → Life → Held → Option Life × Held
  start_with calloc init open_device claim_alt s h =
      if not calloc
      then (none, h)
      else if not init
      then (none, free_engine (take_engine h))
      else if not open_device
      then (none, free_engine (exit_context (take_context (take_engine h))))
      else if not claim_alt
      then (
        none,
        free_engine (exit_context (close_handle (take_handle (take_context (take_engine h))))),
      )
      else (some s, take_handle (take_context (take_engine h)))

  pub start : Answers → ℕ → Held → Option Life × Held
  unfolding start_with
  start a ring_frames h =
      start_with a.calloc a.init a.open_device (a.claim && a.set_alt) (launched a ring_frames) h

  -- The first lines of `djmt1_iso_stop`. To cancel a transfer changes nothing here: libusb has it
  -- until its callback has run, with a status of its own.
  abbrev pub stop_request : Life → Life
  stop_request s = record s { engine = record s.engine { running = false } }

  -- The loop that frees the transfers, a buffer and a transfer in each round; the number is that of the
  -- transfers that libusb has when they are freed.
  pub free_transfers : List Slot → Life → ℕ × Life
  free_transfers [] s = (0, s)
  free_transfers (slot ∷ slots) s =
      let (torn, s') =
        free_transfers slots (record s { transfers = s.transfers - 1; buffers = s.buffers - 1 }) in
      (has slot + torn, s')

  -- `ring_free`; a ring without a block has a null pointer.
  pub ring_free : List (List Float) → Life → Life
  ring_free [] s = s
  ring_free (frame ∷ buf) s = record s { blocks = s.blocks - 1 }

  -- The rest of `djmt1_iso_stop`, behind the join: the transfers that are freed while libusb has them,
  -- and what is left of the engine's; and what is held then.
  unfoldable pub stop_joined : Life → Held → (ℕ × Life) × Held
  unfolding free_transfers ring_free
  stop_joined s h =
      let (torn, s1) = free_transfers s.slots s in
      let s2 = record s1 { alt = 0; claimed = false } in
      let s3 = ring_free s.engine.play_ring.buf (ring_free s.engine.cap_ring.buf s2) in
      ((torn, record s3 { freed = true }), free_engine (exit_context (close_handle h)))

  -- `iso_thread` ends where its loop finds the flag cleared; it does not look at `inflight`.
  pub thread_ends : Life → Bool
  thread_ends s = not s.engine.running

  -- What happens to a started engine: the callback of a transfer that libusb has runs, with whatever
  -- answer to its submission; the caller reads or writes; `djmt1_iso_stop` clears the flag; or it has
  -- joined the thread and frees all.
  pub data Step (s : Life) : Life → Type 0 where
    captured :
        (i : ℕ) (status : TransferStatus) (packets : List IsoPacket) (submits again : Bool)
        (e : Engine fl)
        → get_elem? s.slots i ≡ some Slot.active
        → All InBuffer packets
        → usable s.freed (in_cb fl status packets submits s.engine) ≡ some (e, again)
        → Step s (record s { engine = e; slots = set s.slots i (slot_of again) })
    played :
        (i : ℕ) (status : TransferStatus) (packets : ℕ) (submits again : Bool) (bytes : List ℕ)
        (e : Engine fl)
        → get_elem? s.slots i ≡ some Slot.active
        → packets ≤ npkt
        → usable s.freed (out_cb fl status packets submits s.engine) ≡ some (bytes, e, again)
        → Step s (record s { engine = e; slots = set s.slots i (slot_of again) })
    reads :
        (n : ℕ) (out : List (List Float)) (e : Engine fl)
        → usable s.freed (iso_read fl s.engine n) ≡ some (out, e)
        → Step s (record s { engine = e })
    writes :
        (src : List (List Float)) (n wrote : ℕ) (e : Engine fl)
        → n ≤ length src
        → usable s.freed (iso_write fl s.engine src n) ≡ some (wrote, e)
        → Step s (record s { engine = e })
    stops : s.freed ≡ false → Step s (stop_request s)
    frees : s.freed ≡ false → thread_ends s ≡ true → (h : Held) → Step s (stop_joined s h).0.1

  -- Any number of steps.
  pub data Steps (s : Life) : Life → Type 0 where
    done : Steps s s
    then : {t u : Life} → Steps s t → Step t u → Steps s u
