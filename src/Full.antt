-- ===== src/Full.antt =====
-- midi/djm_full.c: the unified daemon. Here is its MIDI thread; Full.Threads has its threads together.
-- Its send_to_device, drain_seq_input and arm are those of midi/djm_midi.c, but for the handle's name;
-- its callbacks, with emit_midi and the table of lengths, are a copy of their own here as there.
pub mod Same
pub mod Ends
pub mod Outcome
pub mod Threads
mod Tests
use djm_t1_linux.Base.{
  ℕ, zero, suc, ◌+◌, ◌-◌, ◌/◌, ◌%◌, ◌^◌, ◌==◌, ◌&&◌, not, Bool, true, false, Option, none, some,
  List, [], ◌∷◌, ◌++◌, ◌>>=◌, if◌then◌else◌, take, get_or,
}
use djm_t1_linux.Usb.{TransferStatus, is_no_device}
use djm_t1_linux.Usb.Session.{LibUsb, Session, init, open_device, close, exit}
use djm_t1_linux.Arm.{arm}
use djm_t1_linux.Midi.Receive.{Bridge, Sent, Transfer}
use djm_t1_linux.Midi.Send.{drain_seq_input}
use djm_t1_linux.Midi.Globals.{unless_quit}
use djm_t1_linux.Midi.Daemon.{iface_midi, iface_hid, settle_rounds, wind_down_rounds, release}

-- The number of MIDI bytes in a packet, by its code index number.
pub cin_len : List ℕ
cin_len = 0 ∷ 0 ∷ 2 ∷ 3 ∷ 3 ∷ 1 ∷ 2 ∷ 3 ∷ 3 ∷ 3 ∷ 3 ∷ 3 ∷ 2 ∷ 2 ∷ 3 ∷ 1 ∷ []

-- The callback of a transfer of the thread, with libusb's answer to its next submission, or another
-- thread that sets `g_stop` meanwhile.
pub data Completion : Type 0 where
  midi : Transfer → Bool → Completion
  hid : TransferStatus → Bool → Completion
  stop : Completion

-- The variables that the thread uses, with what ALSA's codecs and the sequencer's port hold, the bulk
-- transfers to the mixer, and whether the two callbacks are still to come.
pub record Shared (E D Event : Type 0) : Type 0 where
  pub g_stop : Bool
  pub encoder : E
  pub output : List (Sent Event)
  pub midi_msgs : ℕ
  pub decoder : D
  pub waiting : List (Option Event)
  pub to_mixer : List (List ℕ)
  pub midi_pending : Bool
  pub hid_pending : Bool

-- What completes while the pipes settle, during the synchronous transfers of `arm`, in the loop, with
-- the events that reach the sequencer's port in each of its rounds, and after it. What completes
-- during a synchronous transfer of `drain_seq_input` stands with its round: the callbacks and
-- `drain_seq_input` use different variables. A `g_stop` that is set before the pipes settle, where
-- nothing reads it, stands in the variables that the thread starts with.
pub record Script (Event : Type 0) : Type 0 where
  pub settling : List (List Completion)
  pub arming : List Completion
  pub rounds : List (List Completion × List (Option Event))
  pub stopping : List (List Completion)

module _ {E D Event : Type 0} where
  -- `hid_cb`, by whether the device has gone; the flag is "the transfer was submitted again".
  pub hid_cb_gone : Bool → Shared E D Event → Shared E D Event × Bool
  hid_cb_gone true g = (record g { g_stop = true }, false)
  hid_cb_gone false g = (g, not g.g_stop)

  pub hid_cb : TransferStatus → Shared E D Event → Shared E D Event × Bool
  unfolding hid_cb_gone
  hid_cb status g = hid_cb_gone (is_no_device status) g

  abbrev pub hid_after : Bool → Shared E D Event × Bool → Shared E D Event
  hid_after takes (g, again) = record g { hid_pending = again && takes }

module _ {E D Event : Type 0} (encode_byte : E → ℕ → E × Option Event) (seq_port : ℕ) where
  -- The event goes to the sequencer only where the encoder's result is 1.
  pub output_direct : Option Event → Shared E D Event → Shared E D Event
  output_direct none g = g
  output_direct (some ev) g = record g {
    output =
        g.output
        ++ record { event = ev; source = seq_port; to_subscribers = true; direct = true } ∷ [];
  }

  pub emit_midi : List ℕ → Shared E D Event → Shared E D Event
  unfolding output_direct
  emit_midi [] g = g
  emit_midi (m ∷ ms) g =
      let (e, ev) = encode_byte g.encoder m in
      emit_midi ms (output_direct ev (record g { encoder = e }))

  -- One packet of four bytes. The printing of `-v` is left out.
  pub handle_packet : ℕ → ℕ → ℕ → ℕ → Shared E D Event → Shared E D Event
  unfolding emit_midi cin_len
  handle_packet p0 p1 p2 p3 g =
      let n = get_or cin_len (p0 % 16) 0 in
      if p0 == 0 && p1 == 0 && p2 == 0 && p3 == 0
      then g
      else if n == 0
      then g
      else emit_midi (take n (p1 ∷ p2 ∷ p3 ∷ []))
          (record g { midi_msgs = (g.midi_msgs + 1) % 2 ^ 64 })

  -- The loop over packets, a round for each four bytes of `actual_length`, with the bytes from
  -- `buffer + i` on. `none`: a packet is read outside the buffer.
  pub parse_packets : ℕ → List ℕ → Shared E D Event → Option (Shared E D Event)
  unfolding handle_packet
  parse_packets zero p g = some g
  parse_packets (suc left) (p0 ∷ p1 ∷ p2 ∷ p3 ∷ p) g =
      parse_packets left p (handle_packet p0 p1 p2 p3 g)
  parse_packets (suc left) _ g = none

  -- The flag is "the transfer was submitted again".
  pub midi_cb_status :
      TransferStatus → Transfer → Shared E D Event → Option (Shared E D Event × Bool)
  unfolding parse_packets
  midi_cb_status TransferStatus.completed t g = do
    g' ← parse_packets (t.actual_length / 4) t.buffer g
    some (g', not g'.g_stop)
  midi_cb_status TransferStatus.no_device t g = some (record g { g_stop = true }, false)
  midi_cb_status _ t g = some (g, not g.g_stop)

  pub midi_cb : Transfer → Shared E D Event → Option (Shared E D Event × Bool)
  unfolding midi_cb_status
  midi_cb t g = midi_cb_status t.status t g

  pub callback : Completion → Shared E D Event → Option (Shared E D Event)
  unfolding midi_cb hid_cb
  callback (Completion.midi t takes) g = do
    (g', again) ← midi_cb t g
    some (record g' { midi_pending = again && takes })
  callback (Completion.hid status takes) g = some (hid_after takes (hid_cb status g))
  callback Completion.stop g = some (record g { g_stop = true })

  -- One call of `libusb_handle_events_timeout`.
  pub handle_events : List Completion → Shared E D Event → Option (Shared E D Event)
  unfolding callback
  handle_events [] g = some g
  handle_events (c ∷ cs) g = do g' ← callback c g; handle_events cs g'

  -- `for (i = 0; i < 10 && !g_stop; i++)` around that call.
  pub settle : List (List Completion) → Shared E D Event → Option (Shared E D Event)
  unfolding handle_events
  settle [] g = some g
  settle (cs ∷ rounds) g = unless_quit g.g_stop g (do g' ← handle_events cs g; settle rounds g')

  pub wind_down : List (List Completion) → Shared E D Event → Option (Shared E D Event)
  unfolding handle_events
  wind_down [] g = some g
  wind_down (cs ∷ rounds) g = do g' ← handle_events cs g; wind_down rounds g'

module _ {E D Event : Type 0} (encode_byte : E → ℕ → E × Option Event) (seq_port : ℕ)
    (decode : D → Event → D × List ℕ) where
  pub drain : List (Option Event) → Shared E D Event → Shared E D Event
  drain events g =
      let (decoder, sent, left) = drain_seq_input decode g.decoder (g.waiting ++ events) in
      record g { decoder = decoder; to_mixer = g.to_mixer ++ sent; waiting = left }

  -- `while (!g_stop)`, as far as the rounds go.
  pub serve :
      List (List Completion × List (Option Event)) → Shared E D Event → Option (Shared E D Event)
  unfolding handle_events drain
  serve [] g = some g
  serve ((cs, events) ∷ rounds) g =
      unless_quit g.g_stop g
        (do g' ← handle_events encode_byte seq_port cs g; serve rounds (drain events g'))

-- What libusb answers to the claims and to the first submissions of the thread.
pub record Answers : Type 0 where
  pub claim_midi : Bool
  pub claim_hid : Bool
  pub takes_midi : Bool
  pub takes_hid : Bool

-- The thread: its session with libusb, the interfaces that it has claimed, the latest first, the
-- transfers that it has allocated, each with its buffer, and the variables. Nothing frees a transfer.
pub record Thread (lib : LibUsb) (E D Event : Type 0) : Type 0 where
  pub session : Session lib
  pub claimed : List ℕ
  pub transfers : ℕ
  pub shared : Shared E D Event

module _ (lib : LibUsb) {E D Event : Type 0} (encode_byte : E → ℕ → E × Option Event) (seq_port : ℕ)
    (decode : D → Event → D × List ℕ) where
  -- `out:`
  abbrev pub out : Thread lib E D Event → Thread lib E D Event
  out t = record t { session = exit lib (close lib t.session) }

  -- The last lines, from the release of the MIDI interface on, with `hx != NULL`.
  abbrev pub let_go : Bool → Thread lib E D Event → Thread lib E D Event
  let_go hx t =
      let without_midi = release iface_midi t.claimed in
      out (record t { claimed = if hx then release iface_hid without_midi else without_midi })

  -- Behind the loop; the flag is "the thread has ended".
  pub finish :
      Script Event → Bool → Bool → Thread lib E D Event → Option (Bool × Thread lib E D Event)
  finish s hx false t = some (false, t)
  finish s hx true t = do
    g ← wind_down encode_byte seq_port (take wind_down_rounds s.stopping) t.shared
    some (true, let_go hx (record t { shared = g }))

  -- From the pipes to the end.
  pub run : Script Event → Bool × Thread lib E D Event → Option (Bool × Thread lib E D Event)
  unfolding finish handle_events
  run s (hx, t) = do
    g ← settle encode_byte seq_port (take settle_rounds s.settling) t.shared
    during ← handle_events encode_byte seq_port s.arming g
    let armed = (arm lib t.session).1
    g' ← serve encode_byte seq_port decode s.rounds during
    finish s hx g'.g_stop (record t { session = armed; shared = g' })

  -- The two pipes, by whether the HID interface is claimed; the flag is `hx != NULL`.
  pub pipes_with : Bool → Answers → Thread lib E D Event → Bool × Thread lib E D Event
  pipes_with claims a t =
      let midi = record t.shared { midi_pending = a.takes_midi } in
      if claims
      then (
        true,
        record t {
          claimed = iface_hid ∷ iface_midi ∷ t.claimed;
          transfers = t.transfers + 2;
          shared = record midi { hid_pending = a.takes_hid };
        },
      )
      else (
        false,
        record t { claimed = iface_midi ∷ t.claimed; transfers = t.transfers + 1; shared = midi },
      )

  pub pipes : Answers → Thread lib E D Event → Bool × Thread lib E D Event
  unfolding pipes_with
  pipes a t = pipes_with a.claim_hid a t

  pub thread_claimed :
      Answers → Script Event → Bool → Thread lib E D Event → Option (Bool × Thread lib E D Event)
  unfolding run pipes
  thread_claimed a s false t = some (true, out t)
  thread_claimed a s true t = run s (pipes a t)

  pub thread_opened :
      Answers
      → Script Event
      → Thread lib E D Event
      → Bool × Session lib
      → Option (Bool × Thread lib E D Event)
  unfolding thread_claimed
  thread_opened a s t (false, session) = some (true, record t { session = exit lib session })
  thread_opened a s t (true, session) =
      thread_claimed a s a.claim_midi (record t { session = session })

  pub thread_ready :
      Answers
      → Script Event
      → Thread lib E D Event
      → Bool × Session lib
      → Option (Bool × Thread lib E D Event)
  unfolding thread_opened
  thread_ready a s t (false, session) = some (true, record t { session = session })
  thread_ready a s t (true, session) = thread_opened a s t (open_device lib session)

  -- `midi_thread`
  pub midi_thread :
      Answers → Script Event → Thread lib E D Event → Option (Bool × Thread lib E D Event)
  unfolding thread_ready
  midi_thread a s t = thread_ready a s t (init lib t.session)
