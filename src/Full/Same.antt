-- ===== src/Full/Same.antt =====
-- The MIDI thread's callbacks and rounds against those of midi/djm_midi.c.
use djm_t1_linux.Base.{
  ℕ, zero, suc, ◌+◌, ◌*◌, ◌/◌, ◌%◌, ◌^◌, ◌==◌, ◌≤◌, ◌≡◌, refl, sym, ap, ◌∙◌, ◌&&◌, not, Bool, true,
  false, Option, none, some, List, [], ◌∷◌, ◌>>=◌, length, All, map, arith, get_or, take,
  if◌then◌else◌,
}
use djm_t1_linux.Usb.{TransferStatus}
use djm_t1_linux.Midi.Receive
use djm_t1_linux.Midi.Receive.{Bridge, Transfer, packet_loop, midi_cb_status, midi_cb}
use djm_t1_linux.Midi.Receive.Total.{SameFlags, handle_packet-SameFlags}
use djm_t1_linux.Midi.Hid.{hid_cb, hid_cb_status}
use djm_t1_linux.Midi.Globals
use djm_t1_linux.Midi.Globals.{Globals}
use djm_t1_linux.Full
use djm_t1_linux.Full.{Completion, Shared, parse_packets}

-- The variables of djm_midi with both pipes on, audio off and no probe; its `do_quit` is `g_stop`.
abbrev pub as_globals : {E D Event : Type 0} → Shared E D Event → Globals E D Event
as_globals g = record {
  running = true;
  do_quit = g.g_stop;
  audio_on = false;
  hid_on = true;
  encoder = g.encoder;
  output = g.output;
  midi_msgs = g.midi_msgs;
  decoder = g.decoder;
  waiting = g.waiting;
  to_mixer = g.to_mixer;
  hid_probe = false;
  have_last_hid = false;
  last_hid = [];
  printed = [];
  pending = record { midi = g.midi_pending; hid = g.hid_pending; audio = 0 };
}

-- The same completion there; the thread does not look at its reports.
abbrev pub as_completion : Completion → Globals.Completion
as_completion (Completion.midi t takes) = Globals.Completion.midi t takes
as_completion (Completion.hid status takes) =
    Globals.Completion.hid (record { status = status; actual_length = 0; buffer = [] }) takes
as_completion Completion.stop = Globals.Completion.signal

abbrev pub IsWhole : Completion → Type 0
IsWhole (Completion.midi t takes) = t.actual_length ≤ length t.buffer
IsWhole (Completion.hid status takes) = Unit
IsWhole Completion.stop = Unit

module _ {E D Event : Type 0} (encode_byte : E → ℕ → E × Option Event) (seq_port : ℕ) where
  -- Both end, and the variables correspond again.
  pub record Same (r : Option (Shared E D Event)) (r' : Option (Globals E D Event)) : Type 0 where
    pub g' : Shared E D Event
    pub returns : r ≡ some g'
    pub returns_there : r' ≡ some (as_globals g')

  -- The variables of `emit_midi` and of the loop there.
  abbrev view : Shared E D Event → Bridge E Event
  view g = Globals.bridge (as_globals g)

  -- The variables here, with those of the loop as they are there.
  abbrev with_view : Shared E D Event → Bridge E Event → Shared E D Event
  with_view g b = record g { encoder = b.encoder; output = b.output; midi_msgs = b.midi_msgs }

  output_direct-eq :
      (ev : Option Event) (g : Shared E D Event)
      → Full.output_direct encode_byte seq_port ev g
        ≡ record g { output = Receive.output_direct encode_byte seq_port ev g.output }
  unfolding Full.output_direct Receive.output_direct
  output_direct-eq none g = refl
  output_direct-eq (some ev) g = refl

  emit_midi-eq :
      (ms : List ℕ) (g : Shared E D Event)
      → Full.emit_midi encode_byte seq_port ms g
        ≡ with_view g (Receive.emit_midi encode_byte seq_port ms (view g))
  unfolding Full.emit_midi Receive.emit_midi
  emit_midi-eq [] g = refl
  emit_midi-eq (m ∷ ms) g =
      let (e, ev) = encode_byte g.encoder m in
      ap (Full.emit_midi encode_byte seq_port ms) (output_direct-eq ev (record g { encoder = e }))
      ∙ emit_midi-eq ms (record g {
        encoder = e;
        output = Receive.output_direct encode_byte seq_port ev g.output;
      })

  if-eq :
      (c : Bool) (g x y : Shared E D Event) (b b' : Bridge E Event)
      → x ≡ with_view g b
      → y ≡ with_view g b'
      → (if c then x else y) ≡ with_view g (if c then b else b')
  if-eq true g x y b b' e e' = e
  if-eq false g x y b b' e e' = e'

  handle_packet-eq :
      (p0 p1 p2 p3 : ℕ) (g : Shared E D Event)
      → Full.handle_packet encode_byte seq_port p0 p1 p2 p3 g
        ≡ with_view g (Receive.handle_packet encode_byte seq_port p0 p1 p2 p3 (view g))
  unfolding Full.handle_packet Receive.handle_packet Full.cin_len
  handle_packet-eq p0 p1 p2 p3 g =
      let n = get_or Full.cin_len (p0 % 16) 0 in
      if-eq (p0 == 0 && p1 == 0 && p2 == 0 && p3 == 0) g g _ (view g) _ refl (
        if-eq (n == 0) g g _ (view g) _ refl (
          emit_midi-eq (take n (p1 ∷ p2 ∷ p3 ∷ []))
            (record g { midi_msgs = (g.midi_msgs + 1) % 2 ^ 64 })))

  view-with_view :
      (g : Shared E D Event) (b : Bridge E Event)
      → SameFlags encode_byte seq_port (view g) b
      → view (with_view g b) ≡ b
  view-with_view g b same =
      ap (λ r. record (view (with_view g b)) { running = r }) (sym same.running)
      ∙ ap (λ q. record (view (with_view g b)) { running = b.running; do_quit = q })
          (sym same.do_quit)

  -- Both loops over packets, each on its own variables.
  parse_packets-eq :
      (left : ℕ) (p : List ℕ) (g : Shared E D Event)
      → 4 * left ≤ length p
      → (b : Bridge E Event) × (packet_loop encode_byte seq_port left p (view g) ≡ some b)
        × (Full.parse_packets encode_byte seq_port left p g ≡ some (with_view g b))
        × SameFlags encode_byte seq_port (view g) b
  unfolding Full.parse_packets packet_loop
  parse_packets-eq zero p g h = (view g, refl, refl, record { running = refl; do_quit = refl })
  parse_packets-eq (suc left) [] g h = absurd (omega arith)
  parse_packets-eq (suc left) (p0 ∷ []) g h = absurd (omega arith)
  parse_packets-eq (suc left) (p0 ∷ p1 ∷ []) g h = absurd (omega arith)
  parse_packets-eq (suc left) (p0 ∷ p1 ∷ p2 ∷ []) g h = absurd (omega arith)
  parse_packets-eq (suc left) (p0 ∷ p1 ∷ p2 ∷ p3 ∷ p) g h =
      let b1 = Receive.handle_packet encode_byte seq_port p0 p1 p2 p3 (view g) in
      let now = handle_packet-SameFlags encode_byte seq_port p0 p1 p2 p3 (view g) in
      let (b, there, here, later) = parse_packets-eq left p (with_view g b1) (omega arith) in
      (
        b,
        ap (packet_loop encode_byte seq_port left p) (sym (view-with_view g b1 now)) ∙ there,
        ap (Full.parse_packets encode_byte seq_port left p) (handle_packet-eq p0 p1 p2 p3 g) ∙ here,
        record { running = later.running; do_quit = later.do_quit },
      )

  midi_cb-Same :
      (s : TransferStatus) (t : Transfer) (takes : Bool) (g : Shared E D Event)
      → t.actual_length ≤ length t.buffer
      → Same
          (do
            (g', again) ← Full.midi_cb_status encode_byte seq_port s t g
            some (record g' { midi_pending = again && takes }))
          (do
            (b, again) ← midi_cb_status encode_byte seq_port s t (Globals.bridge (as_globals g))
            some (record (Globals.with_bridge (as_globals g) b) {
              pending = record (as_globals g).pending { midi = again && takes };
            }))
  unfolding Full.midi_cb_status midi_cb_status Receive.resubmit
  midi_cb-Same TransferStatus.completed t takes g whole =
      let (b, there, here, same) =
        parse_packets-eq (t.actual_length / 4) t.buffer g (omega arith) in
      record {
        g' = record g {
          encoder = b.encoder;
          output = b.output;
          midi_msgs = b.midi_msgs;
          midi_pending = not g.g_stop && takes;
        };
        returns = rw here refl;
        returns_there = rw (there, same.running, same.do_quit) refl;
      }
  midi_cb-Same TransferStatus.no_device t takes g whole = record {
    g' = record g { g_stop = true; midi_pending = false };
    returns = refl;
    returns_there = refl;
  }
  midi_cb-Same TransferStatus.error t takes g whole = record {
    g' = _;
    returns = refl;
    returns_there = refl;
  }
  midi_cb-Same TransferStatus.timed_out t takes g whole = record {
    g' = _;
    returns = refl;
    returns_there = refl;
  }
  midi_cb-Same TransferStatus.cancelled t takes g whole = record {
    g' = _;
    returns = refl;
    returns_there = refl;
  }
  midi_cb-Same TransferStatus.stall t takes g whole = record {
    g' = _;
    returns = refl;
    returns_there = refl;
  }
  midi_cb-Same TransferStatus.overflow t takes g whole = record {
    g' = _;
    returns = refl;
    returns_there = refl;
  }

  hid_cb-Same :
      (s : TransferStatus) (takes : Bool) (g : Shared E D Event)
      → Same (some (Full.hid_after takes (Full.hid_cb s g))) (do
        (p, again) ←
            hid_cb_status s
              (record { status = s; actual_length = 0; buffer = [] })
              (Globals.probe (as_globals g))
        some (record (Globals.with_probe (as_globals g) p) {
          pending = record (as_globals g).pending { hid = again && takes };
        }))
  unfolding Full.hid_cb Full.hid_cb_gone hid_cb_status
  hid_cb-Same TransferStatus.no_device takes g = record {
    g' = _;
    returns = refl;
    returns_there = refl;
  }
  hid_cb-Same TransferStatus.completed takes g = record {
    g' = _;
    returns = refl;
    returns_there = refl;
  }
  hid_cb-Same TransferStatus.error takes g = record { g' = _; returns = refl; returns_there = refl }
  hid_cb-Same TransferStatus.timed_out takes g = record {
    g' = _;
    returns = refl;
    returns_there = refl;
  }
  hid_cb-Same TransferStatus.cancelled takes g = record {
    g' = _;
    returns = refl;
    returns_there = refl;
  }
  hid_cb-Same TransferStatus.stall takes g = record { g' = _; returns = refl; returns_there = refl }
  hid_cb-Same TransferStatus.overflow takes g = record {
    g' = _;
    returns = refl;
    returns_there = refl;
  }

  callback-Same :
      (c : Completion) (g : Shared E D Event)
      → IsWhole c
      → Same
          (Full.callback encode_byte seq_port c g)
          (Globals.callback encode_byte seq_port (as_completion c) (as_globals g))
  unfolding Full.callback Full.midi_cb Globals.callback midi_cb hid_cb
  callback-Same (Completion.midi t takes) g whole = midi_cb-Same t.status t takes g whole
  callback-Same (Completion.hid status takes) g whole = hid_cb-Same status takes g
  callback-Same Completion.stop g whole = record {
    g' = record g { g_stop = true };
    returns = refl;
    returns_there = refl;
  }

  -- Whatever completes in a call of libusb's event loop, with its data in its buffer, the MIDI thread
  -- of djm_full does not fault, and does to its variables what djm_midi does to its own with both
  -- pipes on, audio off and no probe: the same events for the sequencer, the same count, the same
  -- transfers submitted again, and `g_stop` where that sets `do_quit`.
  pub handle_events-Same :
      (cs : List Completion) (g : Shared E D Event)
      → All IsWhole cs
      → Same
          (Full.handle_events encode_byte seq_port cs g)
          (Globals.handle_events encode_byte seq_port (map as_completion cs) (as_globals g))
  unfolding Full.handle_events Globals.handle_events
  handle_events-Same [] g whole = record { g' = g; returns = refl; returns_there = refl }
  handle_events-Same (c ∷ cs) g (this, others) =
      let h = callback-Same c g this in
      let k = handle_events-Same cs h.g' others in
      record {
        g' = k.g';
        returns = rw h.returns k.returns;
        returns_there = rw h.returns_there k.returns_there;
      }

  unless_quit-Same :
      (q : Bool) (g : Shared E D Event) (r : Option (Shared E D Event))
      (r' : Option (Globals E D Event))
      → Same r r'
      → Same (Globals.unless_quit q g r) (Globals.unless_quit q (as_globals g) r')
  unless_quit-Same true g r r' h = record { g' = g; returns = refl; returns_there = refl }
  unless_quit-Same false g r r' h = h

  pub settle-Same :
      (rounds : List (List Completion)) (g : Shared E D Event)
      → All (All IsWhole) rounds
      → Same
          (Full.settle encode_byte seq_port rounds g)
          (Globals.settle encode_byte seq_port (map (map as_completion) rounds) (as_globals g))
  unfolding Full.settle Globals.settle
  settle-Same [] g whole = record { g' = g; returns = refl; returns_there = refl }
  settle-Same (cs ∷ rounds) g (this, others) =
      let h = handle_events-Same cs g this in
      let k = settle-Same rounds h.g' others in
      unless_quit-Same g.g_stop g _ _ (record {
        g' = k.g';
        returns = rw h.returns k.returns;
        returns_there = rw h.returns_there k.returns_there;
      })

  pub wind_down-Same :
      (rounds : List (List Completion)) (g : Shared E D Event)
      → All (All IsWhole) rounds
      → Same
          (Full.wind_down encode_byte seq_port rounds g)
          (Globals.wind_down encode_byte seq_port (map (map as_completion) rounds) (as_globals g))
  unfolding Full.wind_down Globals.wind_down
  wind_down-Same [] g whole = record { g' = g; returns = refl; returns_there = refl }
  wind_down-Same (cs ∷ rounds) g (this, others) =
      let h = handle_events-Same cs g this in
      let k = wind_down-Same rounds h.g' others in
      record {
        g' = k.g';
        returns = rw h.returns k.returns;
        returns_there = rw h.returns_there k.returns_there;
      }

-- The rounds of the thread's loop, as rounds of djm_midi's.
abbrev pub as_rounds :
    {Event : Type 0} → List (List Completion × List (Option Event)) → List (Globals.Round Event)
as_rounds [] = []
as_rounds ((cs, events) ∷ rounds) =
    record { completions = map as_completion cs; events = events } ∷ as_rounds rounds

abbrev pub WholeRounds : {Event : Type 0} → List (List Completion × List (Option Event)) → Type 0
WholeRounds [] = Unit
WholeRounds ((cs, events) ∷ rounds) = All IsWhole cs × WholeRounds rounds

module _ {E D Event : Type 0} (encode_byte : E → ℕ → E × Option Event) (seq_port : ℕ)
    (decode : D → Event → D × List ℕ) where
  pub serve-Same :
      (rounds : List (List Completion × List (Option Event))) (g : Shared E D Event)
      → WholeRounds rounds
      → Same encode_byte seq_port
          (Full.serve encode_byte seq_port decode rounds g)
          (Globals.main_loop encode_byte seq_port decode (as_rounds rounds) (as_globals g))
  unfolding Full.serve Full.drain Globals.main_loop Globals.drain
  serve-Same [] g whole = record { g' = g; returns = refl; returns_there = refl }
  serve-Same ((cs, events) ∷ rounds) g (this, others) =
      let h = handle_events-Same encode_byte seq_port cs g this in
      let k = serve-Same rounds (Full.drain encode_byte seq_port decode events h.g') others in
      unless_quit-Same encode_byte seq_port g.g_stop g _ _ (record {
        g' = k.g';
        returns = rw h.returns k.returns;
        returns_there = rw h.returns_there k.returns_there;
      })
