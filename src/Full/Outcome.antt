-- ===== src/Full/Outcome.antt =====
-- The whole MIDI thread, by what libusb answers to it.
use djm_t1_linux.Base.{
  if◌then◌else◌, ℕ, ◌≡◌, refl, ap, ◌⊎◌, ◌&&◌, ◌||◌, inl, inr, Bool, true, false, Option, List, [],
  ◌∷◌, arith,
}
use djm_t1_linux.Usb.Session.{LibUsb, Session, initialized, opened}
use djm_t1_linux.Midi.Daemon.{iface_midi, iface_hid}
use djm_t1_linux.Full.{
  Shared, Script, Answers, Thread, out, run, pipes, pipes_with, thread_claimed, thread_opened,
  thread_ready, midi_thread,
}
use djm_t1_linux.Full.Ends.{Whole, stops_in, IsFresh, Failed, Ran, run-Ran}

module _ (lib : LibUsb) {E D Event : Type 0} (encode_byte : E → ℕ → E × Option Event) (seq_port : ℕ)
    (decode : D → Event → D × List ℕ) where
  -- The thread with the device open.
  record Open (t : Thread lib E D Event) : Type 0 where
    claimed : t.claimed ≡ []
    contexts : t.session.contexts ≡ 1
    handles : t.session.handles ≡ 1
    controls : t.session.controls ≡ []
    transfers : t.transfers ≡ 0

  pipes-Ran :
      (a : Answers) (s : Script Event) (claims : Bool) (t : Thread lib E D Event)
      → Whole s
      → Open t
      → Ran (stops_in s || t.shared.g_stop) (if claims then 2 else 1) (
          run lib encode_byte seq_port decode s
            (pipes_with lib encode_byte seq_port decode claims a t))
  unfolding pipes_with
  pipes-Ran a s true t whole v =
      run-Ran lib encode_byte seq_port decode s true 2 _ whole
        (record {
          claimed = ap (λ l. iface_hid ∷ iface_midi ∷ l) v.claimed;
          contexts = v.contexts;
          handles = v.handles;
        })
        v.controls (omega (arith, v.transfers))
  pipes-Ran a s false t whole v =
      run-Ran lib encode_byte seq_port decode s false 1 _ whole
        (record {
          claimed = ap (λ l. iface_midi ∷ l) v.claimed;
          contexts = v.contexts;
          handles = v.handles;
        })
        v.controls (omega (arith, v.transfers))

  -- Everything that the thread needs before it starts its pipes: libusb, the device and its MIDI
  -- interface.
  abbrev pub ready : Answers → Thread lib E D Event → Bool
  ready a t =
      (lib.init t.session.world).0
      && ((lib.open_device (lib.init t.session.world).1).0 && a.claim_midi)

  -- `set_up` is that it has all of this.
  abbrev pub Outcome :
      Answers
      → Script Event
      → Bool
      → Shared E D Event
      → Option (Bool × Thread lib E D Event)
      → Type 0
  Outcome a s set_up g r =
      ((set_up ≡ true) × Ran (stops_in s || g.g_stop) (if a.claim_hid then 2 else 1) r)
      ⊎ ((set_up ≡ false) × Failed g r)

  thread_claimed-Outcome :
      (a : Answers) (s : Script Event) (claims : Bool) (t : Thread lib E D Event)
      → Whole s
      → Open t
      → Outcome a s claims t.shared (thread_claimed lib encode_byte seq_port decode a s claims t)
  unfolding thread_claimed pipes
  thread_claimed-Outcome a s false t whole v = inr (
    refl,
    record {
      t' = out lib encode_byte seq_port decode t;
      returns = refl;
      released = record {
        claimed = v.claimed;
        contexts = omega (arith, v.contexts);
        handles = omega (arith, v.handles);
      };
      controls = v.controls;
      transfers = v.transfers;
      shared = refl;
    },
  )
  thread_claimed-Outcome a s true t whole v = inl (refl, pipes-Ran a s a.claim_hid t whole v)

  thread_opened-Outcome :
      (a : Answers) (s : Script Event) (answer : Bool × lib.World) (session : Session lib)
      (t : Thread lib E D Event)
      → Whole s
      → Open (record t { session = record session { handles = 1 } })
      → session.handles ≡ 0
      → Outcome a s
          (answer.0 && a.claim_midi)
          t.shared
          (thread_opened lib encode_byte seq_port decode a s t (opened lib answer session))
  unfolding thread_opened
  thread_opened-Outcome a s (false, w) session t whole v none = inr (
    refl,
    record {
      t' = _;
      returns = refl;
      released = record {
        claimed = v.claimed;
        contexts = omega (arith, v.contexts);
        handles = none;
      };
      controls = v.controls;
      transfers = v.transfers;
      shared = refl;
    },
  )
  thread_opened-Outcome a s (true, w) session t whole v none =
      thread_claimed-Outcome a s a.claim_midi _ whole (record {
        claimed = v.claimed;
        contexts = v.contexts;
        handles = omega (arith, none);
        controls = v.controls;
        transfers = v.transfers;
      })

  thread_ready-Outcome :
      (a : Answers) (s : Script Event) (answer : Bool × lib.World) (t : Thread lib E D Event)
      → Whole s
      → IsFresh t
      → Outcome a s
          (answer.0 && ((lib.open_device answer.1).0 && a.claim_midi))
          t.shared
          (thread_ready lib encode_byte seq_port decode a s t (initialized lib answer t.session))
  unfolding thread_ready
  thread_ready-Outcome a s (false, w) t whole v = inr (
    refl,
    record {
      t' = _;
      returns = refl;
      released = record { claimed = v.claimed; contexts = v.contexts; handles = v.handles };
      controls = v.controls;
      transfers = v.transfers;
      shared = refl;
    },
  )
  thread_ready-Outcome a s (true, w) t whole v =
      thread_opened-Outcome a s (lib.open_device w) _ t whole
        (record {
          claimed = v.claimed;
          contexts = omega (arith, v.contexts);
          handles = refl;
          controls = v.controls;
          transfers = v.transfers;
        })
        v.handles

  -- The MIDI thread, with completions whose data lie in their buffers, starting with nothing held,
  -- faults nowhere. If libusb starts, the device opens and its MIDI interface is claimed, it makes the
  -- eight transfers of `arm`, and it ends exactly if `g_stop` was set before it waits for its pipes,
  -- or a completion of its first ten rounds, of those during `arm` or of those in its loop finds the
  -- device gone, or another thread sets `g_stop` there. It has then given back its interfaces, its
  -- handle and its context, but none of the transfers that it allocated, two with the HID interface
  -- and one without. Otherwise it ends at once, with nothing held, no transfer allocated or made, and
  -- the shared variables as they were: no other thread hears of it.
  pub midi_thread-Outcome :
      (a : Answers) (s : Script Event) (t : Thread lib E D Event)
      → Whole s
      → IsFresh t
      → Outcome a s (ready a t) t.shared (midi_thread lib encode_byte seq_port decode a s t)
  unfolding midi_thread
  midi_thread-Outcome a s t whole v = thread_ready-Outcome a s (lib.init t.session.world) t whole v
