-- ===== src/Midi/Daemon/Quiet.antt =====
-- What the teardown waits for.
use djm_t1_linux.Base.{
  ℕ, ◌-◌, ◌≡◌, refl, ◌∙◌, ◌&&◌, not, Bool, false, Option, some, List, take, All, All-take,
}
use djm_t1_linux.Usb.Session.{LibUsb}
use djm_t1_linux.Midi.Globals.Effects.{IsWhole, flatten, wind_down-Handles}
use djm_t1_linux.Midi.Globals.Quiet.{midi_comes, hid_comes, audio_comes, all_taken-eq}
use djm_t1_linux.Midi.Daemon.{Daemon, Script, wind_down_rounds, give_back, teardown}

module _ (lib : LibUsb) {E D Event : Type 0} (encode_byte : E → ℕ → E × Option Event) (seq_port : ℕ)
    (decode : D → Event → D × List ℕ) where
  -- With completions whose data lie in their buffers the teardown does not fault, and submits no
  -- transfer again: behind it a transfer is pending exactly if it was before, and its callback is not
  -- among those of the five rounds.
  pub teardown-quiet :
      (s : Script Event) (streamed hx : Bool) (d : Daemon lib E D Event)
      → All (All IsWhole) s.stopping
      → let cs = flatten (take wind_down_rounds s.stopping) in
        let p = d.globals.pending in
        (d' : Daemon lib E D Event) × (teardown lib encode_byte seq_port decode s streamed hx d
          ≡ some d')
        × (d'.globals.pending ≡ record {
          midi = p.midi && not (midi_comes cs);
          hid = p.hid && not (hid_comes cs);
          audio = p.audio - audio_comes cs;
        })
  unfolding teardown give_back
  teardown-quiet s streamed hx d whole =
      let (g, runs, h) =
        wind_down-Handles encode_byte seq_port (take wind_down_rounds s.stopping)
          (record d.globals { running = false; audio_on = false; hid_on = false })
          (All-take (All IsWhole) wind_down_rounds s.stopping whole) in
      (
        give_back lib encode_byte seq_port decode streamed hx (record d { globals = g }),
        rw runs refl,
        h.quiet refl ∙ all_taken-eq (flatten (take wind_down_rounds s.stopping)) d.globals.pending,
      )
