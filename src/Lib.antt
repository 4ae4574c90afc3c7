-- ===== src/Lib.antt =====
-- Pioneer DJM-T1 on Linux: the userspace audio engine, the MIDI bridge and the kernel ALSA driver.
--
-- The mixer has three interfaces that matter: isochronous audio (interface 0), USB-MIDI (2) and HID
-- (3). The audio engine (audio/djmt1_iso.c) keeps transfers of both isochronous endpoints in flight on
-- a thread of its own; its callbacks convert between the wire's 24-bit samples and floats, and pass
-- frames to and from the caller through two lock-free rings. The caller is a PipeWire node
-- (audio/djmt1-pipewire.c), whose two callbacks fill and drain the graph's buffers. The tool djm_arm
-- (arm/djm_arm.c) makes the vendor transfers behind which the mixer sends MIDI; djmt1-capture
-- (audio/djmt1-capture.c) measures a stream, djmt1-playback (audio/djmt1-playback.c) plays a tone. The
-- MIDI bridge (midi/djm_midi.c) keeps the audio and HID pipes alive, takes USB-MIDI packets apart into
-- the ALSA sequencer, and packs the sequencer's events for the mixer's lights. The kernel driver
-- (kernel/djmt1_audio.c) is the other way to the audio interface: its URB completions copy frames to
-- and from the ring of an ALSA PCM.
--
--   Base       shared names, lists over the native numbers, remainders, signed integers, C objects
--              (a store outside an object is a fault, `none`)
--   Usb        how a libusb transfer ended; Usb.Session has the calls of libusb that djm_arm makes, and
--              what they hold
--   Ring       `ring` of audio/djmt1_iso.c: ring_init is `init`, ring_avail `avail`, ring_space
--              `space`, ring_write `write`, ring_read `read`; Ring.Inv has its invariant, Ring.Queue
--              what it promises, Ring.Refine that it keeps the promise; Ring.Spsc has the two threads
--              as interleaved steps
--   Sample     s24_to_f and f_to_s24 of audio/djmt1_iso.c, and the integer code that they share with
--              s24le of audio/djmt1-capture.c; the loops that take packets of frames apart
--   Iso        in_cb, out_cb, djmt1_iso_read and djmt1_iso_write of audio/djmt1_iso.c; Iso.Life has
--              djmt1_iso_start (`start`), iso_thread and djmt1_iso_stop (`stop_request` before the join,
--              `stop_joined`, which frees all, behind it), and the life of an engine as steps
--   Pipewire   audio/djmt1-pipewire.c: on_source_process and on_sink_process; Pipewire.Wire joins
--              them with the callbacks of Iso
--   Arm        arm/djm_arm.c: `main`, `wr`, `rd`, and `arm`, which midi/djm_midi.c repeats; Arm.Outcome
--              has the ways in which the tool ends
--   Capture    audio/djmt1-capture.c: process_packet and `cb`, and the statistics that they keep
--   Playback   audio/djmt1-playback.c: fill_tone, `cb`, and the loops of main: `submit_loop`, `play` and,
--              behind the stop, `drain`
--   Midi       midi/djm_midi.c: Midi.Receive has emit_midi and midi_cb, Midi.Send send_to_device and
--              drain_seq_input, Midi.Hid hid_cb; Midi.Message has the messages both sides speak of
--              Midi.Globals has audio_cb and the event loops over all callbacks, on the file's
--              variables; Midi.Daemon has seq_setup and `main`
--   Full       midi/djm_full.c: its callbacks with emit_midi and cin_len, and midi_thread from end to
--              end on a list of what completes; Full.Same sets the callbacks against those of
--              djm_midi, Full.Threads has `main` and the MIDI thread as steps in any order
--   Kernel     kernel/djmt1_audio.c: djmt1_transfer is `transfer`, djmt1_in_complete `in_complete`,
--              djmt1_out_complete `out_complete`, djmt1_prepare `prepare`, djmt1_pointer `pointer`;
--              Kernel.Urbs has djmt1_alloc_urbs, djmt1_free_urbs and djmt1_trigger, Kernel.Probe
--              djmt1_probe and djmt1_disconnect
--
-- A function that updates an object returns the new object. Frames are copied whole, so a ring is over
-- any type of frames. Numbers are natural; 32-bit and 64-bit counters wrap by a remainder. Counted loops
-- recur on the rounds that are left, and loops over packets on their list. The only loop on fuel is that
-- of send_to_device, whose fuel is the number of bytes: each round takes one at least, and more fuel
-- changes nothing.
--
-- Parameters stand for what the repository does not hold: C's floats and doubles (`Sample.Floats`,
-- `Capture.Doubles`, `Playback.Math`), PipeWire's buffers, libusb's answers (`Usb.Session.LibUsb`),
-- calloc, ALSA's MIDI encoder and decoder, and the answers of ALSA, the allocators and the USB core to
-- the kernel driver. The atomics of the ring are taken at their default, sequentially
-- consistent; each of them is a step of its own, and so is each frame that is copied.
--
-- libusb_alloc_transfer and the buffers of transfers are taken to be allocated; the sources do not look
-- at them. Callbacks run in the rounds of an event loop and during the synchronous transfers of `arm`;
-- those during the transfer of send_to_device stand with the round that it belongs to. A loop over
-- rounds ends where its list does: that the code is still there is then the result.
--
-- Not modelled: the registration of the PipeWire node, the monitoring tool, the main functions of
-- djmt1-pipewire and djmt1-capture, the opening of the device by djmt1-playback, and printing. The
-- process callbacks of djm_full are those of djmt1-pipewire, its send_to_device, drain_seq_input and
-- arm those of djm_midi but for the handle's name, and they are not modelled a second time. The
-- kernel's interrupts are taken one completion at a time.
pub mod Base
pub mod Usb
pub mod Ring
pub mod Midi
pub mod Sample
pub mod Iso
pub mod Kernel
pub mod Pipewire
pub mod Playback
pub mod Arm
pub mod Capture
pub mod Full
