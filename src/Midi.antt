-- ===== src/Midi.antt =====
-- midi/djm_midi.c: the MIDI bridge between the mixer's USB-MIDI pipes and the ALSA sequencer.
pub mod Message
pub mod Send
pub mod Receive
pub mod RoundTrip
pub mod Hid
pub mod Globals
pub mod Daemon
mod Tests
