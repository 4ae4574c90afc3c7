-- ===== src/Midi/Message.antt =====
-- MIDI messages as the bridge tells them apart, and the USB-MIDI packet of each.
use djm_t1_linux.Base.{ℕ, ◌/◌, ◌≤◌, ◌<◌, List, [], ◌∷◌, ◌++◌, ◌≢◌}

-- A channel message with two data bytes, one with one, and a message of its status byte alone.
pub data Message : Type 0 where
  long : ℕ → ℕ → ℕ → Message
  short : ℕ → ℕ → Message
  single : ℕ → Message

-- The high nibbles of the three kinds.
abbrev pub IsLong : ℕ → Type 0
IsLong hi = (8 ≤ hi) × (hi ≤ 14) × (hi ≢ 12) × (hi ≢ 13)

abbrev pub IsShort : ℕ → Type 0
IsShort hi = (12 ≤ hi) × (hi ≤ 13)

abbrev pub IsMessage : Message → Type 0
IsMessage (long s a b) = IsLong (s / 16)
IsMessage (short s a) = IsShort (s / 16)
IsMessage (single s) = (240 ≤ s) × (s < 256)

abbrev pub bytes_of : Message → List ℕ
bytes_of (long s a b) = s ∷ a ∷ b ∷ []
bytes_of (short s a) = s ∷ a ∷ []
bytes_of (single s) = s ∷ []

-- The messages on the wire, one after the other.
abbrev pub bytes : List Message → List ℕ
bytes [] = []
bytes (m ∷ ms) = bytes_of m ++ bytes ms

-- Cable 0: the first byte of a packet is its code index number.
abbrev pub packet_of : Message → List ℕ
packet_of (long s a b) = (s / 16) ∷ s ∷ a ∷ b ∷ []
packet_of (short s a) = (s / 16) ∷ s ∷ a ∷ 0 ∷ []
packet_of (single s) = 15 ∷ s ∷ 0 ∷ 0 ∷ []

abbrev pub packets : List Message → List ℕ
packets [] = []
packets (m ∷ ms) = packet_of m ++ packets ms
