-- ===== src/Usb.antt =====
-- What the daemons and tools see of libusb: how a transfer ended.
pub mod Session
use djm_t1_linux.Base.{Bool, true, false, ◌&&◌, not}

-- `enum libusb_transfer_status`, of libusb.
pub data TransferStatus : Type 0 where
  completed error timed_out cancelled stall no_device overflow : TransferStatus

abbrev pub is_completed : TransferStatus → Bool
is_completed TransferStatus.completed = true
is_completed _ = false

abbrev pub is_cancelled : TransferStatus → Bool
is_cancelled TransferStatus.cancelled = true
is_cancelled _ = false

abbrev pub is_no_device : TransferStatus → Bool
is_no_device TransferStatus.no_device = true
is_no_device _ = false

-- A transfer that neither completed nor was cancelled.
abbrev pub is_failure : TransferStatus → Bool
is_failure s = not (is_completed s) && not (is_cancelled s)
