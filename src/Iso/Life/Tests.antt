-- ===== src/Iso/Life/Tests.antt =====
-- An engine with rings of two frames whose twelve transfers are all taken.
use djm_t1_linux.Base.{◌*◌, ◌≤◌, ◌≡◌, refl, true, false, none, some, List, [], replicate, arith}
use djm_t1_linux.Base.Int.{ℤ, pos}
use djm_t1_linux.Ring
use djm_t1_linux.Sample.Fixed.{fixed}
use djm_t1_linux.Iso.{iso_write}
use djm_t1_linux.Iso.Life.{
  Life, Answers, Held, Steps, Slot, in_flight, nxfr, start, start_with, submit_loop, submit_one,
  fresh, stop_request, stop_joined,
}
use djm_t1_linux.Iso.Life.Start.{start_lem, Started, Running}
use djm_t1_linux.Iso.Life.Stop.{NoFault, Freed, start-NoFault, stop-in_flight}
use djm_t1_linux.Iso.Life.Null.{start-null}

abbrev block : List (List ℤ)
block = replicate 3 (replicate 6 (pos 0))

abbrev all_well : Answers fixed
all_well = record {
  calloc = true;
  init = true;
  open_device = true;
  claim = true;
  set_alt = true;
  cap_block = some block;
  play_block = some block;
  submits_in = λ i. true;
  submits_out = λ i. true;
  thread = true;
}

abbrev nothing : Held
nothing = record { engines = 0; contexts = 0; handles = 0 }

abbrev ring : Ring.Ring (List ℤ)
ring = record { buf = block; cap = 3; w = 0; r = 0 }

abbrev streaming : Life fixed
streaming = record {
  engine = record {
    running = true;
    inflight = 12;
    cap_ring = ring;
    play_ring = ring;
    cap_over = 0;
    play_under = 0;
    xfer_err = 0;
  };
  slots = replicate 12 Slot.active;
  transfers = 12;
  buffers = 12;
  blocks = 2;
  claimed = true;
  alt = 1;
  thread = true;
  freed = false;
}

started : (start fixed all_well 2 nothing).0 ≡ some streaming
unfolding start start_with submit_loop submit_one fresh Ring.init Ring.init_with
started = refl

start-NoFault_example : NoFault fixed streaming × (12 ≡ in_flight streaming.slots) × (12 ≤ 2 * nxfr)
start-NoFault_example =
    start-NoFault fixed all_well 2 nothing block block streaming streaming refl refl refl refl
      started Steps.done refl

-- A stop at once frees twelve transfers that libusb still has.
stop-in_flight_example :
    let r = stop_joined fixed (stop_request fixed streaming) (start fixed all_well 2 nothing).1 in
    Steps fixed streaming r.0.1 × (r.0.0 ≡ 12) × Freed fixed streaming r.0.1 × (r.1 ≡ nothing)
stop-in_flight_example =
    stop-in_flight fixed all_well 2 nothing block block streaming streaming refl refl refl refl refl
      started Steps.done refl

start_lem_example :
    (s : Life fixed) × Started fixed true s nothing (start fixed all_well 2 nothing)
    × Running fixed all_well s
start_lem_example = start_lem fixed all_well 2 nothing block block refl refl refl refl

-- The same start where the second `calloc` fails.
abbrev no_play_block : Answers fixed
no_play_block = record all_well { play_block = none }

abbrev half_allocated : Life fixed
half_allocated = record streaming {
  blocks = 1;
  engine = record streaming.engine { play_ring = record { buf = []; cap = 3; w = 0; r = 0 } };
}

half_started : (start fixed no_play_block 2 nothing).0 ≡ some half_allocated
unfolding start start_with submit_loop submit_one fresh Ring.init Ring.init_with
half_started = refl

start-null_example : iso_write fixed half_allocated.engine block 1 ≡ none
start-null_example =
    start-null fixed no_play_block 2 nothing half_allocated block 1 refl half_started (omega arith)
      (omega arith) (omega arith)
