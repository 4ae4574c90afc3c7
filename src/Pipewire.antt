-- ===== src/Pipewire.antt =====
-- audio/djmt1-pipewire.c: the `process` callbacks of the source and the sink, between PipeWire's
-- buffers and the engine's two rings.
pub mod Source
pub mod Sink
pub mod Wire
mod Tests
use djm_t1_linux.Base.{
  ℕ, ◌+◌, ◌-◌, ◌*◌, ◌/◌, ◌%◌, ◌^◌, ◌==◌, Bool, true, false, Option, none, some, List, ◌++◌, ltb,
  if◌then◌else◌, ◌>>=◌, length, replicate, store_all,
}
use djm_t1_linux.Sample.{Floats}
use djm_t1_linux.Iso.{Engine, silence, iso_read, iso_write}

-- `FRAME`: six floats of four bytes.
abbrev pub frame_bytes : ℕ
frame_bytes = 24

-- `want` before it is compared. `(int)b->requested` is negative from 2^31 on; `ring_read` would
-- then set its index back, which counts as a fault.
pub wanted : ℕ → ℕ → Option ℕ
wanted requested maxframes =
    if requested == 0
    then some maxframes
    else if ltb (requested % 2 ^ 32) (2 ^ 31)
    then some (requested % 2 ^ 32)
    else none

module _ (fl : Floats) where
  open fl use {Float}

  -- What the callbacks use of a `pw_buffer` and of its first `spa_data` and `spa_chunk`: the object
  -- at `data` in whole frames, or none for a null pointer. They are PipeWire's.
  pub record Buffer : Type 0 where
    pub frames : Option (List (List Float))
    pub maxsize : ℕ
    pub requested : ℕ
    pub offset : ℕ
    pub stride : ℕ
    pub size : ℕ

  pub fill_source : Buffer → List (List Float) → Engine fl → Option (Buffer × Engine fl)
  unfolding iso_read wanted
  fill_source b dst e = do
    let maxframes = b.maxsize / frame_bytes
    asked ← wanted b.requested maxframes
    let want = if ltb maxframes asked then maxframes else asked
    (out, e') ← iso_read fl e want
    dst' ← store_all (out ++ replicate (want - length out) (silence fl)) dst
    some (
      record b {
        frames = some dst';
        offset = 0;
        stride = frame_bytes;
        size = want * frame_bytes % 2 ^ 32;
      },
      e',
    )

  pub fill_data : Buffer → Option (List (List Float)) → Engine fl → Option (Buffer × Engine fl)
  unfolding fill_source
  fill_data b none e = some (b, e)
  fill_data b (some dst) e = fill_source b dst e

  -- The argument is what `pw_stream_dequeue_buffer` gives; the result's first part is the buffer
  -- that is queued again.
  pub on_source_process : Option Buffer → Engine fl → Option (Option Buffer × Engine fl)
  unfolding fill_data
  on_source_process none e = some (none, e)
  on_source_process (some b) e = do (b', e') ← fill_data b b.frames e; some (some b', e')

  pub drain_data : Buffer → Option (List (List Float)) → Engine fl → Option (Engine fl)
  unfolding iso_write
  drain_data b none e = some e
  drain_data b (some src) e =
      if b.size == 0
      then some e
      else do (wrote, e') ← iso_write fl e src (b.size / frame_bytes); some e'

  pub on_sink_process : Option Buffer → Engine fl → Option (Option Buffer × Engine fl)
  unfolding drain_data
  on_sink_process none e = some (none, e)
  on_sink_process (some b) e = do e' ← drain_data b b.frames e; some (some b, e')
