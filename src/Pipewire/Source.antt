-- ===== src/Pipewire/Source.antt =====
-- `on_source_process` against the queue of captured frames.
use djm_t1_linux.Base.{
  ℕ, ◌-◌, ◌*◌, ◌/◌, ◌^◌, ◌≤◌, ◌<◌, ◌≡◌, refl, sym, ap, ◌==◌, min, some, List, ◌++◌, arith, ltb,
  if◌then◌else◌, length, take, drop, replicate, store_all_fits, length-append, length-take,
  length-replicate, ne→not-==, lt→ltb, eq_cases, inl, inr,
}
use native.Mathlib.Nat.{mod-eq_of_lt}
use djm_t1_linux.Ring.{Ring, read}
use djm_t1_linux.Ring.Inv.{IsValid}
use djm_t1_linux.Ring.Window.{contents}
use djm_t1_linux.Ring.Queue
use djm_t1_linux.Ring.Refine.{read_refines}
use djm_t1_linux.Sample.{Floats}
use djm_t1_linux.Iso.{Engine, iso_read, silence}
use djm_t1_linux.Iso.Playback.{sent_frames}
use djm_t1_linux.Pipewire.{Buffer, frame_bytes, wanted, fill_source, fill_data, on_source_process}

-- As many frames as the graph asks for and the buffer holds.
abbrev pub source_frames : ℕ → ℕ → ℕ
source_frames requested maxframes = if requested == 0 then maxframes else min requested maxframes

record Asked (requested maxframes : ℕ) : Type 0 where
  asked : ℕ
  given : wanted requested maxframes ≡ some asked
  clipped : (if ltb maxframes asked then maxframes else asked) ≡ source_frames requested maxframes

wanted_lem : (requested maxframes : ℕ) → requested < 2 ^ 31 → Asked requested maxframes
unfolding wanted
wanted_lem requested maxframes small = elim (eq_cases requested 0) [
  | inl same ↦ record { asked = maxframes; given = ground arith; clipped = ground arith }
  | inr other ↦ record {
    asked = requested;
    given =
        rw
          (
            ne→not-== requested 0 other,
            mod-eq_of_lt {n = requested} {m = 2 ^ 32} (omega arith),
            lt→ltb requested (2 ^ 31) small,
          )
          refl;
    clipped = ground arith;
  }
]

module _ (fl : Floats) where
  open fl use {Float}

  fill_source-eq :
      (b : Buffer fl) (dst out filled : List (List Float)) (e : Engine fl)
      (ring : Ring (List Float)) (want : ℕ)
      → Asked b.requested (b.maxsize / frame_bytes)
      → want ≡ source_frames b.requested (b.maxsize / frame_bytes)
      → read e.cap_ring want ≡ some (out, ring)
      → out ++ replicate (want - length out) (silence fl) ≡ filled
      → length filled ≡ want
      → want ≤ length dst
      → want * frame_bytes < 2 ^ 32
      → fill_source fl b dst e
        ≡ some (
          record b {
            frames = some (filled ++ drop want dst);
            offset = 0;
            stride = frame_bytes;
            size = want * frame_bytes;
          },
          record e { cap_ring = ring },
        )
  unfolding fill_source iso_read
  fill_source-eq b dst out filled e ring want a same got is measure fits small =
      rw
        (
          a.given,
          a.clipped,
          sym same,
          got,
          is,
          store_all_fits filled dst (omega arith),
          measure,
          mod-eq_of_lt {n = want * frame_bytes} {m = 2 ^ 32} small,
        )
        refl

  source_sent :
      (want : ℕ) (q : List (List Float))
      → take want q ++ replicate (want - length (take want q)) (silence fl) ≡ sent_frames fl want q
  source_sent want q =
      let missing : want - length (take want q) ≡ want - length q =
        omega (arith, length-take want q) in
      ap (λ n. take want q ++ replicate n (silence fl)) missing

  length-sent_frames : (want : ℕ) (q : List (List Float)) → length (sent_frames fl want q) ≡ want
  length-sent_frames want q = omega (
    arith,
    length-append (take want q) (replicate (want - length q) (silence fl)),
    length-take want q,
    length-replicate (want - length q) (silence fl),
  )

  -- With a buffer of whole frames at `data` that is smaller than 4 GiB and a request below 2^31,
  -- over a valid capture ring, `on_source_process` does not fault: it stores as many frames as the
  -- graph asks for and the buffer holds (all it holds if the graph asks for none), the oldest
  -- captured ones and silence for those that are missing, leaves the rest of the buffer alone, says
  -- so in the chunk, queues the buffer, and leaves a valid ring with the other frames in order.
  pub on_source_process_lem :
      (b : Buffer fl) (dst : List (List Float)) (e : Engine fl)
      → IsValid e.cap_ring
      → b.frames ≡ some dst
      → b.maxsize / frame_bytes ≡ length dst
      → b.maxsize < 2 ^ 32
      → b.requested < 2 ^ 31
      → let want = source_frames b.requested (length dst) in
        let q = contents e.cap_ring in
        (ring : Ring (List Float)) × IsValid ring
        × (ring.cap ≡ e.cap_ring.cap)
        × (contents ring ≡ drop want q)
        × (on_source_process fl (some b) e
            ≡ some (
              some (record b {
                frames = some (sent_frames fl want q ++ drop want dst);
                offset = 0;
                stride = frame_bytes;
                size = want * frame_bytes;
              }),
              record e { cap_ring = ring },
            ))
  unfolding on_source_process fill_data Queue.read
  on_source_process_lem b dst e v at fits small asked =
      let r = read_refines e.cap_ring want v in
      (
        r.ring,
        r.valid,
        r.same_cap,
        r.holds,
        rw
            (
              at,
              fill_source-eq b dst (take want q) (sent_frames fl want q) e r.ring want
                  (wanted_lem b.requested (b.maxsize / frame_bytes) asked)
                  (ap (source_frames b.requested) (sym fits)) r.returns (source_sent want q)
                  (length-sent_frames want q) few (omega (arith, few, fits)),
            )
            refl,
      )
    where
      q : List (List Float)
      q = contents e.cap_ring

      want : ℕ
      want = source_frames b.requested (length dst)

      few : want ≤ length dst
      few = ground arith
