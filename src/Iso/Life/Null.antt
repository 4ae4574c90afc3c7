-- ===== src/Iso/Life/Null.antt =====
-- An engine one of whose rings was not allocated.
use djm_t1_linux.Base.{ℕ, zero, suc, ◌+◌, ◌≤◌, ◌<◌, ◌≡◌, refl, ap, ◌∙◌, none, some, List, length}
use mathlib.Core.Path.{subst}
use djm_t1_linux.Ring.{write}
use djm_t1_linux.Ring.Null.{write-null}
use djm_t1_linux.Sample.{Floats}
use djm_t1_linux.Iso.{Engine, iso_write}
use djm_t1_linux.Iso.Life.{Life, Answers, Held, nxfr, submit_one, submit_loop, fresh, opened, start}
use djm_t1_linux.Iso.Life.Start.{start-some}

module _ (fl : Floats) where
  open fl use {Float}

  submit_loop-play_ring :
      (a : Answers fl) (left i : ℕ) (s : Life fl)
      → (submit_loop fl a left i s).engine.play_ring ≡ s.engine.play_ring
  unfolding submit_loop submit_one
  submit_loop-play_ring a zero i s = refl
  submit_loop-play_ring a (suc left) i s = submit_loop-play_ring a left (i + 1) _

  iso_write-none :
      (e : Engine fl) (src : List (List Float)) (n : ℕ)
      → write e.play_ring src n ≡ none
      → iso_write fl e src n ≡ none
  unfolding iso_write
  iso_write-none e src n h = rw h refl

  -- `djmt1_iso_start` returns an engine though `calloc` gave the playback ring no block; the caller's
  -- first frames then go through a null pointer.
  pub start-null :
      (a : Answers fl) (frames : ℕ) (h : Held) (s : Life fl) (src : List (List Float)) (n : ℕ)
      → a.play_block ≡ none
      → (start fl a frames h).0 ≡ some s
      → 0 < frames
      → 0 < n
      → n ≤ length src
      → iso_write fl s.engine src n ≡ none
  unfolding fresh
  start-null a frames h s src n failed begun some_frames asked enough =
      subst (λ t. iso_write fl t.engine src n ≡ none) (start-some fl a frames h s begun)
        (iso_write-none _ src n (
          ap (λ ring. write ring src n) (submit_loop-play_ring a nxfr 0 (opened fl a frames))
          ∙ write-null (λ k. a.play_block) frames src n failed some_frames asked enough))
