-- ===== src/Kernel/Urbs/Trigger.antt =====
-- What `djmt1_trigger` does on every answer of the USB core.
use djm_t1_linux.Base.{
  ℕ, zero, suc, ◌+◌, ◌≤◌, ◌<◌, ◌≡◌, ◌⊎◌, inl, inr, refl, sym, ap, ◌∙◌, Bool, true, false, arith,
  Bool-cases, ◌≢◌, ne→not-==,
}
use mathlib.Core.Bool.{true≢false}
use native.Mathlib.Decide.{dec_lt}
use djm_t1_linux.Base.Int.{ℤ, pos}
use djm_t1_linux.Kernel.{nonzero}
use djm_t1_linux.Kernel.Urbs.{start, stop, Endpoint, activate, submit_loop, trigger, nurb}

first_or_later : (u k : ℕ) → u ≤ k → (u ≡ k) ⊎ (u + 1 ≤ k)
first_or_later u k h = elim (dec_lt u k) [ yes p ↦ inr (omega arith) | no p ↦ inl (omega arith) ]

activate_self : (u : ℕ) (active : ℕ → Bool) → activate u active u ≡ true
activate_self u active = ground arith

-- A URB that is active stays so when another is submitted.
activate_keeps : (u k : ℕ) (active : ℕ → Bool) → active k ≡ true → activate u active k ≡ true
activate_keeps u k active h = ground arith

-- All of the `left` URBs from `u` on are submitted, and the others are as they were.
pub record Started (u left : ℕ) (e : Endpoint) (r : Endpoint × ℤ) : Type 0 where
  pub ret : r.1 ≡ pos 0
  pub same_running : r.0.running ≡ e.running
  pub submitted : (k : ℕ) → u ≤ k → k < u + left → r.0.active k ≡ true
  pub others : (k : ℕ) → k < u ⊎ (u + left ≤ k) → r.0.active k ≡ e.active k

-- The first refusal, at URB `at`, is the result: the stream is stopped, and the URBs before that
-- one, which have been submitted, are left to complete.
pub record Refused (submit : (ℕ → Bool) → ℕ → ℤ) (u left : ℕ) (e : Endpoint) (r : Endpoint × ℤ)
    : Type 0 where
  pub at : ℕ
  pub before : u ≤ at
  pub within : at < u + left
  pub stopped : r.0.running ≡ false
  pub ret : r.1 ≡ submit r.0.active at
  pub refused : nonzero r.1 ≡ true
  pub submitted : (k : ℕ) → u ≤ k → k < at → r.0.active k ≡ true
  pub others : (k : ℕ) → k < u ⊎ (at ≤ k) → r.0.active k ≡ e.active k

module _ (submit : (ℕ → Bool) → ℕ → ℤ) where
  submit_loop_outcome :
      (left u : ℕ) (e : Endpoint)
      → Started u left e (submit_loop submit left u e)
        ⊎ Refused submit u left e (submit_loop submit left u e)
  unfolding submit_loop
  submit_loop_outcome zero u e = inl (record {
    ret = refl;
    same_running = refl;
    submitted = λ k lo hi. absurd (omega arith);
    others = λ k h. refl;
  })
  submit_loop_outcome (suc left) u e = elim (Bool-cases (nonzero (submit e.active u))) [
    | inl bad ↦ rw bad (
        inr (record {
          at = u;
          before = omega arith;
          within = omega arith;
          stopped = refl;
          ret = refl;
          refused = bad;
          submitted = λ k lo hi. absurd (omega arith);
          others = λ k h. refl;
        }))
    | inr good ↦
        rw good
          (later (submit_loop_outcome left (u + 1) (record e { active = activate u e.active })))
  ]
    where
      next : Endpoint
      next = record e { active = activate u e.active }

      r : Endpoint × ℤ
      r = submit_loop submit left (u + 1) next

      untouched : (k : ℕ) → u ≢ k → activate u e.active k ≡ e.active k
      untouched k ne = rw (ne→not-== k u (λ q. ne (omega arith)))

      submitted_from :
          (k : ℕ)
          → (u ≡ k) ⊎ (u + 1 ≤ k)
          → r.0.active u ≡ activate u e.active u
          → (u + 1 ≤ k → r.0.active k ≡ true)
          → r.0.active k ≡ true
      submitted_from k (inl same) kept rest =
          ap r.0.active (sym same) ∙ kept ∙ activate_self u e.active
      submitted_from k (inr above) kept rest = rest above

      later :
          Started (u + 1) left next r ⊎ Refused submit (u + 1) left next r
          → Started u (suc left) e r ⊎ Refused submit u (suc left) e r
      later (inl s) = inl (record {
        ret = s.ret;
        same_running = s.same_running;
        submitted = λ k lo hi.
            submitted_from k (first_or_later u k lo) (s.others u (inl (omega arith)))
              (λ p. s.submitted k p (omega arith));
        others = λ k h. elim h [
          | inl below ↦ s.others k (inl (omega arith)) ∙ untouched k (omega arith)
          | inr above ↦ s.others k (inr (omega arith)) ∙ untouched k (omega arith)
        ];
      })
      later (inr f) = inr (record {
        at = f.at;
        before = omega (arith, f.before);
        within = omega (arith, f.within);
        stopped = f.stopped;
        ret = f.ret;
        refused = f.refused;
        submitted = λ k lo hi.
            submitted_from k (first_or_later u k lo) (f.others u (inl (omega arith)))
              (λ p. f.submitted k p hi);
        others = λ k h. elim h [
          | inl below ↦ f.others k (inl (omega arith)) ∙ untouched k (omega arith)
          | inr above ↦ f.others k (inr above) ∙ untouched k (omega (arith, f.before))
        ];
      })

  -- `START` submits all four URBs, returns 0 and runs; or it stops at the first URB that is refused,
  -- whose error it returns, and the stream does not run.
  pub trigger-start :
      (e : Endpoint)
      → Started 0 nurb (record e { running = true }) (trigger submit start e)
        ⊎ Refused submit 0 nurb (record e { running = true }) (trigger submit start e)
  unfolding trigger
  trigger-start e = submit_loop_outcome nurb 0 (record e { running = true })

  submit_loop_busy :
      ((active : ℕ → Bool) (k : ℕ) → active k ≡ true → nonzero (submit active k) ≡ true)
      → (left u k : ℕ) (e : Endpoint) → u ≤ k
      → k < u + left
      → e.active k ≡ true
      → let r = submit_loop submit left u e in (nonzero r.1 ≡ true) × (r.0.running ≡ false)
  unfolding submit_loop
  submit_loop_busy busy zero u k e lo hi on = absurd (omega arith)
  submit_loop_busy busy (suc left) u k e lo hi on =
      elim (Bool-cases (nonzero (submit e.active u))) [
        | inl bad ↦ rw bad (bad, refl)
        | inr good ↦ elim (first_or_later u k lo) [
          | inl same ↦ absurd (
              true≢false (
                sym (busy e.active k on) ∙ ap (λ j. nonzero (submit e.active j)) (sym same) ∙ good))
          | inr above ↦ rw good (
              submit_loop_busy busy left (u + 1) k (record e { active = activate u e.active }) above
                (omega arith) (activate_keeps u k e.active on))
        ]
      ]

  -- `STOP` does not take back the URBs that are active. If the USB core refuses a URB that is
  -- active, a `START` after a `STOP` fails while one of the four still is, and the stream does not
  -- run.
  pub restart_busy :
      (e : Endpoint) (u : ℕ)
      → ((active : ℕ → Bool) (k : ℕ) → active k ≡ true → nonzero (submit active k) ≡ true)
      → u < nurb
      → e.active u ≡ true
      → let r = trigger submit start (trigger submit stop e).0 in
        (nonzero r.1 ≡ true) × (r.0.running ≡ false)
  unfolding trigger
  restart_busy e u busy within on =
      submit_loop_busy busy nurb 0 u (record e { running = true }) (omega arith) within on
