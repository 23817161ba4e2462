-- ===== src/Worker/Drain.antt =====
-- The loop of Start in backend/internal/preview/runner.go comes to its end.
use personal_space.Prelude.{
  Result, Text, ℕ, zero, suc, ◌<◌, ◌≡◌, refl, inl, inr, Bool, true, false, none, some, Option-cases,
  arith, ok, err,
}
use personal_space.Database.Rows.{JobRow}
use personal_space.Storage.Path.{CleanPath}
use personal_space.Server.World.{World}
use personal_space.Worker.Tools.{Tools, RunnerFaults}
use personal_space.Worker.Claim.{is_free, oldest, processing, update_job, claim_next_job}
use personal_space.Worker.Process.{
  generated, generate, mark_job_failure, was_processed, process_one, drain, max_attempts_of,
}
use personal_space.Worker.Moves.{process_one-Move}
use personal_space.Worker.Rows.{IsKeyed, total}
use personal_space.Worker.Attempts.{Change-IsKeyed, Change-total, Move-Change}

module _ (root : CleanPath) (tools : Tools) (locked : ℕ → Bool) where
  generated-processed :
      (faults : RunnerFaults) (max : ℕ) (k : JobRow) (r : Result Text (Unit {0}) × World)
      → was_processed (generated root tools faults max k r).0 ≡ true
  unfolding mark_job_failure
  generated-processed faults max k (ok u, w) = refl
  generated-processed faults max k (err e, w) = ground arith

  -- Where the claim itself does not fail, a round without a job means that none is free.
  idle-oldest :
      (faults : RunnerFaults) (now preview max : ℕ) (w : World)
      → faults.begin ≡ none
      → faults.claim ≡ none
      → faults.commit ≡ none
      → was_processed (process_one root tools faults locked now preview max w).0 ≡ false
      → oldest (is_free locked) w.db.jobs ≡ none
  unfolding process_one claim_next_job
  idle-oldest faults now preview max w b c t idle =
      elim (Option-cases (oldest (is_free locked) w.db.jobs)) [
        | inl nothing ↦ nothing
        | inr (j, e) ↦ absurd (
            ground (
              arith,
              e,
              generated-processed faults max (processing j) (
                  generate root tools faults now preview (processing j)
                    (update_job j.id processing w)),
            ))
      ]

module _ (root : CleanPath) (tools : Tools) (script : ℕ → RunnerFaults) (clock ids : ℕ → ℕ)
    (locked : ℕ → Bool) (max_attempts : ℕ) where
  -- The loop of the worker comes to its end within as many rounds as the queue has attempts left,
  -- and one, whichever calls fail. Where no claim fails, no free job is left in the queue then.
  pub drain-ends :
      (fuel : ℕ) (w : World)
      → IsKeyed w.db.jobs
      → total (max_attempts_of max_attempts) w.db.jobs < fuel
      → (after : World) × (drain root tools script clock ids locked max_attempts fuel w
          ≡ some after)
        × (((n : ℕ)
              → ((script n).begin ≡ none) × ((script n).claim ≡ none) × ((script n).commit ≡ none))
            → oldest (is_free locked) after.db.jobs ≡ none)
  unfolding drain
  drain-ends zero w keyed h = absurd (omega arith)
  drain-ends (suc fuel) w keyed h =
      elim (process_one-Move root tools (script fuel) locked (clock fuel) (ids fuel)
        (max_attempts_of max_attempts) w) [
          | inl (p, m) ↦
              let c = Move-Change _ locked _ _ m in
              let after =
                (process_one root tools (script fuel) locked (clock fuel) (ids fuel)
                  (max_attempts_of max_attempts) w).1 in
              let (last, e, free) =
                drain-ends fuel after (Change-IsKeyed c keyed)
                  (omega (arith, Change-total c keyed)) in
              (last, ground (arith, p, e), free)
          | inr (p, same) ↦ (
            w,
            ground (arith, p, same),
            λ calm.
                idle-oldest root tools locked (script fuel) (clock fuel) (ids fuel) _ w
                  (calm fuel).0 (calm fuel).1 (calm fuel).2 p,
          )
        ]
