-- ===== src/Worker/Attempts.antt =====
-- What the steps of the preview worker of backend/internal/preview/runner.go keep: the bound on the
-- attempts, and at most one active job of a kind.
use personal_space.Prelude.{
  ℕ, suc, ◌≤◌, ◌<◌, ◌≡◌, refl, ◌∙◌, inl, inr, Bool, true, false, Text, codes, text_eq, one_of, List,
  some, ◌==◌, find, Bool-cases, arith,
}
use personal_space.Database.Rows.{JobRow}
use personal_space.Previews.Jobs.{active_job}
use personal_space.Previews.Queue.{count, OneActive}
use personal_space.Storage.Path.{CleanPath}
use personal_space.Server.World.{World}
use personal_space.Worker.Tools.{Tools, RunnerFaults}
use personal_space.Worker.Claim.{is_queued, is_free, oldest, processing}
use personal_space.Worker.Publish.{completed}
use personal_space.Worker.Process.{failed_with, process_one}
use personal_space.Worker.Moves.{Move, completes, fails, requeues, loses, set_job, process_one-Move}
use personal_space.Worker.Rows.{
  In, IsKeyed, oldest-In, count-set_job, weight, total, total-set_job_lt, find-set_job, find-In,
  In-set_job, IsKeyed-set_job,
}

-- What all steps have in common.
pub record Change (max : ℕ) (locked : ℕ → Bool) (js ks : List JobRow) : Type 0 where
  pub job : JobRow
  pub change : JobRow → JobRow
  pub old : oldest (is_free locked) js ≡ some job
  pub changed : ks ≡ set_job job.id change js
  pub same_id : (k : JobRow) → (change k).id ≡ k.id
  pub same_file : (k : JobRow) → (change k).file ≡ k.file
  pub same_kind : (k : JobRow) → (change k).kind ≡ k.kind
  pub attempted : (k : JobRow) → (change k).attempts ≡ suc k.attempts
  pub back : (k : JobRow) → is_queued (change k) ≡ true → suc job.attempts < max

pub Move-Change :
    (max : ℕ) (locked : ℕ → Bool) (js ks : List JobRow)
    → Move max locked js ks
    → Change max locked js ks
unfolding text_eq
Move-Change max locked js ks (completes j key old e) = record {
  job = j;
  change = λ k. completed key (processing k);
  old = old;
  changed = e;
  same_id = λ k. refl;
  same_file = λ k. refl;
  same_kind = λ k. refl;
  attempted = λ k. refl;
  back = λ k h. absurd (ground arith);
}
Move-Change max locked js ks (fails j message old spent e) = record {
  job = j;
  change = λ k. failed_with (codes "failed") message (processing k);
  old = old;
  changed = e;
  same_id = λ k. refl;
  same_file = λ k. refl;
  same_kind = λ k. refl;
  attempted = λ k. refl;
  back = λ k h. absurd (ground arith);
}
Move-Change max locked js ks (requeues j message old left e) = record {
  job = j;
  change = λ k. failed_with (codes "queued") message (processing k);
  old = old;
  changed = e;
  same_id = λ k. refl;
  same_file = λ k. refl;
  same_kind = λ k. refl;
  attempted = λ k. refl;
  back = λ k h. left;
}
Move-Change max locked js ks (loses j old e) = record {
  job = j;
  change = processing;
  old = old;
  changed = e;
  same_id = λ k. refl;
  same_file = λ k. refl;
  same_kind = λ k. refl;
  attempted = λ k. refl;
  back = λ k h. absurd (ground arith);
}

module _ {max : ℕ} {locked : ℕ → Bool} {js ks : List JobRow} (c : Change max locked js ks)
    (keyed : IsKeyed js) where
  open c use {job, change, old, changed, same_id, same_file, same_kind, attempted, back}

  taken-In : In job js × (is_free locked job ≡ true)
  taken-In = oldest-In (is_free locked) js job old

  -- The changed row is the one that was taken.
  pub taken : (k : JobRow) → In k js → k.id ≡ job.id → k ≡ job
  taken k r e = keyed k job r taken-In.0 e

  pub Change-IsKeyed : IsKeyed ks
  Change-IsKeyed = rw changed (IsKeyed-set_job job.id change js same_id keyed)

  pub Change-total : total max ks < total max js
  unfolding weight
  Change-total = rw changed (
      total-set_job_lt max change js job taken-In.0
        (λ k r e. ground (arith, taken k r e, taken-In.1, attempted k, back k)))

  pub Change-count :
      (file : ℕ) (kind : Text) → count (active_job file kind) ks ≤ count (active_job file kind) js
  unfolding one_of
  Change-count file kind = rw changed (
      count-set_job (active_job file kind) job.id change js
        (λ k r e h. ground (arith, taken k r e, taken-In.1, same_file k, same_kind k, h)))

  -- A row that is being processed is not taken.
  pub Change-processing :
      (id : ℕ) (j : JobRow)
      → find (λ k. k.id == id) js ≡ some j
      → is_queued j ≡ false
      → find (λ k. k.id == id) ks ≡ some j
  Change-processing id j found busy = elim (Bool-cases (job.id == id)) [
    | inl same ↦
        let (r, e) = find-In id js j found in
        absurd (ground (arith, taken j r (ground arith), taken-In.1))
    | inr other ↦ rw changed (find-set_job job.id id change js same_id other ∙ found)
  ]

  pub Change-bounded :
      ((k : JobRow) → In k js → (k.attempts ≤ max) × (is_queued k ≡ true → k.attempts < max))
      → (k : JobRow) → In k ks
      → (k.attempts ≤ max) × (is_queued k ≡ true → k.attempts < max)
  Change-bounded h k r =
      let (m, s, t) = In-set_job job.id change js k (rw changed at r) in
      ground (arith, t, h m s, taken m s, taken-In.1, attempted m, back m)

-- Each job has been tried at most as often as allowed, and a queued one can be tried again.
abbrev pub IsBounded : ℕ → List JobRow → Type 0
IsBounded max js =
    (k : JobRow) → In k js → (k.attempts ≤ max) × (is_queued k ≡ true → k.attempts < max)

module _ (root : CleanPath) (tools : Tools) (faults : RunnerFaults) (locked : ℕ → Bool)
    (now preview max : ℕ) (w : World) (keyed : IsKeyed w.db.jobs) where
  -- processOne keeps the primary key of the jobs, never tries a job more often than the maximum, and
  -- leaves a file with at most one active job of a kind, whichever of its calls fails.
  pub process_one-kept :
      IsBounded max w.db.jobs
      → OneActive w
      → let after = (process_one root tools faults locked now preview max w).1 in
        IsKeyed after.db.jobs × IsBounded max after.db.jobs × OneActive after
  process_one-kept bounded one =
      elim (process_one-Move root tools faults locked now preview max w) [
        | inl (p, m) ↦
            let c = Move-Change max locked _ _ m in
            (
              Change-IsKeyed c keyed,
              Change-bounded c keyed bounded,
              λ file kind. omega (arith, Change-count c keyed file kind, one file kind),
            )
        | inr (p, same) ↦ rw same (keyed, bounded, one)
      ]

  -- A job whose worker was lost, so that its status is neither "queued" nor an end, is never touched
  -- again: no later processOne changes its row.
  pub process_one-processing :
      (id : ℕ) (j : JobRow)
      → find (λ k. k.id == id) w.db.jobs ≡ some j
      → j.status ≡ codes "processing"
      → find (λ k. k.id == id) (process_one root tools faults locked now preview max w).1.db.jobs
        ≡ some j
  unfolding text_eq
  process_one-processing id j found busy =
      elim (process_one-Move root tools faults locked now preview max w) [
        | inl (p, m) ↦
            Change-processing (Move-Change max locked _ _ m) keyed id j found (rw busy refl)
        | inr (p, same) ↦ rw same found
      ]
