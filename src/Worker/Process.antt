-- ===== src/Worker/Process.antt =====
-- processOne and markJobFailure of backend/internal/preview/runner.go, and the loop of Start.
use personal_space.Prelude.{
  ℕ, zero, suc, Bool, true, false, Text, codes, text_eq, ◌++◌, Option, none, some, Result, ok, err,
  leb, if◌then◌else◌, trim_space, is_empty, Exec, stop, modify, ◌>>=◌, ◌>>◌,
}
use personal_space.Database.Rows.{JobRow, FileRow}
use personal_space.Storage.Path.{CleanPath}
use personal_space.Server.World.{World}
use personal_space.Worker.Tools.{Tools, RunnerFaults, try}
use personal_space.Worker.Claim.{
  ClaimError, no_preview_jobs, claim_failed, claim_next_job, update_job,
}
use personal_space.Worker.Publish.{Product, publish}
use personal_space.Worker.Generate.{metadata_of, thumbnail_of}
use personal_space.Worker.Office.{office_pdf_of}

-- What processOne returns: (false, errNoPreviewJobs), (false, err), (true, nil) and (true, err).
pub data Outcome : Type 0 where
  idle processed : Outcome
  unclaimed unsettled : Text → Outcome

abbrev pub was_processed : Outcome → Bool
was_processed processed = true
was_processed (unsettled e) = true
was_processed _ = false

unfoldable pub message_of : Text → Text
message_of e = if is_empty (trim_space e) then codes "preview processing failed" else trim_space e

-- `job.Attempts >= maxAttempts`
unfoldable pub status_after : ℕ → JobRow → Text
status_after max_attempts j = if leb max_attempts j.attempts then codes "failed" else codes "queued"

abbrev pub failed_with : Text → Text → JobRow → JobRow
failed_with status message j = record j { status = status; error_message = some message }

-- markJobFailure
unfoldable pub mark_job_failure : RunnerFaults → ℕ → JobRow → Text → Exec World Text (Unit {0})
mark_job_failure faults max_attempts j e = do
  try faults.settle
  modify (update_job j.id (failed_with (status_after max_attempts j) (message_of e)))

-- `maxAttempts <= 0` is 3.
abbrev pub max_attempts_of : ℕ → ℕ
max_attempts_of zero = 3
max_attempts_of (suc n) = suc n

module _ (root : CleanPath) (tools : Tools) (faults : RunnerFaults) where
  -- The switch on the type of the job: what its generator makes.
  unfoldable pub product_of : ℕ → JobRow → Exec World Text (FileRow × Product)
  product_of now j =
      if text_eq j.kind (codes "metadata")
      then metadata_of root tools faults now j.file
      else if text_eq j.kind (codes "thumbnail")
      then thumbnail_of root tools faults j.file
      else if text_eq j.kind (codes "office_to_pdf")
      then office_pdf_of root tools faults j.file
      else stop (codes "unsupported preview job type: " ++ j.kind)

  -- One of the generators, with its end.
  unfoldable pub generate : ℕ → ℕ → JobRow → Exec World Text (Unit {0})
  generate now preview j = do
    made ← product_of now j
    publish root tools faults now preview j.id made.0.id made.1

  abbrev settled : Result Text (Unit {0}) × World → Outcome × World
  settled (ok u, w) = (processed, w)
  settled (err e, w) = (unsettled e, w)

  abbrev pub generated : ℕ → JobRow → Result Text (Unit {0}) × World → Outcome × World
  generated max_attempts j (ok u, w) = (processed, w)
  generated max_attempts j (err e, w) = settled (mark_job_failure faults max_attempts j e w)

  abbrev claimed : ℕ → ℕ → ℕ → Result ClaimError JobRow × World → Outcome × World
  claimed now preview max_attempts (err no_preview_jobs, w) = (idle, w)
  claimed now preview max_attempts (err (claim_failed e), w) = (unclaimed e, w)
  claimed now preview max_attempts (ok j, w) = generated max_attempts j (generate now preview j w)

  -- processOne
  unfoldable pub process_one : (ℕ → Bool) → ℕ → ℕ → ℕ → World → Outcome × World
  process_one locked now preview max_attempts w =
      claimed now preview max_attempts (claim_next_job faults locked w)

module _ (root : CleanPath) (tools : Tools) (script : ℕ → RunnerFaults) (clock ids : ℕ → ℕ)
    (locked : ℕ → Bool) (max_attempts : ℕ) where
  -- The loop of Start between two ticks: it calls processOne as long as that has processed a job. The
  -- calls of a round fail as `script` says for the rounds that are left; `none` is that these ran out.
  unfoldable pub drain : ℕ → World → Option World
  drain zero w = none
  drain (suc fuel) w =
      let (outcome, after) =
        process_one root tools (script fuel) locked (clock fuel) (ids fuel)
          (max_attempts_of max_attempts) w in
      let rest = drain fuel after in if was_processed outcome then rest else some after
