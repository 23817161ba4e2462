-- ===== src/Worker/Claim.antt =====
-- claimNextJob of backend/internal/preview/runner.go.
use personal_space.Prelude.{
  ℕ, suc, Bool, ◌&&◌, not, Text, codes, text_eq, List, [], ◌∷◌, Option, none, some, ltb, ◌==◌,
  if◌then◌else◌, update_where, Exec, return, stop, modify, gets, ◌>>=◌, ◌>>◌,
}
use personal_space.Database.Rows.{JobRow}
use personal_space.Server.World.{World, transaction}
use personal_space.Worker.Tools.{RunnerFaults}

-- status='queued', and not locked by another worker (FOR UPDATE SKIP LOCKED)
abbrev pub is_queued : JobRow → Bool
is_queued j = text_eq j.status (codes "queued")

abbrev pub is_free : (ℕ → Bool) → JobRow → Bool
is_free locked j = is_queued j && not (locked j.id)

abbrev older : JobRow → Option JobRow → Option JobRow
older j none = some j
older j (some k) = if ltb k.created_at j.created_at then some k else some j

-- ORDER BY created_at ASC LIMIT 1
unfoldable pub oldest : (JobRow → Bool) → List JobRow → Option JobRow
oldest test [] = none
oldest test (j ∷ js) = let rest = oldest test js in if test j then older j rest else rest

-- UPDATE preview_jobs SET … WHERE id=$1
abbrev pub update_job : ℕ → (JobRow → JobRow) → World → World
update_job id f w = record w {
  db = record w.db { jobs = update_where (λ j. j.id == id) f w.db.jobs };
}

abbrev pub processing : JobRow → JobRow
processing j = record j { status = codes "processing"; attempts = suc j.attempts }

-- errNoPreviewJobs, or another error
pub data ClaimError : Type 0 where
  no_preview_jobs : ClaimError
  claim_failed : Text → ClaimError

abbrev claiming : Option Text → Exec World ClaimError (Unit {0})
claiming none = return tt
claiming (some e) = stop (claim_failed e)

abbrev job_or : Option JobRow → Exec World ClaimError JobRow
job_or none = stop no_preview_jobs
job_or (some j) = return j

abbrev claim_tx : RunnerFaults → (ℕ → Bool) → Exec World ClaimError JobRow
claim_tx faults locked = do
  claiming faults.claim
  found ← gets (λ w. oldest (is_free locked) w.db.jobs)
  j ← job_or found
  modify (update_job j.id processing)
  claiming faults.commit
  return (processing j)

-- claimNextJob; `locked` are the rows that other workers have locked.
unfoldable pub claim_next_job : RunnerFaults → (ℕ → Bool) → Exec World ClaimError JobRow
claim_next_job faults locked = claiming faults.begin >> transaction (claim_tx faults locked)
