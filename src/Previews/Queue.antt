-- ===== src/Previews/Queue.antt =====
-- createFilePreviewJob of backend/internal/http/files.go keeps at most one active job for a file and a kind.
use personal_space.Prelude.{
  ℕ, suc, ◌≤◌, ◌≡◌, refl, ◌⊎◌, inl, inr, Bool, Text, List, [], ◌∷◌, text_eq_iff, none, some,
  if◌then◌else◌, find, arith, Option-cases,
}
use personal_space.Database.Rows.{FileRow, JobRow}
use personal_space.Server.World.{World, serve}
use personal_space.Previews.Jobs.{
  JobFaults, owned_file, job_type_of, active_job, newest, queued, create_file_preview_job,
}

-- How many jobs pass a test.
abbrev pub count : (JobRow → Bool) → List JobRow → ℕ
count test [] = 0
count test (j ∷ js) = let rest = count test js in if test j then suc rest else rest

newest-none : (test : JobRow → Bool) (js : List JobRow) → newest test js ≡ none → count test js ≡ 0
unfolding newest
newest-none test [] h = refl
newest-none test (j ∷ js) h = ground (arith, newest-none test js)

-- A file has at most one active job of a kind.
abbrev pub OneActive : World → Type 0
OneActive w = (file : ℕ) (kind : Text) → count (active_job file kind) w.db.jobs ≤ 1

count-queued :
    (now id file : ℕ) (kind : Text) (js : List JobRow) (other : ℕ) (other_kind : Text)
    → newest (active_job file kind) js ≡ none
    → count (active_job other other_kind) js ≤ 1
    → count (active_job other other_kind) (queued now id file kind ∷ js) ≤ 1
count-queued now id file kind js other other_kind free h =
    ground (arith, newest-none (active_job file kind) js free, text_eq_iff kind other_kind)

create-jobs :
    (faults : JobFaults) (now id user file : ℕ) (raw : Text) (w : World) (rec : FileRow)
    → find (owned_file file user) w.db.files ≡ some rec
    → ((serve (create_file_preview_job faults now id (some user) (some file) raw) w).1.db.jobs
        ≡ w.db.jobs)
      ⊎ ((newest (active_job rec.id (job_type_of raw)) w.db.jobs ≡ none)
          × ((serve (create_file_preview_job faults now id (some user) (some file) raw) w).1.db.jobs
              ≡ queued now id rec.id (job_type_of raw) ∷ w.db.jobs))
unfolding create_file_preview_job
create-jobs faults now id user file raw w rec found = ground (arith, found)

-- createFilePreviewJob keeps the jobs so that a file has at most one active job of a kind.
pub create_file_preview_job-OneActive :
    (faults : JobFaults) (now id user file : ℕ) (raw : Text) (w : World)
    → OneActive w
    → OneActive (serve (create_file_preview_job faults now id (some user) (some file) raw) w).1
unfolding create_file_preview_job
create_file_preview_job-OneActive faults now id user file raw w h other kind =
    elim (Option-cases (find (owned_file file user) w.db.files)) [
      | inl missing ↦ ground (arith, h other kind)
      | inr (rec, found) ↦ elim (create-jobs faults now id user file raw w rec found) [
        | inl same ↦ rw same (h other kind)
        | inr (free, added) ↦
            rw added (
              count-queued now id rec.id (job_type_of raw) w.db.jobs other kind free (h other kind))
      ]
    ]
