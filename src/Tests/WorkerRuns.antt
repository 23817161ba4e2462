-- ===== src/Tests/WorkerRuns.antt =====
-- The preview worker at work on one job.
use personal_space.Prelude.{
  find, ◌==◌, ℕ, ◌<◌, ◌≡◌, ◌⊎◌, refl, sym, ◌∙◌, inl, inr, Bool, true, false, [], ◌∷◌, Text, codes,
  none, some, ok, err, arith, find, ◌==◌, text_eq,
}
use personal_space.Database.Rows.{FileRow, JobRow}
use personal_space.Storage.Files.{no_faults, put}
use personal_space.Server.World.{World}
use personal_space.Previews.Queue.{OneActive}
use personal_space.Worker.Tools.{Tools, TempFaults, RunnerFaults}
use personal_space.Worker.Claim.{is_free, oldest}
use personal_space.Worker.Process.{process_one, was_processed, drain}
use personal_space.Worker.Moves.{Move, process_one-Move}
use personal_space.Worker.Rows.{IsKeyed, total, weight}
use personal_space.Worker.Attempts.{IsBounded, process_one-kept, process_one-processing}
use personal_space.Worker.Drain.{drain-ends}
use personal_space.Tests.Samples.{root, temp, temp_key, database, no_files}

abbrev tools : Tools
tools = record {
  marshal = λ now f media. ok (9 ∷ []);
  ffprobe = λ name content. err (codes "no ffprobe");
  ffmpeg = λ seek name content. record { printed = []; error = none; frame = some content };
  no_frame = codes "no frame";
  soffice = λ name content seconds. record {
    printed = [];
    timed_out = false;
    error = some (codes "no soffice");
    directory = ok [];
  };
  decode_image = λ content. err (codes "not an image");
  rgba = λ c. c;
  encode_jpeg = λ image. ok (8 ∷ []);
  storage_text = λ e. codes "storage error";
  spell = λ id. codes "3";
  duration = λ n. codes "2m0s";
}

abbrev no_temp_faults : TempFaults
no_temp_faults = record { make = none; create = none; read = no_faults; copy = none; close = none }

abbrev calm : RunnerFaults
calm = record {
  begin = none;
  claim = none;
  commit = none;
  fetch = none;
  probe = no_temp_faults;
  temp = no_temp_faults;
  read = no_faults;
  timeout = false;
  put = no_faults;
  upsert = none;
  complete = none;
  settle = none;
}

abbrev job : Text → JobRow
job status = record {
  id = 8;
  file = 3;
  kind = codes "metadata";
  status = status;
  attempts = 0;
  output = none;
  error_message = none;
  created_at = 510;
}

abbrev note : FileRow
note = record {
  id = 3;
  owner = 1;
  folder = none;
  name = codes "a";
  original_name = codes "a";
  storage_key = temp_key;
  size = 4;
  mime = none;
  extension = none;
  updated_at = 500;
  deleted_at = none;
}

abbrev site : Text → World
site status = record {
  db = record (database []) { files = note ∷ []; jobs = job status ∷ [] };
  disk = put temp (7 ∷ []) no_files;
  audit = [];
  uploaded_total = 0;
}

abbrev waiting : World
waiting = site (codes "queued")

abbrev unlocked : ℕ → Bool
unlocked id = false

one-IsKeyed : (j : JobRow) → IsKeyed (j ∷ [])
one-IsKeyed j a b (inl p) (inl q) e = p ∙ sym q
one-IsKeyed j a b (inl p) (inr q) e = absurd q
one-IsKeyed j a b (inr p) q e = absurd p

process_one-Move_example :
    let (outcome, after) = process_one root tools calm unlocked 600 11 3 waiting in
    (was_processed outcome ≡ true) × Move 3 unlocked waiting.db.jobs after.db.jobs
    ⊎ (was_processed outcome ≡ false) × (after ≡ waiting)
process_one-Move_example = process_one-Move root tools calm unlocked 600 11 3 waiting

waiting-IsBounded : IsBounded 3 waiting.db.jobs
waiting-IsBounded k (inl e) = rw e (omega arith, λ q. omega arith)
waiting-IsBounded k (inr r) = absurd r

waiting_one : OneActive waiting
waiting_one file kind = ground arith

process_one-kept_example :
    let after = (process_one root tools calm unlocked 600 11 3 waiting).1 in
    IsKeyed after.db.jobs × IsBounded 3 after.db.jobs × OneActive after
process_one-kept_example =
    process_one-kept root tools calm unlocked 600 11 3 waiting (one-IsKeyed (job (codes "queued")))
      waiting-IsBounded waiting_one

abbrev lost : World
lost = site (codes "processing")

process_one-processing_example :
    find (λ k. k.id == 8) (process_one root tools calm unlocked 600 11 3 lost).1.db.jobs
    ≡ some (job (codes "processing"))
process_one-processing_example =
    process_one-processing root tools calm unlocked 600 11 3 lost
      (one-IsKeyed (job (codes "processing"))) 8 (job (codes "processing")) refl refl

one_total : total 3 waiting.db.jobs < 5
unfolding total weight text_eq
one_total = omega arith

drain-ends_example :
    (after : World) × (drain root tools (λ n. calm) (λ n. 600) (λ n. n) unlocked 0 5 waiting
      ≡ some after)
    × (((n : ℕ) → (calm.begin ≡ none) × (calm.claim ≡ none) × (calm.commit ≡ none))
        → oldest (is_free unlocked) after.db.jobs ≡ none)
drain-ends_example =
    drain-ends root tools (λ n. calm) (λ n. 600) (λ n. n) unlocked 0 5 waiting
      (one-IsKeyed (job (codes "queued"))) one_total
