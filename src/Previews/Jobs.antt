-- ===== src/Previews/Jobs.antt =====
-- createFilePreviewJob of backend/internal/http/files.go.
use personal_space.Prelude.{
  ℕ, Bool, true, false, ◌&&◌, not, String, Text, List, [], ◌∷◌, codes, text_eq, one_of, Option,
  none, some, Result, ok, err, ltb, ◌==◌, if◌then◌else◌, find, trim_space, to_lower, is_empty, stop,
  stop_if, some_or, lift, gets, modify, return, ◌>>=◌, ◌>>◌,
}
use personal_space.Database.Rows.{FileRow, JobRow, is_live}
use personal_space.Server.World.{World, Response, respond, Action, Handler, insert_audit}
use personal_space.Previews.Runtime.{PreviewRuntimeSettings, get_preview_runtime_settings}
use personal_space.Previews.Mode.{Category, image, video, is_office, detect_preview_mode}

pub data JobReply : Type 0 where
  error : String → JobReply
  already_queued : ℕ → Text → Text → JobReply
  queued_job : ℕ → Text → JobReply

abbrev pub fail : ℕ → String → Response JobReply
fail code message = respond code (error message)

pub record JobFaults : Type 0 where
  pub load : Bool
  pub settings : Bool
  pub existing : Bool
  pub insert : Bool
  pub audit : Bool

abbrev pub owned_file : ℕ → ℕ → FileRow → Bool
owned_file id owner f = f.id == id && f.owner == owner && is_live f.deleted_at

-- The field "jobType", empty where the body has none.
unfoldable pub job_type_of : Text → Text
job_type_of raw =
    if is_empty (to_lower (trim_space raw)) then codes "metadata" else to_lower (trim_space raw)

abbrev pub has_thumbnail : Category → Bool
has_thumbnail image = true
has_thumbnail video = true
has_thumbnail _ = false

abbrev pub is_video : Category → Bool
is_video video = true
is_video _ = false

abbrev is_thumbnail : Text → Bool
is_thumbnail kind = text_eq kind (codes "thumbnail")

abbrev is_conversion : Text → Bool
is_conversion kind = text_eq kind (codes "office_to_pdf")

-- The checks on the type of the job, in their order.
unfoldable pub check_job_type :
    PreviewRuntimeSettings → Category → Text → Result (Response JobReply) (Unit {0})
check_job_type cfg category kind =
    if not (one_of kind ("metadata" ∷ "thumbnail" ∷ "office_to_pdf" ∷ []))
    then err (fail 400 "unsupported preview job type")
    else if is_thumbnail kind && not (has_thumbnail category)
    then err (fail 400 "thumbnail preview is only supported for image and video files")
    else if is_thumbnail kind && not cfg.image_thumbnails
    then err (fail 403 "image thumbnails are disabled by admin settings")
    else if is_thumbnail kind && is_video category && not cfg.media_enabled
    then err (fail 403 "media preview is disabled by admin settings")
    else if is_conversion kind && not (is_office category)
    then err (fail 400 "office_to_pdf preview is only supported for office document files")
    else if is_conversion kind && not cfg.office_enabled
    then err (fail 403 "office preview is disabled by admin settings")
    else ok tt

-- WHERE file_id=$1 AND job_type=$2 AND status IN ('queued','processing')
abbrev pub active_job : ℕ → Text → JobRow → Bool
active_job file kind j =
    j.file == file && text_eq j.kind kind && one_of j.status ("queued" ∷ "processing" ∷ [])

abbrev newer : JobRow → Option JobRow → Option JobRow
newer j none = some j
newer j (some k) = if ltb j.created_at k.created_at then some k else some j

-- ORDER BY created_at DESC LIMIT 1
unfoldable pub newest : (JobRow → Bool) → List JobRow → Option JobRow
newest test [] = none
newest test (j ∷ js) = let rest = newest test js in if test j then newer j rest else rest

abbrev pub queued : ℕ → ℕ → ℕ → Text → JobRow
queued now id file kind = record {
  id = id;
  file = file;
  kind = kind;
  status = codes "queued";
  attempts = 0;
  output = none;
  error_message = none;
  created_at = now;
}

abbrev pub insert_job : JobRow → World → World
insert_job j w = record w { db = record w.db { jobs = j ∷ w.db.jobs } }

abbrev existing_or : Option JobRow → Text → Action JobReply (Unit {0})
existing_or none kind = return tt
existing_or (some j) kind = stop (respond 200 (already_queued j.id j.status kind))

-- createFilePreviewJob, behind its rate limit.
unfoldable pub create_file_preview_job :
    JobFaults → ℕ → ℕ → Option ℕ → Option ℕ → Text → Handler JobReply
create_file_preview_job faults now id user file raw = do
  owner ← some_or user (fail 401 "authentication required")
  file_id ← some_or file (fail 400 "invalid file id")
  stop_if faults.load (fail 500 "could not load file metadata")
  found ← gets (λ w. find (owned_file file_id owner) w.db.files)
  rec ← some_or found (fail 404 "file not found")
  stored ← gets (λ w. get_preview_runtime_settings faults.settings w.db.settings)
  cfg ← some_or stored (fail 500 "could not load preview settings")
  stop_if (not cfg.enabled) (fail 403 "preview generation is disabled by admin settings")
  let kind = job_type_of raw
  lift (check_job_type cfg (detect_preview_mode rec).category kind)
  stop_if faults.existing (fail 500 "could not check existing preview jobs")
  existing ← gets (λ w. newest (active_job rec.id kind) w.db.jobs)
  existing_or existing kind
  stop_if faults.insert (fail 500 "could not enqueue preview job")
  modify (insert_job (queued now id rec.id kind))
  insert_audit faults.audit
      (record { user = some owner; action = "preview.job.created"; target = some id })
  return (respond 202 (queued_job id kind))
