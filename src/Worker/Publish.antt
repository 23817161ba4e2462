-- ===== src/Worker/Publish.antt =====
-- The common end of the generators of backend/internal/preview/runner.go: upsertFilePreview and the
-- update that completes a job; and their common start, fetchFileForMetadata and the copy of the file
-- into a temporary directory.
use personal_space.Prelude.{
  ℕ, Bool, false, ◌&&◌, Text, codes, text_eq, ◌++◌, List, [], ◌∷◌, Option, none, some, Result, ok,
  err, ◌==◌, if◌then◌else◌, find, trim_space, is_empty, Exec, return, stop, some_or, modify, gets,
  ◌>>=◌, ◌>>◌,
}
use personal_space.Database.Rows.{FileRow, PreviewRow, JobRow, is_live}
use personal_space.Storage.Path.{CleanPath, StorageError}
use personal_space.Storage.Files.{Bytes, put_stream, get_stream}
use personal_space.Server.World.{World, on_disk}
use personal_space.Worker.Tools.{Tools, TempFaults, RunnerFaults, try}
use personal_space.Worker.Claim.{update_job}

-- WHERE id=$1 AND deleted_at IS NULL
abbrev pub live_row : ℕ → FileRow → Bool
live_row id f = f.id == id && is_live f.deleted_at

-- fetchFileForMetadata
unfoldable pub fetch_file_for_metadata : RunnerFaults → ℕ → Exec World Text FileRow
fetch_file_for_metadata faults id = do
  try faults.fetch
  found ← gets (λ w. find (live_row id) w.db.files)
  some_or found (codes "file not found for preview job")

-- `if err != nil { return err }` on a call of the storage
abbrev pub stored_or : {A : Type 0} → Tools → Result StorageError A → Exec World Text A
stored_or tools (ok a) = return a
stored_or tools (err e) = stop (tools.storage_text e)

abbrev trim_dot : Text → Text
trim_dot [] = []
trim_dot (c ∷ s) = if c == b'.' then s else c ∷ s

abbrev extension_or_bin : Option Text → Text
extension_or_bin none = codes "bin"
extension_or_bin (some e) = if is_empty (trim_space e) then codes "bin" else trim_dot (trim_space e)

-- The name of the copy: "source." and the extension of the file.
unfoldable pub source_name : FileRow → Text
source_name file = codes "source." ++ extension_or_bin file.extension

-- MkdirTemp, Create, GetStream, Copy and Close: the content of the copy.
unfoldable pub copy_source : CleanPath → Tools → TempFaults → FileRow → Exec World Text Bytes
copy_source root tools faults file = do
  try faults.make
  try faults.create
  opened ← on_disk (get_stream root faults.read file.storage_key)
  content ← stored_or tools opened
  try faults.copy
  try faults.close
  return content

-- What a generator has made.
pub record Product : Type 0 where
  pub kind : Text
  pub key : Text
  pub mime : Text
  pub bytes : Bytes

abbrev pub same_preview : ℕ → Text → PreviewRow → Bool
same_preview file kind p = p.file == file && text_eq p.kind kind

-- INSERT INTO file_previews … ON CONFLICT (file_id, preview_type) DO UPDATE
unfoldable pub upsert_preview : ℕ → ℕ → ℕ → Product → List PreviewRow → List PreviewRow
upsert_preview now id file p [] =
    record {
      id = id;
      file = file;
      kind = p.kind;
      storage_key = some p.key;
      mime = some p.mime;
      status = codes "ready";
      updated_at = now;
    }
    ∷ []
upsert_preview now id file p (row ∷ rows) =
    if same_preview file p.kind row
    then record row {
      storage_key = some p.key;
      mime = some p.mime;
      status = codes "ready";
      updated_at = now;
    }
      ∷ rows
    else row ∷ upsert_preview now id file p rows

-- upsertFilePreview
abbrev pub upsert_file_preview : ℕ → ℕ → ℕ → Product → World → World
upsert_file_preview now id file p w = record w {
  db = record w.db { previews = upsert_preview now id file p w.db.previews };
}

abbrev pub completed : Text → JobRow → JobRow
completed key j = record j { status = codes "completed"; output = some key; error_message = none }

-- From the PutStream of the product to the completed job.
unfoldable pub publish :
    CleanPath → Tools → RunnerFaults → ℕ → ℕ → ℕ → ℕ → Product → Exec World Text (Unit {0})
publish root tools faults now preview job file p = do
  written ← on_disk (put_stream root faults.put p.key (record { bytes = p.bytes; fails = false }))
  done ← stored_or tools written
  try faults.upsert
  modify (upsert_file_preview now preview file p)
  try faults.complete
  modify (update_job job (completed p.key))
