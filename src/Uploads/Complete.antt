-- ===== src/Uploads/Complete.antt =====
-- uploadComplete of backend/internal/http/uploads.go.
use personal_space.Prelude.{
  ℕ, ◌+◌, Bool, true, false, not, Text, Option, none, some, Result, ok, err, ◌==◌, return, stop,
  stop_if, some_or, gets, modify, ◌>>=◌, ◌>>◌,
}
use personal_space.Database.Rows.{
  Database, UploadSession, UploadStatus, FileRow, Executed, done, unique_violation, broken,
  insert_file, completed, canceled, failed, expired,
}
use personal_space.Storage.Path.{CleanPath, StorageError}
use personal_space.Storage.Files.{DiskFaults, move}
use personal_space.Server.World.{
  World, Response, respond, Action, Handler, transaction, on_disk, insert_audit,
}
use personal_space.Uploads.Session.{
  Body, fail, not_writable, incomplete, finished, load_session, update_session, add_usage,
  ensure_quota_allows_size,
}
use personal_space.Uploads.Init.{Keys}

-- `undo` are the faults of the Move that brings the file back.
pub record CompleteFaults : Type 0 where
  pub begin : Bool
  pub load : Bool
  pub disk : DiskFaults
  pub undo : DiskFaults
  pub insert : Bool
  pub usage : Bool
  pub quota : Bool
  pub save : Bool
  pub commit : Bool
  pub audit : Bool

abbrev pub is_terminal : UploadStatus → Bool
is_terminal canceled = true
is_terminal failed = true
is_terminal expired = true
is_terminal _ = false

abbrev pub is_completed : UploadStatus → Bool
is_completed completed = true
is_completed _ = false

-- `session.TotalSize != nil && session.UploadedBytes != *session.TotalSize`
abbrev pub is_incomplete : UploadSession → Bool
is_incomplete s = elim s.total_size [ none ↦ false | some total ↦ not (s.uploaded_bytes == total) ]

-- The row of the new file.
abbrev pub file_of : ℕ → ℕ → ℕ → Text → UploadSession → FileRow
file_of now id owner key s = record {
  id = id;
  owner = owner;
  folder = s.folder;
  name = s.target_name;
  original_name = s.original_name;
  storage_key = key;
  size = s.uploaded_bytes;
  mime = none;
  extension = none;
  updated_at = now;
  deleted_at = none;
}

abbrev pub set_db : Database → World → World
set_db db w = record w { db = db }

abbrev pub complete_session : ℕ → UploadSession → UploadSession
complete_session file s = record s { status = completed; file = some file }

module _ (root : CleanPath) (keys : Keys) (faults : CompleteFaults) where
  -- `_ = h.Storage.Move(finalKey, session.TempKey)`, and the answer.
  abbrev pub move_back : {A : Type 0} → Text → Text → Response Body → Action Body A
  move_back final temp answer = on_disk (move root faults.undo final temp) >>= λ _. stop answer

  abbrev pub back_if : Bool → Text → Text → Response Body → Action Body (Unit {0})
  back_if true final temp answer = move_back final temp answer
  back_if false final temp answer = return tt

  abbrev moved_or : Result StorageError (Unit {0}) → Action Body (Unit {0})
  moved_or (ok u) = return u
  moved_or (err e) = stop (fail 500 "could not finalize upload file")

  abbrev inserted_or : Executed → Text → Text → Action Body (Unit {0})
  inserted_or (done db) final temp = modify (set_db db)
  inserted_or unique_violation final temp =
      move_back final temp (fail 409 "an item with this name already exists in this folder")
  inserted_or broken final temp = move_back final temp (fail 500 "could not create file metadata")

  -- From the Move to the Commit.
  unfoldable pub finalize : ℕ → ℕ → ℕ → ℕ → UploadSession → Action Body (Unit {0})
  finalize now object file owner s = do
    let final = keys.final owner now object
    moved ← on_disk (move root faults.disk s.temp_key final)
    moved_or moved
    inserted ← gets (λ w. insert_file faults.insert (file_of now file owner final s) w.db)
    inserted_or inserted final s.temp_key
    back_if faults.usage final s.temp_key (fail 500 "could not update user storage usage")
    modify (λ w. set_db (add_usage owner s.uploaded_bytes w.db) w)
    allowed ← gets (λ w. ensure_quota_allows_size faults.quota owner w.db)
    back_if (not allowed) final s.temp_key (fail 413 "upload exceeds your storage quota")
    back_if faults.save final s.temp_key (fail 500 "could not complete upload session")
    modify (update_session s.id (complete_session file))
    back_if faults.commit final s.temp_key (fail 500 "could not commit upload completion")

  unfoldable pub complete_tx : ℕ → ℕ → ℕ → ℕ → ℕ → Action Body UploadSession
  complete_tx now object file owner upload = do
    s ← load_session faults.load owner upload
    stop_if (is_completed s.status) (respond 200 (finished upload s.file))
    stop_if (is_terminal s.status)
        (respond 409 (not_writable "upload session is not completable" s.status))
    stop_if (is_incomplete s) (respond 409 (incomplete s.uploaded_bytes s.total_size))
    finalize now object file owner s
    return s

  -- uploadComplete, behind its rate limit; `object` and `file` are what uuid.NewString returns.
  unfoldable pub upload_complete : ℕ → ℕ → ℕ → Option ℕ → Option ℕ → Handler Body
  upload_complete now object file user upload = do
    owner ← some_or user (fail 401 "authentication required")
    id ← some_or upload (fail 400 "invalid upload id")
    stop_if faults.begin (fail 500 "could not begin complete transaction")
    s ← transaction (complete_tx now object file owner id)
    insert_audit faults.audit
        (record { user = some owner; action = "upload.completed"; target = some id })
    modify (λ w. record w { uploaded_total = w.uploaded_total + s.uploaded_bytes })
    return (respond 200 (finished id (some file)))
