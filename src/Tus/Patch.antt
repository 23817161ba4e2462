-- ===== src/Tus/Patch.antt =====
-- tusPatch and finalizeTusSessionTx of backend/internal/http/tus.go.
use personal_space.Prelude.{
  ℕ, ◌+◌, ◌-◌, Bool, true, false, not, Text, codes, Option, none, some, Result, ok, err, ltb, ◌==◌,
  trim_space, has_prefix, ℤ, pos, add64, gets, some_or, stop_if, return, stop, modify, ◌>>=◌, ◌>>◌,
}
use personal_space.Database.Rows.{
  UploadSession, Executed, done, unique_violation, broken, insert_file, uploading,
}
use personal_space.Storage.Path.{CleanPath, StorageError}
use personal_space.Storage.Files.{Stream, DiskFaults, append_at, move}
use personal_space.Server.Numbers.{parse_int64}
use personal_space.Server.World.{Response, Action, Handler, transaction, on_disk, insert_audit}
use personal_space.Uploads.Session.{
  update_session, add_usage, ensure_quota_allows_size, mark_failed, limit_reader,
}
use personal_space.Uploads.Init.{Keys}
use personal_space.Uploads.Complete.{
  CompleteFaults, is_terminal, is_completed, file_of, set_db, complete_session,
}
use personal_space.Tus.Reply.{Reply, fail, at_offset, version_ok, wrong_version, load_or}

-- `commit` and `load` of CompleteFaults stand for the block of tusPatch that calls the finalization.
pub record PatchFaults : Type 0 where
  pub append : DiskFaults
  pub save : Bool
  pub complete : CompleteFaults

-- The headers Tus-Resumable, Content-Type and Upload-Offset, uuid.Parse of the id, and the body.
pub record PatchRequest : Type 0 where
  pub version : Text
  pub content_type : Text
  pub upload : Option ℕ
  pub offset : Text
  pub body : Stream

abbrev not_negative : Option ℤ → Option ℕ
not_negative (some (pos n)) = some n
not_negative _ = none

-- The header Upload-Offset, which must be there.
unfoldable pub offset_of : Text → Option ℕ
offset_of header = not_negative (parse_int64 (trim_space header))

abbrev pub chunk_type : Text
chunk_type = codes "application/offset+octet-stream"

-- SET uploaded_bytes=$1, status='uploading'
abbrev pub moved_on : ℕ → UploadSession → UploadSession
moved_on offset s = record s { uploaded_bytes = offset; status = uploading }

module _ (root : CleanPath) (keys : Keys) (faults : PatchFaults) where
  -- Every error of finalizeTusSessionTx becomes this answer of tusPatch.
  abbrev not_finalized : Response Reply
  not_finalized = fail 500 "could not finalize tus upload"

  abbrev move_back : {A : Type 0} → Text → Text → Action Reply A
  move_back final temp =
      on_disk (move root faults.complete.undo final temp) >>= λ _. stop not_finalized

  abbrev back_if : Bool → Text → Text → Action Reply (Unit {0})
  back_if true final temp = move_back final temp
  back_if false final temp = return tt

  abbrev moved_or : Result StorageError (Unit {0}) → Action Reply (Unit {0})
  moved_or (ok u) = return u
  moved_or (err e) = stop not_finalized

  abbrev inserted_or : Executed → Text → Text → Action Reply (Unit {0})
  inserted_or (done db) final temp = modify (set_db db)
  inserted_or unique_violation final temp = move_back final temp
  inserted_or broken final temp = move_back final temp

  -- finalizeTusSessionTx; the audit entry and the counter are written before the caller's Commit.
  unfoldable pub finalize_tus_session_tx : ℕ → ℕ → ℕ → UploadSession → Action Reply (Unit {0})
  finalize_tus_session_tx now object file s = do
    let final = keys.final s.owner now object
    moved ← on_disk (move root faults.complete.disk s.temp_key final)
    moved_or moved
    inserted ←
        gets (λ w. insert_file faults.complete.insert (file_of now file s.owner final s) w.db)
    inserted_or inserted final s.temp_key
    back_if faults.complete.usage final s.temp_key
    modify (λ w. set_db (add_usage s.owner s.uploaded_bytes w.db) w)
    allowed ← gets (λ w. ensure_quota_allows_size faults.complete.quota s.owner w.db)
    back_if (not allowed) final s.temp_key
    back_if faults.complete.save final s.temp_key
    modify (update_session s.id (complete_session file))
    insert_audit faults.complete.audit
        (record { user = some s.owner; action = "upload.completed"; target = some s.id })
    modify (λ w. record w { uploaded_total = w.uploaded_total + s.uploaded_bytes })

  abbrev finalize_if : Bool → ℕ → ℕ → ℕ → UploadSession → Action Reply (Unit {0})
  finalize_if true now object file s = finalize_tus_session_tx now object file s
  finalize_if false now object file s = return tt

  abbrev written_or : Result StorageError ℕ → Action Reply ℕ
  written_or (ok n) = return n
  written_or (err e) = stop (fail 500 "could not append upload chunk")

  -- The update to 'failed' is rolled back by the return that follows it.
  abbrev past_total : Bool → ℕ → Action Reply (Unit {0})
  past_total true upload =
      modify (mark_failed "uploaded data exceeds declared total size" upload)
      >> stop (fail 409 "uploaded data exceeds declared total size")
  past_total false upload = return tt

  -- The block between Begin and Commit.
  unfoldable pub patch_tx : ℕ → ℕ → ℕ → ℕ → ℕ → ℕ → Stream → Handler Reply
  patch_tx now object file owner upload offset body = do
    s ←
        load_or faults.complete.load owner upload (fail 404 "upload session not found")
          (fail 500 "could not load upload session")
    total ← some_or s.total_size (fail 400 "missing total size")
    stop_if (is_completed s.status) (at_offset 204 s.uploaded_bytes)
    stop_if (is_terminal s.status) (fail 409 "upload session is not writable")
    stop_if (not (offset == s.uploaded_bytes)) (at_offset 409 s.uploaded_bytes)
    result ← on_disk (
        append_at root faults.append s.temp_key s.uploaded_bytes
          (limit_reader (add64 (total - s.uploaded_bytes) 1) body))
    written ← written_or result
    let new_offset = s.uploaded_bytes + written
    past_total (ltb total new_offset) upload
    stop_if faults.save (fail 500 "could not update upload session")
    modify (update_session upload (moved_on new_offset))
    finalize_if (new_offset == total) now object file (record s { uploaded_bytes = new_offset })
    stop_if faults.complete.commit (fail 500 "could not commit tus upload chunk")
    return (at_offset 204 new_offset)

  unfoldable pub tus_patch : ℕ → ℕ → ℕ → Option ℕ → PatchRequest → Handler Reply
  tus_patch now object file user req = do
    stop_if (not (version_ok req.version)) wrong_version
    stop_if (not (has_prefix (trim_space req.content_type) chunk_type))
        (fail 415 "Content-Type must be application/offset+octet-stream")
    owner ← some_or user (fail 401 "authentication required")
    upload ← some_or req.upload (fail 404 "upload session not found")
    offset ← some_or (offset_of req.offset) (fail 400 "invalid Upload-Offset")
    stop_if faults.complete.begin (fail 500 "could not begin tus transaction")
    transaction (patch_tx now object file owner upload offset req.body)
