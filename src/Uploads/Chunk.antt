-- ===== src/Uploads/Chunk.antt =====
-- uploadChunk of backend/internal/http/uploads.go.
use personal_space.Prelude.{
  ℕ, ◌+◌, ◌-◌, Bool, true, false, not, String, Text, Option, none, some, Result, ok, err, ◌==◌,
  if◌then◌else◌, trim_space, is_empty, ℤ, pos, add64, return, stop, stop_if, some_or, lift, gets,
  modify, ◌>>=◌, ◌>>◌,
}
use personal_space.Database.Rows.{UploadSession, UploadStatus, initialized, uploading, paused}
use personal_space.Storage.Path.{CleanPath, StorageError}
use personal_space.Storage.Path
use personal_space.Storage.Files.{Stream, DiskFaults, append_at}
use personal_space.Settings.Upload.{UploadSettings, SettingsFaults, get_upload_settings}
use personal_space.Server.Numbers.{parse_int64}
use personal_space.Server.World.{Response, respond, Action, Handler, transaction, on_disk}
use personal_space.Uploads.Session.{
  Body, fail, not_writable, offset_mismatch, progress, load_session, update_session, mark_failed,
  bound_of, limit_reader, over_max, over_total,
}

-- The calls that may fail, `true` for a failure.
pub record ChunkFaults : Type 0 where
  pub settings : SettingsFaults
  pub begin : Bool
  pub load : Bool
  pub disk : DiskFaults
  pub save : Bool
  pub commit : Bool

-- `upload` is the outcome of uuid.Parse; `offset` is the header Upload-Offset, empty where absent.
pub record ChunkRequest : Type 0 where
  pub upload : Option ℕ
  pub offset : Text
  pub body : Stream

abbrev pub is_writable : UploadStatus → Bool
is_writable initialized = true
is_writable uploading = true
is_writable paused = true
is_writable _ = false

abbrev parsed_offset : Option ℤ → ℕ → Result (Response Body) (Unit {0})
parsed_offset (some (pos offset)) uploaded =
    if offset == uploaded then ok tt else err (respond 409 (offset_mismatch uploaded))
parsed_offset _ uploaded = err (fail 400 "invalid Upload-Offset")

-- A header that is given must parse, and be the offset that the session has.
unfoldable pub check_offset : Text → ℕ → Result (Response Body) (Unit {0})
check_offset header uploaded =
    if is_empty (trim_space header)
    then ok tt
    else parsed_offset (parse_int64 (trim_space header)) uploaded

-- The update to 'failed' stands in the transaction, and the early return rolls it back.
abbrev pub fail_session : {A : Type 0} → String → ℕ → Response Body → Action Body A
fail_session message upload answer = modify (mark_failed message upload) >> stop answer

abbrev pub too_large : Response Body
too_large = fail 413 "This file exceeds the maximum allowed upload size."

abbrev pub max_message : String
max_message = "file exceeds max upload size"

-- The request's body, cut one byte past what the policy leaves room for.
unfoldable pub admitted : Option ℤ → ℕ → Stream → Stream
admitted (some (pos max)) uploaded body = limit_reader (add64 (max - uploaded) 1) body
admitted _ uploaded body = body

unfoldable pub chunk_reader : Option ℤ → UploadSession → Stream → Action Body Stream
chunk_reader max session body =
    if over_max max session.uploaded_bytes
    then fail_session max_message session.id too_large
    else return (admitted max session.uploaded_bytes body)

abbrev append_failed : {A : Type 0} → StorageError → ℕ → Action Body A
append_failed Path.offset_mismatch uploaded = stop (respond 409 (offset_mismatch uploaded))
append_failed _ uploaded = stop (fail 500 "could not write upload chunk")

abbrev written_or : Result StorageError ℕ → ℕ → Action Body ℕ
written_or (ok n) uploaded = return n
written_or (err e) uploaded = append_failed e uploaded

-- The bounds that hold after the bytes have been written.
unfoldable pub check_bounds : Option ℤ → UploadSession → ℕ → Action Body (Unit {0})
check_bounds max session offset =
    if over_max max offset
    then fail_session max_message session.id too_large
    else if over_total session.total_size offset
    then fail_session "uploaded data exceeds declared size" session.id
        (fail 409 "uploaded bytes exceed declared total size")
    else return tt

-- UPDATE upload_sessions SET uploaded_bytes=$1, status='uploading', error_message=NULL
abbrev pub advance : ℕ → UploadSession → UploadSession
advance offset s = record s { uploaded_bytes = offset; status = uploading; error_message = none }

module _ (root : CleanPath) (faults : ChunkFaults) where
  -- The block between Begin and Commit.
  unfoldable pub chunk_tx : UploadSettings → ℕ → ℕ → ChunkRequest → Handler Body
  chunk_tx cfg user upload req = do
    session ← load_session faults.load user upload
    stop_if (not (is_writable session.status))
        (respond 409 (not_writable "upload session is not writable" session.status))
    lift (check_offset req.offset session.uploaded_bytes)
    reader ← chunk_reader (bound_of cfg) session req.body
    result ← on_disk (append_at root faults.disk session.temp_key session.uploaded_bytes reader)
    written ← written_or result session.uploaded_bytes
    let offset = session.uploaded_bytes + written
    check_bounds (bound_of cfg) session offset
    stop_if faults.save (fail 500 "could not update upload session")
    modify (update_session upload (advance offset))
    stop_if faults.commit (fail 500 "could not commit upload chunk")
    return (respond 200 (progress upload offset session.total_size uploading))

  -- uploadChunk; `user` is the user that the session cookie stands for.
  unfoldable pub upload_chunk : Option ℕ → ChunkRequest → Handler Body
  upload_chunk user req = do
    owner ← some_or user (fail 401 "authentication required")
    upload ← some_or req.upload (fail 400 "invalid upload id")
    stored ← gets (λ w. get_upload_settings faults.settings w.db.settings)
    cfg ← some_or stored (fail 500 "could not load upload settings")
    stop_if faults.begin (fail 500 "could not begin upload chunk transaction")
    transaction (chunk_tx cfg owner upload req)
