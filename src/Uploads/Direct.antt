-- ===== src/Uploads/Direct.antt =====
-- uploadFiles and copyPartToStorage of backend/internal/http/files.go: the upload of a form.
use personal_space.Prelude.{
  ℕ, zero, suc, ◌+◌, Bool, true, false, not, String, Text, codes, text_eq, Option, none, some,
  Result, ok, err, List, [], ◌∷◌, ◌++◌, ◌==◌, if◌then◌else◌, length, trim_space, is_empty, ℤ, Exec,
  return, stop, stop_if, gets, modify, ◌>>=◌, ◌>>◌,
}
use personal_space.Database.Rows.{FileRow, Executed, done, unique_violation, broken, insert_file}
use personal_space.Storage.Path.{CleanPath, StorageError}
use personal_space.Storage.Files.{Bytes, DiskFaults, put_stream, move, delete, path_of}
use personal_space.Settings.Upload.{SettingsFaults, get_upload_settings}
use personal_space.Server.Names.{normalize_node_name, base}
use personal_space.Server.World.{World, Response, respond, transaction, on_disk, insert_audit}
use personal_space.Uploads.Init.{Keys, exceeds}
use personal_space.Uploads.Session.{
  can_user_store_bytes, ensure_quota_allows_size, add_usage, validate_parent_ownership,
}

-- A part of the form: what its reader delivers, piece by piece, and the error at which it ends.
pub record Part : Type 0 where
  pub form_name : Text
  pub file_name : Text
  pub chunks : List Bytes
  pub broken_by : Option Text

-- What http.DetectContentType and mime.ExtensionsByType make of the first bytes.
pub record Sniffed : Type 0 where
  pub mime : Option Text
  pub extension : Option Text

-- The calls that may fail on the way of one part. `reads` is `none` where the disk takes all that the
-- pipe brings, and else the number of pieces that it takes until a write fails, with the last of them.
pub record PartFaults : Type 0 where
  pub put : DiskFaults
  pub reads : Option ℕ
  pub clean : DiskFaults
  pub disk : DiskFaults
  pub quota : Bool
  pub begin : Bool
  pub insert : Bool
  pub usage : Bool
  pub check : Bool
  pub commit : Bool
  pub audit : Bool

-- Why a part is no file: it is passed over, it is listed with an error, it ends the request with the
-- status 413, or the handler waits for ever.
pub data PartEnd : Type 0 where
  skips too_large hangs : PartEnd
  rejects : Text → PartEnd

-- An entry of the results.
pub data Uploaded : Type 0 where
  uploaded : ℕ → Text → Text → ℕ → Uploaded
  rejected : Text → Text → Uploaded

-- How the goroutine ends: with an error that it reports, or not at all, since a write to a pipe whose
-- other end is not closed waits until it is read. Nobody closes this one before the goroutine reports.
pub data PumpError : Type 0 where
  upload_exceeded blocked : PumpError
  read_failed : Text → PumpError

pub record Pumped : Type 0 where
  pub sent : Bytes
  pub error : Option PumpError

abbrev pub ended : Option Text → Option PumpError
ended none = none
ended (some e) = some (read_failed e)

abbrev pub is_over : Option ℕ → Bool
is_over (some zero) = true
is_over _ = false

abbrev pub one_less : Option ℕ → Option ℕ
one_less none = none
one_less (some zero) = some zero
one_less (some (suc n)) = some n

-- The loop of the goroutine, against the reader of the pipe, who takes one piece a write and returns
-- after `reads` of them: a piece that would pass the bound is not sent, and one that nobody takes any
-- more blocks. `size` counts what was sent; a piece is a part.Read, and an empty one is passed over.
unfoldable pub pump : Option ℤ → Option Text → Option ℕ → ℕ → List Bytes → Pumped
pump max broken_by reads size [] = record { sent = []; error = ended broken_by }
pump max broken_by reads size (c ∷ cs) =
    let skipped = pump max broken_by reads size cs in
    let rest = pump max broken_by (one_less reads) (size + length c) cs in
    if is_empty c
    then skipped
    else if exceeds max (size + length c)
    then record { sent = []; error = some upload_exceeded }
    else if is_over reads
    then record { sent = []; error = some blocked }
    else record { sent = c ++ rest.sent; error = rest.error }

-- The pieces that PutStream takes: none where it gives up before it copies, and all where no write fails.
abbrev pub taken : CleanPath → DiskFaults → Text → Option ℕ → Option ℕ
taken root faults key reads = elim (path_of root key) [
  | ok p ↦ if faults.setup then some 0 else reads
  | err e ↦ some 0
]

abbrev pub stops : Option ℕ → Bool
stops none = false
stops (some n) = true

module _ (root : CleanPath) (storage_text : StorageError → Text) where
  abbrev pub stored_or : Result StorageError (Unit {0}) → Exec World PartEnd (Unit {0})
  stored_or (ok u) = return u
  stored_or (err e) = stop (rejects (storage_text e))

  abbrev pub pumped_or : Option PumpError → Exec World PartEnd (Unit {0})
  pumped_or none = return tt
  pumped_or (some upload_exceeded) = stop too_large
  pumped_or (some blocked) = stop hangs
  pumped_or (some (read_failed e)) = stop (rejects e)

  -- copyPartToStorage: the size. PutStream reads from the pipe, and then the goroutine's error is
  -- waited for, which never comes from one that is blocked.
  unfoldable pub copy_part_to_storage : PartFaults → Text → Option ℤ → Part → Exec World PartEnd ℕ
  copy_part_to_storage faults key max part = do
    let sent = pump max part.broken_by (taken root faults.put key faults.reads) 0 part.chunks
    written ←
        on_disk (
          put_stream root faults.put key (record { bytes = sent.sent; fails = stops faults.reads }))
    pumped_or sent.error
    stored_or written
    return (length sent.sent)

abbrev pub direct_row : ℕ → ℕ → ℕ → Option ℕ → Text → Text → Text → ℕ → Sniffed → FileRow
direct_row now id owner folder name original key size sniffed = record {
  id = id;
  owner = owner;
  folder = folder;
  name = name;
  original_name = original;
  storage_key = key;
  size = size;
  mime = sniffed.mime;
  extension = sniffed.extension;
  updated_at = now;
  deleted_at = none;
}

abbrev inserted_or : Executed → Exec World PartEnd (Unit {0})
inserted_or (done db) = modify (λ w. record w { db = db })
inserted_or unique_violation =
    stop (rejects (codes "an item with this name already exists in this folder"))
inserted_or broken = stop (rejects (codes "could not persist file metadata"))

-- From the INSERT to the Commit.
unfoldable pub persist_tx : PartFaults → ℕ → FileRow → Exec World PartEnd (Unit {0})
persist_tx faults owner row = do
  inserted ← gets (λ w. insert_file faults.insert row w.db)
  inserted_or inserted
  stop_if faults.usage (rejects (codes "could not update user usage"))
  modify (λ w. record w { db = add_usage owner row.size w.db })
  allowed ← gets (λ w. ensure_quota_allows_size faults.check owner w.db)
  stop_if (not allowed) (rejects (codes "upload exceeds your storage quota"))
  stop_if faults.commit (rejects (codes "could not commit upload"))

abbrev quota_or : Option Bool → Exec World PartEnd (Unit {0})
quota_or none = stop (rejects (codes "could not validate user storage quota"))
quota_or (some false) = stop (rejects (codes "upload exceeds your storage quota"))
quota_or (some true) = return tt

-- What stands between the Move and the audit entry.
unfoldable pub persist : PartFaults → ℕ → FileRow → Exec World PartEnd (Unit {0})
persist faults owner row = do
  allowed ← gets (λ w. can_user_store_bytes faults.quota owner row.size w.db)
  quota_or allowed
  stop_if faults.begin (rejects (codes "could not persist file metadata"))
  transaction (persist_tx faults owner row)

abbrev pub removed_on :
    {A : Type 0}
    → CleanPath
    → DiskFaults
    → Text
    → Result PartEnd A × World
    → Result PartEnd A × World
removed_on root faults key (ok a, w) = (ok a, w)
removed_on root faults key (err hangs, w) = (err hangs, w)
removed_on root faults key (err e, w) =
    (err e, record w { disk = (delete root faults key w.disk).1 })

-- `_ = h.Storage.Delete(key)` where the part of the work before has failed.
abbrev pub or_delete :
    {A : Type 0} → CleanPath → DiskFaults → Text → Exec World PartEnd A → Exec World PartEnd A
or_delete root faults key m w = removed_on root faults key (m w)

abbrev pub moved_or : Result StorageError (Unit {0}) → Exec World PartEnd (Unit {0})
moved_or (ok u) = return u
moved_or (err e) = stop (rejects (codes "could not finalize uploaded file"))

-- A part with what is drawn for it: the time and the new uuid.
pub record PartRun : Type 0 where
  pub part : Part
  pub now : ℕ
  pub id : ℕ
  pub faults : PartFaults

module _ (root : CleanPath) (storage_text : StorageError → Text) (sniff : Bytes → Sniffed)
    (keys : Keys) (max : Option ℤ) (owner : ℕ) (folder : Option ℕ) where
  abbrev pub target_name : Part → Text
  target_name part = normalize_node_name (base (trim_space part.file_name))

  abbrev pub row_of : PartRun → ℕ → FileRow
  row_of run size =
      direct_row run.now run.id owner folder (target_name run.part) (trim_space run.part.file_name)
        (keys.final owner run.now run.id) size
        (sniff (pump max run.part.broken_by none 0 run.part.chunks).sent)

  -- From the INSERT to the answer.
  unfoldable pub record_part : PartRun → ℕ → Exec World PartEnd Uploaded
  record_part run size = do
    let final = keys.final owner run.now run.id
    or_delete root run.faults.clean final (persist run.faults owner (row_of run size))
    modify (λ w. record w { uploaded_total = w.uploaded_total + size })
    insert_audit run.faults.audit
        (record { user = some owner; action = "file.uploaded"; target = some run.id })
    return (uploaded run.id (target_name run.part) (trim_space run.part.file_name) size)

  -- From the copy on.
  unfoldable pub store_part : PartRun → Exec World PartEnd Uploaded
  store_part run = do
    let temp = keys.temp owner run.id
    let final = keys.final owner run.now run.id
    size ←
        or_delete root run.faults.clean temp
          (copy_part_to_storage root storage_text run.faults temp max run.part)
    or_delete root run.faults.clean temp
        (on_disk (move root run.faults.disk temp final) >>= moved_or)
    record_part run size

  -- One round of the loop.
  unfoldable pub upload_part : PartRun → Exec World PartEnd Uploaded
  upload_part run = do
    stop_if (not (text_eq run.part.form_name (codes "file"))) skips
    stop_if (is_empty (trim_space run.part.file_name)) skips
    stop_if (is_empty (target_name run.part)) (rejects (codes "invalid file name"))
    store_part run

pub data DirectReply : Type 0 where
  error : String → DirectReply
  results : List Uploaded → DirectReply

abbrev original_of : PartRun → Text
original_of run = trim_space run.part.file_name

abbrev too_large_message : Text
too_large_message = codes "This file exceeds the maximum allowed upload size."

abbrev status_of : ℕ → ℕ
status_of created = if created == 0 then 400 else 201

-- `mr.NextPart()` after the last part: the end of the form, or an error.
abbrev pub after_parts : Bool → List Uploaded → ℕ → Response DirectReply
after_parts malformed rs created =
    if malformed
    then respond 400 (error "invalid multipart data")
    else respond (status_of created) (results rs)

module _ (root : CleanPath) (storage_text : StorageError → Text) (sniff : Bytes → Sniffed)
    (keys : Keys) where
  -- The loop over the parts; no answer is a handler that waits for ever.
  unfoldable pub upload_parts :
      Option ℤ
      → ℕ
      → Option ℕ
      → Bool
      → List PartRun
      → List Uploaded
      → ℕ
      → World
      → Option (Response DirectReply) × World
  upload_parts max owner folder malformed [] rs created w =
      (some (after_parts malformed rs created), w)
  upload_parts max owner folder malformed (run ∷ runs) rs created w =
      let (r, after) = upload_part root storage_text sniff keys max owner folder run w in
      elim r [
        | ok u ↦ upload_parts max owner folder malformed runs (rs ++ u ∷ []) (suc created) after
        | err skips ↦ upload_parts max owner folder malformed runs rs created after
        | err (rejects e) ↦
            upload_parts max owner folder malformed runs (rs ++ rejected (original_of run) e ∷ [])
              created after
        | err too_large ↦ (
          some (respond 413 (results (rs ++ rejected (original_of run) too_large_message ∷ []))),
          after,
        )
        | err hangs ↦ (none, after)
      ]

  abbrev checked_upload :
      SettingsFaults
      → ℕ
      → Option ℕ
      → Bool
      → Option (List PartRun)
      → Result String (Unit {0})
      → World
      → Option (Response DirectReply) × World
  checked_upload faults owner folder malformed runs (err message) w =
      (some (respond 400 (error message)), w)
  checked_upload faults owner folder malformed runs (ok u) w =
      elim (get_upload_settings faults w.db.settings) [
        | none ↦ (some (respond 500 (error "could not read upload settings")), w)
        | some cfg ↦ elim runs [
          | none ↦ (some (respond 400 (error "expected multipart/form-data body")), w)
          | some parts ↦ upload_parts cfg.max_bytes owner folder malformed parts [] 0 w
        ]
      ]

  -- uploadFiles; `folder` is what optionalUUIDFromQuery lets through, an error where it does not, and
  -- `runs` is `none` where the body is no form.
  unfoldable pub upload_files :
      SettingsFaults
      → Bool
      → Option ℕ
      → Result String (Option ℕ)
      → Bool
      → Option (List PartRun)
      → World
      → Option (Response DirectReply) × World
  upload_files faults parent none folder malformed runs w =
      (some (respond 401 (error "authentication required")), w)
  upload_files faults parent (some owner) (err message) malformed runs w =
      (some (respond 400 (error message)), w)
  upload_files faults parent (some owner) (ok folder) malformed runs w =
      checked_upload faults owner folder malformed runs
        (validate_parent_ownership parent owner folder w.db) w
