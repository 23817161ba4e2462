-- ===== src/Nodes/Handlers.antt =====
-- renameFile, moveFile and deleteFile of backend/internal/http/files.go.
use personal_space.Prelude.{
  ℕ, ◌-◌, Bool, ◌&&◌, not, String, Text, List, Option, none, some, Result, ok, err, ◌==◌,
  if◌then◌else◌, find, any, update_where, is_empty, stop, stop_if, some_or, lift, gets, modify,
  return, ◌>>=◌, ◌>>◌,
}
use personal_space.Database.Rows.{Database, FileRow, UserRow, user_of, file_clash, is_live}
use personal_space.Storage.Path.{CleanPath}
use personal_space.Storage.Files.{DiskFaults, delete}
use personal_space.Server.Names.{normalize_node_name}
use personal_space.Server.World.{
  World, Response, respond, Action, Handler, transaction, on_disk, insert_audit,
}
use personal_space.Uploads.Session.{validate_parent_ownership}

pub data NodeReply : Type 0 where
  error : String → NodeReply
  renamed : ℕ → Text → NodeReply
  ok_true : NodeReply

abbrev pub fail : ℕ → String → Response NodeReply
fail code message = respond code (error message)

-- WHERE id=$1 AND owner_id=$2 AND deleted_at IS NULL
abbrev pub own_live_file : ℕ → ℕ → FileRow → Bool
own_live_file id owner f = f.id == id && f.owner == owner && is_live f.deleted_at

-- What an UPDATE reports: it failed, met a unique index, matched no row, or changed the rows.
pub data Updated : Type 0 where
  failed conflict no_row : Updated
  changed : Database → Updated

-- Whether the changed row clashes with another live one.
abbrev clashes : ℕ → FileRow → List FileRow → Bool
clashes id new rows = any (λ old. not (old.id == id) && file_clash new old) rows

-- UPDATE files SET … on one live file of the owner; the name and the folder are indexed.
unfoldable pub update_file : Bool → ℕ → ℕ → (FileRow → FileRow) → Database → Updated
update_file fault id owner f db =
    if fault then failed else elim (find (own_live_file id owner) db.files) [
      | none ↦ no_row
      | some row ↦
          if clashes id (f row) db.files
          then conflict
          else changed (record db { files = update_where (own_live_file id owner) f db.files })
    ]

abbrev updated_or : Updated → String → String → Action NodeReply (Unit {0})
updated_or failed taken broken = stop (fail 500 broken)
updated_or conflict taken broken = stop (fail 409 taken)
updated_or no_row taken broken = stop (fail 404 "file not found")
updated_or (changed db) taken broken = modify (λ w. record w { db = db })

-- renameFile; `name` is `none` where the body does not decode.
unfoldable pub rename_file : Bool → Bool → ℕ → Option ℕ → Option ℕ → Option Text → Handler NodeReply
rename_file fault audit now user file name = do
  owner ← some_or user (fail 401 "authentication required")
  id ← some_or file (fail 400 "invalid file id")
  raw ← some_or name (fail 400 "invalid request body")
  let clean = normalize_node_name raw
  stop_if (is_empty clean) (fail 400 "name is required")
  result ←
      gets (λ w. update_file fault id owner (λ f. record f { name = clean; updated_at = now }) w.db)
  updated_or result "an item with this name already exists in this folder" "could not rename file"
  insert_audit audit (record { user = some owner; action = "file.renamed"; target = some id })
  return (respond 200 (renamed id clean))

abbrev or_bad_request : Result String (Unit {0}) → Result (Response NodeReply) (Unit {0})
or_bad_request (ok u) = ok u
or_bad_request (err message) = err (fail 400 message)

-- moveFile; `folder` is what optionalUUIDPtr lets through, an error where it does not.
unfoldable pub move_file :
    Bool
    → Bool
    → Bool
    → ℕ
    → Option ℕ
    → Option ℕ
    → Option (Result String (Option ℕ))
    → Handler NodeReply
move_file parent fault audit now user file body = do
  owner ← some_or user (fail 401 "authentication required")
  id ← some_or file (fail 400 "invalid file id")
  parsed ← some_or body (fail 400 "invalid request body")
  folder ← lift (elim parsed [ ok f ↦ ok f | err message ↦ err (fail 400 message) ])
  checked ← gets (λ w. validate_parent_ownership parent owner folder w.db)
  lift (or_bad_request checked)
  result ←
      gets
        (λ w. update_file fault id owner (λ f. record f { folder = folder; updated_at = now }) w.db)
  updated_or result "an item with this name already exists in destination folder"
      "could not move file"
  insert_audit audit (record { user = some owner; action = "file.moved"; target = some id })
  return (respond 200 ok_true)

pub record DeleteFaults : Type 0 where
  pub load : Bool
  pub begin : Bool
  pub update : Bool
  pub usage : Bool
  pub commit : Bool
  pub disk : DiskFaults
  pub audit : Bool

-- SET deleted_at=now(), status='deleted'
abbrev pub mark_deleted : ℕ → FileRow → FileRow
mark_deleted now f = record f { deleted_at = some now; updated_at = now }

-- SET used_storage_bytes = GREATEST(0, used_storage_bytes - $1)
abbrev pub release : ℕ → UserRow → UserRow
release size u = record u { used = u.used - size }

abbrev pub drop_file : ℕ → ℕ → ℕ → World → World
drop_file now id owner w = record w {
  db = record w.db { files = update_where (own_live_file id owner) (mark_deleted now) w.db.files };
}

abbrev pub release_usage : ℕ → ℕ → World → World
release_usage owner size w = record w {
  db = record w.db { users = update_where (user_of owner) (release size) w.db.users };
}

module _ (root : CleanPath) (faults : DeleteFaults) where
  -- From Begin to Commit; the row that was read before is still there.
  unfoldable pub delete_tx : ℕ → ℕ → ℕ → ℕ → Action NodeReply (Unit {0})
  delete_tx now id owner size = do
    stop_if faults.update (fail 500 "could not delete file")
    stays ← gets (λ w. any (own_live_file id owner) w.db.files)
    stop_if (not stays) (fail 404 "file not found")
    modify (drop_file now id owner)
    stop_if faults.usage (fail 500 "could not update usage")
    modify (release_usage owner size)
    stop_if faults.commit (fail 500 "could not commit delete")

  -- deleteFile
  unfoldable pub delete_file : ℕ → Option ℕ → Option ℕ → Handler NodeReply
  delete_file now user file = do
    owner ← some_or user (fail 401 "authentication required")
    id ← some_or file (fail 400 "invalid file id")
    stop_if faults.load (fail 500 "could not read file metadata")
    found ← gets (λ w. find (own_live_file id owner) w.db.files)
    rec ← some_or found (fail 404 "file not found")
    stop_if faults.begin (fail 500 "could not begin delete transaction")
    transaction (delete_tx now id owner rec.size)
    removed ← on_disk (delete root faults.disk rec.storage_key)
    insert_audit faults.audit
        (record { user = some owner; action = "file.deleted"; target = some id })
    return (respond 200 ok_true)
