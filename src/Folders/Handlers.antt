-- ===== src/Folders/Handlers.antt =====
-- createFolder, renameFolder and moveFolder of backend/internal/http/folders.go.
use personal_space.Prelude.{
  ℕ, Bool, false, ◌&&◌, not, String, Text, text_eq, List, ◌∷◌, Option, none, some, Result, ok, err,
  ◌==◌, if◌then◌else◌, find, any, update_where, is_empty, stop, stop_if, some_or, lift, gets,
  modify, return, ◌>>=◌, ◌>>◌,
}
use personal_space.Database.Rows.{
  Database, FolderRow, Executed, done, unique_violation, broken, same_id, is_live, live_folder_of,
}
use personal_space.Database.Tree.{in_subtree}
use personal_space.Server.Names.{normalize_node_name}
use personal_space.Server.World.{Response, respond, Action, Handler, insert_audit}
use personal_space.Uploads.Init.{OptionalId, absent, invalid, given}
use personal_space.Uploads.Session.{validate_parent_ownership}
use personal_space.Nodes.Handlers.{Updated, failed, conflict, no_row, changed}

pub data FolderReply : Type 0 where
  error : String → FolderReply
  created : ℕ → Text → Option ℕ → FolderReply
  renamed : ℕ → Text → FolderReply
  ok_true : FolderReply

abbrev pub fail : ℕ → String → Response FolderReply
fail code message = respond code (error message)

-- owner_id=$2 AND deleted_at IS NULL
abbrev pub owned_live : ℕ → FolderRow → Bool
owned_live owner f = f.owner == owner && is_live f.deleted_at

-- uq_folders_owner_parent_name_active: a NULL parent is never equal to another one.
abbrev pub folder_clash : FolderRow → FolderRow → Bool
folder_clash new old =
    new.owner == old.owner
    && same_id new.parent old.parent
    && text_eq new.name old.name
    && is_live old.deleted_at

-- INSERT INTO folders
unfoldable pub insert_folder : Bool → FolderRow → Database → Executed
insert_folder fault row db =
    if fault
    then broken
    else if any (folder_clash row) db.folders
    then unique_violation
    else done (record db { folders = row ∷ db.folders })

abbrev clashes : ℕ → FolderRow → List FolderRow → Bool
clashes id new rows = any (λ old. not (old.id == id) && folder_clash new old) rows

-- UPDATE folders SET … WHERE id=$1 AND owner_id=$2 AND deleted_at IS NULL
unfoldable pub update_folder : Bool → ℕ → ℕ → (FolderRow → FolderRow) → Database → Updated
update_folder fault id owner f db =
    if fault then failed else elim (find (live_folder_of id owner) db.folders) [
      | none ↦ no_row
      | some row ↦
          if clashes id (f row) db.folders
          then conflict
          else changed (record db { folders = update_where (live_folder_of id owner) f db.folders })
    ]

abbrev updated_or : Updated → String → String → Action FolderReply (Unit {0})
updated_or failed taken message = stop (fail 500 message)
updated_or conflict taken message = stop (fail 409 taken)
updated_or no_row taken message = stop (fail 404 "folder not found")
updated_or (changed db) taken message = modify (λ w. record w { db = db })

abbrev inserted_or : Executed → Action FolderReply (Unit {0})
inserted_or broken = stop (fail 500 "could not create folder")
inserted_or unique_violation =
    stop (fail 409 "an item with this name already exists in this folder")
inserted_or (done db) = modify (λ w. record w { db = db })

-- optionalUUIDPtr, with its answer.
abbrev parent_or : OptionalId → Result (Response FolderReply) (Option ℕ)
parent_or absent = ok none
parent_or invalid = err (fail 400 "invalid parentId")
parent_or (given id) = ok (some id)

abbrev or_bad_request : Result String (Unit {0}) → Result (Response FolderReply) (Unit {0})
or_bad_request (ok u) = ok u
or_bad_request (err message) = err (fail 400 message)

abbrev pub new_folder : ℕ → ℕ → ℕ → Option ℕ → Text → FolderRow
new_folder now id owner parent name = record {
  id = id;
  owner = owner;
  parent = parent;
  name = name;
  updated_at = now;
  deleted_at = none;
}

pub record CreateBody : Type 0 where
  pub parent : OptionalId
  pub name : Text

-- `parentID != nil && *parentID == folderID`
abbrev pub is_id : Option ℕ → ℕ → Bool
is_id none id = false
is_id (some p) id = p == id

abbrev pub move_to : ℕ → Option ℕ → FolderRow → FolderRow
move_to now parent f = record f { parent = parent; updated_at = now }

-- The calls of the database that may fail.
pub record FolderFaults : Type 0 where
  pub parent : Bool
  pub subtree : Bool
  pub write : Bool
  pub audit : Bool

module _ (faults : FolderFaults) (now : ℕ) where
  -- createFolder; `id` is the new uuid, and `body` is `none` where it does not decode.
  unfoldable pub create_folder : ℕ → Option ℕ → Option CreateBody → Handler FolderReply
  create_folder id user body = do
    owner ← some_or user (fail 401 "authentication required")
    req ← some_or body (fail 400 "invalid request body")
    let name = normalize_node_name req.name
    stop_if (is_empty name) (fail 400 "folder name is required")
    parent ← lift (parent_or req.parent)
    checked ← gets (λ w. validate_parent_ownership faults.parent owner parent w.db)
    lift (or_bad_request checked)
    result ← gets (λ w. insert_folder faults.write (new_folder now id owner parent name) w.db)
    inserted_or result
    insert_audit faults.audit
        (record { user = some owner; action = "folder.created"; target = some id })
    return (respond 201 (created id name parent))

  -- renameFolder
  unfoldable pub rename_folder : Option ℕ → Option ℕ → Option Text → Handler FolderReply
  rename_folder user folder body = do
    owner ← some_or user (fail 401 "authentication required")
    id ← some_or folder (fail 400 "invalid folder id")
    raw ← some_or body (fail 400 "invalid request body")
    let name = normalize_node_name raw
    stop_if (is_empty name) (fail 400 "name is required")
    result ← gets (λ w.
        update_folder faults.write id owner (λ f. record f { name = name; updated_at = now }) w.db)
    updated_or result "an item with this name already exists in this folder"
        "could not rename folder"
    insert_audit faults.audit
        (record { user = some owner; action = "folder.renamed"; target = some id })
    return (respond 200 (renamed id name))

  -- The recursive query from the folder down; no parent needs none.
  abbrev check_subtree : ℕ → ℕ → Option ℕ → Action FolderReply (Unit {0})
  check_subtree id owner none = return tt
  check_subtree id owner (some p) = do
    stop_if faults.subtree (fail 500 "could not validate destination folder")
    below ← gets (λ w. in_subtree (owned_live owner) w.db.folders id p)
    stop_if below (fail 400 "cannot move folder into its own subtree")

  -- moveFolder
  unfoldable pub move_folder : Option ℕ → Option ℕ → Option OptionalId → Handler FolderReply
  move_folder user folder body = do
    owner ← some_or user (fail 401 "authentication required")
    id ← some_or folder (fail 400 "invalid folder id")
    req ← some_or body (fail 400 "invalid request body")
    parent ← lift (parent_or req)
    stop_if (is_id parent id) (fail 400 "cannot move folder into itself")
    checked ← gets (λ w. validate_parent_ownership faults.parent owner parent w.db)
    lift (or_bad_request checked)
    check_subtree id owner parent
    result ← gets (λ w. update_folder faults.write id owner (move_to now parent) w.db)
    updated_or result "an item with this name already exists in destination folder"
        "could not move folder"
    insert_audit faults.audit
        (record { user = some owner; action = "folder.moved"; target = some id })
    return (respond 200 ok_true)
