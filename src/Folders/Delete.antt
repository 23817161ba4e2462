-- ===== src/Folders/Delete.antt =====
-- deleteFolder of backend/internal/http/folders.go.
use personal_space.Prelude.{
  ℕ, Bool, false, ◌&&◌, not, List, Option, none, some, ◌==◌, any, update_where, stop_if, some_or,
  gets, modify, return, ◌>>=◌, ◌>>◌,
}
use personal_space.Database.Rows.{FolderRow, FileRow, is_live, live_folder_of}
use personal_space.Database.Tree.{in_subtree}
use personal_space.Server.World.{respond, Action, Handler, transaction, insert_audit}
use personal_space.Nodes.Handlers.{mark_deleted}
use personal_space.Folders.Handlers.{FolderReply, ok_true, fail, owned_live}

pub record DeleteFaults : Type 0 where
  pub begin : Bool
  pub load : Bool
  pub folders : Bool
  pub files : Bool
  pub commit : Bool
  pub audit : Bool

-- owner_id=$2
abbrev pub owned : ℕ → FolderRow → Bool
owned owner f = f.owner == owner

abbrev pub mark_folder : ℕ → FolderRow → FolderRow
mark_folder now f = record f { deleted_at = some now; updated_at = now }

-- UPDATE folders … WHERE id IN (SELECT id FROM subfolders): the live folders of the tree.
unfoldable pub drop_folders : ℕ → ℕ → ℕ → List FolderRow → List FolderRow
drop_folders now id owner rows =
    update_where (λ f. in_subtree (owned_live owner) rows id f.id) (mark_folder now) rows

abbrev in_folders : ℕ → ℕ → List FolderRow → Option ℕ → Bool
in_folders id owner rows none = false
in_folders id owner rows (some folder) = in_subtree (owned owner) rows id folder

-- A live file of the owner in the tree, deleted folders included.
abbrev pub is_child_file : ℕ → ℕ → List FolderRow → FileRow → Bool
is_child_file id owner rows f =
    f.owner == owner && is_live f.deleted_at && in_folders id owner rows f.folder

-- UPDATE files … WHERE folder_id IN (SELECT id FROM subfolders)
unfoldable pub drop_files : ℕ → ℕ → ℕ → List FolderRow → List FileRow → List FileRow
drop_files now id owner rows files =
    update_where (is_child_file id owner rows) (mark_deleted now) files

module _ (faults : DeleteFaults) where
  -- From Begin to Commit.
  unfoldable pub delete_folder_tx : ℕ → ℕ → ℕ → Action FolderReply (Unit {0})
  delete_folder_tx now id owner = do
    stop_if faults.load (fail 500 "could not validate folder")
    present ← gets (λ w. any (live_folder_of id owner) w.db.folders)
    stop_if (not present) (fail 404 "folder not found")
    stop_if faults.folders (fail 500 "could not delete folder tree")
    modify (λ w. record w { db = record w.db { folders = drop_folders now id owner w.db.folders } })
    stop_if faults.files (fail 500 "could not delete child files")
    modify (λ w. record w {
      db = record w.db { files = drop_files now id owner w.db.folders w.db.files };
    })
    stop_if faults.commit (fail 500 "could not commit delete operation")

  -- deleteFolder
  unfoldable pub delete_folder : ℕ → Option ℕ → Option ℕ → Handler FolderReply
  delete_folder now user folder = do
    owner ← some_or user (fail 401 "authentication required")
    id ← some_or folder (fail 400 "invalid folder id")
    stop_if faults.begin (fail 500 "could not start delete transaction")
    transaction (delete_folder_tx now id owner)
    insert_audit faults.audit
        (record { user = some owner; action = "folder.deleted"; target = some id })
    return (respond 200 ok_true)
