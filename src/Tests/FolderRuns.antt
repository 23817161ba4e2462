-- ===== src/Tests/FolderRuns.antt =====
-- Requests on two folders, and a sorted listing.
use mathlib.Core.List.{Perm}
use personal_space.Prelude.{
  ℕ, suc, ◌≡◌, refl, false, List, [], ◌∷◌, Text, codes, none, some, Option, to_lower, length, ◌+◌,
}
use personal_space.Database.Rows.{FolderRow, FileRow, is_live}
use personal_space.Database.Tree.{Row, here, there, InTree, step, Below}
use personal_space.Server.World.{World, serve}
use personal_space.Uploads.Init.{given}
use personal_space.Folders.Handlers.{FolderFaults, owned_live, create_folder, move_folder}
use personal_space.Folders.Delete.{DeleteFaults, delete_folder, delete_folder_tx}
use personal_space.Folders.Sort.{BrowserItem, file, sort_browser_items, is_desc}
use personal_space.Folders.Listing.{select}
use personal_space.Folders.Acyclic.{NoCycle, IsFresh}
use personal_space.Folders.Requests.{FolderRun, done, next, creates, moves, FolderRun-NoCycle}
use personal_space.Folders.Deletion.{InFiles, AreDropped, AreFilesDropped, delete_folder-200}
use personal_space.Folders.Sorted.{IsOrdered, MayPrecede, is_level, sort_browser_items-IsOrdered}
use personal_space.Zip.Entries.{base_rows, levels, folder_tree}
use personal_space.Zip.Levels.{level}
use personal_space.Zip.Ends.{FolderRun-folder_tree}
use personal_space.Tests.Samples.{temp_key, database, no_files}

abbrev folder_row : ℕ → Option ℕ → FolderRow
folder_row id parent = record {
  id = id;
  owner = 1;
  parent = parent;
  name = codes "f";
  updated_at = 500;
  deleted_at = none;
}

abbrev note : FileRow
note = record {
  id = 3;
  owner = 1;
  folder = some 1;
  name = codes "a";
  original_name = codes "a";
  storage_key = temp_key;
  size = 4;
  mime = none;
  extension = none;
  updated_at = 500;
  deleted_at = none;
}

abbrev site : World
site = record {
  db = record (database []) { folders = folder_row 1 none ∷ []; files = note ∷ [] };
  disk = no_files;
  audit = [];
  uploaded_total = 0;
}

abbrev calm : FolderFaults
calm = record { parent = false; subtree = false; write = false; audit = false }

site_NoCycle : NoCycle 1 site.db.folders
site_NoCycle id depth t = one id depth t
  where
    one : (id depth : ℕ) → InTree (owned_live 1) (folder_row 1 none ∷ []) id (suc depth) id → ⊥
    one id _ (step _ f p d t here same parent holds) = cc
    one id _ (step _ f p d t (there r) same parent holds) = elim r [ ]

site-IsFresh : IsFresh 2 site.db.folders
site-IsFresh _ here = (cc, cc)
site-IsFresh f (there r) = elim r [ ]

abbrev grown : World
grown =
    (serve
      (create_folder calm 600 2 (some 1) (some (record { parent = given 1; name = codes "g" })))
      site).1

abbrev turned : World
turned = (serve (move_folder calm 600 (some 1) (some 1) (some (given 2))) grown).1

turned_run : FolderRun site turned
turned_run =
    next
      (next done (
        creates calm 600 2 (some 1) (some (record { parent = given 1; name = codes "g" }))
          site-IsFresh))
      (moves calm 600 (some 1) (some 1) (some (given 2)))

FolderRun-NoCycle_example : NoCycle 1 turned.db.folders
FolderRun-NoCycle_example = FolderRun-NoCycle 1 site turned turned_run site_NoCycle

abbrev no_faults : DeleteFaults
no_faults = record {
  begin = false;
  load = false;
  folders = false;
  files = false;
  commit = false;
  audit = false;
}

delete_ok : (serve (delete_folder no_faults 600 (some 1) (some 1)) site).0.code ≡ 200
unfolding delete_folder delete_folder_tx
delete_ok = refl

delete_folder-200_example :
    let after = (serve (delete_folder no_faults 600 (some 1) (some 1)) site).1 in
    ((x : ℕ)
      → Below (owned_live 1) site.db.folders 1 x
      → ((f : FolderRow) → Row after.db.folders f → f.id ≡ x → is_live f.deleted_at ≡ false)
        × ((f : FileRow)
            → InFiles f after.db.files
            → f.owner ≡ 1
            → f.folder ≡ some x
            → is_live f.deleted_at ≡ false))
    × AreDropped 600 1 1 site.db.folders site.db.folders after.db.folders
    × AreFilesDropped 600 1 1 after.db.folders site.db.files after.db.files
    × (after.db.users ≡ site.db.users)
delete_folder-200_example = delete_folder-200 600 1 1 no_faults site delete_ok

abbrev item : ℕ → Text → BrowserItem
item id name = record {
  id = id;
  name = name;
  type = file;
  parent = none;
  size = some id;
  mime = none;
  extension = none;
  modified_at = 500;
}

abbrev shelf : List BrowserItem
shelf = item 3 (codes "b") ∷ item 4 (codes "A") ∷ item 5 (codes "B") ∷ []

sort_browser_items-IsOrdered_example :
    let sorted = sort_browser_items to_lower (codes "name") (codes "asc") shelf in
    IsOrdered (MayPrecede to_lower (codes "name") (is_desc (codes "asc"))) sorted
    × Perm sorted shelf
    × ((a : BrowserItem)
        → select (is_level to_lower (codes "name") a) sorted
          ≡ select (is_level to_lower (codes "name") a) shelf)
sort_browser_items-IsOrdered_example =
    sort_browser_items-IsOrdered to_lower (codes "name") (codes "asc") shelf

FolderRun-folder_tree_example :
    (level (owned_live 1) 1 turned.db.folders (length turned.db.folders) ≡ [])
    × (levels
          (owned_live 1)
          (length turned.db.folders + 3)
          turned.db.folders
          (base_rows (owned_live 1) 1 turned.db.folders)
        ≡ folder_tree (owned_live 1) turned.db.folders 1)
FolderRun-folder_tree_example = FolderRun-folder_tree 1 1 3 site turned turned_run site_NoCycle
