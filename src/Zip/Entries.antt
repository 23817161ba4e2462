-- ===== src/Zip/Entries.antt =====
-- collectFolderZipEntries of backend/internal/http/zip.go.
use personal_space.Prelude.{
  ℕ, zero, suc, Bool, true, false, ◌&&◌, Text, List, [], ◌∷◌, ◌++◌, map, Option, none, some, ◌==◌,
  if◌then◌else◌, length, is_empty,
}
use personal_space.Database.Rows.{Database, FolderRow, FileRow, same_id, is_live}
use personal_space.Server.Names.{normalize_node_name}
use personal_space.Folders.Handlers.{owned_live}
use personal_space.Folders.Sort.{slice_stable}

-- A row of the recursive query: a folder, with its path from the root.
pub record TreeRow : Type 0 where
  pub id : ℕ
  pub rel : Text

-- SELECT id, name FROM folders WHERE id=$1 AND owner_id=$2 AND deleted_at IS NULL
unfoldable pub base_rows : (FolderRow → Bool) → ℕ → List FolderRow → List TreeRow
base_rows good root [] = []
base_rows good root (f ∷ fs) =
    let rest = base_rows good root fs in
    if good f && f.id == root then record { id = f.id; rel = f.name } ∷ rest else rest

-- The rows of one folder below those of the level before.
unfoldable pub child_rows : FolderRow → List TreeRow → List TreeRow
child_rows f [] = []
child_rows f (t ∷ ts) =
    let rest = child_rows f ts in
    if same_id f.parent (some t.id)
    then record { id = f.id; rel = t.rel ++ (b'/' ∷ f.name) } ∷ rest
    else rest

-- FROM folders f JOIN tree t ON f.parent_id = t.id
unfoldable pub next_rows : (FolderRow → Bool) → List FolderRow → List TreeRow → List TreeRow
next_rows good [] level = []
next_rows good (f ∷ fs) level =
    let rest = next_rows good fs level in if good f then child_rows f level ++ rest else rest

-- UNION ALL of the levels, as many as there are folders. The query goes on until a level is empty, which
-- no more levels than that can come to where no folder is above itself; on a cycle it would not end.
unfoldable pub levels : (FolderRow → Bool) → ℕ → List FolderRow → List TreeRow → List TreeRow
levels good zero rows level = []
levels good (suc n) rows level = level ++ levels good n rows (next_rows good rows level)

unfoldable pub folder_tree : (FolderRow → Bool) → List FolderRow → ℕ → List TreeRow
folder_tree good rows root = levels good (length rows) rows (base_rows good root rows)

-- A row of the result: a file, with the path of its folder.
pub record ZipRow : Type 0 where
  pub file : FileRow
  pub rel : Text

unfoldable pub rows_of : FileRow → List TreeRow → List ZipRow
rows_of f [] = []
rows_of f (t ∷ ts) =
    let rest = rows_of f ts in
    if same_id f.folder (some t.id) then record { file = f; rel = t.rel } ∷ rest else rest

-- WHERE fi.owner_id=$2 AND fi.deleted_at IS NULL
abbrev pub owned_file : ℕ → FileRow → Bool
owned_file owner f = f.owner == owner && is_live f.deleted_at

-- FROM files fi JOIN tree ON fi.folder_id = tree.id
unfoldable pub zip_rows : ℕ → List FileRow → List TreeRow → List ZipRow
zip_rows owner [] ts = []
zip_rows owner (f ∷ fs) ts =
    let rest = zip_rows owner fs ts in if owned_file owner f then rows_of f ts ++ rest else rest

-- zipFileEntry
pub record ZipFileEntry : Type 0 where
  pub storage_key : Text
  pub file_name : Text
  pub relative_dir : Text

abbrev name_or_id : Text → Text → Text
name_or_id id name = if is_empty name then id else name

-- `spell` is the text of an id.
abbrev pub entry_of : (ℕ → Text) → ZipRow → ZipFileEntry
entry_of spell z = record {
  storage_key = z.file.storage_key;
  file_name = name_or_id (spell z.file.id) (normalize_node_name z.file.original_name);
  relative_dir = z.rel;
}

-- What the database decides: the order of its texts, for ORDER BY tree.rel, fi.original_name, and the
-- spelling of ids.
pub record Texts : Type 0 where
  pub before : Text → Text → Bool
  pub spell : ℕ → Text

abbrev pub row_before : Texts → ZipRow → ZipRow → Bool
row_before texts a b =
    if texts.before a.rel b.rel
    then true
    else if texts.before b.rel a.rel
    then false
    else texts.before a.file.original_name b.file.original_name

-- collectFolderZipEntries; `none` is a failure of the query.
unfoldable pub collect_folder_zip_entries :
    Texts → Bool → ℕ → ℕ → Database → Option (List ZipFileEntry)
collect_folder_zip_entries texts fault root owner db =
    if fault
    then none
    else some (
        map (entry_of texts.spell) (
          slice_stable (row_before texts)
            (zip_rows owner db.files (folder_tree (owned_live owner) db.folders root))))
