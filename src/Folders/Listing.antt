-- ===== src/Folders/Listing.antt =====
-- listFolderItems of backend/internal/http/folders.go.
use personal_space.Prelude.{
  ℕ, Bool, true, false, ◌&&◌, String, Text, codes, List, [], ◌∷◌, ◌++◌, map, Option, none, some,
  Result, ok, err, ◌==◌, if◌then◌else◌, trim_space, is_empty, contains, stop_if, some_or, lift,
  gets, return, ◌>>=◌, ◌>>◌,
}
use personal_space.Database.Rows.{Database, FolderRow, FileRow, is_live}
use personal_space.Server.World.{Response, respond, Handler}
use personal_space.Uploads.Init.{OptionalId, absent, invalid, given}
use personal_space.Uploads.Session.{validate_parent_ownership}
use personal_space.Folders.Sort.{BrowserItem, folder, file, slice_stable, sort_browser_items}

pub data ListReply : Type 0 where
  error : String → ListReply
  items : Option ℕ → List BrowserItem → ListReply

abbrev fail : ℕ → String → Response ListReply
fail code message = respond code (error message)

-- The four points at which a listing may fail in the database: each query, and its iteration.
pub record ListFaults : Type 0 where
  pub parent : Bool
  pub folders : Bool
  pub folder_rows : Bool
  pub files : Bool
  pub file_rows : Bool

-- ($2::uuid IS NULL AND parent_id IS NULL) OR parent_id = $2::uuid
abbrev pub in_parent : Option ℕ → Option ℕ → Bool
in_parent none none = true
in_parent none (some p) = false
in_parent (some q) none = false
in_parent (some q) (some p) = q == p

abbrev pub lists_folder : ℕ → Option ℕ → FolderRow → Bool
lists_folder owner parent f = f.owner == owner && is_live f.deleted_at && in_parent parent f.parent

abbrev pub lists_file : ℕ → Option ℕ → FileRow → Bool
lists_file owner parent f = f.owner == owner && is_live f.deleted_at && in_parent parent f.folder

-- SELECT … WHERE
abbrev pub select {ℓ} : {A : Type ℓ} → (A → Bool) → List A → List A
select test [] = []
select test (x ∷ xs) = let rest = select test xs in if test x then x ∷ rest else rest

-- matchesSearch; `lower` is strings.ToLower.
unfoldable pub matches_search : (Text → Text) → Text → Text → Bool
matches_search lower name search =
    if is_empty search then true else contains (lower name) (lower search)

abbrev pub folder_item : FolderRow → BrowserItem
folder_item f = record {
  id = f.id;
  name = f.name;
  type = folder;
  parent = f.parent;
  size = none;
  mime = none;
  extension = none;
  modified_at = f.updated_at;
}

abbrev pub file_item : FileRow → BrowserItem
file_item f = record {
  id = f.id;
  name = f.name;
  type = file;
  parent = f.folder;
  size = some f.size;
  mime = f.mime;
  extension = f.extension;
  modified_at = f.updated_at;
}

abbrev default_to : String → Text → Text
default_to default raw = if is_empty (trim_space raw) then codes default else trim_space raw

abbrev pub query_id_or : OptionalId → Result (Response ListReply) (Option ℕ)
query_id_or absent = ok none
query_id_or invalid = err (fail 400 "invalid parentId")
query_id_or (given id) = ok (some id)

abbrev or_bad_request : Result String (Unit {0}) → Result (Response ListReply) (Unit {0})
or_bad_request (ok u) = ok u
or_bad_request (err message) = err (fail 400 message)

-- The rows of both queries that match the search, in their order; `collate` is the order of the
-- database's texts.
unfoldable pub found_items :
    (Text → Text) → (Text → Text → Bool) → ℕ → Option ℕ → Text → Database → List BrowserItem
found_items lower collate owner parent search db =
    select (λ i. matches_search lower i.name search)
      (map folder_item (
        slice_stable (λ a b. collate a.name b.name)
          (select (lists_folder owner parent) db.folders)))
    ++ select (λ i. matches_search lower i.name search)
        (map file_item
          (slice_stable (λ a b. collate a.name b.name) (select (lists_file owner parent) db.files)))

module _ (lower : Text → Text) (collate : Text → Text → Bool) (faults : ListFaults) where
  -- listFolderItems
  unfoldable pub list_folder_items : Option ℕ → OptionalId → Text → Text → Text → Handler ListReply
  list_folder_items user query search sort_by order = do
    owner ← some_or user (fail 401 "authentication required")
    parent ← lift (query_id_or query)
    checked ← gets (λ w. validate_parent_ownership faults.parent owner parent w.db)
    lift (or_bad_request checked)
    stop_if faults.folders (fail 500 "could not load folders")
    stop_if faults.folder_rows (fail 500 "failed to iterate folder rows")
    stop_if faults.files (fail 500 "could not load files")
    stop_if faults.file_rows (fail 500 "failed to iterate file rows")
    found ← gets (λ w. found_items lower collate owner parent (trim_space search) w.db)
    return (
        respond 200 (
          items parent
            (sort_browser_items lower (default_to "name" sort_by) (default_to "asc" order) found)))
