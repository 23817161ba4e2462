-- ===== src/Shares/Browse.antt =====
-- publicShareInfo, publicSharePasswordCheck and publicShareItems of backend/internal/http/shares.go.
use personal_space.Prelude.{
  ℕ, Bool, true, false, ◌&&◌, not, String, Text, Option, none, some, Result, ok, err, Exec, List,
  [], ◌++◌, map, ◌==◌, if◌then◌else◌, find, trim_space, is_empty, is_some, stop, stop_if, some_or,
  lift, gets, return, ◌>>=◌, ◌>>◌,
}
use personal_space.Database.Rows.{Database, ShareRow, FolderRow, FileRow, TargetType, is_live}
use personal_space.Database.Rows
use personal_space.Database.Tree.{live, in_subtree}
use personal_space.Server.World.{World, Response, respond, Action, Handler, insert_audit}
use personal_space.Uploads.Init.{OptionalId, absent, invalid, given}
use personal_space.Folders.Sort.{BrowserItem, slice_stable}
use personal_space.Folders.Listing.{select, folder_item, file_item, in_parent}
use personal_space.Shares.Access.{
  Crypto, ShareError, AccessFaults, resolve_public_share, public_share_err,
}

pub data BrowseReply : Type 0 where
  error : String → BrowseReply
  info : ShareRow → Text → Bool → BrowseReply
  password_ok : ℕ → BrowseReply
  items : List BrowserItem → BrowseReply

abbrev pub fail : ℕ → String → Response BrowseReply
fail code message = respond code (error message)

abbrev denied : ShareError → Response BrowseReply
denied e = let (code, message) = public_share_err e in fail code message

abbrev shared_or : Result ShareError ShareRow → Action BrowseReply ShareRow
shared_or (ok s) = return s
shared_or (err e) = stop (denied e)

abbrev attempt :
    Exec World ShareError ShareRow → Exec World (Response BrowseReply) (Result ShareError ShareRow)
attempt m w = let (r, after) = m w in (ok r, after)

abbrev file_name : Option FileRow → Option Text
file_name none = none
file_name (some f) = some f.name

abbrev folder_name : Option FolderRow → Option Text
folder_name none = none
folder_name (some f) = some f.name

abbrev name_of : TargetType → ℕ → Database → Option Text
name_of Rows.file id db = file_name (find (λ f. f.id == id && is_live f.deleted_at) db.files)
name_of Rows.folder id db = folder_name (find (λ f. f.id == id && is_live f.deleted_at) db.folders)

-- shareTargetName
unfoldable pub share_target_name : Bool → ShareRow → Database → Option Text
share_target_name fault s db = if fault then none else name_of s.target_type s.target db

abbrev pub is_folder_target : TargetType → Bool
is_folder_target Rows.file = false
is_folder_target Rows.folder = true

pub record BrowseFaults : Type 0 where
  pub access : AccessFaults
  pub name : Bool
  pub audit : Bool
  pub tree : Bool
  pub folders : Bool
  pub files : Bool

-- optionalUUIDFromQuery
abbrev parent_or : OptionalId → Result (Response BrowseReply) (Option ℕ)
parent_or absent = ok none
parent_or invalid = err (fail 400 "invalid parentId")
parent_or (given id) = ok (some id)

-- Whether a folder that is named lies in the share.
abbrev pub in_share : Bool → ShareRow → Option ℕ → Database → Bool
in_share fault s none db = true
in_share fault s (some p) db = not fault && in_subtree live db.folders s.target p

abbrev or_target : ℕ → Option ℕ → ℕ
or_target target none = target
or_target target (some p) = p

-- ($2::uuid IS NULL AND parent_id = $1::uuid) OR parent_id = $2::uuid
abbrev pub child_folder : ℕ → FolderRow → Bool
child_folder p f = is_live f.deleted_at && in_parent (some p) f.parent

abbrev pub child_file : ℕ → FileRow → Bool
child_file p f = is_live f.deleted_at && in_parent (some p) f.folder

-- The rows of both queries; `collate` is the order of the database's texts.
unfoldable pub share_items : (Text → Text → Bool) → ℕ → Database → List BrowserItem
share_items collate p db =
    map folder_item
      (slice_stable (λ a b. collate a.name b.name) (select (child_folder p) db.folders))
    ++ map file_item (slice_stable (λ a b. collate a.name b.name) (select (child_file p) db.files))

module _ (crypto : Crypto) (faults : BrowseFaults) (now : ℕ) where
  -- publicShareInfo, which asks for no password.
  unfoldable pub public_share_info : Text → Handler BrowseReply
  public_share_info token = do
    resolved ← attempt (resolve_public_share crypto faults.access now token [] false)
    s ← shared_or resolved
    found ← gets (λ w. share_target_name faults.name s w.db)
    name ← some_or found (fail 404 "shared target not found")
    insert_audit faults.audit
        (record { user = none; action = "share.public.info_accessed"; target = some s.id })
    return (respond 200 (info s name (is_some s.password_hash)))

  abbrev password_or : Text → Option Text → Text
  password_or query body =
      if not (is_empty (trim_space query))
      then trim_space query
      else elim body [ none ↦ [] | some p ↦ trim_space p ]

  -- publicSharePasswordCheck, behind its rate limit; `body` is the field of the JSON body.
  unfoldable pub public_share_password_check : Text → Text → Option Text → Handler BrowseReply
  public_share_password_check token query body = do
    resolved ←
        attempt (resolve_public_share crypto faults.access now token (password_or query body) true)
    s ← shared_or resolved
    insert_audit faults.audit
        (record { user = none; action = "share.public.password.ok"; target = some s.id })
    return (respond 200 (password_ok s.id))

  -- publicShareItems, behind its rate limit; `password` is what getPublicSharePassword returns.
  unfoldable pub public_share_items :
      (Text → Text → Bool) → Text → Text → OptionalId → Handler BrowseReply
  public_share_items collate token password query = do
    resolved ← attempt (resolve_public_share crypto faults.access now token password true)
    s ← shared_or resolved
    stop_if (not (is_folder_target s.target_type)) (fail 400 "share target is not a folder")
    stop_if (not s.allow_folder_browse) (fail 403 "folder browsing is disabled for this share")
    insert_audit faults.audit
        (record { user = none; action = "share.public.items_accessed"; target = some s.id })
    parent ← lift (parent_or query)
    inside ← gets (λ w. in_share faults.tree s parent w.db)
    stop_if (not inside) (fail 400 "invalid parentId for this share")
    stop_if faults.folders (fail 500 "could not load folder items")
    stop_if faults.files (fail 500 "could not load file items")
    found ← gets (λ w. share_items collate (or_target s.target parent) w.db)
    return (respond 200 (items found))
