-- ===== src/Zip/Handlers.antt =====
-- downloadFolderZip of backend/internal/http/zip.go and publicShareFolderZip of shares.go, behind their
-- rate limits.
use personal_space.Prelude.{
  ℕ, Bool, true, ◌||◌, not, String, Text, codes, ◌++◌, Option, none, some, Result, ok, err, Exec,
  find, stop, stop_if, some_or, gets, modify, return, ◌>>=◌, ◌>>◌,
}
use personal_space.Database.Rows.{FolderRow, ShareRow, live_folder_of}
use personal_space.Database.Tree.{in_subtree}
use personal_space.Storage.Path.{CleanPath}
use personal_space.Storage.Files.{DiskFaults}
use personal_space.Server.Names.{normalize_node_name}
use personal_space.Server.World.{World, Response, respond, Action, Handler, insert_audit}
use personal_space.Previews.Runtime.{get_sharing_runtime_settings}
use personal_space.Folders.Handlers.{owned_live}
use personal_space.Shares.Access.{
  Crypto, ShareError, AccessFaults, resolve_public_share, public_share_err,
}
use personal_space.Shares.Public.{bump}
use personal_space.Shares.Browse.{is_folder_target}
use personal_space.Zip.Entries.{Texts, collect_folder_zip_entries}
use personal_space.Zip.Stream.{Archive, stream_folder_zip}

pub data ZipReply : Type 0 where
  error : String → ZipReply
  archive : Archive → ZipReply

abbrev pub fail : ℕ → String → Response ZipReply
fail code message = respond code (error message)

abbrev pub zip_name : FolderRow → Text
zip_name f = normalize_node_name f.name ++ codes ".zip"

pub record ZipFaults : Type 0 where
  pub load : Bool
  pub collect : Bool
  pub read : DiskFaults
  pub access : AccessFaults
  pub sharing : Bool
  pub tree : Bool
  pub audit : Bool
  pub bump : Bool

abbrev denied : ShareError → Response ZipReply
denied e = let (code, message) = public_share_err e in fail code message

abbrev shared_or : Result ShareError ShareRow → Action ZipReply ShareRow
shared_or (ok s) = return s
shared_or (err e) = stop (denied e)

abbrev attempt :
    Exec World ShareError ShareRow → Exec World (Response ZipReply) (Result ShareError ShareRow)
attempt m w = let (r, after) = m w in (ok r, after)

module _ (root : CleanPath) (texts : Texts) (broken : Text → Bool) (faults : ZipFaults) where
  -- streamFolderZip: it writes its own answer, and its callers go on whatever that was.
  abbrev pub zip_of : ℕ → ℕ → Text → World → Response ZipReply
  zip_of id owner name w = elim (collect_folder_zip_entries texts faults.collect id owner w.db) [
    | none ↦ fail 500 "could not prepare folder zip"
    | some entries ↦
        respond 200 (archive (stream_folder_zip root faults.read broken name entries w.disk))
  ]

  -- downloadFolderZip
  unfoldable pub download_folder_zip : Option ℕ → Option ℕ → Handler ZipReply
  download_folder_zip user folder = do
    owner ← some_or user (fail 401 "authentication required")
    id ← some_or folder (fail 400 "invalid folder id")
    stop_if faults.load (fail 500 "could not load folder")
    found ← gets (λ w. find (live_folder_of id owner) w.db.folders)
    f ← some_or found (fail 404 "folder not found")
    gets (zip_of id owner (zip_name f))

  -- publicShareFolderZip; `password` is what getPublicSharePassword returns.
  unfoldable pub public_share_folder_zip : Crypto → ℕ → Text → Text → Option ℕ → Handler ZipReply
  public_share_folder_zip crypto now token password folder = do
    resolved ← attempt (resolve_public_share crypto faults.access now token password true)
    s ← shared_or resolved
    stored ← gets (λ w. get_sharing_runtime_settings faults.sharing w.db.settings)
    cfg ← some_or stored (fail 500 "could not load sharing settings")
    stop_if (not cfg.public_download_enable)
        (fail 403 "public download is disabled by admin settings")
    stop_if (not (is_folder_target s.target_type)) (fail 400 "share target is not a folder")
    stop_if (not s.allow_download) (fail 403 "download is disabled for this share")
    id ← some_or folder (fail 400 "invalid folder id")
    inside ← gets (λ w. in_subtree (owned_live s.owner) w.db.folders s.target id)
    stop_if (faults.tree || not inside) (fail 400 "folder is outside the shared folder boundary")
    found ← gets (λ w. find (live_folder_of id s.owner) w.db.folders)
    stop_if faults.load (fail 404 "folder not found")
    f ← some_or found (fail 404 "folder not found")
    answer ← gets (zip_of id s.owner (zip_name f))
    insert_audit faults.audit
        (record { user = none; action = "share.public.folder.download_zip"; target = some s.id })
    modify (bump faults.bump s.id)
    return answer
