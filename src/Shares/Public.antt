-- ===== src/Shares/Public.antt =====
-- fetchFileForShare and publicShareFileStream of backend/internal/http/shares.go.
use personal_space.Prelude.{
  ℕ, suc, Bool, true, false, ◌&&◌, not, Text, Option, none, some, Result, ok, err, Exec, leb, ◌==◌,
  if◌then◌else◌, find, update_where, stop, stop_if, some_or, lift, gets, modify, return, ◌>>=◌,
  ◌>>◌,
}
use personal_space.Database.Rows.{Database, ShareRow, FileRow, TargetType, is_live}
use personal_space.Database.Rows
use personal_space.Storage.Path.{CleanPath}
use personal_space.Server.World.{World, Response, Action, Handler, insert_audit}
use personal_space.Previews.Runtime.{get_sharing_runtime_settings}
use personal_space.Downloads.Stream.{
  Reply, Source, error, delivered, not_satisfiable, fail, GateFaults, SendFaults, source_of, send,
}
use personal_space.Shares.Access.{
  Crypto, ShareError, AccessFaults, resolve_public_share, public_share_err,
}
use personal_space.Database.Tree.{live, in_subtree}

abbrev live_file : ℕ → FileRow → Bool
live_file id f = f.id == id && is_live f.deleted_at

abbrev below : ℕ → Database → FileRow → Bool
below target db f = elim f.folder [
  | none ↦ false
  | some folder ↦ in_subtree live db.folders target folder
]

abbrev fetch : TargetType → ℕ → ℕ → Database → Option FileRow
fetch Rows.file target id db = if target == id then find (live_file id) db.files else none
fetch Rows.folder target id db = find (λ f. live_file id f && below target db f) db.files

-- fetchFileForShare
unfoldable pub fetch_file_for_share : ShareRow → ℕ → Database → Option FileRow
fetch_file_for_share s id db = fetch s.target_type s.target id db

pub record PublicFaults : Type 0 where
  pub access : AccessFaults
  pub sharing : Bool
  pub load : Bool
  pub gate : GateFaults
  pub send : SendFaults
  pub audit : Bool
  pub bump : Bool

abbrev denied : ShareError → Response Reply
denied e = let (code, message) = public_share_err e in fail code message

abbrev shared_or : Result ShareError ShareRow → Action Reply ShareRow
shared_or (ok s) = return s
shared_or (err e) = stop (denied e)

-- An action with its error as a value.
abbrev attempt :
    Exec World ShareError ShareRow → Exec World (Response Reply) (Result ShareError ShareRow)
attempt m w = let (r, after) = m w in (ok r, after)

-- `share.MaxDownloads != nil && share.DownloadCount >= *share.MaxDownloads`
abbrev pub exhausted : ShareRow → Bool
exhausted s = elim s.max_downloads [ none ↦ false | some max ↦ leb max s.download_count ]

-- bumpShareDownloadCount; a failure is ignored.
abbrev pub bump : Bool → ℕ → World → World
bump fault id w = if fault then w else record w {
  db = record w.db {
    shares =
        update_where (λ s. s.id == id) (λ s. record s { download_count = suc s.download_count })
          w.db.shares;
  };
}

abbrev record_preview : Bool → ShareRow → Action Reply (Unit {0})
record_preview fault s =
    insert_audit fault
      (record { user = none; action = "share.public.file.preview"; target = some s.id })

abbrev record_download : Bool → Bool → ShareRow → Action Reply (Unit {0})
record_download audit fault s =
    insert_audit audit
      (record { user = none; action = "share.public.file.download"; target = some s.id })
    >> modify (bump fault s.id)

-- What follows the last byte; an answer that carries no object has returned before.
abbrev after_send : Bool → Bool → Bool → ShareRow → Response Reply → Action Reply (Unit {0})
after_send audit fault inline s answer = elim answer.body [
  | error message ↦ return tt
  | not_satisfiable size ↦ return tt
  | delivered d ↦ if inline then record_preview audit s else record_download audit fault s
]

-- From the opened object on.
unfoldable pub deliver : CleanPath → PublicFaults → Bool → ShareRow → Source → Text → Handler Reply
deliver root faults inline s source header = do
  answer ← send root faults.send source inline header
  after_send faults.audit faults.bump inline s answer
  return answer

module _ (root : CleanPath) (crypto : Crypto) (faults : PublicFaults) where
  -- publicShareFileStream, behind its rate limit: publicShareFilePreview with `inline`,
  -- publicShareFileDownload without. `password` is what getPublicSharePassword returns, `query` the
  -- parameter "variant" and `header` the header Range.
  unfoldable pub public_share_file_stream :
      ℕ → Bool → Text → Text → Option ℕ → Text → Text → Handler Reply
  public_share_file_stream now inline token password file query header = do
    resolved ← attempt (resolve_public_share crypto faults.access now token password true)
    s ← shared_or resolved
    stored ← gets (λ w. get_sharing_runtime_settings faults.sharing w.db.settings)
    cfg ← some_or stored (fail 500 "could not load sharing settings")
    stop_if (inline && not cfg.public_preview_enabled)
        (fail 403 "public preview is disabled by admin settings")
    stop_if (not inline && not cfg.public_download_enable)
        (fail 403 "public download is disabled by admin settings")
    stop_if (inline && not s.allow_preview) (fail 403 "preview is disabled for this share")
    stop_if (not inline && not s.allow_download) (fail 403 "download is disabled for this share")
    id ← some_or file (fail 400 "invalid file id")
    stop_if faults.load (fail 500 "could not load file")
    found ← gets (λ w. fetch_file_for_share s id w.db)
    rec ← some_or found (fail 404 "file not found in this share")
    checked ← gets (λ w. source_of faults.gate true inline query rec w.db)
    source ← lift checked
    stop_if (exhausted s) (fail 403 "share download limit exceeded")
    deliver root faults inline s source header
