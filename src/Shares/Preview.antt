-- ===== src/Shares/Preview.antt =====
-- publicShareFilePreviewInfo and publicShareFilePreviewContent of backend/internal/http/shares.go.
use personal_space.Prelude.{
  ℕ, ◌≡◌, inl, inr, Bool, true, not, String, Text, Option, some, Result, ok, err, Exec, stop,
  stop_if, some_or, gets, return, ◌>>=◌, ◌>>◌, arith, Result-cases,
}
use personal_space.Database.Rows.{FileRow, ShareRow}
use personal_space.Storage.Path.{CleanPath}
use personal_space.Server.World.{World, Response, respond, Action, Handler}
use personal_space.Previews.Runtime.{get_sharing_runtime_settings}
use personal_space.Previews.Content.{
  InfoReply, ContentReply, InfoFaults, ContentFaults, CsvReader, preview_info_of, preview_content,
}
use personal_space.Previews.Content
use personal_space.Shares.Access.{
  Crypto, ShareError, AccessFaults, resolve_public_share, public_share_err,
}
use personal_space.Shares.Public.{fetch_file_for_share}
use personal_space.Shares.Guarded.{IsOpen, resolve-IsOpen}

pub record GateFaults : Type 0 where
  pub access : AccessFaults
  pub sharing : Bool
  pub load : Bool

module _ {B : Type 0} (error : String → B) (crypto : Crypto) (faults : GateFaults) where
  abbrev fail : ℕ → String → Response B
  fail code message = respond code (error message)

  abbrev denied : ShareError → Response B
  denied e = let (code, message) = public_share_err e in fail code message

  abbrev shared_or : Result ShareError ShareRow → Action B ShareRow
  shared_or (ok s) = return s
  shared_or (err e) = stop (denied e)

  abbrev attempt :
      Exec World ShareError ShareRow → Exec World (Response B) (Result ShareError ShareRow)
  attempt m w = let (r, after) = m w in (ok r, after)

  -- What both handlers ask first, behind their rate limit.
  unfoldable pub previewed_file : ℕ → Text → Text → Option ℕ → Action B FileRow
  previewed_file now token password file = do
    resolved ← attempt (resolve_public_share crypto faults.access now token password true)
    s ← shared_or resolved
    stored ← gets (λ w. get_sharing_runtime_settings faults.sharing w.db.settings)
    cfg ← some_or stored (fail 500 "could not load sharing settings")
    stop_if (not cfg.public_preview_enabled)
        (fail 403 "public preview is disabled by admin settings")
    stop_if (not s.allow_preview) (fail 403 "preview is disabled for this share")
    id ← some_or file (fail 400 "invalid file id")
    stop_if faults.load (fail 500 "could not load file metadata")
    found ← gets (λ w. fetch_file_for_share s id w.db)
    some_or found (fail 404 "file not found in this share")

  -- A file is previewed only for a share that its token and password open, that allows it, and of
  -- which it is a file.
  pub previewed_file-ok :
      (now : ℕ) (token password : Text) (id : ℕ) (w : World) (rec : FileRow)
      → (previewed_file now token password (some id) w).0 ≡ ok rec
      → (s : ShareRow) × IsOpen crypto now token password w.db s
        × (s.allow_preview ≡ true)
        × (fetch_file_for_share s id w.db ≡ some rec)
        × ((previewed_file now token password (some id) w).1 ≡ w)
  unfolding previewed_file
  previewed_file-ok now token password id w rec h =
      elim (Result-cases (resolve_public_share crypto faults.access now token password true w).0) [
        | inr (e, r) ↦ absurd (ground (arith, r))
        | inl (s, r) ↦
            let (is_open, same) = resolve-IsOpen crypto faults.access now token password w s r in
            (s, is_open, ground (arith, r, same), ground (arith, r, same), ground (arith, r, same))
      ]

-- publicShareFilePreviewInfo
unfoldable pub public_share_file_preview_info :
    Crypto → GateFaults → InfoFaults → ℕ → Text → Text → Option ℕ → Handler InfoReply
public_share_file_preview_info crypto gate faults now token password file = do
  rec ← previewed_file Content.InfoReply.error crypto gate now token password file
  preview_info_of faults true rec

-- publicShareFilePreviewContent
unfoldable pub public_share_file_preview_content :
    CleanPath
    → CsvReader
    → Crypto
    → GateFaults
    → ContentFaults
    → ℕ
    → Text
    → Text
    → Option ℕ
    → Handler ContentReply
public_share_file_preview_content root csv crypto gate faults now token password file = do
  rec ← previewed_file Content.ContentReply.error crypto gate now token password file
  preview_content root csv faults true rec
