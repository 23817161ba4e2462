-- ===== src/Tus/Reply.antt =====
-- What the tus handlers share: the answer, the version check, the row; and tusOptions, tusHead and
-- tusDelete of backend/internal/http/tus.go.
use personal_space.Prelude.{
  ℕ, Bool, true, false, not, String, Text, codes, text_eq, Option, none, some, if◌then◌else◌, find,
  trim_space, is_empty, gets, some_or, stop_if, return, modify, ◌>>=◌, ◌>>◌,
}
use personal_space.Database.Rows.{UploadSession, session_of}
use personal_space.Storage.Path.{CleanPath}
use personal_space.Storage.Files.{DiskFaults, delete}
use personal_space.Server.World.{Response, respond, Action, Handler, on_disk}
use personal_space.Uploads.Cancel.{cancel_row}

-- The headers that the handlers set, and the message of a JSON body. `resumable` stands for
-- setTusHeaders; `supported` for the header Tus-Version.
pub record Reply : Type 0 where
  pub resumable : Bool
  pub supported : Bool
  pub offset : Option ℕ
  pub length : Option ℕ
  pub location : Option ℕ
  pub message : Option String

abbrev pub blank : Reply
blank = record {
  resumable = false;
  supported = false;
  offset = none;
  length = none;
  location = none;
  message = none;
}

abbrev pub bare : ℕ → Response Reply
bare code = respond code blank

abbrev pub fail : ℕ → String → Response Reply
fail code message = respond code (record blank { message = some message })

-- setTusHeaders, and Upload-Offset.
abbrev pub at_offset : ℕ → ℕ → Response Reply
at_offset code offset = respond code (record blank { resumable = true; offset = some offset })

abbrev pub tus_version : Text
tus_version = codes "1.0.0"

-- validateTusVersion: no version is taken for the right one.
unfoldable pub version_ok : Text → Bool
version_ok header =
    if is_empty (trim_space header) then true else text_eq (trim_space header) tus_version

abbrev pub wrong_version : Response Reply
wrong_version = respond 412 (record blank { supported = true })

-- tusOptions
abbrev pub tus_options : Response Reply
tus_options = respond 204 (record blank { resumable = true; supported = true })

-- getUploadSession and lockUploadSession, with the answers of the handler that calls them.
unfoldable pub load_or : Bool → ℕ → ℕ → Response Reply → Response Reply → Action Reply UploadSession
load_or fault owner upload missing broken = do
  stop_if fault broken
  found ← gets (λ w. find (session_of upload owner) w.db.uploads)
  some_or found missing

-- tusHead
unfoldable pub tus_head : Bool → Text → Option ℕ → Option ℕ → Handler Reply
tus_head fault version user upload = do
  stop_if (not (version_ok version)) wrong_version
  owner ← some_or user (bare 401)
  id ← some_or upload (bare 404)
  s ← load_or fault owner id (bare 404) (bare 500)
  return (
      respond 204
        (record blank { resumable = true; offset = some s.uploaded_bytes; length = s.total_size }))

-- tusDelete: whether the update and the deletion succeed is not looked at.
unfoldable pub tus_delete :
    CleanPath → Bool → Bool → DiskFaults → Text → Option ℕ → Option ℕ → Handler Reply
tus_delete root fault save disk version user upload = do
  stop_if (not (version_ok version)) wrong_version
  owner ← some_or user (fail 401 "authentication required")
  id ← some_or upload (bare 404)
  s ← load_or fault owner id (bare 404) (fail 500 "could not load upload session")
  modify (λ w. if save then w else cancel_row id owner w)
  removed ← on_disk (delete root disk s.temp_key)
  return (respond 204 (record blank { resumable = true }))
