-- ===== src/Uploads/Session.antt =====
-- What the handlers of backend/internal/http/uploads.go share: answers, the row lock, the quota.
use personal_space.Prelude.{
  ℕ, ◌+◌, Bool, true, false, ◌&&◌, String, Text, text_eq, Option, none, some, Result, ok, err, ltb,
  leb, ◌==◌, if◌then◌else◌, length, take, find, update_where, any, ℤ, pos, pos_part, add64, leb_ℤ,
  stop_if, some_or, gets, ◌>>=◌, ◌>>◌,
}
use personal_space.Database.Rows.{
  Database, UserRow, UploadSession, UploadStatus, session_of, user_of, live_folder_of, failed,
}
use personal_space.Storage.Files.{Stream}
use personal_space.Settings.Upload.{UploadSettings, custom}
use personal_space.Server.World.{World, Response, respond, Action}

-- The JSON that the upload handlers write.
pub data Body : Type 0 where
  error : String → Body
  not_writable : String → UploadStatus → Body
  offset_mismatch : ℕ → Body
  incomplete : ℕ → Option ℕ → Body
  created : ℕ → Option ℕ → Text → Text → Option ℤ → Body
  progress : ℕ → ℕ → Option ℕ → UploadStatus → Body
  state : UploadSession → Body
  finished : ℕ → Option ℕ → Body
  ok_true : Body

abbrev pub fail : ℕ → String → Response Body
fail code message = respond code (error message)

-- getUploadSession and lockUploadSession: the row of this user with this id. The row lock of the
-- latter makes the handlers on one session run one after the other.
unfoldable pub load_session : Bool → ℕ → ℕ → Action Body UploadSession
load_session fault owner upload = do
  stop_if fault (fail 500 "could not load upload session")
  found ← gets (λ w. find (session_of upload owner) w.db.uploads)
  some_or found (fail 404 "upload session not found")

-- UPDATE upload_sessions SET … WHERE id=$1
abbrev pub update_session : ℕ → (UploadSession → UploadSession) → World → World
update_session upload f w = record w {
  db = record w.db { uploads = update_where (λ s. s.id == upload) f w.db.uploads };
}

-- UPDATE upload_sessions SET status='failed', error_message=$1 WHERE id=$2
abbrev pub mark_failed : String → ℕ → World → World
mark_failed message upload =
    update_session upload (λ s. record s { status = failed; error_message = some message })

-- A bound holds only in the mode "custom".
abbrev pub bound_of : UploadSettings → Option ℤ
bound_of cfg = if text_eq cfg.mode custom then cfg.max_bytes else none

abbrev within_quota : Option UserRow → ℕ → Option Bool
within_quota none additional = none
within_quota (some u) additional = elim u.quota [
  | none ↦ some true
  | some quota ↦ some (leb_ℤ (add64 u.used additional) quota)
]

-- canUserStoreBytes; `none` is a query that fails or finds no user.
unfoldable pub can_user_store_bytes : Bool → ℕ → ℕ → Database → Option Bool
can_user_store_bytes fault user additional db =
    if fault then none else within_quota (find (user_of user) db.users) additional

abbrev not_over : Option UserRow → Bool
not_over none = false
not_over (some u) = elim u.quota [ none ↦ true | some quota ↦ leb u.used quota ]

-- ensureQuotaAllowsSizeTx: run after the usage has been raised. `false` is an error.
unfoldable pub ensure_quota_allows_size : Bool → ℕ → Database → Bool
ensure_quota_allows_size fault user db =
    if fault then false else not_over (find (user_of user) db.users)

-- UPDATE users SET used_storage_bytes = used_storage_bytes + $1 WHERE id=$2
abbrev pub add_usage : ℕ → ℕ → Database → Database
add_usage user size db = record db {
  users = update_where (user_of user) (λ u. record u { used = u.used + size }) db.users;
}

-- validateParentOwnership, on the folder id that optionalUUIDPtr let through.
unfoldable pub validate_parent_ownership : Bool → ℕ → Option ℕ → Database → Result String (Unit {0})
validate_parent_ownership fault user none db = ok tt
validate_parent_ownership fault user (some folder) db =
    if fault
    then err "could not validate parent folder"
    else if any (live_folder_of folder user) db.folders
    then ok tt
    else err "parent folder not found"

-- io.LimitReader(reader, n): nothing is read past the bound, and no failure met there.
unfoldable pub limit_reader : ℤ → Stream → Stream
limit_reader n reader = record {
  bytes = take (pos_part n) reader.bytes;
  fails = reader.fails && ltb (length reader.bytes) (pos_part n);
}

-- Whether a bound is passed; a negative one is none to uploadChunk.
abbrev pub over_max : Option ℤ → ℕ → Bool
over_max (some (pos max)) n = ltb max n
over_max _ n = false

abbrev pub over_total : Option ℕ → ℕ → Bool
over_total none n = false
over_total (some total) n = ltb total n
