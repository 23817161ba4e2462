-- ===== src/Shares/Access.antt =====
-- resolvePublicShare and publicShareErr of backend/internal/http/shares.go: who may use a share link.
use personal_space.Prelude.{
  ℕ, Bool, true, false, not, String, Text, text_eq, Option, none, some, Exec, ltb, if◌then◌else◌,
  find, trim_space, is_empty, stop, stop_if, some_or, gets, return, ◌>>=◌, ◌>>◌,
}
use personal_space.Database.Rows.{ShareRow}
use personal_space.Server.World.{World, insert_audit}
use personal_space.Previews.Runtime.{get_sharing_runtime_settings}

-- What the handlers use of backend/internal/auth: HashToken, HashPassword (`none` for an error) and
-- VerifyPassword, which stand on the hash functions of the crypto libraries.
pub record Crypto : Type 0 where
  pub hash_token : Text → Text
  pub hash_password : Text → Option Text
  pub verify_password : Text → Text → Bool

-- The errors, those of the source's strings first.
pub data ShareError : Type 0 where
  share_not_found share_revoked share_expired share_password_required : ShareError
  share_password_invalid sharing_disabled invalid_share_token query_failed : ShareError

pub record AccessFaults : Type 0 where
  pub settings : Bool
  pub load : Bool
  pub audit : Bool

abbrev pub by_token : Text → ShareRow → Bool
by_token hash s = text_eq s.token_hash hash

abbrev pub is_past : Option ℕ → ℕ → Bool
is_past none now = false
is_past (some t) now = ltb t now

-- getPublicSharePassword: the header, or else the parameter.
unfoldable pub get_public_share_password : Text → Text → Text
get_public_share_password header query =
    if is_empty (trim_space header) then trim_space query else trim_space header

module _ (crypto : Crypto) (faults : AccessFaults) where
  abbrev check_hash : ShareRow → Text → Bool → Exec World ShareError (Unit {0})
  check_hash s password true = return tt
  check_hash s password false =
      insert_audit faults.audit
        (record { user = none; action = "share.public.password.failed"; target = some s.id })
      >> stop share_password_invalid

  abbrev check_password : ShareRow → Text → Option Text → Exec World ShareError (Unit {0})
  check_password s password none = return tt
  check_password s password (some hash) =
      stop_if (is_empty (trim_space password)) share_password_required
      >> check_hash s password (crypto.verify_password hash password)

  abbrev check_if : Bool → ShareRow → Text → Exec World ShareError (Unit {0})
  check_if true s password = check_password s password s.password_hash
  check_if false s password = return tt

  -- resolvePublicShare
  unfoldable pub resolve_public_share : ℕ → Text → Text → Bool → Exec World ShareError ShareRow
  resolve_public_share now token password enforce = do
    stored ← gets (λ w. get_sharing_runtime_settings faults.settings w.db.settings)
    cfg ← some_or stored query_failed
    stop_if (not cfg.enabled) sharing_disabled
    stop_if (is_empty (trim_space token)) invalid_share_token
    stop_if faults.load query_failed
    found ← gets (λ w. find (by_token (crypto.hash_token (trim_space token))) w.db.shares)
    s ← some_or found share_not_found
    stop_if s.is_revoked share_revoked
    stop_if (is_past s.expires_at now) share_expired
    check_if enforce s password
    return s

-- publicShareErr
abbrev pub public_share_err : ShareError → ℕ × String
public_share_err share_not_found = (404, "share not found")
public_share_err share_revoked = (410, "share revoked")
public_share_err share_expired = (410, "share expired")
public_share_err share_password_required = (401, "share password required")
public_share_err share_password_invalid = (401, "invalid share password")
public_share_err sharing_disabled = (403, "public sharing is disabled by admin settings")
public_share_err invalid_share_token = (401, "share access denied")
public_share_err query_failed = (401, "share access denied")
