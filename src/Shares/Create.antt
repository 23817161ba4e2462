-- ===== src/Shares/Create.antt =====
-- createShare, enforceSharePolicyForCreate and revokeShare of backend/internal/http/shares.go.
use personal_space.Prelude.{
  ℕ, Bool, true, false, ◌&&◌, ◌||◌, not, String, Text, Option, none, some, Result, ok, err, List,
  ◌∷◌, ◌==◌, if◌then◌else◌, any, trim_space, is_empty, ℤ, pos, is_nonpos, stop, stop_if, some_or,
  lift, gets, modify, return, ◌>>=◌, ◌>>◌,
}
use personal_space.Database.Rows.{
  Database, ShareRow, FileRow, FolderRow, SettingRow, TargetType, is_live, live_folder_of, Executed,
  done, unique_violation, broken,
}
use personal_space.Database.Rows
use personal_space.Server.World.{Response, respond, Action, Handler, insert_audit}
use personal_space.Previews.Runtime.{
  SharingRuntimeSettings, PreviewRuntimeSettings, get_sharing_runtime_settings,
  get_preview_runtime_settings,
}
use personal_space.Shares.Access.{Crypto, by_token, is_past}

pub data CreateReply : Type 0 where
  error : String → CreateReply
  created_share : ℕ → Text → CreateReply
  ok_true : CreateReply

abbrev pub fail : ℕ → String → Response CreateReply
fail code message = respond code (error message)

-- The JSON body; `target_type` is `none` for a type that is neither "file" nor "folder", `target`
-- for an id that uuid.Parse refuses.
pub record CreateRequest : Type 0 where
  pub target_type : Option TargetType
  pub target : Option ℕ
  pub password : Option Text
  pub expires_at : Option ℕ
  pub allow_preview : Option Bool
  pub allow_download : Option Bool
  pub allow_folder_browse : Option Bool
  pub max_downloads : Option ℤ

-- The queries that may fail.
pub record CreateFaults : Type 0 where
  pub target : Bool
  pub token : Bool
  pub sharing : Bool
  pub preview : Bool
  pub insert : Bool
  pub audit : Bool

abbrev target_exists : TargetType → ℕ → ℕ → Database → Bool
target_exists Rows.file id owner db =
    any (λ f. f.id == id && f.owner == owner && is_live f.deleted_at) db.files
target_exists Rows.folder id owner db = any (live_folder_of id owner) db.folders

abbrev not_found : TargetType → Response CreateReply
not_found Rows.file = fail 404 "target file not found"
not_found Rows.folder = fail 404 "target folder not found"

abbrev pub not_positive : Option ℤ → Bool
not_positive none = false
not_positive (some n) = is_nonpos n

abbrev pub nat_of : Option ℤ → Option ℕ
nat_of (some (pos n)) = some n
nat_of _ = none

abbrev pub or_true : Option Bool → Bool
or_true none = true
or_true (some b) = b

abbrev hashed : Crypto → Text → Option (Option Text)
hashed crypto password = elim (crypto.hash_password password) [
  | none ↦ none
  | some h ↦ some (some h)
]

-- No password, or an empty one, is none; `none` is a failure of HashPassword.
unfoldable pub password_hash_of : Crypto → Option Text → Option (Option Text)
password_hash_of crypto none = some none
password_hash_of crypto (some password) =
    if is_empty (trim_space password) then some none else hashed crypto (trim_space password)

abbrev preview_policy :
    Bool → SharingRuntimeSettings → Option PreviewRuntimeSettings → Result String (Unit {0})
preview_policy preview sharing none = err "could not load preview settings"
preview_policy preview sharing (some cfg) =
    if preview && not sharing.public_preview_enabled
    then err "public preview is disabled by admin settings"
    else if preview && (not cfg.enabled || not cfg.public_preview_enabled)
    then err "preview is disabled by admin settings"
    else ok tt

abbrev policy :
    Bool → Bool → Bool → List SettingRow → Option SharingRuntimeSettings → Result String (Unit {0})
policy fault preview download rows none = err "could not load sharing settings"
policy fault preview download rows (some sharing) =
    if not sharing.enabled
    then err "public sharing is disabled by admin settings"
    else if download && not sharing.public_download_enable
    then err "public download is disabled by admin settings"
    else preview_policy preview sharing (get_preview_runtime_settings fault rows)

-- enforceSharePolicyForCreate
unfoldable pub enforce_share_policy_for_create :
    CreateFaults → Bool → Bool → List SettingRow → Result String (Unit {0})
enforce_share_policy_for_create faults preview download rows =
    policy faults.preview preview download rows (get_sharing_runtime_settings faults.sharing rows)

abbrev pub or_forbidden : Result String (Unit {0}) → Result (Response CreateReply) (Unit {0})
or_forbidden (ok u) = ok u
or_forbidden (err reason) = err (fail 403 reason)

abbrev pub new_share :
    Crypto → ℕ → ℕ → Text → TargetType → ℕ → Option Text → CreateRequest → ShareRow
new_share crypto id owner token target_type target hash req = record {
  id = id;
  owner = owner;
  target_type = target_type;
  target = target;
  token_hash = crypto.hash_token token;
  password_hash = hash;
  expires_at = req.expires_at;
  allow_preview = or_true req.allow_preview;
  allow_download = or_true req.allow_download;
  allow_folder_browse = or_true req.allow_folder_browse;
  max_downloads = nat_of req.max_downloads;
  download_count = 0;
  is_revoked = false;
}

-- INSERT INTO share_links; token_hash is unique.
abbrev pub insert_share : Bool → ShareRow → Database → Executed
insert_share fault s db =
    if fault
    then broken
    else if any (by_token s.token_hash) db.shares
    then unique_violation
    else done (record db { shares = s ∷ db.shares })

abbrev inserted_or : Executed → Action CreateReply (Unit {0})
inserted_or (done db) = modify (λ w. record w { db = db })
inserted_or unique_violation = stop (fail 500 "could not create share")
inserted_or broken = stop (fail 500 "could not create share")

module _ (crypto : Crypto) (faults : CreateFaults) where
  -- createShare; `token` is what auth.NewSessionToken returns, `id` what uuid.NewString does.
  unfoldable pub create_share : ℕ → ℕ → Text → Option ℕ → Option CreateRequest → Handler CreateReply
  create_share now id token user body = do
    owner ← some_or user (fail 401 "authentication required")
    req ← some_or body (fail 400 "invalid request body")
    target_type ← some_or req.target_type (fail 400 "targetType must be file or folder")
    target ← some_or req.target (fail 400 "invalid targetId")
    stop_if (is_past req.expires_at now) (fail 400 "expiresAt must be in the future")
    stop_if (not_positive req.max_downloads) (fail 400 "maxDownloads must be greater than zero")
    there ← gets (λ w. target_exists target_type target owner w.db)
    stop_if (faults.target || not there) (not_found target_type)
    stop_if faults.token (fail 500 "could not create share token")
    hash ← some_or (password_hash_of crypto req.password) (fail 500 "could not hash share password")
    checked ← gets (λ w.
        enforce_share_policy_for_create faults (or_true req.allow_preview)
          (or_true req.allow_download) w.db.settings)
    lift (or_forbidden checked)
    inserted ← gets (λ w.
        insert_share faults.insert (new_share crypto id owner token target_type target hash req)
          w.db)
    inserted_or inserted
    insert_audit faults.audit
        (record { user = some owner; action = "share.created"; target = some id })
    return (respond 201 (created_share id token))
