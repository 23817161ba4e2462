-- ===== src/Uploads/Init.antt =====
-- uploadInit of backend/internal/http/uploads.go.
use personal_space.Prelude.{
  ℕ, ◌+◌, ◌*◌, Bool, true, false, String, Text, Option, none, some, Result, ok, err, ◌∷◌,
  if◌then◌else◌, trim_space, is_empty, ℤ, pos, negsuc, pos_part, is_nonpos, ltb, return, stop_if,
  some_or, lift, gets, modify, ◌>>=◌, ◌>>◌,
}
use personal_space.Database.Rows.{Database, UploadSession, custom, initialized}
use personal_space.Settings.Upload.{UploadSettings, SettingsFaults, get_upload_settings}
use personal_space.Server.Names.{normalize_node_name, base}
use personal_space.Server.World.{World, Response, respond, Handler}
use personal_space.Uploads.Session.{
  Body, fail, created, bound_of, can_user_store_bytes, validate_parent_ownership,
}

pub record InitFaults : Type 0 where
  pub parent : Bool
  pub settings : SettingsFaults
  pub quota : Bool
  pub insert : Bool

-- The outcome of optionalUUIDPtr.
pub data OptionalId : Type 0 where
  absent invalid : OptionalId
  given : ℕ → OptionalId

-- The fields of the JSON body.
pub record InitRequest : Type 0 where
  pub folder : OptionalId
  pub original_name : Text
  pub target_name : Text
  pub total_size : Option ℤ

abbrev pub id_or : OptionalId → Result (Response Body) (Option ℕ)
id_or absent = ok none
id_or invalid = err (fail 400 "invalid parentId")
id_or (given id) = ok (some id)

abbrev pub or_bad_request : Result String (Unit {0}) → Result (Response Body) (Unit {0})
or_bad_request (ok u) = ok u
or_bad_request (err message) = err (fail 400 message)

-- The target name, or else the last component of the original name.
unfoldable pub target_of : Text → Text → Text
target_of target original =
    if is_empty (normalize_node_name target)
    then normalize_node_name (base original)
    else normalize_node_name target

-- `*req.TotalSizeBytes > *uploadCfg.MaxFileSizeBytes`, for a positive size
abbrev pub exceeds : Option ℤ → ℕ → Bool
exceeds none size = false
exceeds (some (pos max)) size = ltb max size
exceeds (some (negsuc max)) size = true

abbrev within : ℕ → Option Bool → Result (Response Body) (Option ℕ)
within size none = err (fail 500 "could not validate user storage quota")
within size (some false) = err (fail 413 "upload exceeds your storage quota")
within size (some true) = ok (some size)

-- A size that is given is within the policy's bound and within the user's quota.
unfoldable pub check_size :
    Bool → UploadSettings → ℕ → Option ℤ → Database → Result (Response Body) (Option ℕ)
check_size fault cfg user none db = ok none
check_size fault cfg user (some size) db =
    if exceeds (bound_of cfg) (pos_part size)
    then err (fail 413 "This file exceeds the maximum allowed upload size.")
    else within (pos_part size) (can_user_store_bytes fault user (pos_part size) db)

abbrev pub not_positive : Option ℤ → Bool
not_positive none = false
not_positive (some size) = is_nonpos size

-- A week, in seconds.
abbrev pub session_life : ℕ
session_life = 7 * 24 * 3600

-- `tmp/uploads/<user>/<upload>.part`; how a number is spelled is left to `key`.
pub record Keys : Type 0 where
  pub temp : ℕ → ℕ → Text
  pub final : ℕ → ℕ → ℕ → Text

abbrev pub new_session : Keys → ℕ → ℕ → ℕ → Option ℕ → Text → Text → Option ℕ → UploadSession
new_session keys now id owner folder original target total = record {
  id = id;
  owner = owner;
  folder = folder;
  file = none;
  protocol = custom;
  original_name = original;
  target_name = target;
  total_size = total;
  uploaded_bytes = 0;
  temp_key = keys.temp owner id;
  status = initialized;
  error_message = none;
  expires_at = some (now + session_life);
}

abbrev pub insert_session : UploadSession → World → World
insert_session s w = record w { db = record w.db { uploads = s ∷ w.db.uploads } }

module _ (keys : Keys) (faults : InitFaults) where
  -- uploadInit, behind its rate limit; `now` is the time and `id` what uuid.NewString returns; `req`
  -- is `none` where the body does not decode.
  unfoldable pub upload_init : ℕ → ℕ → Option ℕ → Option InitRequest → Handler Body
  upload_init now id user req = do
    owner ← some_or user (fail 401 "authentication required")
    body ← some_or req (fail 400 "invalid request body")
    folder ← lift (id_or body.folder)
    parent ← gets (λ w. validate_parent_ownership faults.parent owner folder w.db)
    lift (or_bad_request parent)
    let original = trim_space body.original_name
    stop_if (is_empty original) (fail 400 "originalName is required")
    let target = target_of body.target_name original
    stop_if (is_empty target) (fail 400 "invalid file name")
    stop_if (not_positive body.total_size)
        (fail 400 "totalSizeBytes must be greater than zero when provided")
    stored ← gets (λ w. get_upload_settings faults.settings w.db.settings)
    cfg ← some_or stored (fail 500 "could not load upload settings")
    checked ← gets (λ w. check_size faults.quota cfg owner body.total_size w.db)
    total ← lift checked
    stop_if faults.insert (fail 500 "could not initialize upload session")
    modify (insert_session (new_session keys now id owner folder original target total))
    return (respond 201 (created id folder original target body.total_size))
