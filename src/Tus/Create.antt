-- ===== src/Tus/Create.antt =====
-- tusCreate of backend/internal/http/tus.go.
use personal_space.Prelude.{
  ℕ, ◌+◌, Bool, true, false, not, String, Text, codes, ◌++◌, Option, none, some, Result, ok, err,
  if◌then◌else◌, trim_space, is_empty, ltb, ℤ, pos, gets, some_or, stop_if, return, lift, modify,
  ◌>>=◌, ◌>>◌,
}
use personal_space.Database.Rows.{UploadSession, tus, initialized}
use personal_space.Settings.Upload.{get_upload_settings}
use personal_space.Server.Names.{normalize_node_name, base}
use personal_space.Server.Numbers.{parse_int64}
use personal_space.Server.World.{Response, respond, Handler}
use personal_space.Uploads.Session.{bound_of, can_user_store_bytes, validate_parent_ownership}
use personal_space.Uploads.Init.{InitFaults, Keys, exceeds, session_life, insert_session}
use personal_space.Tus.Reply.{Reply, blank, fail, version_ok, wrong_version}

-- What parseTusMetadata finds in the header Upload-Metadata: the values of "filename" and "name",
-- empty where absent, and the folder id, where there is one that uuid.Parse takes.
pub record Metadata : Type 0 where
  pub filename : Text
  pub name : Text
  pub folder : Option ℕ

-- The header Upload-Length: a positive int64.
abbrev positive : Option ℤ → Option ℕ
positive (some (pos n)) = if ltb 0 n then some n else none
positive _ = none

unfoldable pub length_of : Text → Result (Response Reply) ℕ
length_of header =
    if is_empty (trim_space header)
    then err (fail 400 "Upload-Length is required")
    else elim (positive (parse_int64 (trim_space header))) [
      | none ↦ err (fail 400 "invalid Upload-Length")
      | some n ↦ ok n
    ]

abbrev pub first_of : Text → Text → Text
first_of s t = if is_empty s then t else s

-- The name in the metadata, or one that is made up from `id`, the text of a new UUID.
unfoldable pub filename_of : Text → Metadata → Text
filename_of id meta =
    first_of
      (normalize_node_name (base (first_of (trim_space meta.filename) (trim_space meta.name))))
      (codes "upload-" ++ id)

abbrev pub allowed_or : Option Bool → Result (Response Reply) (Unit {0})
allowed_or none = err (fail 500 "could not validate user storage quota")
allowed_or (some false) = err (fail 413 "upload exceeds your storage quota")
allowed_or (some true) = ok tt

abbrev pub or_bad_request : Result String (Unit {0}) → Result (Response Reply) (Unit {0})
or_bad_request (ok u) = ok u
or_bad_request (err message) = err (fail 400 message)

abbrev pub new_session : Keys → ℕ → ℕ → ℕ → Option ℕ → Text → ℕ → UploadSession
new_session keys now id owner folder name total = record {
  id = id;
  owner = owner;
  folder = folder;
  file = none;
  protocol = tus;
  original_name = name;
  target_name = name;
  total_size = some total;
  uploaded_bytes = 0;
  temp_key = keys.temp owner id;
  status = initialized;
  error_message = none;
  expires_at = some (now + session_life);
}

module _ (keys : Keys) (faults : InitFaults) where
  -- tusCreate, behind its rate limit.
  unfoldable pub tus_create : ℕ → ℕ → Text → Text → Option ℕ → Text → Metadata → Handler Reply
  tus_create now id id_text version user upload_length meta = do
    stop_if (not (version_ok version)) wrong_version
    owner ← some_or user (fail 401 "authentication required")
    size ← lift (length_of upload_length)
    stored ← gets (λ w. get_upload_settings faults.settings w.db.settings)
    cfg ← some_or stored (fail 500 "could not load upload settings")
    stop_if (exceeds (bound_of cfg) size)
        (fail 413 "This file exceeds the maximum allowed upload size.")
    allowed ← gets (λ w. can_user_store_bytes faults.quota owner size w.db)
    lift (allowed_or allowed)
    parent ← gets (λ w. validate_parent_ownership faults.parent owner meta.folder w.db)
    lift (or_bad_request parent)
    stop_if faults.insert (fail 500 "could not initialize tus upload session")
    modify
        (insert_session (new_session keys now id owner meta.folder (filename_of id_text meta) size))
    return (
        respond 201 (record blank {
          resumable = true;
          location = some id;
          offset = some 0;
          length = some size;
        }))
