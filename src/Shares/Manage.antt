-- ===== src/Shares/Manage.antt =====
-- listShares, getShare, patchShare, deleteShare and revokeShare of backend/internal/http/shares.go.
use personal_space.Prelude.{
  ℕ, Bool, true, false, ◌&&◌, not, String, Text, Option, none, some, Result, ok, err, List, [], ◌∷◌,
  ◌==◌, if◌then◌else◌, any, find, update_where, trim_space, is_empty, ℤ, stop_if, some_or, lift,
  gets, modify, return, ◌>>=◌, ◌>>◌,
}
use personal_space.Database.Rows.{ShareRow}
use personal_space.Server.World.{World, Response, respond, Action, Handler, insert_audit}
use personal_space.Shares.Access.{Crypto, is_past}
use personal_space.Shares.Create.{
  CreateFaults, not_positive, nat_of, enforce_share_policy_for_create,
}

pub data ManageReply : Type 0 where
  error : String → ManageReply
  share : ShareRow → ManageReply
  items : List ShareRow → ManageReply
  ok_true : ManageReply

abbrev pub fail : ℕ → String → Response ManageReply
fail code message = respond code (error message)

-- WHERE id=$1 AND owner_id=$2
abbrev pub owned_share : ℕ → ℕ → ShareRow → Bool
owned_share id owner s = s.id == id && s.owner == owner

abbrev shares_of : ℕ → List ShareRow → List ShareRow
shares_of owner [] = []
shares_of owner (s ∷ ss) =
    let rest = shares_of owner ss in if s.owner == owner then s ∷ rest else rest

-- listShares, up to the order of the rows.
unfoldable pub list_shares : Bool → Option ℕ → Handler ManageReply
list_shares fault user = do
  owner ← some_or user (fail 401 "authentication required")
  stop_if fault (fail 500 "could not list shares")
  rows ← gets (λ w. shares_of owner w.db.shares)
  return (respond 200 (items rows))

-- fetchOwnedShare, with the answers of its callers.
unfoldable pub fetch_owned_share : Bool → ℕ → ℕ → Action ManageReply ShareRow
fetch_owned_share fault owner id = do
  found ← gets (λ w. find (owned_share id owner) w.db.shares)
  stop_if fault (fail 500 "could not load share")
  some_or found (fail 404 "share not found")

-- getShare
unfoldable pub get_share : Bool → Option ℕ → Option ℕ → Handler ManageReply
get_share fault user target = do
  owner ← some_or user (fail 401 "authentication required")
  id ← some_or target (fail 400 "invalid share id")
  s ← fetch_owned_share fault owner id
  return (respond 200 (share s))

-- patchShareRequest
pub record PatchRequest : Type 0 where
  pub password : Option Text
  pub expires_at : Option ℕ
  pub clear_password : Option Bool
  pub clear_expiration : Option Bool
  pub allow_preview : Option Bool
  pub allow_download : Option Bool
  pub allow_folder_browse : Option Bool
  pub max_downloads : Option ℤ
  pub clear_max_downloads : Option Bool
  pub is_revoked : Option Bool

-- `flag != nil && *flag`
abbrev pub is_set : Option Bool → Bool
is_set none = false
is_set (some b) = b

abbrev pub or_keep : Bool → Option Bool → Bool
or_keep current none = current
or_keep current (some b) = b

abbrev pub cleared : {A : Type 0} → Option Bool → Option A → Option A
cleared flag value = if is_set flag then none else value

abbrev hashed_or : Option Text → Result (Response ManageReply) (Option Text)
hashed_or none = err (fail 500 "could not hash password")
hashed_or (some hash) = ok (some hash)

-- The new password hash: a password that is given goes before clearPassword.
unfoldable pub patched_password :
    Crypto → PatchRequest → Option Text → Result (Response ManageReply) (Option Text)
patched_password crypto req current = elim req.password [
  | none ↦ ok (cleared req.clear_password current)
  | some raw ↦
      if is_empty (trim_space raw)
      then err (fail 400 "password cannot be empty")
      else hashed_or (crypto.hash_password (trim_space raw))
]

unfoldable pub patched_expiry :
    ℕ → PatchRequest → Option ℕ → Result (Response ManageReply) (Option ℕ)
patched_expiry now req current = elim req.expires_at [
  | none ↦ ok (cleared req.clear_expiration current)
  | some t ↦
      if is_past (some t) now then err (fail 400 "expiresAt must be in the future") else ok (some t)
]

unfoldable pub patched_limit : PatchRequest → Option ℕ → Result (Response ManageReply) (Option ℕ)
patched_limit req current = elim req.max_downloads [
  | none ↦ ok (cleared req.clear_max_downloads current)
  | some n ↦
      if not_positive (some n)
      then err (fail 400 "maxDownloads must be greater than zero")
      else ok (nat_of (some n))
]

-- The columns that the update sets.
abbrev pub patched :
    PatchRequest → Option Text → Option ℕ → Option ℕ → ShareRow → ShareRow → ShareRow
patched req hash expires limit current s = record s {
  password_hash = hash;
  expires_at = expires;
  allow_preview = or_keep current.allow_preview req.allow_preview;
  allow_download = or_keep current.allow_download req.allow_download;
  allow_folder_browse = or_keep current.allow_folder_browse req.allow_folder_browse;
  max_downloads = limit;
  is_revoked = or_keep current.is_revoked req.is_revoked;
}

abbrev or_forbidden : Result String (Unit {0}) → Result (Response ManageReply) (Unit {0})
or_forbidden (ok u) = ok u
or_forbidden (err reason) = err (fail 403 reason)

-- The policy holds for a share that stays open.
abbrev pub checked_policy :
    Bool → Result String (Unit {0}) → Result (Response ManageReply) (Unit {0})
checked_policy true r = ok tt
checked_policy false r = or_forbidden r

abbrev pub update_share : ℕ → ℕ → (ShareRow → ShareRow) → World → World
update_share id owner f w = record w {
  db = record w.db { shares = update_where (owned_share id owner) f w.db.shares };
}

pub record PatchFaults : Type 0 where
  pub load : Bool
  pub policy : CreateFaults
  pub update : Bool
  pub audit : Bool
  pub reload : Bool

abbrev shown : Bool → Option ShareRow → ManageReply
shown true s = ok_true
shown false none = ok_true
shown false (some s) = share s

-- patchShare
unfoldable pub patch_share :
    Crypto → PatchFaults → ℕ → Option ℕ → Option ℕ → Option PatchRequest → Handler ManageReply
patch_share crypto faults now user target body = do
  owner ← some_or user (fail 401 "authentication required")
  id ← some_or target (fail 400 "invalid share id")
  current ← fetch_owned_share faults.load owner id
  req ← some_or body (fail 400 "invalid request body")
  hash ← lift (patched_password crypto req current.password_hash)
  expires ← lift (patched_expiry now req current.expires_at)
  limit ← lift (patched_limit req current.max_downloads)
  policy ← gets (λ w.
      enforce_share_policy_for_create faults.policy
        (or_keep current.allow_preview req.allow_preview)
        (or_keep current.allow_download req.allow_download) w.db.settings)
  lift (checked_policy (or_keep current.is_revoked req.is_revoked) policy)
  stop_if faults.update (fail 500 "could not update share")
  modify (update_share id owner (patched req hash expires limit current))
  insert_audit faults.audit
      (record { user = some owner; action = "share.updated"; target = some id })
  updated ← gets (λ w. find (owned_share id owner) w.db.shares)
  return (respond 200 (shown faults.reload updated))

abbrev pub without_share : ℕ → ℕ → List ShareRow → List ShareRow
without_share id owner [] = []
without_share id owner (s ∷ ss) =
    let rest = without_share id owner ss in if owned_share id owner s then rest else s ∷ rest

-- deleteShare
unfoldable pub delete_share : Bool → Bool → Option ℕ → Option ℕ → Handler ManageReply
delete_share fault audit user target = do
  owner ← some_or user (fail 401 "authentication required")
  id ← some_or target (fail 400 "invalid share id")
  stop_if fault (fail 500 "could not delete share")
  present ← gets (λ w. any (owned_share id owner) w.db.shares)
  modify (λ w. record w { db = record w.db { shares = without_share id owner w.db.shares } })
  stop_if (not present) (fail 404 "share not found")
  insert_audit audit (record { user = some owner; action = "share.deleted"; target = some id })
  return (respond 200 ok_true)

-- revokeShare
unfoldable pub revoke_share : Bool → Bool → Option ℕ → Option ℕ → Handler ManageReply
revoke_share fault audit user target = do
  owner ← some_or user (fail 401 "authentication required")
  id ← some_or target (fail 400 "invalid share id")
  stop_if fault (fail 500 "could not revoke share")
  present ← gets (λ w. any (owned_share id owner) w.db.shares)
  modify (update_share id owner (λ s. record s { is_revoked = true }))
  stop_if (not present) (fail 404 "share not found")
  insert_audit audit (record { user = some owner; action = "share.revoked"; target = some id })
  return (respond 200 ok_true)
