-- ===== src/Uploads/Admission.antt =====
-- uploadInit: which sessions it lets in.
use personal_space.Prelude.{
  ℕ, ◌+◌, ◌≤◌, ◌<◌, ◌≡◌, ◌≢◌, refl, ◌⊎◌, inl, inr, Bool, false, Text, Option, none, some, ok, err,
  ◌∷◌, find, contains_code, is_empty, trim_space, arith, ℤ, int64_limit, Result-cases,
}
use personal_space.Database.Rows.{Database, UserRow, UploadSession, initialized, user_of}
use personal_space.Settings.Upload.{UploadSettings, get_upload_settings}
use personal_space.Server.Names.{normalize_node_name_flat, base}
use personal_space.Server.World.{World, Response, serve}
use personal_space.Uploads.Session.{
  Body, bound_of, over_max, can_user_store_bytes, validate_parent_ownership,
}
use personal_space.Uploads.Init.{
  InitFaults, InitRequest, id_or, Keys, target_of, check_size, not_positive, new_session,
  upload_init,
}
use personal_space.Uploads.Progress.{row}

-- A name of one path component.
abbrev pub IsFlat : Text → Type 0
IsFlat name = (contains_code b'/' name ≡ false) × (contains_code 92 name ≡ false)

target_of-IsFlat : (target original : Text) → IsFlat (target_of target original)
unfolding target_of
target_of-IsFlat target original =
    ground (arith, normalize_node_name_flat target, normalize_node_name_flat (base original))

-- The quota has room for the size, or the sum is past the largest int64.
abbrev pub HasRoom : UserRow → ℕ → Type 0
HasRoom u size = elim u.quota as (λ q. Type 0) [
  | none ↦ Unit {0}
  | some quota ↦ (u.used + size ≤ quota) ⊎ (int64_limit ≤ u.used + size)
]

-- A declared size that is admitted is positive, within the policy and within the quota.
abbrev pub IsAdmitted : UploadSettings → UserRow → Option ℕ → Type 0
IsAdmitted cfg u none = Unit {0}
IsAdmitted cfg u (some size) = (0 < size) × (over_max (bound_of cfg) size ≡ false) × HasRoom u size

check_size-IsAdmitted :
    (fault : Bool) (cfg : UploadSettings) (owner : ℕ) (size : Option ℤ) (db : Database)
    (u : UserRow) (total : Option ℕ)
    → find (user_of owner) db.users ≡ some u
    → not_positive size ≡ false
    → check_size fault cfg owner size db ≡ ok total
    → IsAdmitted cfg u total
unfolding check_size can_user_store_bytes
check_size-IsAdmitted fault cfg owner size db u total user positive h = ground (arith, user)

check_size-code :
    (fault : Bool) (cfg : UploadSettings) (owner : ℕ) (size : Option ℤ) (db : Database)
    (r : Response Body)
    → check_size fault cfg owner size db ≡ err r
    → r.code ≢ 201
unfolding check_size can_user_store_bytes
check_size-code fault cfg owner size db r h = ground arith

module _ (keys : Keys) (faults : InitFaults) (now id owner : ℕ) (w : World) (req : InitRequest)
    (cfg : UploadSettings) (u : UserRow)
    (policy : get_upload_settings faults.settings w.db.settings ≡ some cfg)
    (user : find (user_of owner) w.db.users ≡ some u) where
  -- An upload_init that answers 201 has put one session in front of the others, its owner's, with no
  -- byte uploaded and a week to live; its target name is one non-empty path component, its folder is
  -- the owner's, and a declared size is positive, within the policy, and within the quota unless the
  -- usage and the size add up to 2^63 or more.
  pub upload_init-201 :
      (serve (upload_init keys faults now id (some owner) (some req)) w).0.code ≡ 201
      → (s : UploadSession) × (row owner id
            (serve (upload_init keys faults now id (some owner) (some req)) w).1
          ≡ some s)
        × ((serve (upload_init keys faults now id (some owner) (some req)) w).1.db.uploads
            ≡ s ∷ w.db.uploads)
        × (s.status ≡ initialized)
        × (s.uploaded_bytes ≡ 0)
        × (s.temp_key ≡ keys.temp owner id)
        × (s.expires_at ≡ some (now + 604800))
        × IsFlat s.target_name
        × (is_empty s.target_name ≡ false)
        × (validate_parent_ownership false owner s.folder w.db ≡ ok tt)
        × IsAdmitted cfg u s.total_size
  unfolding upload_init validate_parent_ownership
  upload_init-201 h = elim (Result-cases (id_or req.folder)) [
    | inr (r, e) ↦ absurd (ground arith)
    | inl (folder, e) ↦
        elim (Result-cases (check_size faults.quota cfg owner req.total_size w.db)) [
          | inr (r, sized) ↦
              absurd (ground (arith, check_size-code faults.quota cfg owner req.total_size w.db r))
          | inl (total, sized) ↦ (
            new_session keys now id owner folder (trim_space req.original_name)
                (target_of req.target_name (trim_space req.original_name)) total,
            ground arith,
            ground arith,
            refl,
            refl,
            refl,
            refl,
            target_of-IsFlat req.target_name (trim_space req.original_name),
            ground arith,
            ground arith,
            ground (
              arith,
              check_size-IsAdmitted faults.quota cfg owner req.total_size w.db u total user,
            ),
          )
        ]
  ]

  -- An upload_init that answers anything else has changed nothing.
  pub upload_init-refused :
      (serve (upload_init keys faults now id (some owner) (some req)) w).0.code ≢ 201
      → (serve (upload_init keys faults now id (some owner) (some req)) w).1 ≡ w
  unfolding upload_init
  upload_init-refused h = ground arith
