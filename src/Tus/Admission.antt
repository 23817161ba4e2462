-- ===== src/Tus/Admission.antt =====
-- tusCreate of backend/internal/http/tus.go: which sessions it lets in.
use personal_space.Prelude.{
  ℕ, ◌<◌, ◌≡◌, ◌≢◌, refl, inl, inr, false, Text, codes, some, ok, err, [], ◌∷◌, find, is_empty,
  trim_space, trim_left, is_space, arith, Result-cases,
}
use personal_space.Database.Rows.{UserRow, user_of}
use personal_space.Settings.Upload.{UploadSettings, get_upload_settings}
use personal_space.Server.Names.{normalize_node_name, delete_code, base}
use personal_space.Server.World.{World, Response, serve}
use personal_space.Uploads.Session.{can_user_store_bytes, validate_parent_ownership}
use personal_space.Uploads.Init.{InitFaults, Keys}
use personal_space.Uploads.Admission.{IsAdmitted}
use personal_space.Tus.Reply.{Reply}
use personal_space.Tus.Create.{Metadata, length_of, filename_of, new_session, tus_create}

length_of-positive : (header : Text) (n : ℕ) → length_of header ≡ ok n → 0 < n
unfolding length_of
length_of-positive header n h = ground arith

length_of-code : (header : Text) (r : Response Reply) → length_of header ≡ err r → r.code ≢ 201
unfolding length_of
length_of-code header r h = ground arith

module _ (keys : Keys) (faults : InitFaults) (now id owner : ℕ)
    (id_text version upload_length : Text) (meta : Metadata) (w : World) (cfg : UploadSettings)
    (u : UserRow) (policy : get_upload_settings faults.settings w.db.settings ≡ some cfg)
    (user : find (user_of owner) w.db.users ≡ some u) where
  -- A tus_create that answers 201 has put one session of the owner in front of the others, for the
  -- size of the header Upload-Length, which is positive, within the policy, and within the quota
  -- unless the usage and the size add up to 2^63 or more; its folder is the owner's.
  pub tus_create-201 :
      (serve
          (tus_create keys faults now id id_text version (some owner) upload_length meta)
          w).0.code
        ≡ 201
      → (size : ℕ) × (length_of upload_length ≡ ok size)
        × ((serve
              (tus_create keys faults now id id_text version (some owner) upload_length meta)
              w).1.db.uploads
            ≡ new_session keys now id owner meta.folder (filename_of id_text meta) size
              ∷ w.db.uploads)
        × IsAdmitted cfg u (some size)
        × (validate_parent_ownership false owner meta.folder w.db ≡ ok tt)
  unfolding tus_create can_user_store_bytes validate_parent_ownership
  tus_create-201 h = elim (Result-cases (length_of upload_length)) [
    | inr (r, e) ↦ absurd (ground (arith, length_of-code upload_length r e))
    | inl (size, e) ↦ (
      size,
      e,
      ground arith,
      ground (arith, user, length_of-positive upload_length size e),
      ground arith,
    )
  ]

  -- A tus_create that answers anything else has changed nothing.
  pub tus_create-refused :
      (serve
          (tus_create keys faults now id id_text version (some owner) upload_length meta)
          w).0.code
        ≢ 201
      → (serve (tus_create keys faults now id id_text version (some owner) upload_length meta) w).1
        ≡ w
  unfolding tus_create
  tus_create-refused h = ground arith

-- Without a name in the metadata the upload is named ".": the name that is made up from the new id
-- is not used.
pub tus_unnamed :
    (id : Text) (meta : Metadata)
    → trim_space meta.filename ≡ []
    → trim_space meta.name ≡ []
    → filename_of id meta ≡ codes "."
unfolding filename_of is_empty normalize_node_name delete_code trim_space trim_left base is_space
tus_unnamed id meta h k = rw (h, k) refl
