-- ===== src/Shares/Roundtrip.antt =====
-- A share that createShare of backend/internal/http/shares.go makes is the one that resolvePublicShare finds.
use personal_space.Prelude.{
  ℕ, ◌≡◌, ◌≢◌, refl, inl, inr, Bool, true, false, Text, List, ◌∷◌, [], Option, none, some, ok,
  text_eq_refl, trim_space, is_empty, arith, Option-cases,
}
use personal_space.Database.Rows.{SettingRow, TargetType}
use personal_space.Server.World.{World, serve}
use personal_space.Previews.Runtime.{SharingRuntimeSettings, get_sharing_runtime_settings}
use personal_space.Shares.Access.{Crypto, AccessFaults, is_past, resolve_public_share}
use personal_space.Shares.Guarded.{IsUnlocked}
use personal_space.Shares.Create.{
  CreateRequest, CreateFaults, or_true, password_hash_of, enforce_share_policy_for_create,
  new_share, create_share,
}

abbrev pub calm : AccessFaults
calm = record { settings = false; load = false; audit = false }

-- The password that a visitor has to give.
abbrev pub visitor_password : Option Text → Text
visitor_password none = []
visitor_password (some p) = p

-- No blanks at the ends.
abbrev pub IsTrimmed : Option Text → Type 0
IsTrimmed none = Unit {0}
IsTrimmed (some p) = trim_space p ≡ p

-- VerifyPassword accepts what HashPassword has hashed.
abbrev pub Verifies : Crypto → Type 0
Verifies crypto =
    (p hash : Text) → crypto.hash_password p ≡ some hash → crypto.verify_password hash p ≡ true

-- The hash of a password opens with it.
opens :
    (crypto : Crypto)
    → Verifies crypto
    → (password hash : Option Text) → IsTrimmed password
    → password_hash_of crypto password ≡ some hash
    → IsUnlocked crypto (visitor_password password) hash
unfolding password_hash_of
opens crypto verifies none hash trimmed h = ground arith
opens crypto verifies (some p) hash trimmed h = elim (Option-cases (crypto.hash_password p)) [
  | inl failed ↦ ground (arith, trimmed)
  | inr (code, e) ↦ ground (arith, trimmed, verifies p code e)
]

policy-enabled :
    (faults : CreateFaults) (preview download : Bool) (rows : List SettingRow)
    → enforce_share_policy_for_create faults preview download rows ≡ ok tt
    → (cfg : SharingRuntimeSettings) × (get_sharing_runtime_settings false rows ≡ some cfg)
      × (cfg.enabled ≡ true)
unfolding enforce_share_policy_for_create get_sharing_runtime_settings
policy-enabled faults preview download rows h = (_, refl, ground arith)

module _ (crypto : Crypto) (faults : CreateFaults) (now id owner : ℕ) (token : Text)
    (req : CreateRequest) (w : World) (target_type : TargetType) (target : ℕ)
    (kind : req.target_type ≡ some target_type) (aim : req.target ≡ some target) where
  create-new :
      (hash : Option Text)
      → password_hash_of crypto req.password ≡ some hash
      → (serve (create_share crypto faults now id token (some owner) (some req)) w).0.code ≡ 201
      → ((serve (create_share crypto faults now id token (some owner) (some req)) w).1.db.shares
          ≡ new_share crypto id owner token target_type target hash req ∷ w.db.shares)
        × ((serve (create_share crypto faults now id token (some owner) (some req)) w).1.db.settings
            ≡ w.db.settings)
        × (enforce_share_policy_for_create faults
              (or_true req.allow_preview)
              (or_true req.allow_download)
              w.db.settings
            ≡ ok tt)
  unfolding create_share
  create-new hash hashed h = (
    ground (arith, kind, aim, hashed),
    ground (arith, kind, aim, hashed),
    ground (arith, kind, aim, hashed),
  )

  create-hashed :
      (serve (create_share crypto faults now id token (some owner) (some req)) w).0.code ≡ 201
      → password_hash_of crypto req.password ≢ none
  unfolding create_share
  create-hashed h e = ground (arith, kind, aim)

  -- A share that was made with 201 is what its token resolves to, with the owner's password, as long
  -- as it has not expired, where the token and the password have no blanks at their ends and
  -- VerifyPassword accepts what HashPassword has hashed.
  pub create-resolve :
      (later : ℕ)
      → Verifies crypto
      → trim_space token ≡ token
      → is_empty token ≡ false
      → IsTrimmed req.password
      → is_past req.expires_at later ≡ false
      → (serve (create_share crypto faults now id token (some owner) (some req)) w).0.code ≡ 201
      → (hash : Option Text) × (password_hash_of crypto req.password ≡ some hash)
        × ((resolve_public_share crypto calm later token
              (visitor_password req.password)
              true
              (serve (create_share crypto faults now id token (some owner) (some req)) w).1).0
            ≡ ok (new_share crypto id owner token target_type target hash req))
  unfolding resolve_public_share
  create-resolve later verifies plain full trimmed current h =
      elim (Option-cases (password_hash_of crypto req.password)) [
        | inl failed ↦ absurd (create-hashed h failed)
        | inr (hash, hashed) ↦
            let (shares, settings, allowed) = create-new hash hashed h in
            let (cfg, read, enabled) =
              policy-enabled faults (or_true req.allow_preview) (or_true req.allow_download)
                w.db.settings allowed in
            (
              hash,
              hashed,
              ground (
                arith,
                shares,
                settings,
                read,
                enabled,
                text_eq_refl (crypto.hash_token token),
                opens crypto verifies req.password hash trimmed hashed,
              ),
            )
      ]
