-- ===== src/Shares/Managed.antt =====
-- What patchShare and revokeShare of backend/internal/http/shares.go achieve.
use personal_space.Prelude.{
  none, is_empty, Option-cases, ◌≤◌, ◌<◌, ◌∙◌, ℤ, pos, ℤ-cases, ◌&&◌, ◌==◌, Bool, ℕ, ◌≡◌, ◌≢◌, refl,
  ◌⊎◌, inl, inr, true, false, ◌||◌, Text, Option, some, ok, err, List, [], ◌∷◌, any, find,
  update_where, trim_space, Bool-cases, Result-cases, arith,
}
use personal_space.Database.Rows.{ShareRow}
use personal_space.Server.World.{World, Response, serve}
use personal_space.Shares.Access.{Crypto, ShareError, AccessFaults, by_token, resolve_public_share}
use personal_space.Shares.Create.{enforce_share_policy_for_create}
use personal_space.Shares.Manage.{
  ManageReply, checked_policy, PatchFaults, PatchRequest, owned_share, patched_password,
  patched_expiry, patched_limit, patched, or_keep, cleared, update_share, fetch_owned_share,
  patch_share, revoke_share,
}

find-revoked :
    (test : ShareRow → Bool) (id owner : ℕ) (rows : List ShareRow) (s : ShareRow)
    → ((r : ShareRow) → test (record r { is_revoked = true }) ≡ test r)
    → find test rows ≡ some s
    → owned_share id owner s ≡ true
    → find test (update_where (owned_share id owner) (λ s. record s { is_revoked = true }) rows)
      ≡ some (record s { is_revoked = true })
find-revoked test id owner [] s same h own = cc
find-revoked test id owner (r ∷ rows) s same h own =
    ground (arith, same r, find-revoked test id owner rows s same)

find-any :
    (test other : ShareRow → Bool) (rows : List ShareRow) (s : ShareRow)
    → find test rows ≡ some s
    → other s ≡ true
    → any other rows ≡ true
find-any test other [] s h t = cc
find-any test other (r ∷ rows) s h t = ground (arith, find-any test other rows s)

-- A share that revokeShare has revoked is closed: its token resolves to nothing any more, whatever the
-- password, the time and the settings.
pub revoke_share-closed :
    (crypto : Crypto) (faults : AccessFaults) (audit : Bool) (id owner now : ℕ)
    (token password : Text) (enforce : Bool) (w : World) (s : ShareRow)
    → find (by_token (crypto.hash_token (trim_space token))) w.db.shares ≡ some s
    → owned_share id owner s ≡ true
    → let (answer, after) = serve (revoke_share false audit (some owner) (some id)) w in
      (answer.code ≡ 200)
      × ((e : ShareError) × ((resolve_public_share crypto faults now token password enforce after).0
            ≡ err e))
unfolding revoke_share resolve_public_share
revoke_share-closed crypto faults audit id owner now token password enforce w s h own =
    let same =
      find-any (by_token (crypto.hash_token (trim_space token))) (owned_share id owner) w.db.shares
        s h own in
    let closed =
      find-revoked (by_token (crypto.hash_token (trim_space token))) id owner w.db.shares s
        (λ r. refl) h own in
    let after = (serve (revoke_share false audit (some owner) (some id)) w).1 in
    (
      ground (arith, same),
      elim (Result-cases (resolve_public_share crypto faults now token password enforce after).0) [
        | inr (e, r) ↦ (e, r)
        | inl (t, r) ↦ absurd (ground (arith, r, same, closed))
      ],
    )

-- A request that is refused is answered with an error.
password-refused :
    (crypto : Crypto) (req : PatchRequest) (current : Option Text) (a : Response ManageReply)
    → patched_password crypto req current ≡ err a
    → a.code ≢ 200
unfolding patched_password
password-refused crypto req current a h = ground arith

expiry-refused :
    (now : ℕ) (req : PatchRequest) (current : Option ℕ) (a : Response ManageReply)
    → patched_expiry now req current ≡ err a
    → a.code ≢ 200
unfolding patched_expiry
expiry-refused now req current a h = ground arith

limit-refused :
    (req : PatchRequest) (current : Option ℕ) (a : Response ManageReply)
    → patched_limit req current ≡ err a
    → a.code ≢ 200
unfolding patched_limit
limit-refused req current a h = ground arith

-- An optional value after a patch: what the request gives, made into a value; nothing where the request
-- clears it; or what it was.
abbrev pub IsChosen :
    {A B : Type 0} → (A → B → Type 0) → Option A → Option Bool → Option B → Option B → Type 0
IsChosen {A} {B} made given clear current new =
    ((a : A) × (b : B) × (given ≡ some a) × made a b × (new ≡ some b))
    ⊎ (given ≡ none) × (clear ≡ some true) × (new ≡ none)
    ⊎ (given ≡ none) × (clear ≢ some true) × (new ≡ current)

-- A flag after a patch: that of the request, or what it was.
abbrev pub IsKept : Option Bool → Bool → Bool → Type 0
IsKept given current new = (given ≡ some new) ⊎ (given ≡ none) × (new ≡ current)

or_keep-IsKept :
    (current : Bool) (given : Option Bool) → IsKept given current (or_keep current given)
or_keep-IsKept current none = inr (refl, refl)
or_keep-IsKept current (some b) = inl refl

-- A password that is not blank, with its hash; a time that is not past; a limit above zero.
abbrev pub IsHashed : Crypto → Text → Text → Type 0
IsHashed crypto raw hash =
    (is_empty (trim_space raw) ≡ false) × (crypto.hash_password (trim_space raw) ≡ some hash)

abbrev pub IsAhead : ℕ → ℕ → ℕ → Type 0
IsAhead now t u = (now ≤ t) × (u ≡ t)

abbrev pub IsPositive : ℤ → ℕ → Type 0
IsPositive z n = (z ≡ pos n) × (0 < n)

cleared-cases :
    {A : Type 0} (flag : Option Bool) (value : Option A)
    → ((flag ≡ some true) × (cleared flag value ≡ none))
      ⊎ (flag ≢ some true) × (cleared flag value ≡ value)
cleared-cases none value = inr ((λ e. cc e), refl)
cleared-cases (some true) value = inl (refl, refl)
cleared-cases (some false) value = inr ((λ e. cc e), refl)

cleared-IsChosen :
    {A B : Type 0} (made : A → B → Type 0) (given : Option A) (flag : Option Bool)
    (value new : Option B)
    → given ≡ none
    → new ≡ cleared flag value
    → IsChosen made given flag value new
cleared-IsChosen made given flag value new none_given e = elim (cleared-cases flag value) [
  | inl (set, c) ↦ inr (inl (none_given, set, e ∙ c))
  | inr (unset, c) ↦ inr (inr (none_given, unset, e ∙ c))
]

password-IsChosen :
    (crypto : Crypto) (req : PatchRequest) (current hash : Option Text)
    → patched_password crypto req current ≡ ok hash
    → IsChosen (IsHashed crypto) req.password req.clear_password current hash
unfolding patched_password
password-IsChosen crypto req current hash h = elim (Option-cases req.password) [
  | inl e ↦ cleared-IsChosen _ _ _ _ _ e (ground (arith, h, e))
  | inr (raw, e) ↦ elim (Option-cases (crypto.hash_password (trim_space raw))) [
    | inl failed ↦ absurd (ground (arith, h, e, failed))
    | inr (made, m) ↦ inl (raw, made, e, (ground (arith, h, e, m), m), ground (arith, h, e, m))
  ]
]

expiry-IsChosen :
    (now : ℕ) (req : PatchRequest) (current expires : Option ℕ)
    → patched_expiry now req current ≡ ok expires
    → IsChosen (IsAhead now) req.expires_at req.clear_expiration current expires
unfolding patched_expiry
expiry-IsChosen now req current expires h = elim (Option-cases req.expires_at) [
  | inl e ↦ cleared-IsChosen _ _ _ _ _ e (ground (arith, h, e))
  | inr (t, e) ↦ inl (t, t, e, (ground (arith, h, e), refl), ground (arith, h, e))
]

limit-IsChosen :
    (req : PatchRequest) (current limit : Option ℕ)
    → patched_limit req current ≡ ok limit
    → IsChosen IsPositive req.max_downloads req.clear_max_downloads current limit
unfolding patched_limit
limit-IsChosen req current limit h = elim (Option-cases req.max_downloads) [
  | inl e ↦ cleared-IsChosen _ _ _ _ _ e (ground (arith, h, e))
  | inr (z, e) ↦ elim (ℤ-cases z) [
    | inr (n, neg) ↦ absurd (ground (arith, h, e, neg))
    | inl (n, p) ↦ inl (z, n, e, (p, ground (arith, h, e, p)), ground (arith, h, e, p))
  ]
]

module _ (crypto : Crypto) (faults : PatchFaults) (now id owner : ℕ) (req : PatchRequest)
    (w : World) (s : ShareRow) (found : find (owned_share id owner) w.db.shares ≡ some s) where
  -- A share is patched as a whole or not at all.
  patch_share-steps :
      let (answer, after) =
        serve (patch_share crypto faults now (some owner) (some id) (some req)) w in
      (answer.code ≡ 200)
        × ((hash : Option Text) × (expires limit : Option ℕ) × (patched_password crypto req
                s.password_hash
              ≡ ok hash)
            × (patched_expiry now req s.expires_at ≡ ok expires)
            × (patched_limit req s.max_downloads ≡ ok limit)
            × (after.db ≡ (update_share id owner (patched req hash expires limit s) w).db))
        × ((or_keep s.is_revoked req.is_revoked ≡ false)
            → enforce_share_policy_for_create faults.policy
                (or_keep s.allow_preview req.allow_preview)
                (or_keep s.allow_download req.allow_download)
                w.db.settings
              ≡ ok tt)
      ⊎ (answer.code ≢ 200) × (after ≡ w)
  unfolding patch_share fetch_owned_share
  patch_share-steps = elim (Result-cases (patched_password crypto req s.password_hash)) [
    | inr (a, bad) ↦ inr (
      ground (arith, found, bad, password-refused crypto req s.password_hash a),
      ground (arith, found, bad),
    )
    | inl (hash, eh) ↦ elim (Result-cases (patched_expiry now req s.expires_at)) [
      | inr (a, bad) ↦ inr (
        ground (arith, found, eh, bad, expiry-refused now req s.expires_at a),
        ground (arith, found, eh, bad),
      )
      | inl (expires, ee) ↦ elim (Result-cases (patched_limit req s.max_downloads)) [
        | inr (a, bad) ↦ inr (
          ground (arith, found, eh, ee, bad, limit-refused req s.max_downloads a),
          ground (arith, found, eh, ee, bad),
        )
        | inl (limit, el) ↦ elim (Bool-cases (faults.load || faults.update)) [
          | inl broken ↦
              inr (
                ground (arith, found, eh, ee, el, broken),
                ground (arith, found, eh, ee, el, broken),
              )
          | inr calm ↦
              elim (Result-cases (
                checked_policy (or_keep s.is_revoked req.is_revoked) (
                  enforce_share_policy_for_create faults.policy
                    (or_keep s.allow_preview req.allow_preview)
                    (or_keep s.allow_download req.allow_download) w.db.settings))) [
                      | inr (a, bad) ↦ inr (
                        ground (arith, found, eh, ee, el, calm, bad),
                        ground (arith, found, eh, ee, el, calm, bad),
                      )
                      | inl (u, allowed) ↦ inl (
                        ground (arith, found, eh, ee, el, calm, allowed),
                        (
                          hash,
                          expires,
                          limit,
                          eh,
                          ee,
                          el,
                          ground (arith, found, eh, ee, el, calm, allowed),
                        ),
                        λ open_share. ground (arith, allowed),
                      )
                    ]
        ]
      ]
    ]
  ]

  -- A share is patched as a whole or not at all. Where it is, the row gets the password, expiry, limit
  -- and flags of the request, or nothing where the request clears one of the first three, or else the
  -- old ones, and no other row changes; and a share that is left open is one that the settings allow.
  -- A password is not blank and is stored as its hash, an expiry is not past, a limit is above zero.
  pub patch_share-effect :
      let (answer, after) =
        serve (patch_share crypto faults now (some owner) (some id) (some req)) w in
      (answer.code ≡ 200)
        × ((hash : Option Text) × (expires limit : Option ℕ) × (preview download browse
              revoked : Bool)
            × IsChosen (IsHashed crypto) req.password req.clear_password s.password_hash hash
            × IsChosen (IsAhead now) req.expires_at req.clear_expiration s.expires_at expires
            × IsChosen IsPositive req.max_downloads req.clear_max_downloads s.max_downloads limit
            × IsKept req.allow_preview s.allow_preview preview
            × IsKept req.allow_download s.allow_download download
            × IsKept req.allow_folder_browse s.allow_folder_browse browse
            × IsKept req.is_revoked s.is_revoked revoked
            × ((revoked ≡ true)
                ⊎ (enforce_share_policy_for_create faults.policy preview download w.db.settings
                    ≡ ok tt))
            × (after.db ≡ record w.db {
              shares =
                  update_where
                    (λ r. r.id == id && r.owner == owner)
                    (λ r. record r {
                      password_hash = hash;
                      expires_at = expires;
                      allow_preview = preview;
                      allow_download = download;
                      allow_folder_browse = browse;
                      max_downloads = limit;
                      is_revoked = revoked;
                    })
                    w.db.shares;
            }))
      ⊎ (answer.code ≢ 200) × (after ≡ w)
  patch_share-effect = elim patch_share-steps [
    | inr refused ↦ inr refused
    | inl (answered, (hash, expires, limit, eh, ee, el, db), policy) ↦ inl (
      answered,
      (
        hash,
        expires,
        limit,
        or_keep s.allow_preview req.allow_preview,
        or_keep s.allow_download req.allow_download,
        or_keep s.allow_folder_browse req.allow_folder_browse,
        or_keep s.is_revoked req.is_revoked,
        password-IsChosen crypto req s.password_hash hash eh,
        expiry-IsChosen now req s.expires_at expires ee,
        limit-IsChosen req s.max_downloads limit el,
        or_keep-IsKept s.allow_preview req.allow_preview,
        or_keep-IsKept s.allow_download req.allow_download,
        or_keep-IsKept s.allow_folder_browse req.allow_folder_browse,
        or_keep-IsKept s.is_revoked req.is_revoked,
        elim (Bool-cases (or_keep s.is_revoked req.is_revoked)) [
          | inl closed ↦ inl closed
          | inr left_open ↦ inr (policy left_open)
        ],
        db,
      ),
    )
  ]
