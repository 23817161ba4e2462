-- ===== src/Shares/Browsed.antt =====
-- What publicShareItems of backend/internal/http/shares.go shows, and to whom.
use personal_space.Prelude.{
  ℕ, ◌≡◌, ◌≢◌, refl, ◌⊎◌, inl, inr, Bool, true, Text, some, ok, err, List, [], ◌∷◌, ◌++◌, map,
  Bool-cases, Result-cases, arith,
}
use personal_space.Database.Rows.{ShareRow}
use personal_space.Database.Tree.{live, Below, in_subtree, in_subtree_iff}
use personal_space.Server.World.{World, serve}
use personal_space.Uploads.Init.{OptionalId, absent, invalid, given}
use personal_space.Folders.Sort.{insert_stable, slice_stable}
use personal_space.Folders.Listing.{select, folder_item, file_item}
use personal_space.Shares.Access.{Crypto, ShareError, AccessFaults, resolve_public_share}
use personal_space.Shares.Browse.{
  BrowseFaults, items, share_items, child_folder, child_file, is_folder_target, public_share_items,
}

abbrev pub All {ℓ} : {A : Type ℓ} → (A → Type 0) → List A → Type 0
All P [] = Unit
All P (x ∷ xs) = P x × All P xs

module _ {ℓ} {A : Type ℓ} (P : A → Type 0) where
  All-insert :
      (less : A → A → Bool) (x : A) (xs : List A) → P x → All P xs → All P (insert_stable less x xs)
  unfolding insert_stable
  All-insert less x [] p h = (p, tt)
  All-insert less x (y ∷ ys) p h = elim (Bool-cases (less y x)) [
    | inl e ↦ rw e (h.0, All-insert less x ys p h.1)
    | inr e ↦ rw e (p, h)
  ]

  pub All-sorted : (less : A → A → Bool) (xs : List A) → All P xs → All P (slice_stable less xs)
  unfolding slice_stable
  All-sorted less [] h = tt
  All-sorted less (x ∷ xs) h = All-insert less x (slice_stable less xs) h.0 (All-sorted less xs h.1)

  pub All-select :
      (test : A → Bool) (xs : List A) → ((x : A) → test x ≡ true → P x) → All P (select test xs)
  All-select test [] h = tt
  All-select test (x ∷ xs) h = elim (Bool-cases (test x)) [
    | inl e ↦ rw e (h x e, All-select test xs h)
    | inr e ↦ rw e (All-select test xs h)
  ]

  pub All-append : (xs ys : List A) → All P xs → All P ys → All P (xs ++ ys)
  All-append [] ys h k = k
  All-append (x ∷ xs) ys h k = (h.0, All-append xs ys h.1 k)

pub All-map {ℓ κ} :
    {A : Type ℓ} {B : Type κ} (P : B → Type 0) (f : A → B) (xs : List A)
    → All (λ x. P (f x)) xs
    → All P (map f xs)
All-map P f [] h = tt
All-map P f (x ∷ xs) h = (h.0, All-map P f xs h.1)

OptionalId-cases : (q : OptionalId) → (q ≡ absent) ⊎ (q ≡ invalid) ⊎ ((p : ℕ) × (q ≡ given p))
OptionalId-cases absent = inl refl
OptionalId-cases invalid = inr (inl refl)
OptionalId-cases (given p) = inr (inr (p, refl))

-- Every item of a listing is a child of the folder.
share_items-children :
    (collate : Text → Text → Bool) (p : ℕ) (w : World)
    → All (λ i. i.parent ≡ some p) (share_items collate p w.db)
unfolding share_items
share_items-children collate p w =
    All-append _ _ _
      (All-map _ folder_item _
        (All-sorted _ _ _ (All-select _ (child_folder p) w.db.folders (λ f t. ground arith))))
      (All-map _ file_item _
        (All-sorted _ _ _ (All-select _ (child_file p) w.db.files (λ f t. ground arith))))

resolve-db :
    (crypto : Crypto) (faults : AccessFaults) (now : ℕ) (token password : Text) (w : World)
    → (resolve_public_share crypto faults now token password true w).1.db ≡ w.db
unfolding resolve_public_share
resolve-db crypto faults now token password w = ground arith

module _ (crypto : Crypto) (faults : BrowseFaults) (now : ℕ) (collate : Text → Text → Bool)
    (token password : Text) (query : OptionalId) (w : World)
    (answered : (serve (public_share_items crypto faults now collate token password query) w).0.code
      ≡ 200) where
  denied_code :
      (e : ShareError)
      → (resolve_public_share crypto faults.access now token password true w).0 ≡ err e
      → (serve (public_share_items crypto faults now collate token password query) w).0.code ≢ 200
  unfolding public_share_items
  denied_code e r = ground (arith, r)

  -- A listing is answered 200 only for a share of a folder that its token opens, with its password, and
  -- that allows browsing. It shows the children of one folder: the shared one, or one below it.
  pub public_share_items-200 :
      (s : ShareRow) × (p : ℕ) × ((resolve_public_share crypto faults.access now token password true
          w).0
        ≡ ok s)
      × (is_folder_target s.target_type ≡ true)
      × (s.allow_folder_browse ≡ true)
      × ((p ≡ s.target) ⊎ Below live w.db.folders s.target p)
      × ((serve (public_share_items crypto faults now collate token password query) w).0.body
          ≡ items (share_items collate p w.db))
      × All (λ i. i.parent ≡ some p) (share_items collate p w.db)
  unfolding public_share_items
  public_share_items-200 =
      let same = resolve-db crypto faults.access now token password w in
      elim (Result-cases (resolve_public_share crypto faults.access now token password true w).0) [
        | inr (e, r) ↦ absurd (denied_code e r answered)
        | inl (s, r) ↦ elim (OptionalId-cases query) [
          | inl none_given ↦ (
            s,
            s.target,
            r,
            ground (arith, r, same),
            ground (arith, r, same),
            inl refl,
            ground (arith, r, same, none_given),
            share_items-children collate s.target w,
          )
          | inr (inl bad) ↦ absurd (ground (arith, r, same, bad))
          | inr (inr (p, e)) ↦
              let found : in_subtree live w.db.folders s.target p ≡ true =
                ground (arith, r, same, e) in
              (
                s,
                p,
                r,
                ground (arith, r, same),
                ground (arith, r, same),
                inr ((in_subtree_iff live w.db.folders s.target p).0 found),
                ground (arith, r, same, e),
                share_items-children collate p w,
              )
        ]
      ]
