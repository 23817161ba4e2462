-- ===== src/Folders/Stable.antt =====
-- A stable sort, sort.SliceStable of backend/internal/http/folders.go, by any strict weak order.
use mathlib.Core.List.{Perm}
use mathlib.Core.List.Perm
use personal_space.Prelude.{
  ◌≡◌, refl, inl, inr, Bool, true, false, ◌&&◌, not, List, [], ◌∷◌, Bool-cases, arith,
}
use personal_space.Folders.Sort.{insert_stable, slice_stable}
use personal_space.Folders.Listing.{select}

-- No item is before an earlier one.
abbrev pub NoneBefore {ℓ} : {A : Type ℓ} → (A → A → Bool) → A → List A → Type 0
NoneBefore less x [] = Unit
NoneBefore less x (y ∷ ys) = (less y x ≡ false) × NoneBefore less x ys

abbrev pub IsSorted {ℓ} : {A : Type ℓ} → (A → A → Bool) → List A → Type 0
IsSorted less [] = Unit
IsSorted less (x ∷ xs) = NoneBefore less x xs × IsSorted less xs

-- Neither is before the other.
abbrev pub ties {ℓ} : {A : Type ℓ} → (A → A → Bool) → A → A → Bool
ties less a b = not (less a b) && not (less b a)

-- What a comparison needs to sort by: a strict weak order.
pub record IsWeakOrder {ℓ} {A : Type ℓ} (less : A → A → Bool) : Type ℓ where
  pub asym : (a b : A) → less a b ≡ true → less b a ≡ false
  pub negtrans : (a b c : A) → less a b ≡ false → less b c ≡ false → less a c ≡ false

module _ {ℓ} {A : Type ℓ} (less : A → A → Bool) (o : IsWeakOrder less) where
  NoneBefore-trans :
      (x y : A) (ys : List A) → less y x ≡ false → NoneBefore less y ys → NoneBefore less x ys
  NoneBefore-trans x y [] h n = tt
  NoneBefore-trans x y (z ∷ zs) h n = (o.negtrans z y x n.0 h, NoneBefore-trans x y zs h n.1)

  NoneBefore-insert :
      (x y : A) (ys : List A)
      → less x y ≡ false
      → NoneBefore less y ys
      → NoneBefore less y (insert_stable less x ys)
  unfolding insert_stable
  NoneBefore-insert x y [] h n = (h, tt)
  NoneBefore-insert x y (z ∷ zs) h n = elim (Bool-cases (less z x)) [
    | inl e ↦ rw e (n.0, NoneBefore-insert x y zs h n.1)
    | inr e ↦ rw e (h, (n.0, n.1))
  ]

  insert_stable-IsSorted :
      (x : A) (ys : List A) → IsSorted less ys → IsSorted less (insert_stable less x ys)
  unfolding insert_stable
  insert_stable-IsSorted x [] s = (tt, tt)
  insert_stable-IsSorted x (y ∷ ys) s = elim (Bool-cases (less y x)) [
    | inl e ↦ rw e (NoneBefore-insert x y ys (o.asym y x e) s.0, insert_stable-IsSorted x ys s.1)
    | inr e ↦ rw e ((e, NoneBefore-trans x y ys e s.0), (s.0, s.1))
  ]

  insert_stable-perm : (x : A) (ys : List A) → Perm (insert_stable less x ys) (x ∷ ys)
  unfolding insert_stable
  insert_stable-perm x [] = Perm.rfl
  insert_stable-perm x (y ∷ ys) = elim (Bool-cases (less y x)) [
    | inl e ↦ rw e (Perm.trans (Perm.cons y (insert_stable-perm x ys)) (Perm.swap x y ys))
    | inr e ↦ rw e Perm.rfl
  ]

  -- Items that tie keep their order.
  insert_stable-ties :
      (a x : A) (ys : List A)
      → select (ties less a) (insert_stable less x ys) ≡ select (ties less a) (x ∷ ys)
  unfolding insert_stable
  insert_stable-ties a x [] = refl
  insert_stable-ties a x (y ∷ ys) = ground (arith, insert_stable-ties a x ys, o.negtrans y a x)

  pub slice_stable-IsSorted : (xs : List A) → IsSorted less (slice_stable less xs)
  unfolding slice_stable
  slice_stable-IsSorted [] = tt
  slice_stable-IsSorted (x ∷ xs) =
      insert_stable-IsSorted x (slice_stable less xs) (slice_stable-IsSorted xs)

  pub slice_stable-perm : (xs : List A) → Perm (slice_stable less xs) xs
  unfolding slice_stable
  slice_stable-perm [] = Perm.rfl
  slice_stable-perm (x ∷ xs) =
      Perm.trans (insert_stable-perm x (slice_stable less xs)) (Perm.cons x (slice_stable-perm xs))

  pub slice_stable-ties :
      (a : A) (xs : List A) → select (ties less a) (slice_stable less xs) ≡ select (ties less a) xs
  unfolding slice_stable
  slice_stable-ties a [] = refl
  slice_stable-ties a (x ∷ xs) =
      ground (arith, slice_stable-ties a xs, insert_stable-ties a x (slice_stable less xs))
