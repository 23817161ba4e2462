-- ===== src/Worker/Rows.antt =====
-- The table preview_jobs under an update by id.
use personal_space.Prelude.{
  ℕ, suc, ◌+◌, ◌-◌, ◌≤◌, ◌<◌, ◌≡◌, ◌≢◌, refl, ◌⊎◌, inl, inr, Bool, true, false, List, [], ◌∷◌, none,
  some, ◌==◌, if◌then◌else◌, find, Bool-cases, Option-cases, arith,
}
use personal_space.Database.Rows.{JobRow}
use personal_space.Previews.Queue.{count}
use personal_space.Worker.Claim.{is_queued, oldest}
use personal_space.Worker.Moves.{set_job}

abbrev pub In : JobRow → List JobRow → Type 0
In j [] = ⊥
In j (k ∷ ks) = (j ≡ k) ⊎ In j ks

-- The primary key: rows with one id are one row.
abbrev pub IsKeyed : List JobRow → Type 0
IsKeyed js = (j k : JobRow) → In j js → In k js → j.id ≡ k.id → j ≡ k

pub oldest-In :
    (test : JobRow → Bool) (js : List JobRow) (j : JobRow)
    → oldest test js ≡ some j
    → In j js × (test j ≡ true)
unfolding oldest
oldest-In test [] j h = cc
oldest-In test (k ∷ ks) j h = elim (Option-cases (oldest test ks)) [
  | inl nothing ↦ (inl (ground (arith, nothing)), ground (arith, nothing))
  | inr (m, e) ↦ let (r, t) = oldest-In test ks m e in ground (arith, e, r, t)
]

pub oldest-none :
    (test : JobRow → Bool) (js : List JobRow) (k : JobRow)
    → oldest test js ≡ none
    → In k js
    → test k ≡ false
unfolding oldest
oldest-none test [] k h r = absurd r
oldest-none test (j ∷ js) k h r = ground (arith, r, oldest-none test js k)

-- No job that passes is older.
pub oldest-first :
    (test : JobRow → Bool) (js : List JobRow) (j k : JobRow)
    → oldest test js ≡ some j
    → In k js
    → test k ≡ true
    → j.created_at ≤ k.created_at
unfolding oldest
oldest-first test [] j k h r t = absurd r
oldest-first test (m ∷ ms) j k h r t = elim (Option-cases (oldest test ms)) [
  | inl nothing ↦ ground (arith, nothing, r, t, oldest-none test ms k nothing)
  | inr (o, e) ↦ ground (arith, e, r, t, oldest-first test ms o k e)
]

-- What an update keeps of a count, where the changed rows pass no test that they have not passed.
pub count-set_job :
    (test : JobRow → Bool) (id : ℕ) (f : JobRow → JobRow) (js : List JobRow)
    → ((k : JobRow) → In k js → k.id ≡ id → test (f k) ≡ true → test k ≡ true)
    → count test (set_job id f js) ≤ count test js
count-set_job test id f [] h = omega arith
count-set_job test id f (j ∷ js) h =
    ground (arith, count-set_job test id f js (λ k r. h k (inr r)), h j (inl refl))

-- The rounds that a job can still take.
unfoldable pub weight : ℕ → JobRow → ℕ
weight max j = if is_queued j then suc (max - j.attempts) else 0

unfoldable pub total : ℕ → List JobRow → ℕ
total max [] = 0
total max (j ∷ js) = weight max j + total max js

total-set_job :
    (max id : ℕ) (f : JobRow → JobRow) (js : List JobRow)
    → ((k : JobRow) → In k js → k.id ≡ id → weight max (f k) ≤ weight max k)
    → total max (set_job id f js) ≤ total max js
unfolding total
total-set_job max id f [] h = omega arith
total-set_job max id f (j ∷ js) h =
    ground (arith, total-set_job max id f js (λ k r. h k (inr r)), h j (inl refl))

pub total-set_job_lt :
    (max : ℕ) (f : JobRow → JobRow) (js : List JobRow) (j : JobRow)
    → In j js
    → ((k : JobRow) → In k js → k.id ≡ j.id → weight max (f k) < weight max k)
    → total max (set_job j.id f js) < total max js
unfolding total
total-set_job_lt max f [] j r h = absurd r
total-set_job_lt max f (k ∷ ks) j (inl e) h =
    ground (
      arith,
      e,
      h k (inl refl),
      total-set_job max j.id f ks (λ m s t. omega (arith, h m (inr s) t)),
    )
total-set_job_lt max f (k ∷ ks) j (inr r) h =
    ground (arith, h k (inl refl), total-set_job_lt max f ks j r (λ m s. h m (inr s)))

pub find-set_job :
    (id other : ℕ) (f : JobRow → JobRow) (js : List JobRow)
    → ((k : JobRow) → (f k).id ≡ k.id)
    → (id == other) ≡ false
    → find (λ k. k.id == other) (set_job id f js) ≡ find (λ k. k.id == other) js
find-set_job id other f [] same apart = refl
find-set_job id other f (j ∷ js) same apart =
    ground (arith, same j, find-set_job id other f js same apart)

pub In-set_job :
    (id : ℕ) (f : JobRow → JobRow) (js : List JobRow) (j : JobRow)
    → In j (set_job id f js)
    → (k : JobRow) × In k js × ((k.id ≡ id) × (j ≡ f k) ⊎ (k.id ≢ id) × (j ≡ k))
In-set_job id f [] j r = absurd r
In-set_job id f (k ∷ ks) j (inl e) = elim (Bool-cases (k.id == id)) [
  | inl same ↦ (k, inl refl, inl (ground (arith), ground arith))
  | inr other ↦ (k, inl refl, inr (ground (arith), ground arith))
]
In-set_job id f (k ∷ ks) j (inr r) = let (m, s, t) = In-set_job id f ks j r in (m, inr s, t)

pub IsKeyed-set_job :
    (id : ℕ) (f : JobRow → JobRow) (js : List JobRow)
    → ((k : JobRow) → (f k).id ≡ k.id)
    → IsKeyed js
    → IsKeyed (set_job id f js)
IsKeyed-set_job id f js same h j k rj rk e =
    let (a, ra, ta) = In-set_job id f js j rj in
    let (b, rb, tb) = In-set_job id f js k rk in ground (arith, ta, tb, same a, same b, h a b ra rb)

pub find-In :
    (id : ℕ) (js : List JobRow) (j : JobRow)
    → find (λ k. k.id == id) js ≡ some j
    → In j js × (j.id ≡ id)
find-In id [] j h = cc
find-In id (k ∷ ks) j h = ground (arith, find-In id ks j)
