-- ===== src/Storage/Traversal.antt =====
-- No storage key leads out of the storage root: the paths of local.go.
use mathlib.Core.List.{reverse_aux}
use personal_space.Prelude.{
  ℕ, ◌==◌, contains_code, ◌≡◌, refl, ap, ◌⊎◌, inl, inr, Bool, true, false, List, [], ◌∷◌, Text,
  text_eq, text_eq_iff, text_eq_refl, is_empty, arith, Bool-cases,
}
use personal_space.Storage.Path.{dot, dotdot, step_up, clean_step, clean_from, split_on, prepend}

-- A component that names an entry of its directory: not empty, neither "." nor "..", without a "/".
abbrev pub IsName : Text → Type 0
IsName part =
    (is_empty part ≡ false)
    × (text_eq part dot ≡ false)
    × (text_eq part dotdot ≡ false)
    × (contains_code b'/' part ≡ false)

abbrev pub AllNames : List Text → Type 0
AllNames [] = Unit {0}
AllNames (p ∷ ps) = IsName p × AllNames ps

-- What strings.Split yields.
abbrev pub NoSlashes : List Text → Type 0
NoSlashes [] = Unit {0}
NoSlashes (p ∷ ps) = (contains_code b'/' p ≡ false) × NoSlashes ps

split_on-cons :
    (c : ℕ) (ps : List Text) → (c == b'/') ≡ false → NoSlashes ps → NoSlashes (prepend c ps)
unfolding contains_code
split_on-cons c [] h n = (ground (arith, h), tt)
split_on-cons c (p ∷ ps) h n = (ground (arith, h, n.0), n.1)

pub split_on-NoSlashes : (s : Text) → NoSlashes (split_on b'/' s)
unfolding split_on contains_code
split_on-NoSlashes [] = (refl, tt)
split_on-NoSlashes (c ∷ s) = elim (Bool-cases (c == b'/')) [
  | inl e ↦ rw e (refl, split_on-NoSlashes s)
  | inr e ↦ rw e (split_on-cons c (split_on b'/' s) e (split_on-NoSlashes s))
]

-- The component at the bottom of a stack, the first of the path, is `..`.
abbrev pub IsUp : List Text → Type 0
IsUp [] = ⊥
IsUp (p ∷ []) = text_eq p dotdot ≡ true
IsUp (p ∷ q ∷ ps) = IsUp (q ∷ ps)

-- Only a relative path begins with `..`.
abbrev pub Stacked : Bool → List Text → Type 0
Stacked rooted stack = AllNames stack ⊎ ((rooted ≡ false) × IsUp stack)

step_up-Stacked :
    (rooted : Bool) (stack : List Text)
    → Stacked rooted stack
    → Stacked rooted (step_up rooted stack)
unfolding step_up
step_up-Stacked true [] h = inl tt
step_up-Stacked false [] h = inr (refl, text_eq_refl dotdot)
step_up-Stacked rooted (p ∷ []) (inl names) = rw (names.0.2, step_up) (inl tt)
step_up-Stacked rooted (p ∷ []) (inr (r, up)) = rw (up, step_up) (inr (r, up))
step_up-Stacked rooted (p ∷ q ∷ ps) (inl names) = rw (names.0.2, step_up) (inl names.1)
step_up-Stacked rooted (p ∷ q ∷ ps) (inr up) = elim (Bool-cases (text_eq p dotdot)) [
  | inl e ↦ rw (e, step_up) (inr up)
  | inr e ↦ rw (e, step_up) (inr up)
]

IsUp-push : (part : Text) (stack : List Text) → IsUp stack → IsUp (part ∷ stack)
IsUp-push part [] h = elim h [ ]
IsUp-push part (p ∷ stack) h = h

push-Stacked :
    (rooted : Bool) (part : Text) (stack : List Text)
    → IsName part
    → Stacked rooted stack
    → Stacked rooted (part ∷ stack)
push-Stacked rooted part stack name (inl names) = inl (name, names)
push-Stacked rooted part stack name (inr (r, up)) = inr (r, IsUp-push part stack up)

clean_step-Stacked :
    (rooted : Bool) (stack : List Text) (part : Text)
    → contains_code b'/' part ≡ false
    → Stacked rooted stack
    → Stacked rooted (clean_step rooted stack part)
clean_step-Stacked rooted stack part flat h = elim (Bool-cases (is_empty part)) [
  | inl e ↦ unfold clean_step in rw e h
  | inr full ↦ elim (Bool-cases (text_eq part dot)) [
    | inl e ↦ unfold clean_step in rw (full, e) h
    | inr here ↦ elim (Bool-cases (text_eq part dotdot)) [
      | inl e ↦ unfold clean_step in rw (full, here, e) (step_up-Stacked rooted stack h)
      | inr name ↦
          unfold clean_step in
          rw (full, here, name) (push-Stacked rooted part stack (full, here, name, flat) h)
    ]
  ]
]

pub clean_from-Stacked :
    (rooted : Bool) (stack ps : List Text)
    → NoSlashes ps
    → Stacked rooted stack
    → Stacked rooted (clean_from rooted stack ps)
unfolding clean_from
clean_from-Stacked rooted stack [] flat h = h
clean_from-Stacked rooted stack (p ∷ ps) flat h =
    clean_from-Stacked rooted (clean_step rooted stack p) ps flat.1
      (clean_step-Stacked rooted stack p flat.0 h)

pub AllNames-reverse_aux :
    (xs ys : List Text) → AllNames xs → AllNames ys → AllNames (reverse_aux xs ys)
AllNames-reverse_aux [] ys h k = k
AllNames-reverse_aux (x ∷ xs) ys h k = AllNames-reverse_aux xs (x ∷ ys) h.1 (h.0, k)

-- A path with `..` at the bottom of its stack begins with it.
pub IsUp-reverse_aux :
    (xs ys : List Text) → IsUp xs → (rest : List Text) × (reverse_aux xs ys ≡ dotdot ∷ rest)
IsUp-reverse_aux [] ys h = elim h [ ]
IsUp-reverse_aux (p ∷ []) ys h = (ys, ap (λ q. q ∷ ys) ((text_eq_iff p dotdot).0 h))
IsUp-reverse_aux (p ∷ q ∷ ps) ys h = IsUp-reverse_aux (q ∷ ps) (p ∷ ys) h
