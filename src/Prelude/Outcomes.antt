-- ===== src/Prelude/Outcomes.antt =====
-- A Go result `(value, error)`, and handlers: actions on a state that may end with an early answer.
use mathlib.Core.Path.{◌≡◌, refl}
use mathlib.Core.Logic.{◌⊎◌, inl, inr}
use mathlib.Core.Bool.{Bool, true, false}
use mathlib.Core.Option.{Option, none, some}

pub data Result {ℓ} (E A : Type ℓ) : Type ℓ where
  ok : A → Result E A
  err : E → Result E A

-- An action keeps what it wrote before it ended with an error or an early answer.
abbrev pub Exec {ℓ} : Type ℓ → Type ℓ → Type ℓ → Type ℓ
Exec S E A = S → Result E A × S

module _ {ℓ} {S E A : Type ℓ} where
  abbrev pub return : A → Exec S E A
  return a s = (ok a, s)

  -- `writeJSON(...); return`, or `return err`.
  abbrev pub stop : E → Exec S E A
  stop e s = (err e, s)

  -- A result of a pure computation.
  abbrev pub lift : Result E A → Exec S E A
  lift r s = (r, s)

  -- `if err != nil { stop }` on a missing value.
  abbrev pub some_or : Option A → E → Exec S E A
  some_or none e s = (err e, s)
  some_or (some a) e s = (ok a, s)

  abbrev pub gets : (S → A) → Exec S E A
  gets f s = (ok (f s), s)

module _ {ℓ} {S E A B : Type ℓ} where
  abbrev pub continue : Result E A × S → (A → Exec S E B) → Result E B × S
  continue (ok a, s) f = f a s
  continue (err e, s) f = (err e, s)

  infixl 10 ◌>>=◌
  abbrev pub ◌>>=◌ : Exec S E A → (A → Exec S E B) → Exec S E B
  ◌>>=◌ m f s = continue (m s) f

abbrev pub stop_if : {S E : Type 0} → Bool → E → Exec S E (Unit {0})
stop_if true e s = (err e, s)
stop_if false e s = (ok tt, s)

infixl 10 ◌>>◌
abbrev pub ◌>>◌ : {S E B : Type 0} → Exec S E (Unit {0}) → Exec S E B → Exec S E B
m >> n = m >>= λ _. n

abbrev pub modify : {S E : Type 0} → (S → S) → Exec S E (Unit {0})
modify f s = (ok tt, f s)

pub Result-cases {ℓ} :
    {E A : Type ℓ} (r : Result E A) → ((a : A) × (r ≡ ok a)) ⊎ ((e : E) × (r ≡ err e))
Result-cases (ok a) = inl (a, refl)
Result-cases (err e) = inr (e, refl)
