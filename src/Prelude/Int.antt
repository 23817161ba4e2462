-- ===== src/Prelude/Int.antt =====
-- int64 values. The library's ℤ stands on the unary ℕ; this one is over the native numbers.
use Prim.Native.Nat.{ℕ, ◌+◌, ◌-◌, ◌^◌, ◌<◌}
use mathlib.Core.Path.{◌≡◌, refl}
use mathlib.Core.Bool.{Bool, true}
use mathlib.Core.Logic.{◌⊎◌, inl, inr}
use native.Mathlib.Omega.{arith}
use personal_space.Prelude.Tests.{ltb, leb, if◌then◌else◌}

-- `negsuc n` is -(n + 1).
pub data ℤ : Type 0 where
  pos : ℕ → ℤ
  negsuc : ℕ → ℤ

-- One more than the largest int64.
abbrev pub int64_limit : ℕ
int64_limit = 2 ^ 63

abbrev pub pos_part : ℤ → ℕ
pos_part (pos n) = n
pos_part (negsuc n) = 0

-- The sum of two non-negative int64 values: it wraps to a negative value past the largest one.
abbrev pub add64 : ℕ → ℕ → ℤ
add64 a b = if ltb (a + b) int64_limit then pos (a + b) else negsuc (2 ^ 64 - 1 - (a + b))

-- `v <= n` for a non-negative n.
abbrev pub leb_ℤ : ℤ → ℕ → Bool
leb_ℤ (pos m) n = leb m n
leb_ℤ (negsuc m) n = true

-- `v <= 0`.
abbrev pub is_nonpos : ℤ → Bool
is_nonpos (pos n) = leb n 0
is_nonpos (negsuc n) = true

pub add64-pos : (a b : ℕ) → a + b < int64_limit → add64 a b ≡ pos (a + b)
add64-pos a b h = ground arith

pub ℤ-cases : (z : ℤ) → ((n : ℕ) × (z ≡ pos n)) ⊎ ((n : ℕ) × (z ≡ negsuc n))
ℤ-cases (pos n) = inl (n, refl)
ℤ-cases (negsuc n) = inr (n, refl)
