-- ===== src/Worker/Double.antt =====
-- float64 arithmetic, as resizeImageContain of backend/internal/preview/runner.go uses it: values
-- that are not negative and below 2^53, rounded to 53 binary digits, half to even.
use personal_space.Prelude.{ℕ, zero, suc, ◌+◌, ◌*◌, ◌/◌, ◌%◌, ◌^◌, Bool, ltb, if◌then◌else◌}

-- The value `mantissa / 2 ^ scale`.
pub record Double : Type 0 where
  pub mantissa : ℕ
  pub scale : ℕ

-- n / d to the nearest integer, half to even.
unfoldable pub half_even : ℕ → ℕ → ℕ
half_even n d =
    if ltb (2 * (n % d)) d
    then n / d
    else if ltb d (2 * (n % d))
    then n / d + 1
    else n / d + n / d % 2

-- How often n is doubled before n / d has 53 binary digits.
unfoldable pub shift : ℕ → ℕ → ℕ → ℕ
shift zero n d = 0
shift (suc fuel) n d = let rest = shift fuel (2 * n) d in if ltb n (2 ^ 52 * d) then suc rest else 0

-- Enough for quotients of two values below 2^53.
abbrev digits : ℕ
digits = 128

-- The value nearest to n / d.
unfoldable pub rounded : ℕ → ℕ → Double
rounded n d = let k = shift digits n d in record { mantissa = half_even (n * 2 ^ k) d; scale = k }

-- float64(n)
abbrev pub of_int : ℕ → Double
of_int n = record { mantissa = n; scale = 0 }

unfoldable pub div : Double → Double → Double
div a b = rounded (a.mantissa * 2 ^ b.scale) (b.mantissa * 2 ^ a.scale)

unfoldable pub mul : Double → Double → Double
mul a b = rounded (a.mantissa * b.mantissa) (2 ^ (a.scale + b.scale))

unfoldable pub less : Double → Double → Bool
less a b = ltb (a.mantissa * 2 ^ b.scale) (b.mantissa * 2 ^ a.scale)

-- int(x)
unfoldable pub to_int : Double → ℕ
to_int a = a.mantissa / 2 ^ a.scale
