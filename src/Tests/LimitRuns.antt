-- ===== src/Tests/LimitRuns.antt =====
-- The rate limiter at work, on a table of counters.
use personal_space.Prelude.{
  ℕ, suc, ◌+◌, ◌≡◌, refl, inl, [], ◌∷◌, Text, codes, Option, none, some, leb, if◌then◌else◌, ℤ, pos,
  text_eq, text_eq_refl, arith, min, ◌-◌,
}
use personal_space.RateLimit.Redis.{Redis, IsRedis}
use personal_space.RateLimit.Window.{count_allowed, allow-window}

abbrev Table : Type 0
Table = Text → Option (ℕ × Option ℕ)

abbrev set : Text → ℕ × Option ℕ → Table → Table
set key e table k = if text_eq k key then some e else table k

abbrev next : ℕ → Option (ℕ × Option ℕ) → ℕ × Option ℕ
next now none = (1, none)
next now (some (count, none)) = (suc count, none)
next now (some (count, some deadline)) =
    if leb deadline now then (1, none) else (suc count, some deadline)

abbrev extended : Text → Option (ℕ × Option ℕ) → ℕ → Table → Table
extended key none deadline table = table
extended key (some (count, old)) deadline table = set key (count, some deadline) table

abbrev left : ℕ → Option (ℕ × Option ℕ) → ℤ
left now (some (count, some deadline)) = pos (deadline - now)
left now _ = pos 0

abbrev tables : Redis Table
tables = record {
  incr = λ now key s. ((next now (s key)).0, set key (next now (s key)) s);
  pexpire = λ now key ms s. extended key (s key) (now + ms) s;
  pttl = λ now key s. left now (s key);
}

tables-IsRedis : IsRedis tables
tables-IsRedis = record {
  entry = λ key s. s key;
  incr_fresh = λ now key s e. ground (arith, text_eq_refl key);
  incr_expired = λ now key s count deadline e past. ground (arith, text_eq_refl key);
  incr_live = λ now key s count deadline e live. ground (arith, text_eq_refl key);
  pexpire_sets = λ now key ms s count old e. ground (arith, text_eq_refl key);
}

abbrev empty : Table
empty = λ k. none

allow-window_example :
    count_allowed tables tables-IsRedis (codes "k") 2 60 (100 ∷ 110 ∷ 120 ∷ []) empty ≡ min 2 3
unfolding tables-IsRedis
allow-window_example =
    allow-window tables tables-IsRedis (codes "k") 2 60 100 (110 ∷ 120 ∷ []) empty (omega arith)
      (inl refl) (omega arith, (omega arith, tt))
