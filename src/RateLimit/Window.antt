-- ===== src/RateLimit/Window.antt =====
-- Within a window RedisRateLimiter.Allow of backend/internal/security/ratelimiter.go lets through as many calls as the limit says.
use personal_space.Prelude.{
  ℕ, suc, ◌+◌, ◌-◌, ◌≤◌, ◌<◌, ◌≡◌, ◌⊎◌, inl, inr, false, List, [], ◌∷◌, Text, none, some,
  if◌then◌else◌, length, min, pos, arith,
}
use personal_space.RateLimit.Redis.{Redis, IsRedis}
use personal_space.RateLimit.Enforce.{is_allowed, script, allow}

abbrev pub AllBefore : ℕ → List ℕ → Type 0
AllBefore deadline [] = Unit {0}
AllBefore deadline (t ∷ ts) = (t < deadline) × AllBefore deadline ts

module _ {S : Type 0} (redis : Redis S) (laws : IsRedis redis) (key : Text) (limit window : ℕ) where
  -- How many calls at these times are let through.
  pub count_allowed : List ℕ → S → ℕ
  count_allowed [] s = 0
  count_allowed (t ∷ ts) s =
      let rest = count_allowed ts (allow redis false t key (pos limit) window s).1 in
      if is_allowed (allow redis false t key (pos limit) window s).0 then suc rest else rest

  count-live :
      (ts : List ℕ) (s : S) (count deadline : ℕ)
      → 0 < limit
      → 0 < count
      → laws.entry key s ≡ some (count, some deadline)
      → AllBefore deadline ts
      → count_allowed ts s ≡ min (limit - count) (length ts)
  unfolding count_allowed allow script
  count-live [] s count deadline positive seen e before = ground arith
  count-live (t ∷ ts) s count deadline positive seen e before =
      let live = laws.incr_live t key s count deadline e before.0 in
      ground (
        arith,
        live,
        count-live ts (redis.incr t key s).1 (suc count) deadline positive (omega arith) live.1
            before.1,
      )

  -- The key has no counter, or one that has expired.
  abbrev pub StartsAt : ℕ → S → Type 0
  StartsAt t s =
      (laws.entry key s ≡ none)
      ⊎ ((count : ℕ) × (deadline : ℕ) × (laws.entry key s ≡ some (count, some deadline))
          × (deadline ≤ t))

  first-counted :
      (t : ℕ) (s : S)
      → StartsAt t s
      → ((redis.incr t key s).0 ≡ 1) × (laws.entry key (redis.incr t key s).1 ≡ some (1, none))
  first-counted t s (inl fresh) = laws.incr_fresh t key s fresh
  first-counted t s (inr (count, deadline, e, past)) =
      laws.incr_expired t key s count deadline e past

  -- Of the calls on a key within one window, which starts with the first of them, as many are let
  -- through as the positive limit says, or all where there are fewer, if the key had no counter or
  -- one that has expired, the script does not fail, and Redis behaves as it documents.
  pub allow-window :
      (t : ℕ) (ts : List ℕ) (s : S)
      → 0 < limit
      → StartsAt t s
      → AllBefore (t + window) ts
      → count_allowed (t ∷ ts) s ≡ min limit (suc (length ts))
  unfolding count_allowed allow script
  allow-window t ts s positive start before =
      let first = first-counted t s start in
      let timed = laws.pexpire_sets t key window (redis.incr t key s).1 1 none first.1 in
      ground (
        arith,
        first,
        count-live ts (redis.pexpire t key window (redis.incr t key s).1) 1 (t + window) positive
            (omega arith) timed before,
      )
