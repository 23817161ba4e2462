-- ===== src/RateLimit/Redis.antt =====
-- The commands of Redis that the script of backend/internal/security/ratelimiter.go calls.
use personal_space.Prelude.{ℕ, suc, ◌+◌, ◌≤◌, ◌<◌, ◌≡◌, Text, Option, none, some, ℤ}

-- INCR, PEXPIRE and PTTL at a time in milliseconds, on a key.
pub record Redis (S : Type 0) : Type 0 where
  pub incr : ℕ → Text → S → ℕ × S
  pub pexpire : ℕ → Text → ℕ → S → S
  pub pttl : ℕ → Text → S → ℤ

-- Their documented behaviour, in terms of the counter of a key and the time at which it is dropped.
pub record IsRedis {S : Type 0} (redis : Redis S) : Type 0 where
  pub entry : Text → S → Option (ℕ × Option ℕ)
  pub incr_fresh :
      (now : ℕ) (key : Text) (s : S)
      → entry key s ≡ none
      → ((redis.incr now key s).0 ≡ 1) × (entry key (redis.incr now key s).1 ≡ some (1, none))
  pub incr_expired :
      (now : ℕ) (key : Text) (s : S) (count deadline : ℕ)
      → entry key s ≡ some (count, some deadline)
      → deadline ≤ now
      → ((redis.incr now key s).0 ≡ 1) × (entry key (redis.incr now key s).1 ≡ some (1, none))
  pub incr_live :
      (now : ℕ) (key : Text) (s : S) (count deadline : ℕ)
      → entry key s ≡ some (count, some deadline)
      → now < deadline
      → ((redis.incr now key s).0 ≡ suc count)
        × (entry key (redis.incr now key s).1 ≡ some (suc count, some deadline))
  pub pexpire_sets :
      (now : ℕ) (key : Text) (ms : ℕ) (s : S) (count : ℕ) (old : Option ℕ)
      → entry key s ≡ some (count, old)
      → entry key (redis.pexpire now key ms s) ≡ some (count, some (now + ms))
