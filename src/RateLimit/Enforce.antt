-- ===== src/RateLimit/Enforce.antt =====
-- RedisRateLimiter.Allow, and enforceRateLimitWithSubject of backend/internal/http/rate_limit.go.
use mathlib.Core.List.{[], map}
use Prim.Native.Nat.{◌/◌}
use personal_space.Prelude.{
  ℕ, ◌++◌, Bool, true, false, ◌||◌, Text, codes, Option, none, some, ltb, ◌==◌, if◌then◌else◌,
  trim_space, to_lower, is_empty, ℤ, pos, negsuc, is_nonpos, pos_part,
}
use personal_space.RateLimit.Redis.{Redis}

-- What Allow returns without an error: whether the call is let through, or after how many
-- milliseconds to try again.
pub data Verdict : Type 0 where
  allowed : Verdict
  denied : ℕ → Verdict

abbrev pub is_allowed : Verdict → Bool
is_allowed allowed = true
is_allowed (denied retry) = false

-- A negative time to live stands for a key without one: the whole window.
abbrev retry_after : ℤ → ℕ → ℕ
retry_after (pos ttl) window = ttl
retry_after (negsuc n) window = window

module _ {S : Type 0} (redis : Redis S) where
  -- The Lua script: the counter and its time to live.
  unfoldable pub script : ℕ → Text → ℕ → S → (ℕ × ℤ) × S
  script now key window s =
      let (current, counted) = redis.incr now key s in
      let timed = if current == 1 then redis.pexpire now key window counted else counted in
      ((current, redis.pttl now key timed), timed)

  abbrev verdict : ℤ → ℕ → ℕ × ℤ → Verdict
  verdict limit window (count, ttl) =
      if ltb (pos_part limit) count then denied (retry_after ttl window) else allowed

  -- Allow; `fault` is a script that fails, which lets the call through.
  unfoldable pub allow : Bool → ℕ → Text → ℤ → ℕ → S → Verdict × S
  allow fault now key limit window s =
      if is_nonpos limit || fault
      then (allowed, s)
      else let (result, after) = script now key window s in (verdict limit window result, after)

abbrev replaced : ℕ → ℕ
replaced c = if c == b':' || c == b' ' || c == b'/' || c == 92 then b'_' else c

-- sanitizeRateLimitSegment
unfoldable pub sanitize_rate_limit_segment : Text → Text
sanitize_rate_limit_segment value =
    if is_empty (trim_space value) then [] else map replaced (to_lower (trim_space value))

abbrev no_colon : ℕ → ℕ
no_colon c = if c == b':' then b'_' else c

abbrev with_subject : Text → Text → Text
with_subject key subject = if is_empty subject then key else key ++ codes ":" ++ subject

-- The key of a bucket, a client's address and a subject.
unfoldable pub rate_limit_key : Text → Text → Text → Text
rate_limit_key bucket ip subject =
    with_subject (codes "ratelimit:" ++ bucket ++ codes ":" ++ map no_colon ip)
      (sanitize_rate_limit_segment subject)

-- The header Retry-After of the answer 429, in seconds.
abbrev pub seconds : ℕ → ℕ
seconds retry = if ltb (retry / 1000) 1 then 1 else retry / 1000

abbrev enforced : Verdict → Option ℕ
enforced allowed = none
enforced (denied retry) = some (seconds retry)

module _ {S : Type 0} (redis : Redis S) where
  -- enforceRateLimitWithSubject, with a limiter; the result is the Retry-After of a refusal.
  unfoldable pub enforce_rate_limit_with_subject :
      Bool → ℕ → Text → Text → Text → ℤ → S → Option ℕ × S
  enforce_rate_limit_with_subject fault now bucket ip subject per_minute s =
      if is_nonpos per_minute
      then (none, s)
      else let (v, after) =
          allow redis fault now (rate_limit_key bucket ip subject) per_minute 60000 s in
        (enforced v, after)
