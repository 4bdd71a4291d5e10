-- ===== src/RateLimit.antt =====
-- crates/keeplin-srv/src/ratelimit.rs: the token bucket of each address. The source counts tokens in
-- `f64`; here a token is split exactly into `unit` parts, so that a rate of `per_min` tokens a minute is
-- `per_min` parts a nanosecond, and nothing is rounded. An `Instant` is a number of nanoseconds.
pub mod Budget
use keeplin_srv.Base.{
  ℕ, ◌+◌, ◌-◌, ◌*◌, min, Bool, true, false, Option, none, some, List, [], ltb, leb, filter,
  if◌then◌else◌, ◌==◌, nat_key,
}
use keeplin_srv.Base.Dict.{Dict, get, put}

-- 60 seconds, in nanoseconds: the parts of one token, and `sweep_interval`.
abbrev pub unit : ℕ
unit = 60_000_000_000

abbrev pub sweep_interval : ℕ
sweep_interval = 60_000_000_000

pub record Bucket : Type 0 where
  pub tokens : ℕ
  pub last_refill : ℕ

pub record RateLimiter : Type 0 where
  pub per_min : ℕ
  pub buckets : Dict ℕ Bucket
  pub last_sweep : ℕ

unfoldable pub capacity : RateLimiter → ℕ
capacity r = r.per_min * unit

unfoldable pub new : ℕ → ℕ → RateLimiter
new per_min now = record { per_min = per_min; buckets = []; last_sweep = now }

unfoldable pub enabled : RateLimiter → Bool
unfolding capacity
enabled r = ltb 0 (capacity r)

-- `saturating_duration_since` is 0 when the clock seems to run backwards, as `-` is on ℕ.
unfoldable pub projected_tokens : RateLimiter → Bucket → ℕ → ℕ
unfolding capacity
projected_tokens r b now = min (b.tokens + (now - b.last_refill) * r.per_min) (capacity r)

abbrev pub bucket_or : Bucket → Option Bucket → Bucket
bucket_or b none = b
bucket_or b (some c) = c

-- `entry(ip).or_insert(..)`: a new address starts with a full bucket.
unfoldable pub entry : RateLimiter → ℕ → ℕ → Bucket
unfolding capacity
entry r ip now = bucket_or (record { tokens = capacity r; last_refill = now }) (get ip r.buckets)

-- The buckets that `retain` keeps: those that would not be full by now.
unfoldable pub sweep : RateLimiter → ℕ → RateLimiter
unfolding capacity
sweep r now =
    if leb sweep_interval (now - r.last_sweep)
    then record r {
      buckets =
          filter
            (λ (x : ℕ × Bucket).
              ltb (x.1.tokens + (now - x.1.last_refill) * r.per_min) (capacity r))
            r.buckets;
      last_sweep = now;
    }
    else r

-- The decision on one bucket: refilled, and one token lighter if it has one.
unfoldable pub allowed : RateLimiter → ℕ → ℕ → Bool
allowed r ip now = leb unit (projected_tokens r (entry r ip now) now)

unfoldable pub spend : RateLimiter → ℕ → ℕ → RateLimiter
unfolding allowed
spend r ip now =
    let tokens : ℕ = projected_tokens r (entry r ip now) now in
    record r {
      buckets =
          put ip
            (record {
              tokens = if allowed r ip now then tokens - unit else tokens;
              last_refill = now;
            })
            r.buckets;
    }

unfoldable pub check : RateLimiter → ℕ → ℕ → Bool × RateLimiter
check r ip now = if enabled r then (allowed r ip now, sweep (spend r ip now) now) else (true, r)
