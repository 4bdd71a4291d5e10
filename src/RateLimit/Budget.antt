-- ===== src/RateLimit/Budget.antt =====
-- The budget of an address: what `check` allows, over any history of requests.
use native.Mathlib.Nat.{mul-le-mul_right}
use keeplin_srv.Base.{
  ℕ, ◌+◌, ◌-◌, ◌*◌, ◌≤◌, ◌<◌, ◌≡◌, refl, Bool, true, false, ◌&&◌, Option, none, some, List, [], ◌∷◌,
  arith, ltb, leb, if◌then◌else◌, ◌==◌, nat_key, nat_beq_iff, eq_refl, inl, inr, Bool-cases, ◌∙◌,
  ap,
}
use keeplin_srv.Base.Dict.{get, get-put, IsMap, put-IsMap, get-filter, filter-IsMap, keep_if}
use keeplin_srv.RateLimit.{
  unit, sweep_interval, Bucket, RateLimiter, capacity, enabled, projected_tokens, bucket_or, entry,
  sweep, allowed, spend, check, new,
}

-- The parts of a token that an address could spend at a time.
unfoldable pub level : RateLimiter → ℕ → ℕ → ℕ
level r ip now = projected_tokens r (entry r ip now) now

mul_mono : (x y z k : ℕ) → x ≤ y + z → x * k ≤ y * k + z * k
mul_mono x y z k h = omega (arith, mul-le-mul_right k h)

elapsed_le : (a b c : ℕ) → b ≤ c → c - a ≤ (b - a) + (c - b)
elapsed_le a b c h = omega arith

projected-later :
    (r : RateLimiter) (b : Bucket) (now later : ℕ)
    → now ≤ later
    → projected_tokens r b later ≤ projected_tokens r b now + (later - now) * r.per_min
unfolding projected_tokens
projected-later r b now later h = omega (
  arith,
  mul_mono (later - b.last_refill) (now - b.last_refill) (later - now) r.per_min
      (elapsed_le b.last_refill now later h),
)

-- The level from what the map holds: an address that is not there has a full bucket.
abbrev full_or : RateLimiter → ℕ → Option Bucket → ℕ
full_or r now none = capacity r
full_or r now (some b) = projected_tokens r b now

bucket_or-full :
    (r : RateLimiter) (now : ℕ) (o : Option Bucket)
    → projected_tokens r (bucket_or (record { tokens = capacity r; last_refill = now }) o) now
      ≡ full_or r now o
unfolding projected_tokens
bucket_or-full r now none = omega arith
bucket_or-full r now (some b) = refl

level-eq : (r : RateLimiter) (ip now : ℕ) → level r ip now ≡ full_or r now (get ip r.buckets)
unfolding level entry
level-eq r ip now = bucket_or-full r now (get ip r.buckets)

full_or-later :
    (r : RateLimiter) (now later : ℕ) (o : Option Bucket)
    → now ≤ later
    → full_or r later o ≤ full_or r now o + (later - now) * r.per_min
full_or-later r now later none h = omega arith
full_or-later r now later (some b) h = projected-later r b now later h

-- A refill adds at the rate, and no faster.
level-later :
    (r : RateLimiter) (ip now later : ℕ)
    → now ≤ later
    → level r ip later ≤ level r ip now + (later - now) * r.per_min
level-later r ip now later h =
    rw (level-eq, level-eq) (full_or-later r now later (get ip r.buckets) h)

level-le-capacity : (r : RateLimiter) (ip now : ℕ) → level r ip now ≤ capacity r
unfolding level projected_tokens
level-le-capacity r ip now = omega arith

abbrev keeps : RateLimiter → ℕ → ℕ → Bucket → Bool
keeps r now k b = ltb (b.tokens + (now - b.last_refill) * r.per_min) (capacity r)

-- A bucket that would be full by now stays full: dropping it changes no later decision.
full_or-swept :
    (r : RateLimiter) (now later : ℕ) (b : Bucket)
    → now ≤ later
    → ltb (b.tokens + (now - b.last_refill) * r.per_min) (capacity r) ≡ false
    → projected_tokens r b later ≡ capacity r
unfolding projected_tokens
full_or-swept r now later b h f =
    let e : now - b.last_refill ≤ later - b.last_refill = omega arith in
    ground (arith, mul-le-mul_right r.per_min e)

full_or-per_min :
    (q r : RateLimiter) (now : ℕ) (o : Option Bucket)
    → q.per_min ≡ r.per_min
    → full_or q now o ≡ full_or r now o
unfolding projected_tokens
full_or-per_min q r now none e = rw e
full_or-per_min q r now (some b) e = rw e

swept_option :
    (r : RateLimiter) (ip now later : ℕ) (o : Option Bucket)
    → now ≤ later
    → full_or r later (keep_if (keeps r now) ip o) ≡ full_or r later o
swept_option r ip now later none h = refl
swept_option r ip now later (some b) h =
    elim (Bool-cases (ltb (b.tokens + (now - b.last_refill) * r.per_min) (capacity r))) [
      | inl kept ↦ rw kept
      | inr full ↦ rw full (ground (arith, full_or-swept r now later b h full))
    ]

-- The sweep changes no address's level, now or later.
pub level-sweep :
    (r : RateLimiter) (ip now later : ℕ)
    → IsMap r.buckets
    → now ≤ later
    → level (sweep r now) ip later ≡ level r ip later
unfolding sweep
level-sweep r ip now later m h = elim (Bool-cases (leb sweep_interval (now - r.last_sweep))) [
  | inl due ↦
      rw (due, level-eq, level-eq r, get-filter (keeps r now) ip r.buckets m)
        (full_or-per_min _ r later _ refl ∙ swept_option r ip now later (get ip r.buckets) h)
  | inr early ↦ rw early
]

spent_le :
    (q : RateLimiter) (tokens now later : ℕ)
    → projected_tokens q
          (record { tokens = if leb unit tokens then tokens - unit else tokens; last_refill = now })
          later
        + (if leb unit tokens then unit else 0)
      ≤ tokens + (later - now) * q.per_min
unfolding projected_tokens
spent_le q tokens now later = ground arith

level-def :
    (r : RateLimiter) (ip now : ℕ) → level r ip now ≡ projected_tokens r (entry r ip now) now
unfolding level
level-def r ip now = refl

-- After a request the address has one token less if it was allowed, and what was refilled.
level-spend_self :
    (r : RateLimiter) (ip now later : ℕ)
    → level (spend r ip now) ip later + (if allowed r ip now then unit else 0)
      ≤ level r ip now + (later - now) * r.per_min
unfolding spend
level-spend_self r ip now later =
    rw (level-eq, get-put, eq_refl ip)
      (rw (level-def r)
        (spent_le (spend r ip now) (projected_tokens r (entry r ip now) now) now later))

level-spend_other :
    (r : RateLimiter) (ip other now later : ℕ)
    → (ip == other) ≡ false
    → level (spend r ip now) other later ≡ level r other later
unfolding spend
level-spend_other r ip other now later e =
    rw (level-eq, level-eq r, get-put, e) (full_or-per_min _ r later _ refl)

spend-IsMap : (r : RateLimiter) (ip now : ℕ) → IsMap r.buckets → IsMap (spend r ip now).buckets
unfolding spend
spend-IsMap r ip now m = put-IsMap ip _ r.buckets m

check-IsMap : (r : RateLimiter) (ip now : ℕ) → IsMap r.buckets → IsMap (check r ip now).1.buckets
unfolding check sweep
check-IsMap r ip now m = ground (
  arith,
  spend-IsMap r ip now m,
  filter-IsMap (keeps (spend r ip now) now) (spend r ip now).buckets,
)

-- What one request does to the level of any address.
level-check :
    (r : RateLimiter) (ip other now later : ℕ)
    → enabled r ≡ true
    → IsMap r.buckets
    → now ≤ later
    → level (check r ip now).1 other later
        + (if (ip == other) && (check r ip now).0 then unit else 0)
      ≤ level r other now + (later - now) * r.per_min
unfolding check
level-check r ip other now later on m h =
    let swept = level-sweep (spend r ip now) other now later (spend-IsMap r ip now m) h in
    elim (Bool-cases (ip == other)) [
      | inl same ↦
          rw (on, same, swept, ← (nat_beq_iff ip other).0 same) (level-spend_self r ip now later)
      | inr differ ↦
          rw (on, differ, swept, level-spend_other r ip other now later differ)
            (omega (arith, level-later r other now later h))
    ]

-- A history of requests, each an address and a time, in the order of time from `t`.
abbrev pub InOrder : ℕ → List (ℕ × ℕ) → Type 0
InOrder t [] = Unit {0}
InOrder t ((ip, now) ∷ rest) = (t ≤ now) × InOrder now rest

abbrev pub last_time : ℕ → List (ℕ × ℕ) → ℕ
last_time t [] = t
last_time t ((ip, now) ∷ rest) = last_time now rest

-- How many requests of an address are allowed.
unfoldable pub allowed_of : ℕ → RateLimiter → List (ℕ × ℕ) → ℕ
allowed_of other r [] = 0
allowed_of other r ((ip, now) ∷ rest) =
    (if (ip == other) && (check r ip now).0 then 1 else 0)
    + allowed_of other (check r ip now).1 rest

per_min-check : (r : RateLimiter) (ip now : ℕ) → (check r ip now).1.per_min ≡ r.per_min
unfolding check spend sweep
per_min-check r ip now = ground arith

enabled-check :
    (r : RateLimiter) (ip now : ℕ) → enabled r ≡ true → enabled (check r ip now).1 ≡ true
unfolding enabled
enabled-check r ip now h = rw (per_min-check r ip now) h

last_time-ge : (t : ℕ) (reqs : List (ℕ × ℕ)) → InOrder t reqs → t ≤ last_time t reqs
last_time-ge t [] o = omega arith
last_time-ge t ((ip, now) ∷ rest) o = omega (arith, last_time-ge now rest o.1, o.0)

join_spans : (a b c k : ℕ) → a ≤ b → b ≤ c → (b - a) * k + (c - b) * k ≡ (c - a) * k
join_spans a b c k h g =
    let e : (b - a) + (c - b) ≡ c - a = omega arith in omega (arith, ap (λ (t : ℕ). t * k) e)

budget :
    (other : ℕ) (r : RateLimiter) (t : ℕ) (reqs : List (ℕ × ℕ))
    → enabled r ≡ true
    → IsMap r.buckets
    → InOrder t reqs
    → allowed_of other r reqs * unit ≤ level r other t + (last_time t reqs - t) * r.per_min
unfolding allowed_of
budget other r t [] on m o = omega arith
budget other r t ((ip, now) ∷ rest) on m o =
    let r' = (check r ip now).1 in
    let ih =
      rw (per_min-check r ip now) at
        (budget other r' now rest (enabled-check r ip now on) (check-IsMap r ip now m) o.1) in
    ground (
      arith,
      ih,
      level-check r ip other now now on m (omega arith),
      level-later r other t now o.0,
      join_spans t now (last_time now rest) r.per_min o.0 (last_time-ge now rest o.1),
    )

-- However the requests of all addresses are mixed, and whatever is swept in between, an address is
-- allowed no more than its bucket holds at the start and what is refilled until the last request.
pub check_budget :
    (other per_min t0 t : ℕ) (reqs : List (ℕ × ℕ))
    → 0 < per_min
    → InOrder t reqs
    → allowed_of other (new per_min t0) reqs * unit
      ≤ per_min * unit + (last_time t reqs - t) * per_min
unfolding new enabled capacity
check_budget other per_min t0 t reqs pos o = omega (
  arith,
  budget other (new per_min t0) t reqs (ground arith) tt o,
  level-le-capacity (new per_min t0) other t,
)
