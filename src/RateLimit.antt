-- ===== src/RateLimit.antt =====
-- Token buckets (backend/src/homeflow/ratelimit.py). A time is in microseconds; a token is counted
-- in parts, sixty million of them, so that `rate_per_minute` parts come each microsecond and every
-- number is exact where the source rounds to a float.
pub mod Budget
use homeflow.Base.{
  ℕ, ◌+◌, ◌-◌, ◌*◌, min, Bool, true, false, Option, none, some, ltb, leb, if◌then◌else◌, length, [],
}
use homeflow.Base.Dict.{Dict, lookup, insert, pop_first, move_to_end}

-- One token.
abbrev pub token : ℕ
token = 60000000

pub record Bucket : Type 0 where
  pub tokens : ℕ
  pub updated_at : ℕ

pub record RateLimiter : Type 0 where
  pub rate_per_minute : ℕ
  pub burst : ℕ
  pub max_keys : ℕ
  pub buckets : Dict Bucket

-- `RateLimiter.__init__`
abbrev pub new_limiter : ℕ → Option ℕ → ℕ → RateLimiter
new_limiter rate burst max_keys = record {
  rate_per_minute = rate;
  burst = elim burst [ none ↦ rate * token | some b ↦ b * token ];
  max_keys = max_keys;
  buckets = [];
}

-- The branch of a key that has a bucket.
abbrev pub refill : RateLimiter → ℕ → Bucket → Bucket
refill l now b = record {
  tokens = min l.burst (b.tokens + (now - b.updated_at) * l.rate_per_minute);
  updated_at = now;
}

-- The end of `allow`: the answer, and the bucket it leaves.
abbrev pub take_token : Bucket → Bool × Bucket
take_token b =
    if ltb b.tokens token then (false, b) else (true, record b { tokens = b.tokens - token })

-- The buckets before the answer, and the key's own among them.
abbrev pub bucket_for : RateLimiter → ℕ → ℕ → Option Bucket → Bucket × Dict Bucket
bucket_for l now key none =
    let room = if leb l.max_keys (length l.buckets) then pop_first l.buckets else l.buckets in
    (record { tokens = l.burst; updated_at = now }, room)
bucket_for l now key (some b) = (refill l now b, move_to_end key l.buckets)

unfoldable pub allow : ℕ → ℕ → RateLimiter → Bool × RateLimiter
allow key now l =
    let (b, buckets) = bucket_for l now key (lookup key l.buckets) in
    let (allowed, b') = take_token b in (allowed, record l { buckets = insert key b' buckets })
