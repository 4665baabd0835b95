-- ===== src/RateLimit.antt =====
-- `app/services/rate_limit.py`: the token bucket that a script of the key-value store keeps. The store
-- is a function from keys to buckets. Arithmetic is exact where the script has floats: time is in
-- microseconds, and tokens are counted in parts small enough for the refill of one microsecond to be
-- a whole number of them.
pub mod Bound
pub mod Tests
use nuvrag_platform.Base.{
  ℕ, ◌+◌, ◌-◌, ◌*◌, ◌/◌, ◌==◌, Bool, true, false, ◌&&◌, Option, none, some, leb, ltb, min, max,
  if◌then◌else◌,
}

-- The four families of buckets.
pub data BucketKey : Type 0 where
  chatbot : ℕ → BucketKey
  session : (chatbot_id session_id : ℕ) → BucketKey
  ticket_ip : (chatbot_id address : ℕ) → BucketKey
  ticket_chatbot : ℕ → BucketKey

abbrev pub same_key : BucketKey → BucketKey → Bool
same_key (chatbot a) (chatbot b) = a == b
same_key (session a s) (session b t) = (a == b) && (s == t)
same_key (ticket_ip a s) (ticket_ip b t) = (a == b) && (s == t)
same_key (ticket_chatbot a) (ticket_chatbot b) = a == b
same_key _ _ = false

pub record Bucket : Type 0 where
  pub tokens : ℕ
  pub ts : ℕ
  -- When the store drops the key.
  pub expires_at : ℕ

abbrev pub Buckets : Type 0
Buckets = BucketKey → Option Bucket

-- The size of a bucket and the parts that it gains in a microsecond.
pub record Shape : Type 0 where
  pub capacity : ℕ
  pub refill : ℕ

pub record RateLimitVerdict : Type 0 where
  pub allowed : Bool
  pub remaining : ℕ
  pub retry_after_seconds : ℕ

abbrev pub microseconds : ℕ
microseconds = 1000000

abbrev pub refill_per_second : Shape → ℕ
refill_per_second s = s.refill * microseconds

-- `max(60, int(capacity / refill_rate) + 60)`, in seconds
abbrev pub ttl : Shape → ℕ
ttl s = max 60 (s.capacity / refill_per_second s + 60)

-- The bucket that `HMGET` finds, once an expired key is gone; a missing one is full.
abbrev pub live : ℕ → Option Bucket → Option Bucket
live now none = none
live now (some b) = if leb b.expires_at now then none else some b

-- The tokens at the moment of a call.
abbrev pub level : Shape → ℕ → Option Bucket → ℕ
level s now none = s.capacity
level s now (some b) = min s.capacity (b.tokens + (now - b.ts) * s.refill)

-- `math.ceil((cost - tokens) / refill_rate)`
abbrev pub wait : Shape → ℕ → ℕ
wait s missing = (missing + (refill_per_second s - 1)) / refill_per_second s

-- `_TOKEN_BUCKET_SCRIPT` on one key
unfoldable pub token_bucket : Shape → ℕ → ℕ → Option Bucket → RateLimitVerdict × Bucket
token_bucket s now cost bucket =
    let tokens = level s now (live now bucket) in
    let kept : ℕ → Bucket =
      λ left. record { tokens = left; ts = now; expires_at = now + ttl s * microseconds } in
    if leb cost tokens
    then (
      record { allowed = true; remaining = tokens - cost; retry_after_seconds = 0 },
      kept (tokens - cost),
    )
    else (
      record { allowed = false; remaining = tokens; retry_after_seconds = wait s (cost - tokens) },
      kept tokens,
    )

abbrev pub set : BucketKey → Bucket → Buckets → Buckets
set k b store j = if same_key k j then some b else store j

abbrev pub waved_through : RateLimitVerdict
waved_through = record { allowed = true; remaining = 0; retry_after_seconds = 0 }

-- `RateLimiter._consume`; `unavailable` is an outage of the store
unfoldable pub consume_tokens :
    Bool → Shape → ℕ → BucketKey → ℕ → Buckets → RateLimitVerdict × Buckets
unfolding token_bucket
consume_tokens unavailable s now k cost store =
    let (verdict, bucket) = token_bucket s now cost (store k) in
    if unavailable then (waved_through, store) else (verdict, set k bucket store)

-- `RateLimitSettings`
pub record RateLimitSettings : Type 0 where
  pub enabled : Bool
  pub chatbot_shape : Shape
  pub session_shape : Shape
  pub ticket_ip_shape : Shape
  pub ticket_chatbot_shape : Shape

abbrev pub shape_of : RateLimitSettings → BucketKey → Shape
shape_of config (chatbot _) = config.chatbot_shape
shape_of config (session _ _) = config.session_shape
shape_of config (ticket_ip _ _) = config.ticket_ip_shape
shape_of config (ticket_chatbot _) = config.ticket_chatbot_shape

-- `check_chatbot`, `check_session`, `check_ticket_ip` and `check_ticket_chatbot`, by the kind of key
unfoldable pub check :
    RateLimitSettings → Bool → ℕ → BucketKey → ℕ → Buckets → RateLimitVerdict × Buckets
unfolding consume_tokens
check config unavailable now k cost store =
    if config.enabled
    then consume_tokens unavailable (shape_of config k) now k cost store
    else (waved_through, store)
