-- ===== src/RateLimit/Tests.antt =====
-- A bucket at concrete times.
use nuvrag_platform.Base.{◌+◌, ◌-◌, ◌*◌, ◌≤◌, ◌≡◌, refl, true, false, none, some, [], ◌∷◌, arith}
use nuvrag_platform.RateLimit.{Shape, Bucket, Buckets, RateLimitSettings, token_bucket}
use nuvrag_platform.RateLimit.Bound.{Calls, admitted_cost, admitted_cost_bounded}

-- Two tokens of a million parts each, one token in a second.
abbrev small : Shape
small = record { capacity = 2000000; refill = 1 }

abbrev burst : Calls
burst = (0, 1000000) ∷ (0, 1000000) ∷ (0, 1000000) ∷ (1000000, 1000000) ∷ []

burst_admits_three : admitted_cost small burst none ≡ 3000000
unfolding admitted_cost
burst_admits_three = refl

abbrev empty : Bucket
empty = record { tokens = 0; ts = 0; expires_at = 99 }

empty_refuses : (token_bucket small 0 1500000 (some empty)).0.allowed ≡ false
unfolding token_bucket
empty_refuses = refl

waits_two_seconds : (token_bucket small 0 1500000 (some empty)).0.retry_after_seconds ≡ 2
unfolding token_bucket
waits_two_seconds = refl

admitted_cost_bounded_example : admitted_cost small burst none ≤ 2000000 + (1000000 - 0) * 1
admitted_cost_bounded_example =
    admitted_cost_bounded small 0 burst none 1000000 (omega arith)
      (omega arith, (omega arith, (omega arith, (omega arith, omega arith))))

abbrev settings : RateLimitSettings
settings = record {
  enabled = true;
  chatbot_shape = small;
  session_shape = small;
  ticket_ip_shape = small;
  ticket_chatbot_shape = small;
}

abbrev nothing : Buckets
nothing _ = none
