-- ===== src/RateLimit/Bound.antt =====
-- What a bucket admits over time.
use mathlib.Core.Path.{subst}
use native.Mathlib.Nat.{add-mul, mul-le-mul_right, lt-div-mul-add, mul_assoc, mul_comm}
use nuvrag_platform.Base.{
  ℕ, ◌+◌, ◌-◌, ◌*◌, ◌/◌, ◌≤◌, ◌<◌, ◌≡◌, sym, ap, ◌∙◌, inl, inr, Option, none, some, List, [], ◌∷◌,
  arith, leb, if◌then◌else◌, Bool-cases,
}
use nuvrag_platform.RateLimit.{
  Bucket, Shape, token_bucket, live, level, ttl, refill_per_second, microseconds,
}

-- The calls on one bucket: their times, in order, and their costs.
abbrev pub Calls : Type 0
Calls = List (ℕ × ℕ)

-- What the calls were admitted for together.
unfoldable pub admitted_cost : Shape → Calls → Option Bucket → ℕ
unfolding token_bucket
admitted_cost s [] b = 0
admitted_cost s ((now, cost) ∷ calls) b =
    let (verdict, b') = token_bucket s now cost b in
    (if verdict.allowed then cost else 0) + admitted_cost s calls (some b')

-- The calls come at times in order, the last of them at `until`.
abbrev pub AreOrdered : ℕ → Calls → ℕ → Type 0
AreOrdered from [] until = from ≤ until
AreOrdered from ((now, cost) ∷ calls) until = (from ≤ now) × AreOrdered now calls until

-- A call moves the tokens of the moment to the caller or leaves them.
token_bucket-splits :
    (s : Shape) (now cost : ℕ) (b : Option Bucket)
    → let (verdict, b') = token_bucket s now cost b in
      ((if verdict.allowed then cost else 0) + b'.tokens ≡ level s now (live now b)) × (b'.ts ≡ now)
unfolding token_bucket
token_bucket-splits s now cost b = ground arith

-- A bucket that its key outlived would be full: the key lives for longer than a refill takes.
abbrev pub IsKept : Shape → Bucket → Type 0
IsKept s b = b.ts + ttl s * microseconds ≤ b.expires_at

full_at_expiry :
    (s : Shape) (b : Bucket) (now : ℕ)
    → 0 < refill_per_second s
    → IsKept s b
    → b.expires_at ≤ now
    → s.capacity ≤ (now - b.ts) * s.refill
full_at_expiry s b now pos kept late =
    let rate = refill_per_second s in
    let q = s.capacity / rate in
    let enough : s.capacity < q * rate + rate = lt-div-mul-add pos in
    let longer : (q + 1) * rate ≤ ttl s * rate = mul-le-mul_right rate (omega arith) in
    let elapsed : ttl s * microseconds * s.refill ≤ (now - b.ts) * s.refill =
      mul-le-mul_right s.refill (omega arith) in
    let regroup : ttl s * rate ≡ ttl s * microseconds * s.refill =
      ap (λ x. ttl s * x) (mul_comm s.refill microseconds)
      ∙ sym (mul_assoc (ttl s) microseconds s.refill) in
    omega (arith, enough, longer, elapsed, regroup, add-mul q 1 rate)

-- What is there at a call was left there or has been refilled since.
level-le :
    (s : Shape) (b : Bucket) (now : ℕ)
    → 0 < refill_per_second s
    → IsKept s b
    → level s now (live now (some b)) ≤ b.tokens + (now - b.ts) * s.refill
level-le s b now pos kept = elim (Bool-cases (leb b.expires_at now)) [
  | inr alive ↦ rw alive (omega arith)
  | inl gone ↦
      let full = full_at_expiry s b now pos kept (ground arith) in rw gone (omega (arith, full))
]

level-le-capacity : (s : Shape) (now : ℕ) (b : Option Bucket) → level s now b ≤ s.capacity
level-le-capacity s now none = omega arith
level-le-capacity s now (some b) = omega arith

token_bucket-IsKept :
    (s : Shape) (now cost : ℕ) (b : Option Bucket) → IsKept s (token_bucket s now cost b).1
unfolding token_bucket
token_bucket-IsKept s now cost b = elim (Bool-cases (leb cost (level s now (live now b)))) [
  | inl enough ↦ rw enough (omega arith)
  | inr short ↦ rw short (omega arith)
]

AreOrdered-le : (from : ℕ) (calls : Calls) (until : ℕ) → AreOrdered from calls until → from ≤ until
AreOrdered-le from [] until h = h
AreOrdered-le from ((now, cost) ∷ calls) until h =
    omega (arith, h.0, AreOrdered-le now calls until h.1)

-- Refills of adjacent spans add up.
refill-adjacent : (r a b c : ℕ) → a ≤ b → b ≤ c → (b - a) * r + (c - b) * r ≡ (c - a) * r
refill-adjacent r a b c ab bc =
    let whole : (b - a) + (c - b) ≡ c - a = omega arith in
    sym (add-mul (b - a) (c - b) r) ∙ ap (λ x. x * r) whole

admitted_cost-le :
    (s : Shape) (calls : Calls) (b : Bucket) (until : ℕ)
    → 0 < refill_per_second s
    → IsKept s b
    → AreOrdered b.ts calls until
    → admitted_cost s calls (some b) ≤ b.tokens + (until - b.ts) * s.refill
unfolding admitted_cost
admitted_cost-le s [] b until pos kept h = omega arith
admitted_cost-le s ((now, cost) ∷ calls) b until pos kept h =
    let b' = (token_bucket s now cost (some b)).1 in
    let (split, same) = token_bucket-splits s now cost (some b) in
    let rest =
      admitted_cost-le s calls b' until pos (token_bucket-IsKept s now cost (some b))
        (subst (λ t. AreOrdered t calls until) (sym same) h.1) in
    let later : (until - b'.ts) * s.refill ≡ (until - now) * s.refill =
      ap (λ t. (until - t) * s.refill) same in
    omega (
      arith,
      split,
      rest,
      later,
      level-le s b now pos kept,
      refill-adjacent s.refill b.ts now until h.0 (AreOrdered-le now calls until h.1),
    )

-- With a positive refill, whatever calls a bucket serves between two moments, and whatever it held
-- before, the calls that it admits cost together at most one full bucket and what is refilled between
-- the moments. This includes the loss of a bucket whose key expires, since a key outlives a refill.
pub admitted_cost_bounded :
    (s : Shape) (from : ℕ) (calls : Calls) (b : Option Bucket) (until : ℕ)
    → 0 < refill_per_second s
    → AreOrdered from calls until
    → admitted_cost s calls b ≤ s.capacity + (until - from) * s.refill
unfolding admitted_cost
admitted_cost_bounded s from [] b until pos h = omega arith
admitted_cost_bounded s from ((now, cost) ∷ calls) b until pos h =
    let b' = (token_bucket s now cost b).1 in
    let (split, same) = token_bucket-splits s now cost b in
    let rest =
      admitted_cost-le s calls b' until pos (token_bucket-IsKept s now cost b)
        (subst (λ t. AreOrdered t calls until) (sym same) h.1) in
    let later : (until - b'.ts) * s.refill ≡ (until - now) * s.refill =
      ap (λ t. (until - t) * s.refill) same in
    omega (
      arith,
      split,
      rest,
      later,
      level-le-capacity s now (live now b),
      refill-adjacent s.refill from now until h.0 (AreOrdered-le now calls until h.1),
    )
