-- ===== src/Usage/Ledger.antt =====
-- Any interleaving of calls of `consume`: each call is one atomic statement, so concurrent turns are
-- a sequence of calls in the order in which the database serves them.
use nuvrag_platform.Base.{
  ℕ, ◌+◌, ◌≤◌, ◌≡◌, Bool, true, false, ◌&&◌, ◌||◌, not, none, some, List, [], ◌∷◌, arith, ◌==◌, leb,
  All, if◌then◌else◌, Bool-cases, inl, inr,
}
use nuvrag_platform.Domain.Errors.{UsageKind}
use nuvrag_platform.Usage.{Date, UsagePeriod, Outage, Charge, same_date, current_used, consume}
use nuvrag_platform.Usage.Charging.{consume_exact, consume_outage, consume_frame}

-- One counter: a chatbot's, in one month, of one kind.
pub record Counter : Type 0 where
  pub chatbot_id : ℕ
  pub start : Date
  pub kind : UsageKind

abbrev pub same_kind : UsageKind → UsageKind → Bool
same_kind UsageKind.ingestion UsageKind.ingestion = true
same_kind UsageKind.retrieval UsageKind.retrieval = true
same_kind _ _ = false

abbrev pub names : Charge → Counter → Bool
names c k = ((c.chatbot_id == k.chatbot_id) && same_date c.start k.start) && same_kind c.kind k.kind

abbrev pub total : Counter → List UsagePeriod → ℕ
total k rows = current_used k.chatbot_id k.start k.kind rows

-- A call with what the database does for it.
abbrev pub Call : Type 0
Call = Outage × Charge

-- The table after the calls, in their order.
unfoldable pub serve : Bool → List Call → List UsagePeriod → List UsagePeriod
serve fail_closed [] rows = rows
serve fail_closed ((o, c) ∷ calls) rows = serve fail_closed calls (consume fail_closed o c rows).1

-- What one call adds to a counter: its amount, if it names the counter, was allowed and was counted.
abbrev pub counted : Bool → Counter → Call → List UsagePeriod → ℕ
counted fail_closed k (o, c) rows =
    let v = (consume fail_closed o c rows).0 in
    if names c k && (v.allowed && not v.counters_unavailable) then c.amount else 0

unfoldable pub admitted : Bool → Counter → List Call → List UsagePeriod → ℕ
admitted fail_closed k [] rows = 0
admitted fail_closed k ((o, c) ∷ calls) rows =
    counted fail_closed k (o, c) rows
    + admitted fail_closed k calls (consume fail_closed o c rows).1

total-consume :
    (fail_closed : Bool) (k : Counter) (o : Outage) (c : Charge) (rows : List UsagePeriod)
    → total k (consume fail_closed o c rows).1 ≡ total k rows + counted fail_closed k (o, c) rows
total-consume fail_closed k o c rows = elim (Bool-cases o.write_fails) [
  | inl out ↦ ground (arith, consume_outage fail_closed o c rows out)
  | inr works ↦ ground (
    arith,
    consume_exact fail_closed o c rows works,
    consume_frame fail_closed o c k.chatbot_id k.start k.kind rows,
  )
]

-- After any calls, in any order and with any outages, a counter has grown by exactly the amounts of
-- the calls that name it, were allowed and were counted.
pub serve_ledger :
    (fail_closed : Bool) (k : Counter) (calls : List Call) (rows : List UsagePeriod)
    → total k (serve fail_closed calls rows) ≡ total k rows + admitted fail_closed k calls rows
unfolding serve admitted
serve_ledger fail_closed k [] rows = omega arith
serve_ledger fail_closed k ((o, c) ∷ calls) rows = omega (
  arith,
  total-consume fail_closed k o c rows,
  serve_ledger fail_closed k calls (consume fail_closed o c rows).1,
)

-- A call respects a ceiling on a counter: if it names the counter, its own cap is set and is no
-- higher.
abbrev pub respects : Counter → ℕ → Call → Bool
respects k ceiling (o, c) = not (names c k) || elim c.cap [ none ↦ false | some n ↦ leb n ceiling ]

total-consume-le :
    (fail_closed : Bool) (k : Counter) (ceiling : ℕ) (o : Outage) (c : Charge)
    (rows : List UsagePeriod)
    → respects k ceiling (o, c) ≡ true
    → total k rows ≤ ceiling
    → total k (consume fail_closed o c rows).1 ≤ ceiling
total-consume-le fail_closed k ceiling o c rows r h = elim (Bool-cases o.write_fails) [
  | inl out ↦ ground (arith, consume_outage fail_closed o c rows out)
  | inr works ↦
      ground (arith, total-consume fail_closed k o c rows, consume_exact fail_closed o c rows works)
]

-- What the calls on a counter were allowed to spend, counted or not.
unfoldable pub granted : Bool → Counter → List Call → List UsagePeriod → ℕ
granted fail_closed k [] rows = 0
granted fail_closed k ((o, c) ∷ calls) rows =
    (if names c k && (consume fail_closed o c rows).0.allowed then c.amount else 0)
    + granted fail_closed k calls (consume fail_closed o c rows).1

-- The amounts of the calls on a counter that meet an outage while a failure lets calls pass.
unfoldable pub unmetered : Bool → Counter → List Call → ℕ
unmetered fail_closed k [] = 0
unmetered fail_closed k ((o, c) ∷ calls) =
    (if names c k && (o.write_fails && not fail_closed) then c.amount else 0)
    + unmetered fail_closed k calls

granted-one :
    (fail_closed : Bool) (k : Counter) (o : Outage) (c : Charge) (rows : List UsagePeriod)
    → (if names c k && (consume fail_closed o c rows).0.allowed then c.amount else 0)
      ≤ counted fail_closed k (o, c) rows
        + (if names c k && (o.write_fails && not fail_closed) then c.amount else 0)
granted-one fail_closed k o c rows = elim (Bool-cases o.write_fails) [
  | inl out ↦ ground (arith, consume_outage fail_closed o c rows out)
  | inr works ↦ ground (arith, consume_exact fail_closed o c rows works)
]

granted-le :
    (fail_closed : Bool) (k : Counter) (calls : List Call) (rows : List UsagePeriod)
    → granted fail_closed k calls rows
      ≤ admitted fail_closed k calls rows + unmetered fail_closed k calls
unfolding granted admitted unmetered
granted-le fail_closed k [] rows = omega arith
granted-le fail_closed k ((o, c) ∷ calls) rows = omega (
  arith,
  granted-one fail_closed k o c rows,
  granted-le fail_closed k calls (consume fail_closed o c rows).1,
)

total-serve-le :
    (fail_closed : Bool) (k : Counter) (ceiling : ℕ) (calls : List Call) (rows : List UsagePeriod)
    → All (λ call. respects k ceiling call ≡ true) calls
    → total k rows ≤ ceiling
    → total k (serve fail_closed calls rows) ≤ ceiling
unfolding serve
total-serve-le fail_closed k ceiling [] rows r h = h
total-serve-le fail_closed k ceiling ((o, c) ∷ calls) rows r h =
    total-serve-le fail_closed k ceiling calls (consume fail_closed o c rows).1 r.1
      (total-consume-le fail_closed k ceiling o c rows r.0 h)

-- A counter that is within a ceiling stays within it through any calls whose own caps are no higher.
-- What these calls are allowed to spend, on top of what was spent before, is within the ceiling too,
-- but for the amounts of the calls that met an outage of the counters while a failure lets calls pass.
pub serve_within_cap :
    (fail_closed : Bool) (k : Counter) (ceiling : ℕ) (calls : List Call) (rows : List UsagePeriod)
    → All (λ call. respects k ceiling call ≡ true) calls
    → total k rows ≤ ceiling
    → (total k (serve fail_closed calls rows) ≤ ceiling)
      × (total k rows + granted fail_closed k calls rows ≤ ceiling + unmetered fail_closed k calls)
serve_within_cap fail_closed k ceiling calls rows r h =
    let within = total-serve-le fail_closed k ceiling calls rows r h in
    (
      within,
      omega (
        arith,
        within,
        serve_ledger fail_closed k calls rows,
        granted-le fail_closed k calls rows,
      ),
    )
