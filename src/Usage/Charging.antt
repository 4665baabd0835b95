-- ===== src/Usage/Charging.antt =====
-- What one call of `consume` does to the counters, and what `headroom` says beforehand.
use nuvrag_platform.Base.{
  ℕ, ◌+◌, ◌*◌, ◌≤◌, ◌<◌, ◌≡◌, ◌⊎◌, Bool, true, false, ◌&&◌, not, Option, none, some, List, [], ◌∷◌,
  arith, ◌==◌, if◌then◌else◌, Bool-cases, inl, inr,
}
use nuvrag_platform.Domain.Errors.{UsageKind}
use nuvrag_platform.Usage.{
  Date, UsagePeriod, Outage, Charge, ingestion_units, counter, within, same_date, execute_consume,
  current_used, consume, headroom,
}

-- What is spent in the month of a charge.
abbrev pub spent : Charge → List UsagePeriod → ℕ
spent c rows = current_used c.chatbot_id c.start c.kind rows

-- The statement admits a charge within the cap and returns the new count, or changes no row.
abbrev pub Charged : Charge → List UsagePeriod → Option UsagePeriod × List UsagePeriod → Type 0
Charged c rows (none, rows') = (within c.cap (spent c rows + c.amount) ≡ false) × (rows' ≡ rows)
Charged c rows (some r, rows') =
    (counter c.kind r ≡ spent c rows + c.amount)
    × (spent c rows' ≡ spent c rows + c.amount)
    × ((spent c rows ≡ 0) ⊎ (within c.cap (spent c rows + c.amount) ≡ true))

pub execute_consume-Charged :
    (c : Charge) (rows : List UsagePeriod) → Charged c rows (execute_consume c rows)
unfolding execute_consume current_used
execute_consume-Charged c [] = ground arith
execute_consume-Charged c (r ∷ rows) = ground (arith, execute_consume-Charged c rows)

-- A call of `consume` that reaches the database is allowed exactly where the month's count and the
-- amount stay within the cap; then the count grows by the amount and is what the verdict reports,
-- and otherwise no row changes.
pub consume_exact :
    (fail_closed : Bool) (o : Outage) (c : Charge) (rows : List UsagePeriod)
    → o.write_fails ≡ false
    → let (v, rows') = consume fail_closed o c rows in
      (v.allowed ≡ within c.cap (spent c rows + c.amount))
      × (v.counters_unavailable ≡ false)
      × (spent c rows' ≡ (if v.allowed then spent c rows + c.amount else spent c rows))
      × (v.allowed ≡ true → v.used ≡ spent c rows')
      × (v.allowed ≡ false → rows' ≡ rows)
unfolding consume
consume_exact fail_closed o c rows h = ground (arith, execute_consume-Charged c rows)

-- Where the statement raises, a charge that the whole cap could hold is allowed exactly where the
-- deployment does not fail closed and is marked as uncounted, a larger one is refused, and no row
-- changes in either case.
pub consume_outage :
    (fail_closed : Bool) (o : Outage) (c : Charge) (rows : List UsagePeriod)
    → o.write_fails ≡ true
    → let (v, rows') = consume fail_closed o c rows in
      (v.allowed ≡ (within c.cap c.amount && not fail_closed))
      × (v.counters_unavailable ≡ within c.cap c.amount)
      × (rows' ≡ rows)
unfolding consume
consume_outage fail_closed o c rows h = ground arith

-- A refused charge changes no row, whether or not the database answers.
pub consume_refused :
    (fail_closed : Bool) (o : Outage) (c : Charge) (rows : List UsagePeriod)
    → (consume fail_closed o c rows).0.allowed ≡ false
    → (consume fail_closed o c rows).1 ≡ rows
consume_refused fail_closed o c rows h = elim (Bool-cases o.write_fails) [
  | inl out ↦ (consume_outage fail_closed o c rows out).2
  | inr works ↦ ground (arith, consume_exact fail_closed o c rows works)
]

-- The counters that a charge does not name: another chatbot's, another month's.
pub execute_consume-other :
    (c : Charge) (chatbot_id : ℕ) (start : Date) (kind : UsageKind) (rows : List UsagePeriod)
    → ((c.chatbot_id == chatbot_id) && same_date c.start start) ≡ false
    → current_used chatbot_id start kind (execute_consume c rows).1
      ≡ current_used chatbot_id start kind rows
unfolding execute_consume current_used
execute_consume-other c chatbot_id start kind [] h = ground arith
execute_consume-other c chatbot_id start kind (r ∷ rows) h =
    ground (arith, execute_consume-other c chatbot_id start kind rows h)

abbrev pub other_kind : UsageKind → UsageKind
other_kind UsageKind.ingestion = UsageKind.retrieval
other_kind UsageKind.retrieval = UsageKind.ingestion

execute_consume-other_kind :
    (c : Charge) (rows : List UsagePeriod)
    → current_used c.chatbot_id c.start (other_kind c.kind) (execute_consume c rows).1
      ≡ current_used c.chatbot_id c.start (other_kind c.kind) rows
unfolding execute_consume current_used
execute_consume-other_kind c [] = ground arith
execute_consume-other_kind c (r ∷ rows) = ground (arith, execute_consume-other_kind c rows)

-- Whatever the outcome, a call of `consume` leaves the counters of every other chatbot and month,
-- and the other counter of its own row, as they were.
pub consume_frame :
    (fail_closed : Bool) (o : Outage) (c : Charge) (chatbot_id : ℕ) (start : Date)
    (kind : UsageKind) (rows : List UsagePeriod)
    → let rows' = (consume fail_closed o c rows).1 in
      (((c.chatbot_id == chatbot_id) && same_date c.start start) ≡ false
        → current_used chatbot_id start kind rows' ≡ current_used chatbot_id start kind rows)
      × (current_used c.chatbot_id c.start (other_kind c.kind) rows'
          ≡ current_used c.chatbot_id c.start (other_kind c.kind) rows)
unfolding consume
consume_frame fail_closed o c chatbot_id start kind rows = (
  λ h. ground (arith, execute_consume-other c chatbot_id start kind rows h),
  ground (arith, execute_consume-other_kind c rows),
)

-- The pre-check of an upload turns away no charge that `consume` would admit: a charge of at least
-- one unit that is allowed and counted had headroom before it.
headroom_sound :
    (fail_closed : Bool) (o : Outage) (c : Charge) (rows : List UsagePeriod)
    → 0 < c.amount
    → o.write_fails ≡ false
    → o.read_fails ≡ false
    → (consume fail_closed o c rows).0.allowed ≡ true
    → (headroom fail_closed o c.chatbot_id c.start c.kind c.cap rows).allowed ≡ true
unfolding headroom
headroom_sound fail_closed o c rows pos w r h = ground (arith, consume_exact fail_closed o c rows w)

-- Every file that is not empty costs at least one unit, and the units cover its bytes with less than
-- one unit to spare.
pub ingestion_units_bounds :
    (size_bytes : ℕ)
    → 0 < size_bytes
    → (0 < ingestion_units size_bytes)
      × (size_bytes ≤ ingestion_units size_bytes * 4000)
      × (ingestion_units size_bytes * 4000 < size_bytes + 4000)
unfolding ingestion_units
ingestion_units_bounds size_bytes h = omega arith
