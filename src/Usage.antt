-- ===== src/Usage.antt =====
-- `app/services/usage.py`: the monthly ceilings on what a chatbot may spend with a provider.
-- The table `chatbot_usage_period` is the list of its rows. The statements that the file sends to
-- the database are functions on that table; whether the database answers is an argument.
pub mod Charging
pub mod Ledger
pub mod Tests
use nuvrag_platform.Base.{
  ℕ, ◌+◌, ◌-◌, ◌/◌, Bool, true, false, ◌&&◌, not, Option, none, some, List, [], ◌∷◌, ◌==◌, leb, ltb,
  find, if◌then◌else◌,
}
use nuvrag_platform.Domain.Errors.{UsageKind}

pub record Date : Type 0 where
  pub year : ℕ
  pub month : ℕ
  pub day : ℕ

abbrev pub same_date : Date → Date → Bool
same_date a b = (a.year == b.year) && ((a.month == b.month) && (a.day == b.day))

-- A row of `chatbot_usage_period`.
pub record UsagePeriod : Type 0 where
  pub org_id : ℕ
  pub chatbot_id : ℕ
  pub period_start : Date
  pub ingestion_units_used : ℕ
  pub retrieval_calls_used : ℕ

pub record UsageVerdict : Type 0 where
  pub allowed : Bool
  pub used : ℕ
  pub cap : Option ℕ
  pub counters_unavailable : Bool

-- Which of the two statements of one call raise `SQLAlchemyError`.
pub record Outage : Type 0 where
  pub write_fails : Bool
  pub read_fails : Bool

abbrev pub ingestion_unit_bytes : ℕ
ingestion_unit_bytes = 4000

-- `ceil(size_bytes / INGESTION_UNIT_BYTES)`
unfoldable pub ingestion_units : ℕ → ℕ
ingestion_units size_bytes = (size_bytes + (ingestion_unit_bytes - 1)) / ingestion_unit_bytes

-- The first day of the month of a moment that is already in UTC.
unfoldable pub period_start : Date → Date
period_start now = record now { day = 1 }

-- The counter of a kind, as `_COUNTER_COLUMN` names it.
abbrev pub counter : UsageKind → UsagePeriod → ℕ
counter UsageKind.ingestion r = r.ingestion_units_used
counter UsageKind.retrieval r = r.retrieval_calls_used

abbrev pub ingestion_part : UsageKind → ℕ → ℕ
ingestion_part UsageKind.ingestion amount = amount
ingestion_part UsageKind.retrieval amount = 0

abbrev pub retrieval_part : UsageKind → ℕ → ℕ
retrieval_part UsageKind.ingestion amount = 0
retrieval_part UsageKind.retrieval amount = amount

-- `:cap IS NULL OR n <= :cap`
abbrev pub within : Option ℕ → ℕ → Bool
within none n = true
within (some c) n = leb n c

-- The row of one chatbot in one month: the conflict target and the key of `_CURRENT`.
abbrev pub is_row : ℕ → Date → UsagePeriod → Bool
is_row chatbot_id start r = (r.chatbot_id == chatbot_id) && same_date r.period_start start

-- What one `_CONSUME` statement is given.
pub record Charge : Type 0 where
  pub org_id : ℕ
  pub chatbot_id : ℕ
  pub start : Date
  pub kind : UsageKind
  pub amount : ℕ
  pub cap : Option ℕ

abbrev pub fresh_row : Charge → UsagePeriod
fresh_row c = record {
  org_id = c.org_id;
  chatbot_id = c.chatbot_id;
  period_start = c.start;
  ingestion_units_used = ingestion_part c.kind c.amount;
  retrieval_calls_used = retrieval_part c.kind c.amount;
}

abbrev pub bump : Charge → UsagePeriod → UsagePeriod
bump c r = record r {
  ingestion_units_used = r.ingestion_units_used + ingestion_part c.kind c.amount;
  retrieval_calls_used = r.retrieval_calls_used + retrieval_part c.kind c.amount;
}

-- `_CONSUME`: the row is inserted, or updated where the cap admits it, or nothing is returned.
unfoldable pub execute_consume : Charge → List UsagePeriod → Option UsagePeriod × List UsagePeriod
execute_consume c [] = (some (fresh_row c), fresh_row c ∷ [])
execute_consume c (r ∷ rows) =
    let rest = execute_consume c rows in
    if is_row c.chatbot_id c.start r
    then (if within c.cap (counter c.kind r + c.amount)
        then (some (bump c r), bump c r ∷ rows)
        else (none, r ∷ rows))
    else (rest.0, r ∷ rest.1)

-- `_CURRENT`, and the column of the kind; zero where the month has no row yet
unfoldable pub current_used : ℕ → Date → UsageKind → List UsagePeriod → ℕ
current_used chatbot_id start kind rows = elim (find (is_row chatbot_id start) rows) [
  | none ↦ 0
  | some r ↦ counter kind r
]

-- `_read_used` with `reraise=False`
unfoldable pub read_used : Outage → ℕ → Date → UsageKind → List UsagePeriod → ℕ
unfolding current_used
read_used o chatbot_id start kind rows =
    if o.read_fails then 0 else current_used chatbot_id start kind rows

abbrev pub blocked : ℕ → Option ℕ → UsageVerdict
blocked used cap = record { allowed = false; used = used; cap = cap; counters_unavailable = false }

-- `_unavailable`, by `settings.usage_cap.fail_closed`
abbrev pub unavailable : Bool → Option ℕ → UsageVerdict
unavailable fail_closed cap = record {
  allowed = not fail_closed;
  used = 0;
  cap = cap;
  counters_unavailable = true;
}

abbrev pub exceeds_whole_cap : ℕ → Option ℕ → Bool
exceeds_whole_cap amount none = false
exceeds_whole_cap amount (some c) = ltb c amount

-- The verdict on what `_CONSUME` returned.
abbrev pub judge : Outage → Charge → Option UsagePeriod → List UsagePeriod → UsageVerdict
judge o c none rows = blocked (read_used o c.chatbot_id c.start c.kind rows) c.cap
judge o c (some r) rows = record {
  allowed = true;
  used = counter c.kind r;
  cap = c.cap;
  counters_unavailable = false;
}

abbrev pub charge_of : Date → ℕ → ℕ → UsageKind → ℕ → Option ℕ → Charge
charge_of now org_id chatbot_id kind amount cap = record {
  org_id = org_id;
  chatbot_id = chatbot_id;
  start = period_start now;
  kind = kind;
  amount = amount;
  cap = cap;
}

-- `consume`, from the charge that its arguments make
unfoldable pub consume : Bool → Outage → Charge → List UsagePeriod → UsageVerdict × List UsagePeriod
unfolding execute_consume read_used
consume fail_closed o c rows =
    if exceeds_whole_cap c.amount c.cap
    then (blocked (read_used o c.chatbot_id c.start c.kind rows) c.cap, rows)
    else if o.write_fails
    then (unavailable fail_closed c.cap, rows)
    else let (row, rows') = execute_consume c rows in (judge o c row rows', rows')

-- `headroom`, whose read raises where the database does not answer
unfoldable pub headroom :
    Bool → Outage → ℕ → Date → UsageKind → Option ℕ → List UsagePeriod → UsageVerdict
unfolding current_used
headroom fail_closed o chatbot_id start kind none rows = record {
  allowed = true;
  used = 0;
  cap = none;
  counters_unavailable = false;
}
headroom fail_closed o chatbot_id start kind (some c) rows =
    if o.read_fails
    then unavailable fail_closed (some c)
    else let used = current_used chatbot_id start kind rows in
      if leb c used
      then blocked used (some c)
      else record { allowed = true; used = used; cap = some c; counters_unavailable = false }
