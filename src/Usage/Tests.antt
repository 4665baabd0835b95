-- ===== src/Usage/Tests.antt =====
-- The metering at concrete inputs.
use nuvrag_platform.Base.{
  ◌+◌, ◌+◌, ◌≤◌, ◌≡◌, refl, true, false, some, List, [], ◌∷◌, arith, if◌then◌else◌,
}
use nuvrag_platform.Domain.Errors.{UsageKind}
use nuvrag_platform.Usage.{
  Date, Outage, Charge, consume, period_start, charge_of, current_used, ingestion_units, within,
}
use nuvrag_platform.Usage.Charging.{spent, consume_exact}
use nuvrag_platform.Usage.Ledger.{
  Counter, Call, total, admitted, serve, serve_ledger, serve_within_cap, granted, unmetered,
}

abbrev today : Date
today = record { year = 2026; month = 3; day = 17 }

abbrev works : Outage
works = record { write_fails = false; read_fails = false }

abbrev down : Outage
down = record { write_fails = true; read_fails = true }

abbrev turn : Charge
turn = record {
  org_id = 1;
  chatbot_id = 7;
  start = record { year = 2026; month = 3; day = 1 };
  kind = UsageKind.retrieval;
  amount = 1;
  cap = some 2;
}

abbrev march : Counter
march = record {
  chatbot_id = 7;
  start = record { year = 2026; month = 3; day = 1 };
  kind = UsageKind.retrieval;
}

abbrev calls : List Call
calls = (works, turn) ∷ (down, turn) ∷ (works, turn) ∷ (works, turn) ∷ []

turn-charge_of : charge_of today 1 7 UsageKind.retrieval 1 (some 2) ≡ turn
unfolding period_start
turn-charge_of = refl

-- The third call that reaches the database finds the cap spent.
serve-calls : total march (serve false calls []) ≡ 2
unfolding serve consume current_used
serve-calls = refl

ingestion_units-page : ingestion_units 4001 ≡ 2
unfolding ingestion_units
ingestion_units-page = refl

consume_exact_example :
    let (v, rows') = consume false works turn [] in
    (v.allowed ≡ within (some 2) (spent turn [] + 1))
    × (v.counters_unavailable ≡ false)
    × (spent turn rows' ≡ (if v.allowed then spent turn [] + 1 else spent turn []))
    × (v.allowed ≡ true → v.used ≡ spent turn rows')
    × (v.allowed ≡ false → rows' ≡ [])
consume_exact_example = consume_exact false works turn [] refl

turn_allowed : (consume false works turn []).0.allowed ≡ true
unfolding consume
turn_allowed = refl

serve_ledger_example :
    total march (serve false calls []) ≡ total march [] + admitted false march calls []
serve_ledger_example = serve_ledger false march calls []

nothing_spent : total march [] ≤ 2
unfolding current_used
nothing_spent = omega arith

serve_within_cap_example :
    (total march (serve false calls []) ≤ 2)
    × (total march [] + granted false march calls [] ≤ 2 + unmetered false march calls)
serve_within_cap_example =
    serve_within_cap false march 2 calls [] (refl, (refl, (refl, (refl, tt)))) nothing_spent
