-- ===== src/Chat/Tests.antt =====
-- A chat turn at a concrete desk.
use nuvrag_platform.Base.{
  ℕ, ◌≤◌, ◌≡◌, refl, ◌⊎◌, true, false, Option, none, some, List, [], ◌∷◌, length, arith,
}
use nuvrag_platform.Base.Text.{Text, text, is_space}
use nuvrag_platform.Domain.Errors.{UsageKind, DomainError, ok, err}
use nuvrag_platform.Usage.{consume, charge_of, period_start}
use nuvrag_platform.Desk.{Desk, conversation_row, ticket_row, ensure_conversation}
use nuvrag_platform.Desk.Consistent.{IsConsistent}
use nuvrag_platform.Chat.{
  ChatContext, Backend, TurnIds, World, Event, events, outcome, left_after, stream_answer,
  turn_messages,
}
use nuvrag_platform.Chat.Turn.{turn_keeps_desk}
use nuvrag_platform.Chat.Written.{turn_all_or_nothing}

abbrev context : Option ℕ → ChatContext
context cap = record {
  org_id = 9;
  chatbot_id = 5;
  retrieval_call_cap = cap;
  usage_cap_message = text "Out of budget";
  calibration = record { override = none; calibrated = none };
}

-- A model that answers with the given deltas.
abbrev backend : List Text → Backend
backend deltas = record {
  now = 1000;
  today = record { year = 2026; month = 3; day = 9 };
  fail_closed = false;
  outage = record { write_fails = false; read_fails = false };
  memory = record {
    enabled = true;
    retrieval_top_k = 5;
    extraction_window_messages = 6;
    max_entries_per_extraction = 3;
    dedupe_similarity = 92;
    max_entries_per_subject = 200;
  };
  vectors = record { unit = 100; distance = λ x y. 0 };
  history_window_messages = 10;
  chat_provider = ok tt;
  embedder = ok (some 1);
  embed = λ _. ok (1 ∷ []);
  search_documents = λ _ _. 77 ∷ [];
  measured = none;
  stream = λ _ _ _. record { deltas = deltas; failure = none };
}

abbrev ids : TurnIds
ids = record { conversation = 20; question = 40; answer = 41 }

abbrev empty_desk : Desk
empty_desk = record { users = []; conversations = []; messages = []; tickets = []; memories = [] }

abbrev start : World
start = record { usage = []; desk = empty_desk; queue = [] }

abbrev spent : World
spent = record start {
  usage =
      record {
        org_id = 9;
        chatbot_id = 5;
        period_start = record { year = 2026; month = 3; day = 1 };
        ingestion_units_used = 0;
        retrieval_calls_used = 3;
      }
      ∷ [];
}

abbrev deltas : List Text
deltas = text "He" ∷ text "llo " ∷ []

-- An answer, its sources before it and its two messages after it.
turn_completes :
    let run = stream_answer (context none) (backend deltas) ids 70 (text "Hi?") start in
    (events run
      ≡ Event.sources (77 ∷ [])
        ∷ Event.token (text "He")
        ∷ Event.token (text "llo ")
        ∷ Event.done 20 41 false
        ∷ [])
    × ((outcome run).1.desk.messages
        ≡ turn_messages (context none) ids 20 (text "Hi?") (text "Hello"))
unfolding stream_answer is_space ensure_conversation
turn_completes = (refl, refl)

-- Silence is an error, and leaves a conversation without a message.
silent_turn :
    let run = stream_answer (context none) (backend (text "  " ∷ [])) ids 70 (text "Hi?") start in
    ((outcome run).0 ≡ err DomainError.upstream_service) × ((outcome run).1.desk.messages ≡ [])
unfolding stream_answer is_space ensure_conversation
silent_turn = (refl, refl)

empty-IsConsistent : IsConsistent empty_desk
empty-IsConsistent = record {
  unique = tt;
  one_session = λ b s. omega arith;
  counted = λ id c e. absurd (ground arith);
  no_orphan = λ id e. refl;
  wrapped = λ id t e. absurd (ground arith);
}

turn_keeps_desk_example :
    IsConsistent
      (left_after 2 (stream_answer (context none) (backend deltas) ids 70 (text "Hi?") start)).desk
turn_keeps_desk_example =
    turn_keeps_desk (context none) (backend deltas) ids 70 (text "Hi?") start 2 refl
      empty-IsConsistent

turn_all_or_nothing_example :
    let run = stream_answer (context none) (backend deltas) ids 70 (text "Hi?") start in
    ((left_after 2 run).desk.messages ≡ []) ⊎ ((outcome run).0 ≡ ok tt) × (length (events run) ≤ 3)
turn_all_or_nothing_example =
    turn_all_or_nothing (context none) (backend deltas) ids 70 (text "Hi?") start 2

cap_reached :
    (consume false
      (backend []).outage
      (charge_of (backend []).today 9 5 UsageKind.retrieval 1 (some 3))
      spent.usage).0.allowed
    ≡ false
unfolding consume period_start
cap_reached = refl
