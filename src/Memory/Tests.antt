-- ===== src/Memory/Tests.antt =====
-- The memory of a visitor at concrete inputs.
use nuvrag_platform.Base.{
  ℕ, ◌+◌, ◌-◌, ◌≤◌, ◌≡◌, ◌≢◌, refl, true, false, Option, none, some, List, [], ◌∷◌, arith, max,
  length, map, ◌*◌, length-map,
}
use nuvrag_platform.Base.Text.{Text, text}
use nuvrag_platform.Base.Rows.{get}
use nuvrag_platform.Base.Sorted.{sort_by}
use nuvrag_platform.Domain.Enums.{
  MessageRole, MemoryType, TicketStatus, TicketPriority, TicketSource,
}
use nuvrag_platform.Desk.{
  Conversation, Message, Ticket, MemoryEntry, Desk, memory_row, conversation_row,
}
use nuvrag_platform.Retention.{is_about}
use nuvrag_platform.Memory.{
  MemorySettings, Vectors, CalibrationState, count_for_subject, recall, floor_of, is_close,
  exists_for_session, exists_for_conversation,
}
use nuvrag_platform.Memory.Transcript.{render_transcript}
use nuvrag_platform.Memory.Extract.{
  Candidate, Element, Value, Progress, Subject, Surroundings, store,
}
use nuvrag_platform.Memory.Pipeline.{extract_visitor_memory}
use nuvrag_platform.Memory.Store.{store_keeps_ceiling}
use nuvrag_platform.Memory.Recalled.{recall_grounded}
use nuvrag_platform.Domain.Errors.{DomainError, ok, err}
use nuvrag_platform.Memory.Pipeline.{with_embedder}
use nuvrag_platform.Memory.Gate.{extract_visitor_memory-Gated, Gated}

abbrev config : MemorySettings
config = record {
  enabled = true;
  retrieval_top_k = 5;
  extraction_window_messages = 6;
  max_entries_per_extraction = 3;
  dedupe_similarity = 92;
  max_entries_per_subject = 2;
}

-- Vectors of one coordinate; how far apart they are.
abbrev gap : List ℕ → List ℕ → ℕ
gap (x ∷ _) (y ∷ _) = (x - y) + (y - x)
gap _ _ = 100

abbrev line_space : Vectors
line_space = record { unit = 100; distance = gap }

abbrev tea : MemoryEntry
tea = record {
  id = 1;
  org_id = 9;
  chatbot_id = 5;
  subject_id = 70;
  content = text "likes tea";
  memory_type = MemoryType.fact;
  embedding_dim = 1;
  embedding = 50 ∷ [];
  source_conversation_id = none;
  last_referenced_at = 10;
}

abbrev visitor : Subject
visitor = record {
  now = 90000;
  org_id = 9;
  chatbot_id = 5;
  conversation_id = 20;
  subject_id = 70;
  dimension = 1;
}

abbrev drinks_tea : Candidate
drinks_tea = record { content = text "drinks tea"; memory_type = MemoryType.fact }

abbrev has_cats : Candidate
has_cats = record { content = text "has cats"; memory_type = MemoryType.fact }

none_later : (rows : List MemoryEntry) → rows ≡ tea ∷ [] → (id : ℕ) → 2 ≤ id → get id rows ≡ none
none_later rows same id h = rw same (ground arith)

-- A restatement, a new note, and one note too many.
abbrev tally : Option Progress → ℕ
tally none = 0
tally (some q) = q.report.written * 100 + q.report.duplicates * 10 + length q.memories

store_counts :
    tally (
      store config line_space visitor 2
        (drinks_tea ∷ has_cats ∷ has_cats ∷ [])
        ((51 ∷ []) ∷ (9 ∷ []) ∷ (90 ∷ []) ∷ [])
        (tea ∷ []))
    ≡ 112
unfolding store sort_by
store_counts = refl

store_keeps_ceiling_example :
    (q : Progress) × (store config line_space visitor 2
        (drinks_tea ∷ has_cats ∷ [])
        ((51 ∷ []) ∷ (9 ∷ []) ∷ [])
        (tea ∷ [])
      ≡ some q)
    × (count_for_subject 5 70 q.memories ≡ 1 + q.report.written)
    × (count_for_subject 5 70 q.memories ≤ max 2 1)
    × (q.report.skipped ≡ none → q.report.written + q.report.duplicates ≡ 2)
    × (q.report.skipped ≢ none → 2 ≤ count_for_subject 5 70 q.memories)
    × ((id : ℕ) (m : MemoryEntry)
        → get id (tea ∷ []) ≡ some m
        → is_about 5 70 m ≡ false
        → get id q.memories ≡ some m)
store_keeps_ceiling_example =
    store_keeps_ceiling config line_space visitor 2 (drinks_tea ∷ has_cats ∷ [])
      ((51 ∷ []) ∷ (9 ∷ []) ∷ []) (tea ∷ []) refl (refl, tt) (none_later (tea ∷ []) refl)

abbrev turn : Message
turn = record {
  id = 40;
  org_id = 9;
  conversation_id = 20;
  chatbot_id = 5;
  role = MessageRole.user;
  content = text "  I   like tea ";
  staff_user_id = none;
}

render_one_turn : render_transcript (turn ∷ []) ≡ text "visitor: I like tea"
unfolding render_transcript
render_one_turn = refl

abbrev answer : List Element
answer =
    Element.scalar
    ∷ Element.object (some (Value.string (text " likes  tea ")))
        (some (Value.string (text "preference")))
    ∷ Element.object (some (Value.string (text "has cats"))) none
    ∷ Element.object (some (Value.string (text "one too many"))) none
    ∷ []

abbrev thread : Conversation
thread = record {
  id = 20;
  org_id = 9;
  chatbot_id = 5;
  external_session_id = 70;
  title = none;
  message_count = 1;
  updated_at = 100;
}

abbrev escalation : Ticket
escalation = record {
  id = 30;
  org_id = 9;
  chatbot_id = 5;
  conversation_id = 20;
  visitor_email = text "v@y.io";
  visitor_name = none;
  subject = none;
  status = TicketStatus.closed;
  priority = TicketPriority.normal;
  source = TicketSource.ai_escalation;
  escalation_reason = none;
  assigned_to = none;
  resolved_at = none;
}

abbrev desk : Desk
desk = record {
  users = [];
  conversations = thread ∷ [];
  messages = turn ∷ [];
  tickets = escalation ∷ [];
  memories = tea ∷ [];
}

abbrev floor_known : CalibrationState
floor_known = record { override = none; calibrated = some 60 }

recall-tea : recall config line_space 5 70 (60 ∷ []) 1 floor_known none desk ≡ tea ∷ []
unfolding recall sort_by
recall-tea = refl

recall_grounded_example :
    let found = recall config line_space 5 70 (60 ∷ []) 1 floor_known none desk in
    ((id : ℕ) (m : MemoryEntry)
      → get id found ≡ some m
      → (floor : ℕ) × (floor_of floor_known none ≡ some floor)
        × (true ≡ true)
        × (exists_for_session 5 70 desk ≡ true)
        × (get id desk.memories ≡ some m)
        × (is_about 5 70 m ≡ true)
        × (m.embedding_dim ≡ 1)
        × (is_close line_space (60 ∷ []) floor m ≡ true))
    × (length found ≤ 5)
recall_grounded_example =
    recall_grounded config line_space 5 70 (60 ∷ []) 1 floor_known none desk (refl, tt)

-- A provider with one answer and one vector.
abbrev quiet : Surroundings
quiet = record {
  acquired = true;
  embedder = ok (some 1);
  chat_provider = ok tt;
  unfence = λ s. s;
  loads = λ _. some answer;
  chat = λ _. some (text "[1]");
  embed_batch = λ texts. some (map (λ _. 9 ∷ []) texts);
}

one_each :
    (texts : List Text) (vectors : List (List ℕ))
    → some (map (λ _. 9 ∷ []) texts) ≡ some vectors
    → length vectors ≡ length texts
one_each texts vectors h =
    let same : vectors ≡ map (λ _. 9 ∷ []) texts = ground arith in
    rw same (length-map (λ _. 9 ∷ []) texts)

extract_visitor_memory-Gated_example :
    Gated config line_space quiet one_each 5 70 desk.memories
      ((true ≡ true)
        × (true ≡ true)
        × (exists_for_conversation 20 desk.tickets ≡ true)
        × ((dimension : ℕ) × (quiet.embedder ≡ ok (some dimension))))
      (extract_visitor_memory config line_space quiet 90000 2 9 20 desk)
extract_visitor_memory-Gated_example =
    extract_visitor_memory-Gated config line_space quiet one_each 2 desk (refl, tt)
      (none_later desk.memories refl) 90000 9 20 thread refl

-- Credentials that no longer decrypt are not caught.
abbrev locked_out : Surroundings
locked_out = record quiet { embedder = err DomainError.credentials_unreadable }

locked_out_raises : extract_visitor_memory config line_space locked_out 90000 2 9 20 desk ≡ none
unfolding extract_visitor_memory with_embedder
locked_out_raises = refl
