-- ===== src/Retention/Tests.antt =====
-- The sweeps and the erasures at a concrete desk.
use nuvrag_platform.Base.{
  map, ℕ, ◌+◌, ◌≡◌, ◌≢◌, refl, true, false, some, none, [], ◌∷◌, arith, ◌==◌, count, filter, ◌⊎◌,
}
use nuvrag_platform.Base.Text.{text}
use nuvrag_platform.Base.Rows.{get}
use nuvrag_platform.Base.Sorted.{sort_by}
use nuvrag_platform.Domain.Enums.{
  MemoryType, TicketStatus, TicketPriority, TicketSource, MessageRole,
}
use nuvrag_platform.Domain.Errors.{DomainError, ok, err}
use nuvrag_platform.Desk.{
  Conversation, Message, Ticket, MemoryEntry, Desk, conversation_row, memory_row, in_conversation,
}
use nuvrag_platform.Tickets.{load_ticket}
use nuvrag_platform.Retention.{
  is_about, purge_conversations, delete_conversations, delete_conversation, forget_visitor_in,
}
use nuvrag_platform.Retention.Sweeps.{
  conversation_backlog, purge_conversations_exact, purge_conversations_spares,
}
use nuvrag_platform.Retention.Erasure.{
  is_from, delete_conversation_erases, delete_conversation_spares, unsourced,
}

abbrev chat : ℕ → ℕ → Conversation
chat id updated_at = record {
  id = id;
  org_id = 9;
  chatbot_id = 5;
  external_session_id = 70 + id;
  title = none;
  message_count = 0;
  updated_at = updated_at;
}

abbrev note : ℕ → ℕ → MemoryEntry
note id subject = record {
  id = id;
  org_id = 9;
  chatbot_id = 5;
  subject_id = subject;
  content = text "likes tea";
  memory_type = MemoryType.fact;
  embedding_dim = 3;
  embedding = [];
  source_conversation_id = some 1;
  last_referenced_at = 10;
}

abbrev pinning : Ticket
pinning = record {
  id = 30;
  org_id = 9;
  chatbot_id = 5;
  conversation_id = 2;
  visitor_email = text "v@y.io";
  visitor_name = none;
  subject = none;
  status = TicketStatus.open_status;
  priority = TicketPriority.normal;
  source = TicketSource.ai_escalation;
  escalation_reason = none;
  assigned_to = none;
  resolved_at = none;
}

abbrev line : Message
line = record {
  id = 40;
  org_id = 9;
  conversation_id = 1;
  chatbot_id = 5;
  role = MessageRole.user;
  content = text "hi";
  staff_user_id = none;
}

abbrev desk : Desk
desk = record {
  users = [];
  conversations = chat 1 100 ∷ chat 2 100 ∷ chat 3 200 ∷ chat 4 900000 ∷ [];
  messages = line ∷ [];
  tickets = pinning ∷ [];
  memories = note 50 71 ∷ note 51 72 ∷ note 52 73 ∷ [];
}

-- The oldest two go, one batch of one at a time; the pinned and the recent one stay.
purge_one_batch : (purge_conversations 900000 1 1 5 5 desk).0 ≡ 1
unfolding purge_conversations delete_conversations sort_by
purge_one_batch = refl

purge_all : (purge_conversations 900000 1 3 5 5 desk).1 ≡ true
unfolding purge_conversations delete_conversations sort_by
purge_all = refl

-- The backlog of two equals the limit of two: nothing is left, and the purge is still incomplete.
purge_at_limit :
    let (deleted, complete, d') = purge_conversations 900000 1 2 5 5 desk in
    (deleted ≡ 2) × (complete ≡ false) × (conversation_backlog 5 468000 d' ≡ 0)
unfolding purge_conversations delete_conversations sort_by
purge_at_limit = (refl, refl, refl)

purge_conversations_exact_example :
    let (deleted, complete, d') = purge_conversations 900000 1 1 5 5 desk in
    (deleted ≡ 1) × (conversation_backlog 5 468000 d' + deleted ≡ 2) × (complete ≡ false)
purge_conversations_exact_example =
    purge_conversations_exact 900000 1 1 5 5 desk (omega arith) (refl, (refl, (refl, (refl, tt))))

purge_conversations_spares_example :
    let d' = (purge_conversations 900000 1 3 5 5 desk).2 in
    (get 2 d'.conversations ≡ some (chat 2 100))
    × (filter (in_conversation 2) d'.messages ≡ [])
    × (filter (λ t. t.conversation_id == 2) d'.tickets ≡ pinning ∷ [])
purge_conversations_spares_example =
    purge_conversations_spares 900000 1 3 5 5 (chat 2 100) desk (refl, (refl, (refl, (refl, tt))))
      refl refl

delete_conversation_erases_example :
    (d' : Desk) × (delete_conversation 5 1 desk ≡ ok d')
    × (get 1 d'.conversations ≡ none)
    × (count (in_conversation 1) d'.messages ≡ 0)
    × (count (λ t. t.conversation_id == 1) d'.tickets ≡ 0)
    × (count (is_about 5 71) d'.memories ≡ 0)
    × (count (is_from 1) d'.memories ≡ 0)
delete_conversation_erases_example = delete_conversation_erases 5 1 (chat 1 100) desk refl refl

abbrev after_first : Desk
after_first = delete_conversations (1 ∷ []) (forget_visitor_in 5 71 desk).1

delete_first : delete_conversation 5 1 desk ≡ ok after_first
unfolding delete_conversation
delete_first = refl

delete_conversation_spares_example :
    ((id : ℕ)
      → id ≢ 1
      → (get id after_first.conversations ≡ get id desk.conversations)
        × (filter (in_conversation id) after_first.messages
            ≡ filter (in_conversation id) desk.messages)
        × (filter (λ t. t.conversation_id == id) after_first.tickets
            ≡ filter (λ t. t.conversation_id == id) desk.tickets))
    × ((c : Conversation) (bot subject : ℕ)
        → get 1 desk.conversations ≡ some c
        → (bot ≢ 5) ⊎ (subject ≢ c.external_session_id)
        → filter (is_about bot subject) after_first.memories
          ≡ map (unsourced 1) (filter (is_about bot subject) desk.memories))
delete_conversation_spares_example = delete_conversation_spares 5 1 desk after_first delete_first

delete_elsewhere : delete_conversation 6 1 desk ≡ err DomainError.not_found
unfolding delete_conversation
delete_elsewhere = refl

load_pinning : load_ticket 9 30 desk.tickets ≡ ok pinning
unfolding load_ticket
load_pinning = refl
