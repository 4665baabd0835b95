-- ===== src/Desk.antt =====
-- The rows of `app/models/{conversation,ticket,memory_entry}.py` and the tables that the ticket,
-- conversation, memory and chat services share. Ids, session ids and the coordinates of vectors are
-- only compared, so they are numbers; times are seconds. Row-level security is the database's: the
-- lookups here range over every tenant's rows, and isolation rests on the code's own tests.
pub mod Consistent
use nuvrag_platform.Base.{
  ℕ, ◌+◌, ◌≡◌, Bool, ◌&&◌, not, Option, none, some, List, [], map, ◌==◌, find, filter, count, any,
  if◌then◌else◌,
}
use nuvrag_platform.Base.Text.{Text}
use nuvrag_platform.Base.Rows.{Keyed, get, save, add, remove}
use nuvrag_platform.Domain.Enums.{
  MessageRole, TicketStatus, TicketPriority, TicketSource, MemoryType,
}
use nuvrag_platform.Identity.{User}

pub record Conversation : Type 0 where
  pub id : ℕ
  pub org_id : ℕ
  pub chatbot_id : ℕ
  pub external_session_id : ℕ
  pub title : Option Text
  pub message_count : ℕ
  pub updated_at : ℕ

pub record Message : Type 0 where
  pub id : ℕ
  pub org_id : ℕ
  pub conversation_id : ℕ
  pub chatbot_id : ℕ
  pub role : MessageRole
  pub content : Text
  pub staff_user_id : Option ℕ

pub record Ticket : Type 0 where
  pub id : ℕ
  pub org_id : ℕ
  pub chatbot_id : ℕ
  pub conversation_id : ℕ
  pub visitor_email : Text
  pub visitor_name : Option Text
  pub subject : Option Text
  pub status : TicketStatus
  pub priority : TicketPriority
  pub source : TicketSource
  pub escalation_reason : Option Text
  pub assigned_to : Option ℕ
  pub resolved_at : Option ℕ

pub record MemoryEntry : Type 0 where
  pub id : ℕ
  pub org_id : ℕ
  pub chatbot_id : ℕ
  pub subject_id : ℕ
  pub content : Text
  pub memory_type : MemoryType
  pub embedding_dim : ℕ
  pub embedding : List ℕ
  pub source_conversation_id : Option ℕ
  pub last_referenced_at : ℕ

pub record Desk : Type 0 where
  pub users : List User
  pub conversations : List Conversation
  pub messages : List Message
  pub tickets : List Ticket
  pub memories : List MemoryEntry

instance abbrev pub conversation_row : Keyed Conversation
conversation_row = record { key = λ c. c.id }

instance abbrev pub message_row : Keyed Message
message_row = record { key = λ m. m.id }

instance abbrev pub ticket_row : Keyed Ticket
ticket_row = record { key = λ t. t.id }

instance abbrev pub memory_row : Keyed MemoryEntry
memory_row = record { key = λ m. m.id }

abbrev pub is_session : ℕ → ℕ → Conversation → Bool
is_session chatbot_id session c = (c.chatbot_id == chatbot_id) && (c.external_session_id == session)

-- `ConversationRepository.get_by_session`
abbrev pub get_by_session : ℕ → ℕ → List Conversation → Option Conversation
get_by_session chatbot_id session = find (is_session chatbot_id session)

abbrev pub new_conversation : ℕ → ℕ → ℕ → ℕ → ℕ → Conversation
new_conversation now fresh_id org_id chatbot_id session = record {
  id = fresh_id;
  org_id = org_id;
  chatbot_id = chatbot_id;
  external_session_id = session;
  title = none;
  message_count = 0;
  updated_at = now;
}

-- `_ensure_conversation` of `app/services/rag.py`, and the same steps at the head of `create_ticket`
unfoldable pub ensure_conversation : ℕ → ℕ → ℕ → ℕ → ℕ → Desk → Conversation × Desk
ensure_conversation now fresh_id org_id chatbot_id session d =
    elim (get_by_session chatbot_id session d.conversations) [
      | some c ↦ (c, d)
      | none ↦
          let c = new_conversation now fresh_id org_id chatbot_id session in
          (c, record d { conversations = add c d.conversations })
    ]

-- A message that is added to the transcript of a conversation, which counts it.
abbrev pub in_conversation : ℕ → Message → Bool
in_conversation id m = m.conversation_id == id
