-- ===== src/Retention.antt =====
-- The scheduled sweeps of `app/services/conversation.py` and `app/services/nuvrag_mem/erasure.py`,
-- and the erasures that a person asks for.
pub mod Loop
pub mod Erasure
pub mod Sweeps
pub mod Tests
use nuvrag_platform.Base.{
  ℕ, zero, suc, ◌+◌, ◌-◌, ◌*◌, ◌<◌, Bool, true, false, ◌&&◌, not, Option, none, some, List, [], ◌∷◌,
  ◌++◌, map, ◌==◌, ltb, length, take, filter, count, any, if◌then◌else◌,
}
use nuvrag_platform.Base.Rows.{get, remove}
use nuvrag_platform.Base.Sorted.{elem, keys}
use nuvrag_platform.Base.Batch.{pick}
use nuvrag_platform.Domain.Enums.{is_unresolved}
use nuvrag_platform.Domain.Errors.{DomainError, Result, ok, err, raise_if, or_raise, ◌>>=◌, ◌>>◌}
use nuvrag_platform.Desk.{
  Conversation, Message, Ticket, MemoryEntry, Desk, conversation_row, memory_row, ticket_row,
}
use nuvrag_platform.Tickets.{load_ticket}

-- `MemoryEntryRepository.delete_for_subject`
abbrev pub is_about : ℕ → ℕ → MemoryEntry → Bool
is_about chatbot_id subject_id m = (m.chatbot_id == chatbot_id) && (m.subject_id == subject_id)

-- `forget_visitor_in`: how many notes went, and the tables without them
unfoldable pub forget_visitor_in : ℕ → ℕ → Desk → ℕ × Desk
forget_visitor_in chatbot_id subject_id d = (
  count (is_about chatbot_id subject_id) d.memories,
  record d { memories = filter (λ m. not (is_about chatbot_id subject_id m)) d.memories },
)

-- `ON DELETE SET NULL` of `memory_entry.source_conversation_id`
abbrev pub forget_source : List ℕ → MemoryEntry → MemoryEntry
forget_source ids m = record m {
  source_conversation_id = elim m.source_conversation_id [
    | none ↦ none
    | some id ↦ (if elem id ids then none else some id)
  ];
}

-- Deleting conversations, with what their foreign keys take along.
unfoldable pub delete_conversations : List ℕ → Desk → Desk
delete_conversations ids d = record d {
  conversations = filter (λ c. not (elem c.id ids)) d.conversations;
  messages = filter (λ m. not (elem m.conversation_id ids)) d.messages;
  tickets = filter (λ t. not (elem t.conversation_id ids)) d.tickets;
  memories = map (forget_source ids) d.memories;
}

-- `delete_conversation`
unfoldable pub delete_conversation : ℕ → ℕ → Desk → Result Desk
delete_conversation chatbot_id conversation_id d = do
  c ← or_raise (get conversation_id d.conversations) DomainError.not_found
  raise_if (not (c.chatbot_id == chatbot_id)) DomainError.not_found
  ok (delete_conversations (c.id ∷ []) (forget_visitor_in chatbot_id c.external_session_id d).1)

-- An unresolved ticket wraps the conversation.
abbrev pub is_pinned : Desk → Conversation → Bool
is_pinned d c = any (λ t. (t.conversation_id == c.id) && is_unresolved t.status) d.tickets

-- The rows that `ConversationRepository.expired_ids` selects from.
abbrev pub is_expired_conversation : ℕ → ℕ → Desk → Conversation → Bool
is_expired_conversation chatbot_id cutoff d c =
    (c.chatbot_id == chatbot_id) && (ltb c.updated_at cutoff && not (is_pinned d c))

-- An unresolved ticket wraps some conversation of the subject on the note's chatbot.
abbrev pub is_held : Desk → MemoryEntry → Bool
is_held d m =
    any
      (λ t.
        is_unresolved t.status
        && any
            (λ c.
              (c.id == t.conversation_id)
              && ((c.chatbot_id == m.chatbot_id) && (c.external_session_id == m.subject_id)))
            d.conversations)
      d.tickets

-- The rows that `MemoryEntryRepository.expired_ids` selects from.
abbrev pub is_expired_memory : ℕ → ℕ → Desk → MemoryEntry → Bool
is_expired_memory chatbot_id cutoff d m =
    (m.chatbot_id == chatbot_id) && (ltb m.last_referenced_at cutoff && not (is_held d m))

-- The two queries of a sweep of one chatbot.
pub record Sweep : Type 0 where
  pub expired_ids : ℕ → Desk → List ℕ
  pub delete_by_ids : List ℕ → Desk → ℕ × Desk

-- The loop of both `_purge_chatbot`: the batches left, what is deleted so far, the tables.
unfoldable pub purge_loop : Sweep → ℕ → ℕ → ℕ → Desk → ℕ × Bool × Desk
purge_loop s batch_size zero deleted d = (deleted, false, d)
purge_loop s batch_size (suc batches) deleted d =
    let expired = s.expired_ids batch_size d in
    let (removed, d') = s.delete_by_ids expired d in
    let rest = purge_loop s batch_size batches (deleted + removed) d' in
    if length expired == 0
    then (deleted, true, d)
    else if ltb (length expired) batch_size
    then (deleted + removed, true, d')
    else rest

abbrev pub expired_conversations : ℕ → ℕ → ℕ → Desk → List ℕ
expired_conversations chatbot_id cutoff limit d =
    keys
      (pick (λ c. c.updated_at) (is_expired_conversation chatbot_id cutoff d) limit d.conversations)

-- The queries of the conversation sweep.
abbrev pub conversation_sweep : ℕ → ℕ → Sweep
conversation_sweep chatbot_id cutoff = record {
  expired_ids = expired_conversations chatbot_id cutoff;
  delete_by_ids = λ ids d. (count (λ c. elem c.id ids) d.conversations, delete_conversations ids d);
}

abbrev pub expired_memories : ℕ → ℕ → ℕ → Desk → List ℕ
expired_memories chatbot_id cutoff limit d =
    keys (pick (λ m. m.last_referenced_at) (is_expired_memory chatbot_id cutoff d) limit d.memories)

-- The queries of the memory sweep.
abbrev pub memory_sweep : ℕ → ℕ → Sweep
memory_sweep chatbot_id cutoff = record {
  expired_ids = expired_memories chatbot_id cutoff;
  delete_by_ids = λ ids d. (
    count (λ m. elem m.id ids) d.memories,
    record d { memories = filter (λ m. not (elem m.id ids)) d.memories },
  );
}

abbrev pub seconds_per_day : ℕ
seconds_per_day = 86400

-- `_purge_chatbot` of the conversations
unfoldable pub purge_conversations : ℕ → ℕ → ℕ → ℕ → ℕ → Desk → ℕ × Bool × Desk
unfolding purge_loop
purge_conversations now batch_size max_batches chatbot_id retention_days d =
    let cutoff = now - retention_days * seconds_per_day in
    purge_loop (conversation_sweep chatbot_id cutoff) batch_size max_batches 0 d

-- `_purge_chatbot` of the notes
unfoldable pub purge_memories : ℕ → ℕ → ℕ → ℕ → ℕ → Desk → ℕ × Bool × Desk
unfolding purge_loop
purge_memories now batch_size max_batches chatbot_id retention_days d =
    let cutoff = now - retention_days * seconds_per_day in
    purge_loop (memory_sweep chatbot_id cutoff) batch_size max_batches 0 d

-- `forget_ticket_visitor` of `app/services/ticket.py`
unfoldable pub forget_ticket_visitor : ℕ → ℕ → Desk → Result (ℕ × Desk)
unfolding forget_visitor_in
forget_ticket_visitor org_id ticket_id d = do
  t ← load_ticket org_id ticket_id d.tickets
  ok (elim (get t.conversation_id d.conversations) [
    | none ↦ (0, d)
    | some c ↦ forget_visitor_in t.chatbot_id c.external_session_id d
  ])
