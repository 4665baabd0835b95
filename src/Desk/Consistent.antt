-- ===== src/Desk/Consistent.antt =====
-- The invariant of the shared tables, and the steps that every writer of the transcript takes.
use nuvrag_platform.Base.{
  ℕ, ◌+◌, ◌≡◌, ◌≢◌, none, some, List, [], ◌∷◌, ◌++◌, arith, ◌==◌, ◌≤◌, count, count-append,
  count_of_find, if◌then◌else◌, All, length, find-true, Option-cases, inl, inr,
}
use nuvrag_platform.Base.Rows.{
  get, save, HasUniqueKeys, get-save_self, get-save_ne, get-add, get-add_ne, add-HasUniqueKeys,
  save-HasUniqueKeys, count-save, get_of_find,
}
use nuvrag_platform.Desk.{
  Conversation, Message, Ticket, Desk, conversation_row, ticket_row, in_conversation,
  get_by_session, ensure_conversation, is_session, new_conversation,
}

-- Conversations have distinct ids and distinct sessions, each counts its messages, and every message
-- and ticket has its conversation.
pub record IsConsistent (d : Desk) : Type 0 where
  pub unique : HasUniqueKeys d.conversations
  pub one_session :
      (chatbot_id session : ℕ) → count (is_session chatbot_id session) d.conversations ≤ 1
  pub counted :
      (id : ℕ) (c : Conversation)
      → get id d.conversations ≡ some c
      → c.message_count ≡ count (in_conversation id) d.messages
  pub no_orphan :
      (id : ℕ) → get id d.conversations ≡ none → count (in_conversation id) d.messages ≡ 0
  pub wrapped :
      (id : ℕ) (t : Ticket)
      → get id d.tickets ≡ some t
      → get t.conversation_id d.conversations ≢ none

-- Creating a conversation under a fresh id keeps the tables consistent.
pub ensure_conversation-IsConsistent :
    (now fresh_id org_id chatbot_id session : ℕ) (d : Desk)
    → get fresh_id d.conversations ≡ none
    → IsConsistent d
    → IsConsistent (ensure_conversation now fresh_id org_id chatbot_id session d).1
unfolding ensure_conversation
ensure_conversation-IsConsistent now fresh_id org_id chatbot_id session d fresh h =
    let c = new_conversation now fresh_id org_id chatbot_id session in
    record {
      unique = ground (arith, add-HasUniqueKeys c d.conversations h.unique);
      one_session = λ b s. ground (
        arith,
        h.one_session b s,
        count-append (is_session b s) d.conversations (c ∷ []),
        count_of_find (is_session chatbot_id session) d.conversations,
      );
      counted = λ id b e. ground (
        arith,
        h.counted id b,
        h.no_orphan id,
        get-add id c d.conversations,
        get-add_ne id c d.conversations,
      );
      no_orphan = λ id e.
          ground
            (arith, h.no_orphan id, get-add id c d.conversations, get-add_ne id c d.conversations);
      wrapped = λ id t e n. ground (
        arith,
        h.wrapped id t,
        get-add_ne t.conversation_id c d.conversations,
        get-add t.conversation_id c d.conversations,
      );
    }

-- Messages of one conversation count for it and for no other.
count-in_conversation :
    (id : ℕ) (ms : List Message) (j : ℕ)
    → All (λ m. m.conversation_id ≡ id) ms
    → count (in_conversation j) ms ≡ (if id == j then length ms else 0)
count-in_conversation id [] j h = ground arith
count-in_conversation id (m ∷ ms) j h = ground (arith, h.0, count-in_conversation id ms j h.1)

-- Adding messages to a stored conversation and raising its count by their number keeps the tables
-- consistent.
pub post-IsConsistent :
    (c c' : Conversation) (ms : List Message) (d : Desk)
    → get c.id d.conversations ≡ some c
    → c'.id ≡ c.id
    → c'.chatbot_id ≡ c.chatbot_id
    → c'.external_session_id ≡ c.external_session_id
    → c'.message_count ≡ c.message_count + length ms
    → All (λ m. m.conversation_id ≡ c.id) ms
    → IsConsistent d
    → IsConsistent
        (record d { conversations = save c' d.conversations; messages = d.messages ++ ms })
post-IsConsistent c c' ms d here same same_bot same_session grown all h =
    let there : get c'.id d.conversations ≡ some c = ground arith in
    record {
      unique = save-HasUniqueKeys c' d.conversations h.unique;
      one_session = λ b s. ground (
        arith,
        h.one_session b s,
        count-save (is_session b s) c' c d.conversations h.unique there,
      );
      counted = λ id b e. ground (
        arith,
        h.counted id b,
        h.counted id c,
        count-append (in_conversation id) d.messages ms,
        count-in_conversation c.id ms id all,
        get-save_self c' c d.conversations there,
        get-save_ne id c' d.conversations,
      );
      no_orphan = λ id e. ground (
        arith,
        h.no_orphan id,
        count-append (in_conversation id) d.messages ms,
        count-in_conversation c.id ms id all,
        get-save_self c' c d.conversations there,
        get-save_ne id c' d.conversations,
      );
      wrapped = λ id t e n. ground (
        arith,
        h.wrapped id t,
        get-save_self c' c d.conversations there,
        get-save_ne t.conversation_id c' d.conversations,
      );
    }

-- Writing tickets that wrap known conversations keeps the tables consistent.
pub tickets-IsConsistent :
    (tickets : List Ticket) (d : Desk)
    → ((id : ℕ) (t : Ticket)
        → get id tickets ≡ some t
        → get t.conversation_id d.conversations ≢ none)
    → IsConsistent d
    → IsConsistent (record d { tickets = tickets })
tickets-IsConsistent tickets d all h = record {
  unique = h.unique;
  one_session = h.one_session;
  counted = h.counted;
  no_orphan = h.no_orphan;
  wrapped = all;
}

-- The conversation of a session is stored under its id once it is ensured.
pub ensure_conversation-stored :
    (now fresh_id org_id chatbot_id session : ℕ) (d : Desk)
    → get fresh_id d.conversations ≡ none
    → IsConsistent d
    → let (c, d') = ensure_conversation now fresh_id org_id chatbot_id session d in
      (get c.id d'.conversations ≡ some c)
      × (c.chatbot_id ≡ chatbot_id)
      × (c.external_session_id ≡ session)
      × (d'.messages ≡ d.messages)
      × (d'.tickets ≡ d.tickets)
      × (d'.users ≡ d.users)
unfolding ensure_conversation
ensure_conversation-stored now fresh_id org_id chatbot_id session d fresh h =
    elim (Option-cases (get_by_session chatbot_id session d.conversations)) [
      | inr (c, e) ↦ ground (
        arith,
        get_of_find (is_session chatbot_id session) d.conversations c h.unique e,
        find-true (is_session chatbot_id session) d.conversations c e,
      )
      | inl none_yet ↦
          let c = new_conversation now fresh_id org_id chatbot_id session in
          ground (arith, get-add fresh_id c d.conversations fresh)
    ]
