-- ===== src/Retention/Erasure.antt =====
-- Deleting a conversation, and forgetting the visitor who wrote it.
use mathlib.Core.Path.{subst}
use nuvrag_platform.Base.{
  ap, ℕ, ◌≡◌, ◌≢◌, refl, Bool, false, not, some, none, List, [], ◌∷◌, arith, ◌==◌, count, filter,
  map, if◌then◌else◌, ◌∙◌, count-filter_none, count-filter_all, count-filter-le, filter-filter,
  count-map, inl, inr, Option-cases, Bool-cases, ◌⊎◌,
}
use nuvrag_platform.Base.Rows.{get, get-key, HasUniqueKeys}
use nuvrag_platform.Base.Sorted.{elem, filter-HasUniqueKeys, get-filter}
use nuvrag_platform.Domain.Errors.{DomainError, ok, err}
use nuvrag_platform.Desk.{
  Conversation, Ticket, MemoryEntry, Desk, conversation_row, ticket_row, in_conversation,
  is_session,
}
use nuvrag_platform.Desk.Consistent.{IsConsistent}
use nuvrag_platform.Tickets.{load_ticket}
use nuvrag_platform.Retention.{
  forget_ticket_visitor, is_about, forget_source, forget_visitor_in, delete_conversations,
  delete_conversation,
}

-- Without the conversations of the given ids.
get-drop_ids :
    (ids : List ℕ) (id : ℕ) (xs : List Conversation)
    → get id (filter (λ c. not (elem c.id ids)) xs) ≡ (if elem id ids then none else get id xs)
get-drop_ids ids id [] = ground arith
get-drop_ids ids id (x ∷ xs) = ground (arith, get-drop_ids ids id xs)

-- A deletion of conversations takes whole transcripts, so the tables stay consistent.
pub delete_conversations-IsConsistent :
    (ids : List ℕ) (d : Desk)
    → HasUniqueKeys d.tickets
    → IsConsistent d
    → IsConsistent (delete_conversations ids d)
unfolding delete_conversations
delete_conversations-IsConsistent ids d unique h = record {
  unique = filter-HasUniqueKeys (λ c. not (elem c.id ids)) d.conversations h.unique;
  one_session = λ b s. ground (
    arith,
    h.one_session b s,
    count-filter-le (is_session b s) (λ c. not (elem c.id ids)) d.conversations,
  );
  counted = λ id c e.
      let drop = get-drop_ids ids id d.conversations in
      let left : elem id ids ≡ false = ground arith in
      let same =
        count-filter_all (in_conversation id) (λ m. not (elem m.conversation_id ids)) d.messages
          (λ m k. ground arith) in
      ground (arith, h.counted id c);
  no_orphan = λ id e. elim (Bool-cases (elem id ids)) [
    | inl gone ↦
        count-filter_none (in_conversation id) (λ m. not (elem m.conversation_id ids)) d.messages
          (λ m k. ground arith)
    | inr left ↦ ground (
      arith,
      h.no_orphan id,
      get-drop_ids ids id d.conversations,
      count-filter-le (in_conversation id) (λ m. not (elem m.conversation_id ids)) d.messages,
    )
  ];
  wrapped = λ id t e n.
      let (there, left) =
        get-filter (λ x. not (elem x.conversation_id ids)) id t d.tickets e unique in
      ground (arith, h.wrapped id t there, get-drop_ids ids t.conversation_id d.conversations);
}

-- A note is of a conversation.
abbrev pub is_from : ℕ → MemoryEntry → Bool
is_from id m = elim m.source_conversation_id [ none ↦ false | some source ↦ source == id ]

count-forget_source :
    (id : ℕ) (ms : List MemoryEntry) → count (is_from id) (map (forget_source (id ∷ [])) ms) ≡ 0
count-forget_source id [] = refl
count-forget_source id (m ∷ ms) = elim (Option-cases m.source_conversation_id) [
  | inl e ↦ ground (arith, count-forget_source id ms)
  | inr (s, e) ↦ ground (arith, count-forget_source id ms)
]

-- What a deletion that succeeds did.
delete_conversation-eq-ok :
    (chatbot_id conversation_id : ℕ) (d d' : Desk)
    → delete_conversation chatbot_id conversation_id d ≡ ok d'
    → (c : Conversation) × (get conversation_id d.conversations ≡ some c)
      × (c.id ≡ conversation_id)
      × (c.chatbot_id ≡ chatbot_id)
      × (d'
          ≡ delete_conversations
              (c.id ∷ [])
              (forget_visitor_in chatbot_id c.external_session_id d).1)
unfolding delete_conversation
delete_conversation-eq-ok chatbot_id conversation_id d d' done =
    elim (Option-cases (get conversation_id d.conversations)) [
      | inl missing ↦ absurd (ground arith)
      | inr (c, found) ↦
          let same = get-key conversation_id d.conversations c found in
          (c, found, same, ground arith, ground arith)
    ]

-- Deleting a conversation of the chatbot succeeds, and leaves nothing of it: not the row, no message,
-- no ticket, no note about its visitor on this chatbot and no note that names it as its source.
pub delete_conversation_erases :
    (chatbot_id conversation_id : ℕ) (c : Conversation) (d : Desk)
    → get conversation_id d.conversations ≡ some c
    → c.chatbot_id ≡ chatbot_id
    → (d' : Desk) × (delete_conversation chatbot_id conversation_id d ≡ ok d')
      × (get conversation_id d'.conversations ≡ none)
      × (count (in_conversation conversation_id) d'.messages ≡ 0)
      × (count (λ t. t.conversation_id == conversation_id) d'.tickets ≡ 0)
      × (count (is_about chatbot_id c.external_session_id) d'.memories ≡ 0)
      × (count (is_from conversation_id) d'.memories ≡ 0)
unfolding delete_conversation delete_conversations forget_visitor_in
delete_conversation_erases chatbot_id conversation_id c d found mine =
    let same = get-key conversation_id d.conversations c found in
    let about = is_about chatbot_id c.external_session_id in
    let notes = filter (λ m. not (about m)) d.memories in
    let ids = c.id ∷ [] in
    (
      delete_conversations ids (forget_visitor_in chatbot_id c.external_session_id d).1,
      ground arith,
      ground (arith, get-drop_ids ids conversation_id d.conversations),
      count-filter_none (in_conversation conversation_id) (λ m. not (elem m.conversation_id ids))
          d.messages (λ m k. ground arith),
      count-filter_none (λ t. t.conversation_id == conversation_id)
          (λ t. not (elem t.conversation_id ids)) d.tickets (λ t k. ground arith),
      count-map about (forget_source ids) notes (λ m. refl)
          ∙ count-filter_none about (λ m. not (about m)) d.memories (λ m k. ground arith),
      rw same (count-forget_source conversation_id notes),
    )

-- A note that no longer names a conversation as its source.
abbrev pub unsourced : ℕ → MemoryEntry → MemoryEntry
unsourced id m = record m {
  source_conversation_id = if is_from id m then none else m.source_conversation_id;
}

forget_source-eq : (id : ℕ) (m : MemoryEntry) → forget_source (id ∷ []) m ≡ unsourced id m
forget_source-eq id m = elim (Option-cases m.source_conversation_id) [
  | inl e ↦ rw e refl
  | inr (s, e) ↦ elim (Bool-cases (s == id)) [
    | inl hit ↦ rw (e, hit) refl
    | inr miss ↦ rw (e, miss) refl
  ]
]

filter-forget_source :
    (id bot subject : ℕ) (ms : List MemoryEntry)
    → filter (is_about bot subject) (map (forget_source (id ∷ [])) ms)
      ≡ map (unsourced id) (filter (is_about bot subject) ms)
filter-forget_source id bot subject [] = refl
filter-forget_source id bot subject (m ∷ ms) = elim (Bool-cases (is_about bot subject m)) [
  | inl hit ↦ rw hit (
      ap (λ x. x ∷ filter (is_about bot subject) (map (forget_source (id ∷ [])) ms))
        (forget_source-eq id m)
      ∙ ap (λ rest. unsourced id m ∷ rest) (filter-forget_source id bot subject ms))
  | inr miss ↦ rw miss (filter-forget_source id bot subject ms)
]

-- Deleting one conversation leaves every other one with its messages and its tickets, and every note
-- that is about another visitor or for another chatbot as it was, in every field, but that a note
-- that named the deleted conversation as its source names none.
pub delete_conversation_spares :
    (chatbot_id conversation_id : ℕ) (d d' : Desk)
    → delete_conversation chatbot_id conversation_id d ≡ ok d'
    → ((id : ℕ)
        → id ≢ conversation_id
        → (get id d'.conversations ≡ get id d.conversations)
          × (filter (in_conversation id) d'.messages ≡ filter (in_conversation id) d.messages)
          × (filter (λ t. t.conversation_id == id) d'.tickets
              ≡ filter (λ t. t.conversation_id == id) d.tickets))
      × ((c : Conversation) (bot subject : ℕ)
          → get conversation_id d.conversations ≡ some c
          → (bot ≢ chatbot_id) ⊎ (subject ≢ c.external_session_id)
          → filter (is_about bot subject) d'.memories
            ≡ map (unsourced conversation_id) (filter (is_about bot subject) d.memories))
unfolding delete_conversations forget_visitor_in
delete_conversation_spares chatbot_id conversation_id d d' done =
    let (c, found, same, mine, after) =
      delete_conversation-eq-ok chatbot_id conversation_id d d' done in
    (
      λ id apart. (
        rw after (ground (arith, get-drop_ids (c.id ∷ []) id d.conversations)),
        rw after (
            filter-filter (in_conversation id) (λ m. not (elem m.conversation_id (c.id ∷ [])))
              d.messages (λ m k. ground arith)),
        rw after (
            filter-filter (λ t. t.conversation_id == id)
              (λ t. not (elem t.conversation_id (c.id ∷ []))) d.tickets (λ t k. ground arith)),
      ),
      λ c' bot subject found' other.
          let about = is_about chatbot_id c.external_session_id in
          let one_row : c' ≡ c = ground arith in
          let apart : (bot ≢ chatbot_id) ⊎ (subject ≢ c.external_session_id) =
            subst (λ x. (bot ≢ chatbot_id) ⊎ (subject ≢ x.external_session_id)) one_row other in
          rw after (
            filter-forget_source c.id bot subject (filter (λ m. not (about m)) d.memories)
            ∙ (ap (map (unsourced c.id)) (
                  filter-filter (is_about bot subject) (λ m. not (about m)) d.memories
                    (λ m k. elim apart [ inl b ↦ ground arith | inr s ↦ ground arith ]))
                ∙ ap (λ i. map (unsourced i) (filter (is_about bot subject) d.memories)) same)),
    )

-- A deletion fails only as not found, and then the conversation is missing or another chatbot's.
pub delete_conversation_refuses :
    (chatbot_id conversation_id : ℕ) (d : Desk) (e : DomainError)
    → delete_conversation chatbot_id conversation_id d ≡ err e
    → (e ≡ DomainError.not_found)
      × ((c : Conversation)
          → get conversation_id d.conversations ≡ some c
          → c.chatbot_id ≢ chatbot_id)
unfolding delete_conversation
delete_conversation_refuses chatbot_id conversation_id d e failed =
    elim (Option-cases (get conversation_id d.conversations)) [
      | inl missing ↦ ground arith
      | inr (c, found) ↦ ground arith
    ]

-- Forgetting the visitor of a ticket of the organisation, whose conversation is stored, succeeds whatever
-- the ticket's status: no note about them on the ticket's chatbot is left, the answer is how many there
-- were, and the notes about any other visitor or chatbot keep their number.
forget_ticket_visitor_erases :
    (org_id ticket_id : ℕ) (t : Ticket) (c : Conversation) (d : Desk)
    → load_ticket org_id ticket_id d.tickets ≡ ok t
    → get t.conversation_id d.conversations ≡ some c
    → (n : ℕ) × (d' : Desk) × (forget_ticket_visitor org_id ticket_id d ≡ ok (n, d'))
      × (n ≡ count (is_about t.chatbot_id c.external_session_id) d.memories)
      × (count (is_about t.chatbot_id c.external_session_id) d'.memories ≡ 0)
      × ((bot subject : ℕ)
          → (bot ≢ t.chatbot_id) ⊎ (subject ≢ c.external_session_id)
          → count (is_about bot subject) d'.memories ≡ count (is_about bot subject) d.memories)
unfolding forget_ticket_visitor
forget_ticket_visitor_erases org_id ticket_id t c d loaded found =
    let about = is_about t.chatbot_id c.external_session_id in
    (
      count about d.memories,
      record d { memories = filter (λ m. not (about m)) d.memories },
      rw loaded (rw found refl),
      refl,
      count-filter_none about (λ m. not (about m)) d.memories (λ m k. ground arith),
      λ bot subject other.
          count-filter_all (is_about bot subject) (λ m. not (about m)) d.memories
            (λ m k. elim other [ inl b ↦ ground arith | inr s ↦ ground arith ]),
    )
