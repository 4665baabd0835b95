-- ===== src/Chat/Turn.antt =====
-- What holds at every moment of a chat turn, for a consumer who may leave at any event.
use nuvrag_platform.Base.{
  ℕ, zero, suc, ◌≡◌, refl, ◌⊎◌, none, some, List, [], ◌∷◌, ◌++◌, arith, inl, inr, Bool-cases,
  Option-cases, find-append_none,
}
use nuvrag_platform.Base.Text.{Text, strip, is_empty}
use nuvrag_platform.Base.Rows.{get, save, get_of_find}
use nuvrag_platform.Domain.Errors.{UsageKind, err, Result-cases}
use nuvrag_platform.Usage.{consume, charge_of}
use nuvrag_platform.Desk.{
  Conversation, MemoryEntry, Desk, conversation_row, ensure_conversation, get_by_session,
  is_session, new_conversation,
}
use nuvrag_platform.Desk.Consistent.{
  IsConsistent, ensure_conversation-IsConsistent, ensure_conversation-stored, post-IsConsistent,
}
use nuvrag_platform.Memory.{touch}
use nuvrag_platform.Memory.Extract.{recent_history}
use nuvrag_platform.Chat.{
  ChatContext, Recollection, Backend, TurnIds, World, Run, finish, emit, left_after, retrieve,
  turn_messages, grown, persist_turn, capped_turn, stream_tokens, concat, conclude, answer_turn,
  stream_answer,
}

-- The notes are no part of what is kept consistent.
memories-IsConsistent :
    (rows : List MemoryEntry) (d : Desk)
    → IsConsistent d
    → IsConsistent (record d { memories = rows })
memories-IsConsistent rows d h = record {
  unique = h.unique;
  one_session = h.one_session;
  counted = h.counted;
  no_orphan = h.no_orphan;
  wrapped = h.wrapped;
}

-- A new conversation's id is unused, or the session has its conversation already.
abbrev pub IsReady : ChatContext → TurnIds → ℕ → Desk → Type 0
IsReady context ids session d =
    (get ids.conversation d.conversations ≡ none)
    ⊎ ((c : Conversation) × (get_by_session context.chatbot_id session d.conversations ≡ some c))

ensure-IsReady :
    (context : ChatContext) (now : ℕ) (ids : TurnIds) (session : ℕ) (d : Desk)
    → IsReady context ids session
        (ensure_conversation now ids.conversation context.org_id context.chatbot_id session d).1
unfolding ensure_conversation
ensure-IsReady context now ids session d =
    elim (Option-cases (get_by_session context.chatbot_id session d.conversations)) [
      | inr (c, e) ↦ inr (c, ground arith)
      | inl nobody ↦
          let c = new_conversation now ids.conversation context.org_id context.chatbot_id session in
          inr (
            c,
            ground (
              arith,
              find-append_none (is_session context.chatbot_id session) d.conversations (c ∷ [])
                  nobody,
            ),
          )
    ]

-- The conversation of a session is there and consistent once it is ensured.
ensured :
    (context : ChatContext) (now : ℕ) (ids : TurnIds) (session : ℕ) (d : Desk)
    → IsReady context ids session d
    → IsConsistent d
    → let (c, d') =
        ensure_conversation now ids.conversation context.org_id context.chatbot_id session d in
      (get c.id d'.conversations ≡ some c) × IsConsistent d'
unfolding ensure_conversation
ensured context now ids session d ready h = elim ready [
  | inl fresh ↦ (
    (ensure_conversation-stored now ids.conversation context.org_id context.chatbot_id session d
        fresh h).0,
    ensure_conversation-IsConsistent now ids.conversation context.org_id context.chatbot_id session
        d fresh h,
  )
  | inr (c, e) ↦
      rw (e, ensure_conversation)
        (get_of_find (is_session context.chatbot_id session) d.conversations c h.unique e, h)
]

persist_turn-IsConsistent :
    (context : ChatContext) (now : ℕ) (ids : TurnIds) (session : ℕ) (question answer : Text)
    (ms : List MemoryEntry) (d : Desk)
    → IsReady context ids session d
    → IsConsistent d
    → IsConsistent (persist_turn context now ids session question answer ms d).desk
unfolding persist_turn
persist_turn-IsConsistent context now ids session question answer ms d ready h =
    let c =
      (ensure_conversation now ids.conversation context.org_id context.chatbot_id session d).0 in
    let d1 =
      (ensure_conversation now ids.conversation context.org_id context.chatbot_id session d).1 in
    let (here, sound) = ensured context now ids session d ready h in
    memories-IsConsistent (touch now ms d1.memories).1
      (record d1 {
        conversations = save (grown now c question) d1.conversations;
        messages = d1.messages ++ turn_messages context ids c.id question answer;
      })
      (post-IsConsistent c (grown now c question) (turn_messages context ids c.id question answer)
        d1 here refl refl refl refl (refl, (refl, tt)) sound)

-- Every moment of a run.
Always : (World → Type 0) → Run → Type 0
Always P (finish r w) = P w
Always P (emit e w rest) = P w × Always P rest

Always-left_after : (P : World → Type 0) (run : Run) → Always P run → (n : ℕ) → P (left_after n run)
unfolding Always
Always-left_after P (finish r w) h n = h
Always-left_after P (emit e w rest) h zero = h.0
Always-left_after P (emit e w rest) h (suc n) = Always-left_after P rest h.1 n

Always-stream_tokens :
    (P : World → Type 0) (ts : List Text) (w : World) (rest : Run)
    → P w
    → Always P rest
    → Always P (stream_tokens ts w rest)
unfolding Always stream_tokens
Always-stream_tokens P [] w rest h k = k
Always-stream_tokens P (t ∷ ts) w rest h k = (h, Always-stream_tokens P ts w rest h k)

abbrev IsSound : World → Type 0
IsSound w = IsConsistent w.desk

conclude-IsSound :
    (context : ChatContext) (b : Backend) (ids : TurnIds) (session : ℕ) (question : Text)
    (recalled : Recollection) (deltas : List Text) (conversation_id : ℕ) (w : World)
    → IsReady context ids session w.desk
    → IsConsistent w.desk
    → Always IsSound (conclude context b ids session question recalled deltas conversation_id w)
unfolding Always conclude
conclude-IsSound context b ids session question recalled deltas conversation_id w ready h =
    let after =
      persist_turn-IsConsistent context b.now ids session question (strip (concat deltas))
        recalled.memories w.desk ready h in
    elim (Bool-cases (is_empty (strip (concat deltas)))) [
      | inl silent ↦ rw silent h
      | inr spoken ↦ rw spoken (after, after)
    ]

answer_turn-IsSound :
    (context : ChatContext) (b : Backend) (ids : TurnIds) (session : ℕ) (question : Text)
    (w : World)
    → IsReady context ids session w.desk
    → IsConsistent w.desk
    → Always IsSound (answer_turn context b ids session question w)
unfolding Always answer_turn
answer_turn-IsSound context b ids session question w ready h =
    elim (Result-cases (retrieve context b question session w.desk)) [
      | inr (e, failed) ↦ rw (failed, answer_turn) h
      | inl (recalled, found) ↦
          let c =
            (ensure_conversation b.now ids.conversation context.org_id context.chatbot_id session
              w.desk).0 in
          let d1 =
            (ensure_conversation b.now ids.conversation context.org_id context.chatbot_id session
              w.desk).1 in
          let w1 : World = record w { desk = d1 } in
          let said =
            b.stream question recalled
              (recent_history c.id b.history_window_messages d1.messages) in
          let (_, sound) = ensured context b.now ids session w.desk ready h in
          let again = ensure-IsReady context b.now ids session w.desk in
          let end : Always IsSound (elim said.failure [
            | some e ↦ finish (err e) w1
            | none ↦ conclude context b ids session question recalled said.deltas c.id w1
          ]) =
            elim (Option-cases said.failure) [
              | inr (e, broken) ↦ rw broken sound
              | inl whole ↦ rw whole (
                  conclude-IsSound context b ids session question recalled said.deltas c.id w1 again
                    sound)
            ] in
          rw (found, answer_turn) (h, Always-stream_tokens IsSound said.deltas w1 _ sound end)
    ]

stream_answer-IsSound :
    (context : ChatContext) (b : Backend) (ids : TurnIds) (session : ℕ) (question : Text)
    (w : World)
    → IsReady context ids session w.desk
    → IsConsistent w.desk
    → Always IsSound (stream_answer context b ids session question w)
unfolding Always stream_answer capped_turn
stream_answer-IsSound context b ids session question w ready h =
    let charge =
      charge_of b.today context.org_id context.chatbot_id UsageKind.retrieval 1
        context.retrieval_call_cap in
    let spend = consume b.fail_closed b.outage charge w.usage in
    let w0 : World = record w { usage = spend.1 } in
    elim (Bool-cases spend.0.allowed) [
      | inr spent ↦
          let after =
            persist_turn-IsConsistent context b.now ids session question context.usage_cap_message
              [] w.desk ready h in
          rw spent (h, (h, (after, after)))
      | inl allowed ↦ elim (Result-cases b.chat_provider) [
        | inr (e, missing) ↦ rw allowed (rw missing h)
        | inl (u, there) ↦
            rw allowed (rw there (answer_turn-IsSound context b ids session question w0 ready h))
      ]
    ]

-- Whenever the visitor leaves a turn, and however the providers answer, the tables are consistent: each
-- conversation counts its messages, a session has one conversation, and no message or ticket is without
-- its conversation. The turn starts from consistent tables, and the id for a new conversation is unused.
pub turn_keeps_desk :
    (context : ChatContext) (b : Backend) (ids : TurnIds) (session : ℕ) (question : Text)
    (w : World) (n : ℕ)
    → get ids.conversation w.desk.conversations ≡ none
    → IsConsistent w.desk
    → IsConsistent (left_after n (stream_answer context b ids session question w)).desk
turn_keeps_desk context b ids session question w n fresh h =
    Always-left_after IsSound (stream_answer context b ids session question w)
      (stream_answer-IsSound context b ids session question w (inl fresh) h) n
