-- ===== src/Chat/Written.antt =====
-- What a chat turn writes, and when.
use mathlib.Core.Path.{subst}
use nuvrag_platform.Base.{
  ℕ, zero, suc, ◌≤◌, ◌≡◌, refl, ◌⊎◌, none, some, List, [], ◌∷◌, arith, length, inl, inr, Bool-cases,
  Option-cases,
}
use nuvrag_platform.Base.Text.{Text, strip, is_empty}
use nuvrag_platform.Domain.Errors.{UsageKind, ok, err, Result-cases}
use nuvrag_platform.Usage.{consume, charge_of}
use nuvrag_platform.Desk.{Message, Desk, ensure_conversation, get_by_session}
use nuvrag_platform.Memory.Extract.{recent_history}
use nuvrag_platform.Chat.{
  ChatContext, Recollection, Backend, TurnIds, World, Run, finish, emit, events, outcome,
  left_after, retrieve, capped_turn, stream_tokens, concat, conclude, answer_turn, stream_answer,
}

-- A run that keeps the transcript until it has succeeded: its last event comes with the turn.
IsLate : List Message → Run → Type 0
IsLate ms (finish r w) = w.desk.messages ≡ ms
IsLate ms (emit e w rest) =
    ((w.desk.messages ≡ ms) × IsLate ms rest) ⊎ ((outcome rest).0 ≡ ok tt) × (events rest ≡ [])

IsLate-left_after :
    (ms : List Message) (run : Run)
    → IsLate ms run
    → (n : ℕ)
    → ((left_after n run).desk.messages ≡ ms)
      ⊎ ((outcome run).0 ≡ ok tt) × (length (events run) ≤ suc n)
unfolding IsLate
IsLate-left_after ms (finish r w) h n = inl h
IsLate-left_after ms (emit e w rest) (inl (same, h)) zero = inl same
IsLate-left_after ms (emit e w rest) (inl (same, h)) (suc n) =
    elim (IsLate-left_after ms rest h n) [
      | inl kept ↦ inl kept
      | inr (good, short) ↦ inr (good, omega arith)
    ]
IsLate-left_after ms (emit e w rest) (inr (good, last)) n =
    let one : length (events rest) ≡ 0 = rw last refl in inr (good, omega arith)

IsLate-stream_tokens :
    (ms : List Message) (ts : List Text) (w : World) (rest : Run)
    → w.desk.messages ≡ ms
    → IsLate ms rest
    → IsLate ms (stream_tokens ts w rest)
unfolding IsLate stream_tokens
IsLate-stream_tokens ms [] w rest same h = h
IsLate-stream_tokens ms (t ∷ ts) w rest same h =
    inl (same, IsLate-stream_tokens ms ts w rest same h)

conclude-IsLate :
    (context : ChatContext) (b : Backend) (ids : TurnIds) (session : ℕ) (question : Text)
    (recalled : Recollection) (deltas : List Text) (conversation_id : ℕ) (w : World)
    → IsLate w.desk.messages
        (conclude context b ids session question recalled deltas conversation_id w)
unfolding IsLate conclude
conclude-IsLate context b ids session question recalled deltas conversation_id w =
    elim (Bool-cases (is_empty (strip (concat deltas)))) [
      | inl silent ↦ rw silent refl
      | inr spoken ↦ rw spoken (inr (refl, refl))
    ]

ensure_conversation-messages :
    (now fresh_id org_id chatbot_id session : ℕ) (d : Desk)
    → (ensure_conversation now fresh_id org_id chatbot_id session d).1.messages ≡ d.messages
unfolding ensure_conversation
ensure_conversation-messages now fresh_id org_id chatbot_id session d =
    elim (Option-cases (get_by_session chatbot_id session d.conversations)) [
      | inl nobody ↦ ground arith
      | inr (c, e) ↦ ground arith
    ]

answer_turn-IsLate :
    (context : ChatContext) (b : Backend) (ids : TurnIds) (session : ℕ) (question : Text)
    (w : World)
    → IsLate w.desk.messages (answer_turn context b ids session question w)
unfolding IsLate answer_turn
answer_turn-IsLate context b ids session question w =
    elim (Result-cases (retrieve context b question session w.desk)) [
      | inr (e, failed) ↦ rw (failed, answer_turn) refl
      | inl (recalled, found) ↦
          let c =
            (ensure_conversation b.now ids.conversation context.org_id context.chatbot_id session
              w.desk).0 in
          let d1 =
            (ensure_conversation b.now ids.conversation context.org_id context.chatbot_id session
              w.desk).1 in
          let w1 : World = record w { desk = d1 } in
          let said =
            b.stream question recalled
              (recent_history c.id b.history_window_messages d1.messages) in
          let same =
            ensure_conversation-messages b.now ids.conversation context.org_id context.chatbot_id
              session w.desk in
          let end : IsLate w.desk.messages (elim said.failure [
            | some e ↦ finish (err e) w1
            | none ↦ conclude context b ids session question recalled said.deltas c.id w1
          ]) =
            elim (Option-cases said.failure) [
              | inr (e, broken) ↦ rw broken same
              | inl whole ↦ rw whole (
                  subst
                    (λ ms.
                      IsLate ms
                        (conclude context b ids session question recalled said.deltas c.id w1))
                    same
                    (conclude-IsLate context b ids session question recalled said.deltas c.id w1))
            ] in
          rw (found, answer_turn)
            (inl (refl, IsLate-stream_tokens w.desk.messages said.deltas w1 _ same end))
    ]

-- However a turn goes, and whenever the visitor leaves it, the transcript is as it was before the turn,
-- unless the turn succeeded and the visitor stayed for its last event: a turn that fails, or that is
-- left early, leaves no half of itself behind.
pub turn_all_or_nothing :
    (context : ChatContext) (b : Backend) (ids : TurnIds) (session : ℕ) (question : Text)
    (w : World) (n : ℕ)
    → let run = stream_answer context b ids session question w in
      ((left_after n run).desk.messages ≡ w.desk.messages)
      ⊎ ((outcome run).0 ≡ ok tt) × (length (events run) ≤ suc n)
unfolding IsLate stream_answer capped_turn
turn_all_or_nothing context b ids session question w n =
    let charge =
      charge_of b.today context.org_id context.chatbot_id UsageKind.retrieval 1
        context.retrieval_call_cap in
    let spend = consume b.fail_closed b.outage charge w.usage in
    let w0 : World = record w { usage = spend.1 } in
    let late : IsLate w.desk.messages (stream_answer context b ids session question w) =
      elim (Bool-cases spend.0.allowed) [
        | inr spent ↦ rw spent (inl (refl, inl (refl, inr (refl, refl))))
        | inl allowed ↦ elim (Result-cases b.chat_provider) [
          | inr (e, missing) ↦ rw allowed (rw missing refl)
          | inl (u, there) ↦
              rw allowed (rw there (answer_turn-IsLate context b ids session question w0))
        ]
      ] in
    IsLate-left_after w.desk.messages (stream_answer context b ids session question w) late n
