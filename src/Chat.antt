-- ===== src/Chat.antt =====
-- One chat turn, `stream_answer` of `app/services/rag.py`, as the run of an asynchronous generator: the
-- events that it yields, each with the tables at that moment. The consumer of
-- `app/api/public/chat.py` may leave after any event. The providers, the document search and the
-- queue are arguments or are recorded; latency and citations' contents are not modelled.
pub mod Turn
pub mod Written
pub mod Tests
use nuvrag_platform.Base.{
  ℕ, zero, suc, ◌+◌, ◌==◌, Bool, true, false, ◌&&◌, Option, none, some, List, [], ◌∷◌, ◌++◌,
  if◌then◌else◌,
}
use nuvrag_platform.Base.Text.{Text, strip, is_empty}
use nuvrag_platform.Base.Rows.{save}
use nuvrag_platform.Domain.Enums.{MessageRole}
use nuvrag_platform.Domain.Errors.{UsageKind, DomainError, Result, ok, err}
use nuvrag_platform.Usage.{Date, UsagePeriod, Outage, consume, charge_of}
use nuvrag_platform.Desk.{
  Conversation, Message, MemoryEntry, Desk, conversation_row, ensure_conversation,
}
use nuvrag_platform.Tickets.{first_title}
use nuvrag_platform.Memory.{
  MemorySettings, Vectors, CalibrationState, recall, touch, exists_for_conversation,
}
use nuvrag_platform.Memory.Extract.{recent_history}

pub record ChatContext : Type 0 where
  pub org_id : ℕ
  pub chatbot_id : ℕ
  pub retrieval_call_cap : Option ℕ
  pub usage_cap_message : Text
  pub calibration : CalibrationState

-- What a turn found to work from; a passage of a document is its id.
pub record Recollection : Type 0 where
  pub matches : List ℕ
  pub memories : List MemoryEntry

-- The whole answer of a model: its deltas, and the error that ended them, if one did.
pub record Completion : Type 0 where
  pub deltas : List Text
  pub failure : Option DomainError

-- What a turn is given by its surroundings. `embedder` is the width of the provider, or why there is
-- none; `search_documents` is the search of the chunks, at a width.
pub record Backend : Type 0 where
  pub now : ℕ
  pub today : Date
  pub fail_closed : Bool
  pub outage : Outage
  pub memory : MemorySettings
  pub vectors : Vectors
  pub history_window_messages : ℕ
  pub chat_provider : Result (Unit {0})
  pub embedder : Result (Option ℕ)
  pub embed : Text → Result (List ℕ)
  pub search_documents : List ℕ → ℕ → List ℕ
  pub measured : Option ℕ
  pub stream : Text → Recollection → List Message → Completion

-- The rows a turn may add.
pub record TurnIds : Type 0 where
  pub conversation : ℕ
  pub question : ℕ
  pub answer : ℕ

pub record World : Type 0 where
  pub usage : List UsagePeriod
  pub desk : Desk
  -- The conversations that are queued for extraction.
  pub queue : List ℕ

pub data Event : Type 0 where
  sources : List ℕ → Event
  token : Text → Event
  done : (conversation_id message_id : ℕ) (can_escalate : Bool) → Event

-- A generator: it has ended, or it has yielded an event and will go on.
pub data Run : Type 0 where
  finish : Result (Unit {0}) → World → Run
  emit : Event → World → Run → Run

-- The events that reach a consumer who stays.
abbrev pub events : Run → List Event
events (finish r w) = []
events (emit e w rest) = e ∷ events rest

-- How the generator ends, and the tables then.
abbrev pub outcome : Run → Result (Unit {0}) × World
outcome (finish r w) = (r, w)
outcome (emit e w rest) = outcome rest

-- The tables for a consumer who leaves at the event after `n` others.
abbrev pub left_after : ℕ → Run → World
left_after n (finish r w) = w
left_after zero (emit e w rest) = w
left_after (suc n) (emit e w rest) = left_after n rest

-- `retrieve`
unfoldable pub retrieve : ChatContext → Backend → Text → ℕ → Desk → Result Recollection
unfolding recall
retrieve context b question session d = elim b.embedder [
  | err e ↦ err e
  | ok width ↦ elim width [
    | none ↦ ok (record { matches = []; memories = [] })
    | some dimension ↦ elim (b.embed question) [
      | err e ↦ err e
      | ok vector ↦ ok (record {
        matches = b.search_documents vector dimension;
        memories =
            recall b.memory b.vectors context.chatbot_id session vector dimension
              context.calibration b.measured d;
      })
    ]
  ]
]

-- What `_persist_turn` returns, with the tables.
pub record PersistedTurn : Type 0 where
  pub conversation_id : ℕ
  pub message_id : ℕ
  pub subject_is_durable : Bool
  pub desk : Desk

abbrev pub turn_messages : ChatContext → TurnIds → ℕ → Text → Text → List Message
turn_messages context ids conversation_id question answer =
    record {
      id = ids.question;
      org_id = context.org_id;
      conversation_id = conversation_id;
      chatbot_id = context.chatbot_id;
      role = MessageRole.user;
      content = question;
      staff_user_id = none;
    }
    ∷ record {
      id = ids.answer;
      org_id = context.org_id;
      conversation_id = conversation_id;
      chatbot_id = context.chatbot_id;
      role = MessageRole.assistant;
      content = answer;
      staff_user_id = none;
    }
    ∷ []

abbrev pub grown : ℕ → Conversation → Text → Conversation
grown now c question = record c {
  message_count = c.message_count + 2;
  title = first_title c.title question;
  updated_at = now;
}

-- `_persist_turn`
unfoldable pub persist_turn :
    ChatContext → ℕ → TurnIds → ℕ → Text → Text → List MemoryEntry → Desk → PersistedTurn
unfolding touch
persist_turn context now ids session question answer memories d =
    let (c, d1) =
      ensure_conversation now ids.conversation context.org_id context.chatbot_id session d in
    let d2 : Desk = record d1 {
      conversations = save (grown now c question) d1.conversations;
      messages = d1.messages ++ turn_messages context ids c.id question answer;
      memories = (touch now memories d1.memories).1;
    } in
    record {
      conversation_id = c.id;
      message_id = ids.answer;
      subject_is_durable = exists_for_conversation c.id d2.tickets;
      desk = d2;
    }

-- `_capped_turn`
unfoldable pub capped_turn : ChatContext → ℕ → TurnIds → ℕ → Text → World → Run
unfolding persist_turn
capped_turn context now ids session question w =
    let turn = persist_turn context now ids session question context.usage_cap_message [] w.desk in
    let w' : World = record w { desk = turn.desk } in
    emit (Event.sources []) w (
      emit (Event.token context.usage_cap_message) w
        (emit (Event.done turn.conversation_id turn.message_id true) w' (finish (ok tt) w')))

-- `async for delta in chat.stream(messages)`
unfoldable pub stream_tokens : List Text → World → Run → Run
stream_tokens [] w rest = rest
stream_tokens (t ∷ ts) w rest = emit (Event.token t) w (stream_tokens ts w rest)

-- `"".join(parts)`
abbrev pub concat : List Text → Text
concat [] = []
concat (t ∷ ts) = t ++ concat ts

abbrev pub no_match : List ℕ → Bool
no_match [] = true
no_match (_ ∷ _) = false

-- After the last delta: the answer is tested, written, queued for extraction and reported.
unfoldable pub conclude :
    ChatContext → Backend → TurnIds → ℕ → Text → Recollection → List Text → ℕ → World → Run
unfolding persist_turn strip
conclude context b ids session question recalled deltas conversation_id w =
    let answer = strip (concat deltas) in
    let turn = persist_turn context b.now ids session question answer recalled.memories w.desk in
    let w' : World = record w {
      desk = turn.desk;
      queue =
          if b.memory.enabled && turn.subject_is_durable
          then w.queue ++ turn.conversation_id ∷ []
          else w.queue;
    } in
    if is_empty answer
    then finish (err DomainError.upstream_service) w
    else emit (Event.done conversation_id turn.message_id (no_match recalled.matches)) w'
        (finish (ok tt) w')

-- The turn of a chatbot that has allowance left, from the retrieval on.
unfoldable pub answer_turn : ChatContext → Backend → TurnIds → ℕ → Text → World → Run
unfolding retrieve stream_tokens conclude
answer_turn context b ids session question w = elim (retrieve context b question session w.desk) [
  | err e ↦ finish (err e) w
  | ok recalled ↦
      let (c, d1) =
        ensure_conversation b.now ids.conversation context.org_id context.chatbot_id session
          w.desk in
      let w1 : World = record w { desk = d1 } in
      let said =
        b.stream question recalled (recent_history c.id b.history_window_messages d1.messages) in
      emit (Event.sources recalled.matches) w (
        stream_tokens said.deltas w1 (elim said.failure [
          | some e ↦ finish (err e) w1
          | none ↦ conclude context b ids session question recalled said.deltas c.id w1
        ]))
]

-- `stream_answer`
unfoldable pub stream_answer : ChatContext → Backend → TurnIds → ℕ → Text → World → Run
unfolding capped_turn answer_turn consume
stream_answer context b ids session question w =
    let charge =
      charge_of b.today context.org_id context.chatbot_id UsageKind.retrieval 1
        context.retrieval_call_cap in
    let (spend, usage) = consume b.fail_closed b.outage charge w.usage in
    let w0 : World = record w { usage = usage } in
    if spend.allowed
    then elim b.chat_provider [
      | err e ↦ finish (err e) w0
      | ok _ ↦ answer_turn context b ids session question w0
    ]
    else capped_turn context b.now ids session question w0
