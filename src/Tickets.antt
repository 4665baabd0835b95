-- ===== src/Tickets.antt =====
-- `app/services/ticket.py`: each service as a function on the shared tables. A service that raises
-- rolls its transaction back, so it returns an error and no tables.
pub mod Status
pub mod Effects
pub mod Transcript
pub mod Tenancy
pub mod History
pub mod Tests
use nuvrag_platform.Base.{
  ℕ, ◌+◌, ◌≡◌, Bool, true, false, ◌&&◌, ◌||◌, not, Option, none, some, List, [], ◌∷◌, ◌++◌, ◌==◌,
  length, take, filter, count, is_some, is_none, if◌then◌else◌,
}
use nuvrag_platform.Base.Text.{Text, text, strip, is_empty}
use nuvrag_platform.Base.Rows.{get, save, add}
use nuvrag_platform.Domain.Enums.{
  MessageRole, TicketStatus, TicketPriority, TicketSource, is_open, is_resolved, is_terminal,
}
use nuvrag_platform.Domain.Errors.{DomainError, Result, ok, err, raise_if, or_raise, ◌>>=◌, ◌>>◌}
use nuvrag_platform.Identity.{User, user_row}
use nuvrag_platform.Desk.{
  Conversation, Message, Ticket, MemoryEntry, Desk, conversation_row, ticket_row, memory_row,
  ensure_conversation, get_by_session,
}

pub record TicketCreate : Type 0 where
  pub email : Text
  pub name : Option Text
  pub message : Option Text
  pub subject : Option Text
  pub session_id : ℕ
  pub source : TicketSource
  pub escalation_reason : Option Text

pub record TicketUpdate : Type 0 where
  pub status : Option TicketStatus
  pub priority : Option TicketPriority
  pub assigned_to : Option ℕ
  pub unassign : Bool

-- The ids that a service gives to the rows it adds.
pub record FreshIds : Type 0 where
  pub conversation : ℕ
  pub ticket : ℕ
  pub message : ℕ

-- `(x or "").strip()`
abbrev pub stripped : Option Text → Text
stripped none = strip []
stripped (some t) = strip t

-- `t or None`
abbrev pub or_none : Text → Option Text
or_none [] = none
or_none (c ∷ t) = some (c ∷ t)

abbrev is_escalation : TicketSource → Bool
is_escalation TicketSource.ai_escalation = true
is_escalation TicketSource.visitor_contact_form = false

abbrev pub subject_max_length : ℕ
subject_max_length = 300

-- `_subject_from`
unfoldable pub subject_from : Conversation → TicketCreate → Option Text
subject_from conversation payload =
    let body = stripped payload.message in
    let fallback =
      if is_escalation payload.source then some (text "Escalated from chat") else none in
    if not (is_empty body) then some (take subject_max_length body) else elim conversation.title [
      | none ↦ fallback
      | some t ↦ (if is_empty t then fallback else some (take subject_max_length t))
    ]

-- `x or y`
abbrev pub or_else : Option Text → Option Text → Option Text
or_else none y = y
or_else (some x) y = some x

abbrev pub first_title : Option Text → Text → Option Text
first_title none body = some (take subject_max_length body)
first_title (some t) body = some t

-- The visitor's words become a turn of the transcript.
unfoldable pub add_visitor_turn : ℕ → ℕ → ℕ → ℕ → Conversation → Text → Desk → Conversation × Desk
add_visitor_turn now message_id org_id chatbot_id conversation body d =
    let message : Message = record {
      id = message_id;
      org_id = org_id;
      conversation_id = conversation.id;
      chatbot_id = chatbot_id;
      role = MessageRole.user;
      content = body;
      staff_user_id = none;
    } in
    let counted : Conversation = record conversation {
      title = first_title conversation.title body;
      message_count = conversation.message_count + 1;
      updated_at = now;
    } in
    (
      counted,
      record d {
        conversations = save counted d.conversations;
        messages = d.messages ++ message ∷ [];
      },
    )

-- The row that a contact form makes; `lower` is `str.lower`.
abbrev pub new_ticket : (Text → Text) → ℕ → ℕ → ℕ → Conversation → TicketCreate → Ticket
new_ticket lower fresh_id org_id chatbot_id conversation payload = record {
  id = fresh_id;
  org_id = org_id;
  chatbot_id = chatbot_id;
  conversation_id = conversation.id;
  visitor_email = lower (strip payload.email);
  visitor_name = or_none (stripped payload.name);
  subject = or_else (or_none (stripped payload.subject)) (subject_from conversation payload);
  status = TicketStatus.open_status;
  priority = TicketPriority.normal;
  source = payload.source;
  escalation_reason = payload.escalation_reason;
  assigned_to = none;
  resolved_at = none;
}

-- `create_ticket`
unfoldable pub create_ticket :
    (Text → Text) → ℕ → FreshIds → ℕ → ℕ → TicketCreate → Desk → Ticket × Conversation × Desk
create_ticket lower now fresh org_id chatbot_id payload d =
    let (conversation, d1) =
      ensure_conversation now fresh.conversation org_id chatbot_id payload.session_id d in
    let ticket = new_ticket lower fresh.ticket org_id chatbot_id conversation payload in
    let d2 : Desk = record d1 { tickets = add ticket d1.tickets } in
    let body = stripped payload.message in
    if is_empty body
    then (ticket, conversation, d2)
    else let (c, d3) = add_visitor_turn now fresh.message org_id chatbot_id conversation body d2 in
      (ticket, c, d3)

-- `_load`
unfoldable pub load_ticket : ℕ → ℕ → List Ticket → Result Ticket
load_ticket org_id ticket_id tickets = do
  ticket ← or_raise (get ticket_id tickets) DomainError.not_found
  raise_if (not (ticket.org_id == org_id)) DomainError.not_found
  ok ticket

-- `_assign`
unfoldable pub assign : ℕ → List User → Ticket → ℕ → Result Ticket
assign org_id users ticket user_id = do
  member ← or_raise (get user_id users) DomainError.validation
  raise_if (not (member.org_id == org_id)) DomainError.validation
  ok (record ticket { assigned_to = some member.id })

-- `_apply_status`
unfoldable pub apply_status : ℕ → Ticket → TicketStatus → Ticket
apply_status now ticket status =
    let stamp =
      if is_resolved status
      then some now
      else if is_terminal ticket.status
      then none
      else ticket.resolved_at in
    record ticket { status = status; resolved_at = stamp }

abbrev pub change_assignee : ℕ → List User → Ticket → TicketUpdate → Result Ticket
change_assignee org_id users ticket payload =
    if payload.unassign
    then ok (record ticket { assigned_to = none })
    else elim payload.assigned_to [
      | none ↦ ok ticket
      | some user_id ↦ assign org_id users ticket user_id
    ]

abbrev pub change_priority : Ticket → Option TicketPriority → Ticket
change_priority ticket none = ticket
change_priority ticket (some p) = record ticket { priority = p }

-- Claiming an open ticket makes it pending, unless the status is named.
abbrev pub change_status : ℕ → Ticket → TicketUpdate → Ticket
change_status now ticket payload = elim payload.status [
  | some status ↦ apply_status now ticket status
  | none ↦
      (if is_some payload.assigned_to && is_open ticket.status
        then record ticket { status = TicketStatus.pending }
        else ticket)
]

-- `update_ticket`
unfoldable pub update_ticket : ℕ → ℕ → ℕ → TicketUpdate → Desk → Result (Ticket × Desk)
update_ticket now org_id ticket_id payload d = do
  raise_if
      (is_none payload.status
        && (is_none payload.priority && (is_none payload.assigned_to && not payload.unassign)))
      DomainError.validation
  ticket ← load_ticket org_id ticket_id d.tickets
  assigned ← change_assignee org_id d.users ticket payload
  let updated = change_status now (change_priority assigned payload.priority) payload
  ok (updated, record d { tickets = save updated d.tickets })

-- `assign_ticket`
abbrev pub assign_ticket : ℕ → ℕ → ℕ → ℕ → Desk → Result (Ticket × Desk)
assign_ticket now org_id ticket_id user_id =
    update_ticket now org_id ticket_id
      (record { status = none; priority = none; assigned_to = some user_id; unassign = false })

-- `update_ticket_status`
abbrev pub update_ticket_status : ℕ → ℕ → ℕ → TicketStatus → Desk → Result (Ticket × Desk)
update_ticket_status now org_id ticket_id status =
    update_ticket now org_id ticket_id
      (record { status = some status; priority = none; assigned_to = none; unassign = false })

-- A reply is counted by the conversation that the ticket wraps.
abbrev pub count_reply : ℕ → Ticket → List Conversation → List Conversation
count_reply now ticket conversations = elim (get ticket.conversation_id conversations) [
  | none ↦ conversations
  | some c ↦ save (record c { message_count = c.message_count + 1; updated_at = now }) conversations
]

-- A reply claims the ticket: an open one becomes pending, an unassigned one the actor's.
abbrev pub claim : ℕ → Ticket → Ticket
claim actor_id ticket = record ticket {
  status = if is_open ticket.status then TicketStatus.pending else ticket.status;
  assigned_to = elim ticket.assigned_to [ none ↦ some actor_id | some u ↦ some u ];
}

-- `reply_to_ticket`
unfoldable pub reply_to_ticket : ℕ → ℕ → ℕ → ℕ → User → Text → Desk → Result (Message × Desk)
reply_to_ticket now message_id org_id ticket_id actor content d = do
  let body = strip content
  raise_if (is_empty body) DomainError.validation
  ticket ← load_ticket org_id ticket_id d.tickets
  let message : Message = record {
    id = message_id;
    org_id = org_id;
    conversation_id = ticket.conversation_id;
    chatbot_id = ticket.chatbot_id;
    role = MessageRole.staff;
    content = body;
    staff_user_id = some actor.id;
  }
  ok (
    message,
    record d {
      conversations = count_reply now ticket d.conversations;
      messages = d.messages ++ message ∷ [];
      tickets = save (claim actor.id ticket) d.tickets;
    },
  )
