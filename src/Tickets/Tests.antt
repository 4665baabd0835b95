-- ===== src/Tickets/Tests.antt =====
-- The ticket services at a concrete desk.
use nuvrag_platform.Base.{ℕ, ◌≡◌, ◌≢◌, refl, true, false, none, some, [], ◌∷◌, arith, count}
use nuvrag_platform.Base.Text.{text, strip, is_space, is_empty}
use nuvrag_platform.Base.Rows.{get}
use nuvrag_platform.Domain.Enums.{UserRole, MessageRole, TicketStatus, TicketPriority, TicketSource}
use nuvrag_platform.Domain.Errors.{ok}
use nuvrag_platform.Identity.{User, user_row}
use nuvrag_platform.Desk.{
  Conversation, Message, Ticket, Desk, conversation_row, ticket_row, ensure_conversation,
  in_conversation,
}
use nuvrag_platform.Tickets.{
  TicketCreate, TicketUpdate, FreshIds, create_ticket, update_ticket, reply_to_ticket, load_ticket,
  assign, apply_status, add_visitor_turn, subject_from,
}
use nuvrag_platform.Tickets.Tenancy.{Request, handle, IsHidden, handle_isolation}
use nuvrag_platform.Tickets.History.{Reach, IsSound, history_keeps_desk}

abbrev ada : User
ada = record {
  id = 1;
  org_id = 9;
  email = text "ada@x.io";
  hashed_password = 0;
  full_name = none;
  role = UserRole.owner;
  is_active = true;
}

abbrev empty_desk : Desk
empty_desk = record {
  users = ada ∷ [];
  conversations = [];
  messages = [];
  tickets = [];
  memories = [];
}

abbrev form : TicketCreate
form = record {
  email = text " v@y.io ";
  name = none;
  message = some (text " help ");
  subject = none;
  session_id = 70;
  source = TicketSource.ai_escalation;
  escalation_reason = none;
}

abbrev fresh : FreshIds
fresh = record { conversation = 20; ticket = 30; message = 40 }

abbrev opened : Ticket
opened = record {
  id = 30;
  org_id = 9;
  chatbot_id = 5;
  conversation_id = 20;
  visitor_email = text "v@y.io";
  visitor_name = none;
  subject = some (text "help");
  status = TicketStatus.open_status;
  priority = TicketPriority.normal;
  source = TicketSource.ai_escalation;
  escalation_reason = none;
  assigned_to = none;
  resolved_at = none;
}

abbrev thread : Conversation
thread = record {
  id = 20;
  org_id = 9;
  chatbot_id = 5;
  external_session_id = 70;
  title = some (text "help");
  message_count = 1;
  updated_at = 100;
}

abbrev cry : Message
cry = record {
  id = 40;
  org_id = 9;
  conversation_id = 20;
  chatbot_id = 5;
  role = MessageRole.user;
  content = text "help";
  staff_user_id = none;
}

abbrev desk : Desk
desk = record empty_desk { conversations = thread ∷ []; messages = cry ∷ []; tickets = opened ∷ [] }

form_opens : create_ticket (λ t. t) 100 fresh 9 5 form empty_desk ≡ (opened, thread, desk)
unfolding create_ticket add_visitor_turn ensure_conversation subject_from strip is_space
form_opens = refl

abbrev claimed : Ticket
claimed = record opened { status = TicketStatus.pending; assigned_to = some 1 }

abbrev to_ada : TicketUpdate
to_ada = record { status = none; priority = none; assigned_to = some 1; unassign = false }

abbrev desk_claimed : Desk
desk_claimed = record desk { tickets = claimed ∷ [] }

ada_claims : update_ticket 110 9 30 to_ada desk ≡ ok (claimed, desk_claimed)
unfolding update_ticket load_ticket assign apply_status
ada_claims = refl

-- A request that unassigns and names an assignee at once leaves the ticket pending and nobody's.
unassigned_pending :
    update_ticket 110 9 30
      (record { status = none; priority = none; assigned_to = some 1; unassign = true })
      desk
    ≡ ok (
      record opened { status = TicketStatus.pending },
      record desk { tickets = record opened { status = TicketStatus.pending } ∷ [] },
    )
unfolding update_ticket load_ticket assign apply_status
unassigned_pending = refl

abbrev answer : Message
answer = record {
  id = 41;
  org_id = 9;
  conversation_id = 20;
  chatbot_id = 5;
  role = MessageRole.staff;
  content = text "hi";
  staff_user_id = some 1;
}

abbrev desk_answered : Desk
desk_answered = record desk {
  conversations = record thread { message_count = 2; updated_at = 120 } ∷ [];
  messages = cry ∷ answer ∷ [];
  tickets = claimed ∷ [];
}

ada_replies : reply_to_ticket 120 41 9 30 ada (text " hi ") desk ≡ ok (answer, desk_answered)
unfolding reply_to_ticket load_ticket strip is_space
ada_replies = refl

empty_counted :
    (id : ℕ) (c : Conversation)
    → get id empty_desk.conversations ≡ some c
    → c.message_count ≡ count (in_conversation id) empty_desk.messages
empty_counted id c e = cc

empty_wrapped :
    (id : ℕ) (t : Ticket)
    → get id empty_desk.tickets ≡ some t
    → get t.conversation_id empty_desk.conversations ≢ none
empty_wrapped id t e = λ n. cc

empty_desk-IsSound : IsSound empty_desk
empty_desk-IsSound = record {
  consistent = record {
    unique = tt;
    one_session = λ b s. omega arith;
    counted = empty_counted;
    no_orphan = λ id e. refl;
    wrapped = empty_wrapped;
  };
  stamped = tt;
}

form_handled : desk ≡ handle (λ t. t) 100 9 (Request.create 5 fresh form) empty_desk
unfolding handle create_ticket add_visitor_turn ensure_conversation subject_from strip is_space
form_handled = refl

history : Reach (λ t. t) empty_desk desk
history = Reach.next 100 9 (Request.create 5 fresh form) Reach.here (refl, refl) form_handled

history_keeps_desk_example : IsSound desk
history_keeps_desk_example = history_keeps_desk empty_desk-IsSound history

hidden : IsHidden 8 30 desk
hidden t e = ground arith

blank_not : is_empty (strip (text " hi ")) ≡ false
unfolding strip is_space
blank_not = refl

other_org : opened.org_id ≢ 8
other_org = omega arith

handle_isolation_example :
    get 30 (handle (λ t. t) 110 8 (Request.update 30 to_ada) desk).tickets ≡ some opened
handle_isolation_example =
    handle_isolation (λ t. t) 110 8 (Request.update 30 to_ada) desk 30 opened refl other_org
