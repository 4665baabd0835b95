-- ===== src/Tickets/Transcript.antt =====
-- The ticket services keep the transcript consistent.
use nuvrag_platform.Base.{
  ℕ, ◌+◌, ◌≡◌, refl, none, some, [], ◌∷◌, ◌++◌, arith, Option-cases, Bool-cases, inl, inr,
}
use nuvrag_platform.Base.Text.{Text, is_empty}
use nuvrag_platform.Base.Rows.{
  get, save, add, get-save_self, get-save_ne, get-key, get-add, get-add_ne,
}
use nuvrag_platform.Domain.Errors.{ok}
use nuvrag_platform.Identity.{User}
use nuvrag_platform.Desk.{
  Conversation, Message, Ticket, Desk, conversation_row, ticket_row, ensure_conversation,
}
use nuvrag_platform.Desk.Consistent.{
  IsConsistent, ensure_conversation-IsConsistent, ensure_conversation-stored, post-IsConsistent,
  tickets-IsConsistent,
}
use nuvrag_platform.Tickets.{
  TicketCreate, TicketUpdate, FreshIds, update_ticket, reply_to_ticket, create_ticket,
  add_visitor_turn, claim, stripped, new_ticket,
}
use nuvrag_platform.Tickets.Status.{load_ticket-eq-ok, update_ticket-keeps}
use nuvrag_platform.Tickets.Effects.{reply_to_ticket-eq-ok}

-- An update of a ticket keeps the tables consistent.
pub update_ticket-IsConsistent :
    (now org_id ticket_id : ℕ) (payload : TicketUpdate) (d : Desk) (t : Ticket) (d' : Desk)
    → update_ticket now org_id ticket_id payload d ≡ ok (t, d')
    → IsConsistent d
    → IsConsistent d'
update_ticket-IsConsistent now org_id ticket_id payload d t d' h c =
    let (old, found, same, _, wraps, saved) =
      update_ticket-keeps now org_id ticket_id payload d t d' h in
    let there : get t.id d.tickets ≡ some old = ground arith in
    rw saved (
      tickets-IsConsistent (save t d.tickets) d
        (λ id r e. ground (
          arith,
          c.wrapped id r,
          c.wrapped ticket_id old found,
          get-save_self t old d.tickets there,
          get-save_ne id t d.tickets,
        ))
        c)

-- A reply keeps the tables consistent: the conversation counts the message it gained.
pub reply_to_ticket-IsConsistent :
    (now message_id org_id ticket_id : ℕ) (actor : User) (content : Text) (d : Desk) (m : Message)
    (d' : Desk)
    → reply_to_ticket now message_id org_id ticket_id actor content d ≡ ok (m, d')
    → IsConsistent d
    → IsConsistent d'
reply_to_ticket-IsConsistent now message_id org_id ticket_id actor content d m d' h c =
    let (t, loaded, _, posted, saved) =
      reply_to_ticket-eq-ok now message_id org_id ticket_id actor content d m d' h in
    let (found, _) = load_ticket-eq-ok org_id ticket_id d.tickets t loaded in
    let there : get (claim actor.id t).id d.tickets ≡ some t =
      ground (arith, get-key ticket_id d.tickets t found) in
    elim (Option-cases (get t.conversation_id d.conversations)) [
      | inl missing ↦ absurd (c.wrapped ticket_id t found missing)
      | inr (b, e) ↦
          let b' : Conversation = record b {
            message_count = b.message_count + 1;
            updated_at = now;
          } in
          let own = get-key t.conversation_id d.conversations b e in
          let here : get b.id d.conversations ≡ some b = ground arith in
          let posted_here : m.conversation_id ≡ b.id = ground arith in
          let d1 : Desk = record d {
            conversations = save b' d.conversations;
            messages = d.messages ++ m ∷ [];
          } in
          let c1 : IsConsistent d1 =
            post-IsConsistent b b' (m ∷ []) d here refl refl refl (omega arith) (posted_here, tt)
              c in
          let whole : d' ≡ record d1 { tickets = save (claim actor.id t) d.tickets } =
            ground arith in
          rw whole (
            tickets-IsConsistent (save (claim actor.id t) d.tickets) d1
              (λ id r k. ground (
                arith,
                c1.wrapped id r,
                c1.wrapped ticket_id t found,
                get-save_self (claim actor.id t) t d.tickets there,
                get-save_ne id (claim actor.id t) d.tickets,
              ))
              c1)
    ]

-- A visitor's turn in a stored conversation keeps the tables consistent.
pub add_visitor_turn-IsConsistent :
    (now message_id org_id chatbot_id : ℕ) (b : Conversation) (body : Text) (d : Desk)
    → get b.id d.conversations ≡ some b
    → IsConsistent d
    → IsConsistent (add_visitor_turn now message_id org_id chatbot_id b body d).1
unfolding add_visitor_turn
add_visitor_turn-IsConsistent now message_id org_id chatbot_id b body d here c =
    let (b', d') = add_visitor_turn now message_id org_id chatbot_id b body d in
    post-IsConsistent b b' _ d here refl refl refl (omega arith) (refl, tt) c

-- Opening a ticket under fresh ids keeps the tables consistent, with or without a first message and
-- whether or not the session has a conversation already.
pub create_ticket-IsConsistent :
    (lower : Text → Text) (now : ℕ) (fresh : FreshIds) (org_id chatbot_id : ℕ)
    (payload : TicketCreate) (d : Desk)
    → get fresh.conversation d.conversations ≡ none
    → get fresh.ticket d.tickets ≡ none
    → IsConsistent d
    → IsConsistent (create_ticket lower now fresh org_id chatbot_id payload d).2
unfolding create_ticket
create_ticket-IsConsistent lower now fresh org_id chatbot_id payload d new_c new_t c =
    let (b, d1) =
      ensure_conversation now fresh.conversation org_id chatbot_id payload.session_id d in
    let c1 : IsConsistent d1 =
      ensure_conversation-IsConsistent now fresh.conversation org_id chatbot_id payload.session_id d
        new_c c in
    let (here, _, _, _, same_tickets, _) =
      ensure_conversation-stored now fresh.conversation org_id chatbot_id payload.session_id d new_c
        c in
    let t = new_ticket lower fresh.ticket org_id chatbot_id b payload in
    let d2 : Desk = record d1 { tickets = add t d1.tickets } in
    let absent : get fresh.ticket d1.tickets ≡ none = ground arith in
    let c2 : IsConsistent d2 =
      tickets-IsConsistent (add t d1.tickets) d1
        (λ id r k. ground (
          arith,
          c1.wrapped id r,
          get-add fresh.ticket t d1.tickets absent,
          get-add_ne id t d1.tickets,
        ))
        c1 in
    elim (Bool-cases (is_empty (stripped payload.message))) [
      | inl silent ↦ rw silent c2
      | inr speaks ↦ rw speaks (
          add_visitor_turn-IsConsistent now fresh.message org_id chatbot_id b
            (stripped payload.message) d2 here c2)
    ]
