-- ===== src/Tickets/Effects.antt =====
-- What an update and a reply do to the ticket they are about.
use nuvrag_platform.Base.{
  ℕ, ◌≡◌, refl, true, false, none, some, [], ◌∷◌, ◌++◌, arith, ◌==◌, All, All-append, All-find,
  is_none, if◌then◌else◌, Option-cases, inl, inr,
}
use nuvrag_platform.Base.Text.{Text, strip, is_empty}
use nuvrag_platform.Base.Rows.{get, save, add, All-save, get-save_self, get-key}
use nuvrag_platform.Domain.Enums.{TicketStatus, MessageRole, is_open}
use nuvrag_platform.Domain.Errors.{ok}
use nuvrag_platform.Identity.{User, user_row}
use nuvrag_platform.Desk.{Message, Ticket, Desk, ticket_row, ensure_conversation}
use nuvrag_platform.Tickets.{
  TicketCreate, TicketUpdate, FreshIds, load_ticket, assign, apply_status, update_ticket,
  reply_to_ticket, create_ticket, add_visitor_turn, claim, count_reply,
}
use nuvrag_platform.Tickets.Status.{IsStamped, load_ticket-eq-ok, update_ticket-eq-ok}

-- What a successful reply has gone through.
pub reply_to_ticket-eq-ok :
    (now message_id org_id ticket_id : ℕ) (actor : User) (content : Text) (d : Desk) (m : Message)
    (d' : Desk)
    → reply_to_ticket now message_id org_id ticket_id actor content d ≡ ok (m, d')
    → (t : Ticket) × (load_ticket org_id ticket_id d.tickets ≡ ok t)
      × (is_empty (strip content) ≡ false)
      × (m ≡ record {
        id = message_id;
        org_id = org_id;
        conversation_id = t.conversation_id;
        chatbot_id = t.chatbot_id;
        role = MessageRole.staff;
        content = strip content;
        staff_user_id = some actor.id;
      })
      × (d' ≡ record d {
        conversations = count_reply now t d.conversations;
        messages = d.messages ++ m ∷ [];
        tickets = save (claim actor.id t) d.tickets;
      })
unfolding reply_to_ticket
reply_to_ticket-eq-ok now message_id org_id ticket_id actor content d m d' h = ground arith

-- A successful update that names an assignee, and does not unassign, assigns a member of the ticket's
-- own organisation; unassigning wins over a named assignee; and with neither the assignee stays.
update_ticket_assignee :
    (now org_id ticket_id : ℕ) (payload : TicketUpdate) (d : Desk) (t : Ticket) (d' : Desk)
    → update_ticket now org_id ticket_id payload d ≡ ok (t, d')
    → (payload.unassign ≡ true → t.assigned_to ≡ none)
      × ((user_id : ℕ)
          → payload.unassign ≡ false
          → payload.assigned_to ≡ some user_id
          → (member : User) × (get user_id d.users ≡ some member)
            × (member.org_id ≡ org_id)
            × (t.assigned_to ≡ some user_id))
      × (payload.unassign ≡ false
          → payload.assigned_to ≡ none
          → (old : Ticket) × (get ticket_id d.tickets ≡ some old)
            × (t.assigned_to ≡ old.assigned_to))
unfolding assign apply_status
update_ticket_assignee now org_id ticket_id payload d t d' h =
    let (old, assigned, loaded, e1, e2, saved) =
      update_ticket-eq-ok now org_id ticket_id payload d t d' h in
    (
      λ un. ground arith,
      λ user_id un named. elim (Option-cases (get user_id d.users)) [
        | inl missing ↦ absurd (ground arith)
        | inr (member, e) ↦
            (member, e, ground arith, ground (arith, get-key user_id d.users member e))
      ],
      λ un unnamed.
          (old, (load_ticket-eq-ok org_id ticket_id d.tickets old loaded).0, ground arith),
    )

-- A reply answers as the stored ticket of the organisation: it appends one trimmed staff message in
-- the actor's name to the conversation that the ticket wraps, moves an open ticket to pending and no
-- other status, gives an unassigned ticket to the actor and no other, and leaves the resolution stamp.
reply_to_ticket_effect :
    (now message_id org_id ticket_id : ℕ) (actor : User) (content : Text) (d : Desk) (m : Message)
    (d' : Desk)
    → reply_to_ticket now message_id org_id ticket_id actor content d ≡ ok (m, d')
    → (t : Ticket) × (t' : Ticket) × (get ticket_id d.tickets ≡ some t)
      × (t.org_id ≡ org_id)
      × (get ticket_id d'.tickets ≡ some t')
      × (d'.messages ≡ d.messages ++ m ∷ [])
      × (m.conversation_id ≡ t.conversation_id)
      × (m.role ≡ MessageRole.staff)
      × (m.content ≡ strip content)
      × (m.staff_user_id ≡ some actor.id)
      × (t'.status ≡ (if is_open t.status then TicketStatus.pending else t.status))
      × (is_none t.assigned_to ≡ true → t'.assigned_to ≡ some actor.id)
      × (is_none t.assigned_to ≡ false → t'.assigned_to ≡ t.assigned_to)
      × (t'.resolved_at ≡ t.resolved_at)
reply_to_ticket_effect now message_id org_id ticket_id actor content d m d' h =
    let (t, loaded, _, posted, saved) =
      reply_to_ticket-eq-ok now message_id org_id ticket_id actor content d m d' h in
    let (found, belongs) = load_ticket-eq-ok org_id ticket_id d.tickets t loaded in
    let there : get (claim actor.id t).id d.tickets ≡ some t =
      ground (arith, get-key ticket_id d.tickets t found) in
    (
      t,
      claim actor.id t,
      found,
      belongs,
      ground (
        arith,
        get-save_self (claim actor.id t) t d.tickets there,
        get-key ticket_id d.tickets t found,
      ),
      ground arith,
      ground arith,
      ground arith,
      ground arith,
      ground arith,
      refl,
      λ e. ground arith,
      λ e. ground arith,
      refl,
    )

claim-IsStamped : (actor_id : ℕ) (t : Ticket) → IsStamped t → IsStamped (claim actor_id t)
claim-IsStamped actor_id t h = ground arith

pub reply_to_ticket-IsStamped :
    (now message_id org_id ticket_id : ℕ) (actor : User) (content : Text) (d : Desk) (m : Message)
    (d' : Desk)
    → reply_to_ticket now message_id org_id ticket_id actor content d ≡ ok (m, d')
    → All IsStamped d.tickets
    → All IsStamped d'.tickets
reply_to_ticket-IsStamped now message_id org_id ticket_id actor content d m d' h all =
    let (t, loaded, _, _, saved) =
      reply_to_ticket-eq-ok now message_id org_id ticket_id actor content d m d' h in
    let (found, _) = load_ticket-eq-ok org_id ticket_id d.tickets t loaded in
    let before : IsStamped t = All-find IsStamped (λ r. r.id == ticket_id) d.tickets t all found in
    rw saved
      (All-save IsStamped (claim actor.id t) d.tickets all (claim-IsStamped actor.id t before))

-- What opening a ticket leaves: the ticket is added, and only the transcript changes besides.
pub tickets-create_ticket :
    (lower : Text → Text) (now : ℕ) (fresh : FreshIds) (org_id chatbot_id : ℕ)
    (payload : TicketCreate) (d : Desk)
    → let (t, c, d') = create_ticket lower now fresh org_id chatbot_id payload d in
      (d'.tickets ≡ add t d.tickets)
      × (t.id ≡ fresh.ticket)
      × (t.org_id ≡ org_id)
      × (t.status ≡ TicketStatus.open_status)
      × (t.resolved_at ≡ none)
      × (t.assigned_to ≡ none)
      × (t.conversation_id ≡ c.id)
unfolding create_ticket add_visitor_turn ensure_conversation
tickets-create_ticket lower now fresh org_id chatbot_id payload d = ground arith

pub create_ticket-IsStamped :
    (lower : Text → Text) (now : ℕ) (fresh : FreshIds) (org_id chatbot_id : ℕ)
    (payload : TicketCreate) (d : Desk)
    → All IsStamped d.tickets
    → All IsStamped (create_ticket lower now fresh org_id chatbot_id payload d).2.tickets
create_ticket-IsStamped lower now fresh org_id chatbot_id payload d all =
    let (t, c, d') = create_ticket lower now fresh org_id chatbot_id payload d in
    let (added, _, _, opened, unstamped, _, _) =
      tickets-create_ticket lower now fresh org_id chatbot_id payload d in
    let one : IsStamped t = ground arith in
    rw added (All-append IsStamped d.tickets (t ∷ []) all (one, tt))
