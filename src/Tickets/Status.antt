-- ===== src/Tickets/Status.antt =====
-- The status of a ticket, its resolution stamp and its assignee.
use nuvrag_platform.Base.{ℕ, ◌≡◌, some, List, arith, ◌==◌, All, All-find, is_some}
use nuvrag_platform.Base.Rows.{get, save, All-save, get-key}
use nuvrag_platform.Domain.Enums.{is_resolved}
use nuvrag_platform.Domain.Errors.{ok}
use nuvrag_platform.Identity.{User, user_row}
use nuvrag_platform.Desk.{Ticket, Desk, ticket_row}
use nuvrag_platform.Tickets.{
  TicketUpdate, load_ticket, assign, apply_status, change_assignee, change_priority, change_status,
  update_ticket,
}

-- The stamp says when the ticket was resolved, and is there only while it is.
abbrev pub IsStamped : Ticket → Type 0
IsStamped t = is_some t.resolved_at ≡ is_resolved t.status

pub load_ticket-eq-ok :
    (org_id ticket_id : ℕ) (tickets : List Ticket) (t : Ticket)
    → load_ticket org_id ticket_id tickets ≡ ok t
    → (get ticket_id tickets ≡ some t) × (t.org_id ≡ org_id)
unfolding load_ticket
load_ticket-eq-ok org_id ticket_id tickets t h = ground arith

-- What a successful update has gone through.
pub update_ticket-eq-ok :
    (now org_id ticket_id : ℕ) (payload : TicketUpdate) (d : Desk) (t : Ticket) (d' : Desk)
    → update_ticket now org_id ticket_id payload d ≡ ok (t, d')
    → (old : Ticket) × (assigned : Ticket) × (load_ticket org_id ticket_id d.tickets ≡ ok old)
      × (change_assignee org_id d.users old payload ≡ ok assigned)
      × (t ≡ change_status now (change_priority assigned payload.priority) payload)
      × (d' ≡ record d { tickets = save t d.tickets })
unfolding update_ticket
update_ticket-eq-ok now org_id ticket_id payload d t d' h = ground arith

-- Assignment and priority leave the rest of the row, the status among it.
change_assignee-keeps :
    (org_id : ℕ) (users : List User) (old : Ticket) (payload : TicketUpdate) (t : Ticket)
    → change_assignee org_id users old payload ≡ ok t
    → (t.id ≡ old.id)
      × (t.org_id ≡ old.org_id)
      × (t.conversation_id ≡ old.conversation_id)
      × (t.status ≡ old.status)
      × (t.resolved_at ≡ old.resolved_at)
unfolding assign
change_assignee-keeps org_id users old payload t h = ground arith

change_status-keeps :
    (now : ℕ) (t : Ticket) (payload : TicketUpdate)
    → let t' = change_status now (change_priority t payload.priority) payload in
      (t'.id ≡ t.id)
      × (t'.org_id ≡ t.org_id)
      × (t'.conversation_id ≡ t.conversation_id)
      × (t'.assigned_to ≡ t.assigned_to)
unfolding apply_status
change_status-keeps now t payload = ground arith

change_status-IsStamped :
    (now : ℕ) (t : Ticket) (payload : TicketUpdate)
    → IsStamped t
    → IsStamped (change_status now (change_priority t payload.priority) payload)
unfolding apply_status
change_status-IsStamped now t payload h = ground arith

-- A successful update writes the row that was asked for and moves neither its organisation nor the
-- conversation it wraps.
pub update_ticket-keeps :
    (now org_id ticket_id : ℕ) (payload : TicketUpdate) (d : Desk) (t : Ticket) (d' : Desk)
    → update_ticket now org_id ticket_id payload d ≡ ok (t, d')
    → (old : Ticket) × (get ticket_id d.tickets ≡ some old)
      × (t.id ≡ ticket_id)
      × (t.org_id ≡ org_id)
      × (t.conversation_id ≡ old.conversation_id)
      × (d' ≡ record d { tickets = save t d.tickets })
update_ticket-keeps now org_id ticket_id payload d t d' h =
    let (old, assigned, loaded, e1, e2, saved) =
      update_ticket-eq-ok now org_id ticket_id payload d t d' h in
    let (found, belongs) = load_ticket-eq-ok org_id ticket_id d.tickets old loaded in
    (
      old,
      found,
      ground (
        arith,
        change_assignee-keeps org_id d.users old payload assigned e1,
        change_status-keeps now assigned payload,
        get-key ticket_id d.tickets old found,
      ),
      ground (
        arith,
        change_assignee-keeps org_id d.users old payload assigned e1,
        change_status-keeps now assigned payload,
      ),
      ground (
        arith,
        change_assignee-keeps org_id d.users old payload assigned e1,
        change_status-keeps now assigned payload,
      ),
      saved,
    )

pub update_ticket-IsStamped :
    (now org_id ticket_id : ℕ) (payload : TicketUpdate) (d : Desk) (t : Ticket) (d' : Desk)
    → update_ticket now org_id ticket_id payload d ≡ ok (t, d')
    → All IsStamped d.tickets
    → All IsStamped d'.tickets
update_ticket-IsStamped now org_id ticket_id payload d t d' h all =
    let (old, assigned, loaded, e1, e2, saved) =
      update_ticket-eq-ok now org_id ticket_id payload d t d' h in
    let (found, belongs) = load_ticket-eq-ok org_id ticket_id d.tickets old loaded in
    let before : IsStamped old =
      All-find IsStamped (λ r. r.id == ticket_id) d.tickets old all found in
    let between : IsStamped assigned =
      ground (arith, change_assignee-keeps org_id d.users old payload assigned e1) in
    let after : IsStamped t = rw e2 (change_status-IsStamped now assigned payload between) in
    rw saved (All-save IsStamped t d.tickets all after)
