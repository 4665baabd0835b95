-- ===== src/Tickets/Tenancy.antt =====
-- One organisation's requests and another's tickets.
use nuvrag_platform.Base.{
  ℕ, ◌≡◌, ◌≢◌, false, ◌&&◌, not, some, [], ◌∷◌, arith, ◌==◌, Option-cases, inl, inr, is_none,
  find-append_some,
}
use nuvrag_platform.Base.Text.{Text, strip, is_empty}
use nuvrag_platform.Base.Rows.{get, get-save_ne, get-key}
use nuvrag_platform.Domain.Errors.{DomainError, Result, Result-cases, ok, err}
use nuvrag_platform.Identity.{User}
use nuvrag_platform.Desk.{Message, Ticket, Desk, ticket_row}
use nuvrag_platform.Tickets.{
  TicketCreate, TicketUpdate, FreshIds, load_ticket, update_ticket, reply_to_ticket, create_ticket,
  claim,
}
use nuvrag_platform.Tickets.Status.{load_ticket-eq-ok, update_ticket-keeps, update_ticket-eq-ok}
use nuvrag_platform.Tickets.Effects.{reply_to_ticket-eq-ok, tickets-create_ticket}

-- A ticket that the organisation may not see: there is none, or it is another's.
abbrev pub IsHidden : ℕ → ℕ → Desk → Type 0
IsHidden org_id ticket_id d = (t : Ticket) → get ticket_id d.tickets ≡ some t → t.org_id ≢ org_id

load_ticket_hidden :
    (org_id ticket_id : ℕ) (d : Desk)
    → IsHidden org_id ticket_id d
    → load_ticket org_id ticket_id d.tickets ≡ err DomainError.not_found
unfolding load_ticket
load_ticket_hidden org_id ticket_id d h = elim (Option-cases (get ticket_id d.tickets)) [
  | inl missing ↦ ground arith
  | inr (t, e) ↦ ground (arith, h t e)
]

-- An id cannot be probed across tenants: on a ticket that is missing, and on another organisation's,
-- a well-formed update and a reply that is not blank give the one answer, that it was not found.
pub hidden_ticket_uniform :
    (now message_id org_id ticket_id : ℕ) (payload : TicketUpdate) (actor : User) (content : Text)
    (d : Desk)
    → IsHidden org_id ticket_id d
    → (is_none payload.status
        && (is_none payload.priority && (is_none payload.assigned_to && not payload.unassign)))
      ≡ false
    → is_empty (strip content) ≡ false
    → (update_ticket now org_id ticket_id payload d ≡ err DomainError.not_found)
      × (reply_to_ticket now message_id org_id ticket_id actor content d
          ≡ err DomainError.not_found)
unfolding update_ticket reply_to_ticket
hidden_ticket_uniform now message_id org_id ticket_id payload actor content d h named written =
    let missed = load_ticket_hidden org_id ticket_id d h in (ground arith, ground arith)

-- A request of one organisation, with the ids that it gives.
pub data Request : Type 0 where
  create : (chatbot_id : ℕ) → FreshIds → TicketCreate → Request
  update : (ticket_id : ℕ) → TicketUpdate → Request
  reply : (message_id ticket_id : ℕ) → User → Text → Request

abbrev after_update : Result (Ticket × Desk) → Desk → Desk
after_update (ok (_, d')) d = d'
after_update (err _) d = d

abbrev after_reply : Result (Message × Desk) → Desk → Desk
after_reply (ok (_, d')) d = d'
after_reply (err _) d = d

-- The tables after a request; one that raises has rolled back.
unfoldable pub handle : (Text → Text) → ℕ → ℕ → Request → Desk → Desk
handle lower now org_id (create chatbot_id fresh payload) d =
    (create_ticket lower now fresh org_id chatbot_id payload d).2
handle lower now org_id (update ticket_id payload) d =
    after_update (update_ticket now org_id ticket_id payload d) d
handle lower now org_id (reply message_id ticket_id actor content) d =
    after_reply (reply_to_ticket now message_id org_id ticket_id actor content d) d

-- The row that an update finds is the organisation's.
update_ticket_owner :
    (now org_id ticket_id : ℕ) (payload : TicketUpdate) (d : Desk) (t : Ticket) (d' : Desk)
    → update_ticket now org_id ticket_id payload d ≡ ok (t, d')
    → (old : Ticket) × (get ticket_id d.tickets ≡ some old) × (old.org_id ≡ org_id)
update_ticket_owner now org_id ticket_id payload d t d' h =
    let (old, _, loaded, _, _, _) = update_ticket-eq-ok now org_id ticket_id payload d t d' h in
    let (found, belongs) = load_ticket-eq-ok org_id ticket_id d.tickets old loaded in
    (old, found, belongs)

-- Whatever an organisation asks for, and whether or not it succeeds, every ticket of another
-- organisation is left as it was.
pub handle_isolation :
    (lower : Text → Text) (now org_id : ℕ) (r : Request) (d : Desk) (id : ℕ) (t : Ticket)
    → get id d.tickets ≡ some t
    → t.org_id ≢ org_id
    → get id (handle lower now org_id r d).tickets ≡ some t
unfolding handle
handle_isolation lower now org_id (create chatbot_id fresh payload) d id t e other =
    let (t', c, d') = create_ticket lower now fresh org_id chatbot_id payload d in
    ground (
      arith,
      tickets-create_ticket lower now fresh org_id chatbot_id payload d,
      find-append_some (λ r. r.id == id) d.tickets (t' ∷ []) t e,
    )
handle_isolation lower now org_id (update ticket_id payload) d id t e other =
    elim (Result-cases (update_ticket now org_id ticket_id payload d)) [
      | inr (_, failed) ↦ rw failed e
      | inl ((t', d'), done) ↦
          let (old, found, same, belongs, _, saved) =
            update_ticket-keeps now org_id ticket_id payload d t' d' done in
          ground (
            arith,
            update_ticket_owner now org_id ticket_id payload d t' d' done,
            get-save_ne id t' d.tickets,
          )
    ]
handle_isolation lower now org_id (reply message_id ticket_id actor content) d id t e other =
    elim (Result-cases (reply_to_ticket now message_id org_id ticket_id actor content d)) [
      | inr (_, failed) ↦ rw failed e
      | inl ((m, d'), done) ↦
          let (old, loaded, _, _, saved) =
            reply_to_ticket-eq-ok now message_id org_id ticket_id actor content d m d' done in
          ground (
            arith,
            load_ticket-eq-ok org_id ticket_id d.tickets old loaded,
            get-key ticket_id d.tickets old,
            get-save_ne id (claim actor.id old) d.tickets,
          )
    ]
