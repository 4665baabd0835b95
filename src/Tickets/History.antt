-- ===== src/Tickets/History.antt =====
-- Any history of ticket requests, by any organisations.
use nuvrag_platform.Base.{ℕ, ◌≡◌, none, All, inl, inr}
use nuvrag_platform.Base.Text.{Text}
use nuvrag_platform.Base.Rows.{get}
use nuvrag_platform.Domain.Errors.{Result-cases}
use nuvrag_platform.Desk.{Desk, conversation_row, ticket_row}
use nuvrag_platform.Desk.Consistent.{IsConsistent}
use nuvrag_platform.Tickets.{update_ticket, reply_to_ticket}
use nuvrag_platform.Tickets.Status.{IsStamped, update_ticket-IsStamped}
use nuvrag_platform.Tickets.Effects.{reply_to_ticket-IsStamped, create_ticket-IsStamped}
use nuvrag_platform.Tickets.Transcript.{
  update_ticket-IsConsistent, reply_to_ticket-IsConsistent, create_ticket-IsConsistent,
}
use nuvrag_platform.Tickets.Tenancy.{Request, handle}

-- The ids that a request gives to new rows are in use by none.
abbrev pub IsFresh : Request → Desk → Type 0
IsFresh (Request.create chatbot_id fresh payload) d =
    (get fresh.conversation d.conversations ≡ none) × (get fresh.ticket d.tickets ≡ none)
IsFresh _ d = Unit {0}

-- The tables after one more request, of some organisation at some time.
pub data Reach (lower : Text → Text) (d : Desk) : Desk → Type 0 where
  here : Reach lower d d
  next :
      {e f : Desk} (now org_id : ℕ) (r : Request)
      → Reach lower d e
      → IsFresh r e
      → f ≡ handle lower now org_id r e
      → Reach lower d f

pub record IsSound (d : Desk) : Type 0 where
  pub consistent : IsConsistent d
  pub stamped : All IsStamped d.tickets

handle-IsSound :
    (lower : Text → Text) (now org_id : ℕ) (r : Request) (d : Desk)
    → IsFresh r d
    → IsSound d
    → IsSound (handle lower now org_id r d)
unfolding handle
handle-IsSound lower now org_id (Request.create chatbot_id fresh payload) d new s = record {
  consistent =
      create_ticket-IsConsistent lower now fresh org_id chatbot_id payload d new.0 new.1
        s.consistent;
  stamped = create_ticket-IsStamped lower now fresh org_id chatbot_id payload d s.stamped;
}
handle-IsSound lower now org_id (Request.update ticket_id payload) d new s =
    elim (Result-cases (update_ticket now org_id ticket_id payload d)) [
      | inr (_, failed) ↦ rw failed s
      | inl ((t, d'), done) ↦ rw done (record {
        consistent =
            update_ticket-IsConsistent now org_id ticket_id payload d t d' done s.consistent;
        stamped = update_ticket-IsStamped now org_id ticket_id payload d t d' done s.stamped;
      })
    ]
handle-IsSound lower now org_id (Request.reply message_id ticket_id actor content) d new s =
    elim (Result-cases (reply_to_ticket now message_id org_id ticket_id actor content d)) [
      | inr (_, failed) ↦ rw failed s
      | inl ((m, d'), done) ↦ rw done (record {
        consistent =
            reply_to_ticket-IsConsistent now message_id org_id ticket_id actor content d m d' done
              s.consistent;
        stamped =
            reply_to_ticket-IsStamped now message_id org_id ticket_id actor content d m d' done
              s.stamped;
      })
    ]

-- Along any history of ticket requests, of any organisations and whether or not they succeed, the
-- tables stay sound: each conversation's count is the number of its messages, a session has one
-- conversation, no message or ticket loses its conversation, and a ticket carries a resolution stamp
-- exactly while it is resolved.
pub history_keeps_desk :
    {lower : Text → Text} {d e : Desk} → IsSound d → Reach lower d e → IsSound e
history_keeps_desk s here = s
history_keeps_desk {lower} s (next {e = e} now org_id r before new same) =
    rw same (handle-IsSound lower now org_id r e new (history_keeps_desk s before))
