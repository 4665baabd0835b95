-- ===== src/Domain/Enums.antt =====
-- The enumerations of `app/models/enums.py`, with the equality tests and the order of roles.
use nuvrag_platform.Base.{ℕ, ◌≤◌, ◌≡◌, Bool, true, false, arith, leb}

pub data UserRole : Type 0 where
  owner admin member : UserRole

pub data InvitationStatus : Type 0 where
  pending accepted revoked : InvitationStatus

pub data ChatbotStatus : Type 0 where
  active paused archived : ChatbotStatus

pub data DocumentStatus : Type 0 where
  pending processing ready failed : DocumentStatus

pub data FileType : Type 0 where
  pdf docx md mdx txt : FileType

pub data MessageRole : Type 0 where
  user assistant staff : MessageRole

pub data TicketStatus : Type 0 where
  open_status pending resolved closed : TicketStatus

pub data TicketPriority : Type 0 where
  low normal high urgent : TicketPriority

pub data TicketSource : Type 0 where
  ai_escalation visitor_contact_form : TicketSource

pub data MemoryType : Type 0 where
  preference fact context : MemoryType

-- `_ROLE_RANK` and `UserRole.rank`
abbrev pub rank : UserRole → ℕ
rank UserRole.member = 0
rank UserRole.admin = 1
rank UserRole.owner = 2

-- `UserRole.can_act_as`
unfoldable pub can_act_as : UserRole → UserRole → Bool
can_act_as self required = leb (rank required) (rank self)

abbrev pub is_owner : UserRole → Bool
is_owner UserRole.owner = true
is_owner _ = false

abbrev pub is_pending_invitation : InvitationStatus → Bool
is_pending_invitation InvitationStatus.pending = true
is_pending_invitation _ = false

abbrev pub is_open : TicketStatus → Bool
is_open TicketStatus.open_status = true
is_open _ = false

abbrev pub is_resolved : TicketStatus → Bool
is_resolved TicketStatus.resolved = true
is_resolved _ = false

-- `ticket.status in (RESOLVED, CLOSED)`
abbrev pub is_terminal : TicketStatus → Bool
is_terminal TicketStatus.resolved = true
is_terminal TicketStatus.closed = true
is_terminal _ = false

-- `UNRESOLVED_TICKET_STATUSES` of `app/repositories/conversation.py`
abbrev pub is_unresolved : TicketStatus → Bool
is_unresolved TicketStatus.open_status = true
is_unresolved TicketStatus.pending = true
is_unresolved _ = false

pub can_act_as-le : (a b : UserRole) → can_act_as a b ≡ true → rank b ≤ rank a
unfolding can_act_as
can_act_as-le a b h = ground arith

pub can_act_as-owner : (a : UserRole) → can_act_as a UserRole.owner ≡ true → a ≡ UserRole.owner
unfolding can_act_as
can_act_as-owner UserRole.owner h = ground arith
can_act_as-owner UserRole.admin h = ground arith
can_act_as-owner UserRole.member h = ground arith
