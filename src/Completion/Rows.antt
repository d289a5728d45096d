-- ===== src/Completion/Rows.antt =====
-- The projections as backend/app/core/workflow_completion.py gets them: with their times read back as
-- datetimes where the text is one.
use boardroom_os.Base.{ℕ, String, Option}
use boardroom_os.Event.{EventType}
use boardroom_os.Ticket.State.{Ticket}
use boardroom_os.Node.{Node}

-- What `_coerce_iso_datetime` makes of a text.
pub data Moment : Type 0 where
  datetime : ℕ → Moment
  other_text : String → Moment

pub record TicketRow : Type 0 where
  pub projection : Ticket
  pub lease_expires_at : Option Moment
  pub started_at : Option Moment
  pub last_heartbeat_at : Option Moment
  pub heartbeat_expires_at : Option Moment
  pub updated_at : Moment

pub record NodeRow : Type 0 where
  pub projection : Node
  pub updated_at : Moment

pub record TerminalEvent : Type 0 where
  pub event_type : EventType
  pub occurred_at : ℕ
