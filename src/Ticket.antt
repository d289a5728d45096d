-- ===== src/Ticket.antt =====
-- backend/app/core/reducer.py, `rebuild_ticket_projections`: the state of every ticket, from the log.
-- `plan` gives the write of one event, and the loop is that of Projection.antt.
pub mod State
pub mod Changes
pub mod Consistent
pub mod Clock
pub mod Cut
pub mod Stamps
pub mod History
use boardroom_os.Base.{
  ℕ, String, Option, none, some, ◌==◌, option_eq, text_eq, ◌+◌, ◌*◌, List, [], if◌then◌else◌,
}
use boardroom_os.Base.Result.{Result, ok, ◌>>=◌, replay}
use boardroom_os.Base.Dict
use boardroom_os.Base.Dict.{Dict, values}
use boardroom_os.Field.{get, get_or, item, str, or_else}
use boardroom_os.Event.{
  EventType, ticket_created, ticket_leased, ticket_started, ticket_heartbeat_recorded,
  ticket_cancel_requested, ticket_cancelled, ticket_completed, ticket_failed, ticket_timed_out,
  board_review_required, board_review_approved, board_review_rejected, Timestamp, iso, seconds,
  Payload, Event,
}
use boardroom_os.Projection.{Write, step}
use State.{
  TicketStatus, completed, failed, timed_out, blocked_for_board_review, rework_required,
  board_review_needed, TicketBase, Ticket, base_ticket_projection, found_key,
}
use Changes.{
  computed_expiry, computed_heartbeat_expiry, create, lease, start, record_heartbeat,
  request_cancel, cancel, settle, fail, rejection_reason,
}

abbrev pub TicketWrite : Type 0
TicketWrite = Write (Option String) Ticket

-- A ticket event: `payload["ticket_id"]` and `payload["node_id"]` have to be there.
unfoldable pub on_ticket :
    (Event → Option String → TicketBase → Option Ticket → Ticket)
    → Event
    → Result (Option TicketWrite)
unfolding base_ticket_projection
on_ticket change e = do
  ticket ← item "ticket_id" e.payload.ticket_id
  base ← base_ticket_projection e
  ok (some (record { key = ticket; update = change e base.node_id base }))

-- A board event: one with no ticket or no node changes nothing.
unfoldable pub review_write :
    (Event → Option String → TicketBase → Option Ticket → Ticket)
    → Event
    → (ticket_id node_id : Option String) → Result (Option TicketWrite)
unfolding base_ticket_projection
review_write change e (some ticket) (some node) = do
  base ← base_ticket_projection e
  ok (some (record { key = some ticket; update = change e (some node) base }))
review_write change e _ _ = ok none

unfoldable pub on_review :
    (Event → Option String → TicketBase → Option Ticket → Ticket)
    → Event
    → Result (Option TicketWrite)
unfolding review_write
on_review change e = review_write change e (get e.payload.ticket_id) (get e.payload.node_id)

unfoldable pub plan_of : EventType → Event → Result (Option TicketWrite)
unfolding on_ticket on_review create lease start record_heartbeat request_cancel cancel settle fail
    rejection_reason
plan_of ticket_created e = on_ticket create e
plan_of ticket_leased e = on_ticket lease e
plan_of ticket_started e = on_ticket start e
plan_of ticket_heartbeat_recorded e = on_ticket record_heartbeat e
plan_of ticket_cancel_requested e = on_ticket request_cancel e
plan_of ticket_cancelled e = on_ticket cancel e
plan_of ticket_completed e = on_ticket (settle completed none) e
plan_of ticket_failed e = on_ticket (fail failed) e
plan_of ticket_timed_out e = on_ticket (fail timed_out) e
plan_of board_review_required e =
    on_review (settle blocked_for_board_review (some board_review_needed)) e
plan_of board_review_approved e = on_review (settle completed none) e
plan_of board_review_rejected e =
    on_review (settle rework_required (some (rejection_reason e.payload))) e
plan_of _ e = ok none

unfoldable pub plan : Event → Result (Option TicketWrite)
unfolding plan_of
plan e = plan_of e.event_type e

-- The two branches that compute the end of the time for a heartbeat, which may raise.
unfoldable pub computed_end : EventType → Event → Option Ticket → Result (Option Timestamp)
unfolding computed_expiry computed_heartbeat_expiry
computed_end ticket_started e found =
    computed_expiry e.occurred_at (found_key (λ t. t.heartbeat_timeout_sec) found)
computed_end ticket_heartbeat_recorded e found =
    computed_heartbeat_expiry (get e.payload.heartbeat_expires_at) e.occurred_at
      (found_key (λ t. t.heartbeat_timeout_sec) found)
computed_end _ e found = ok none

-- One round: the keys of the event are read, the time is computed, and the projection is written.
unfoldable pub ticket_step :
    Dict (Option String) Ticket → Event → Result (Dict (Option String) Ticket)
unfolding step computed_end Dict.get plan
ticket_step projections e = do
  next ← step plan projections e
  computed_end e.event_type e (Dict.get (get e.payload.ticket_id) projections) >>= λ end. ok next

unfoldable pub rebuild_ticket_projections : List Event → Result (List Ticket)
unfolding replay ticket_step
rebuild_ticket_projections events = do
  projections ← replay ticket_step [] events
  ok (values projections)
