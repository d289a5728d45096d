-- ===== src/Handlers/Cancel.antt =====
-- backend/app/core/ticket_handlers.py, `handle_ticket_cancel`: an operator ends a ticket, or asks the
-- worker that executes it to end it.
use boardroom_os.Base.{ℕ, String, some}
use boardroom_os.Base.Result.{Result, ok}
use boardroom_os.Field.{value}
use boardroom_os.Event.{EventType, ticket_cancel_requested, ticket_cancelled, empty_payload}
use boardroom_os.Ticket.State.{
  TicketStatus, cancelled, completed, failed, timed_out, executing, Ticket,
}
use boardroom_os.Node.{Node}
use boardroom_os.Repository.{Repository, NewEvent}
use boardroom_os.Handlers.Transaction.{
  Call, Ack, already_cancelled, already_completed, already_terminal, Verdict, reject, write,
  acknowledge, fail_with, nothing_more, with_current, run_command,
}

-- The fields of a `TicketCancelCommand` that other commands do not have.
pub record TicketCancel : Type 0 where
  pub cancelled_by : String
  pub reason : String

unfoldable pub cancel_event : EventType → Call → TicketCancel → NewEvent
cancel_event t c x = record {
  event_type = t;
  actor_type = "operator";
  actor_id = x.cancelled_by;
  workflow_id = some c.workflow_id;
  idempotency_key = c.idempotency_key;
  causation_id = some c.command_id;
  correlation_id = some c.workflow_id;
  payload = record empty_payload {
    ticket_id = value c.ticket_id;
    node_id = value c.node_id;
    cancelled_by = value x.cancelled_by;
    reason = value x.reason;
  };
  occurred_at = c.received_at;
}

unfoldable pub cancel_from : Call → TicketCancel → TicketStatus → Verdict
unfolding cancel_event
cancel_from c x cancelled = reject (already_cancelled c.ticket_id)
cancel_from c x completed = reject (already_completed c.ticket_id)
cancel_from c x failed = reject (already_terminal c.ticket_id)
cancel_from c x timed_out = reject (already_terminal c.ticket_id)
cancel_from c x executing =
    write (cancel_event ticket_cancel_requested c x) acknowledge nothing_more
cancel_from c x _ =
    write (cancel_event ticket_cancelled c x)
      (fail_with "Ticket cancellation idempotency conflict.") nothing_more

unfoldable pub cancel_current : Call → TicketCancel → Ticket → Node → Result Verdict
unfolding cancel_from
cancel_current c x t n = ok (cancel_from c x t.status)

unfoldable pub decide_cancel : Call → TicketCancel → Repository → Result Verdict
unfolding with_current cancel_current
decide_cancel c x r =
    with_current c "Ticket must exist before it can be cancelled." (cancel_current c x) r

unfoldable pub handle_ticket_cancel :
    (depth : ℕ) → Call → TicketCancel → Repository → Result (Ack × Repository)
unfolding run_command decide_cancel
handle_ticket_cancel depth c x = run_command depth c "ticket-cancel" (decide_cancel c x)
