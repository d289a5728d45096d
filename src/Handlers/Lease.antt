-- ===== src/Handlers/Lease.antt =====
-- backend/app/core/ticket_handlers.py, `handle_ticket_lease`: a worker takes a ticket for a time.
use boardroom_os.Base.{
  ℕ, ◌+◌, ◌*◌, String, Bool, true, false, not, ◌&&◌, Option, none, some, option_eq, text_eq, ◌==◌,
  if◌then◌else◌,
}
use boardroom_os.Base.Result.{Result, ok, ◌>>=◌}
use boardroom_os.Field.{value}
use boardroom_os.Event.{ticket_leased, Timestamp, iso, seconds, plus_seconds, empty_payload}
use boardroom_os.Ticket.State.{TicketStatus, pending, leased, Ticket}
use boardroom_os.Node.{Node}
use boardroom_os.Repository.{Repository, NewEvent}
use boardroom_os.Handlers.Workers.{
  resolve_provider_id_for_ticket, employee_is_active, is_provider_paused,
}
use boardroom_os.Handlers.Transaction.{
  Call, Ack, wrong_status, leased_until, worker_not_active, provider_paused, Verdict, reject, write,
  acknowledge, nothing_more, with_current, still_open, run_command,
}

-- The fields of a `TicketLeaseCommand` that other commands do not have.
pub record TicketLease : Type 0 where
  pub leased_by : String
  pub lease_timeout_sec : ℕ

abbrev pub may_be_leased : TicketStatus → Bool
may_be_leased pending = true
may_be_leased leased = true
may_be_leased _ = false

abbrev pub is_leased : TicketStatus → Bool
is_leased leased = true
is_leased _ = false

unfoldable pub lease_event : Call → TicketLease → NewEvent
lease_event c l = record {
  event_type = ticket_leased;
  actor_type = "worker";
  actor_id = l.leased_by;
  workflow_id = some c.workflow_id;
  idempotency_key = c.idempotency_key;
  causation_id = some c.command_id;
  correlation_id = some c.workflow_id;
  payload = record empty_payload {
    ticket_id = value c.ticket_id;
    node_id = value c.node_id;
    leased_by = value l.leased_by;
    lease_timeout_sec = value l.lease_timeout_sec;
    lease_expires_at = value (iso (c.received_at + l.lease_timeout_sec * seconds));
  };
  occurred_at = c.received_at;
}

-- The refusal where another worker holds the lease; its text shows the expiry.
unfoldable pub held_by_other : Call → Ticket → Option Timestamp → Verdict → Verdict
held_by_other c t (some expiry) otherwise = reject (leased_until c.ticket_id t.lease_owner expiry)
held_by_other c t none otherwise = otherwise

unfoldable pub lease_to_worker : Call → TicketLease → Repository → Verdict
unfolding employee_is_active resolve_provider_id_for_ticket is_provider_paused lease_event
lease_to_worker c l r =
    let provider = resolve_provider_id_for_ticket r none (some l.leased_by) none in
    if not (employee_is_active r l.leased_by)
    then reject (worker_not_active (some l.leased_by))
    else if is_provider_paused r provider
    then reject (provider_paused c.ticket_id provider)
    else write (lease_event c l) acknowledge nothing_more

unfoldable pub lease_if :
    Call → TicketLease → Repository → Ticket → (lease_is_active : Bool) → Verdict
unfolding held_by_other lease_to_worker
lease_if c l r t lease_is_active =
    if is_leased t.status && lease_is_active && not (t.lease_owner == some l.leased_by)
    then held_by_other c t t.lease_expires_at (lease_to_worker c l r)
    else lease_to_worker c l r

unfoldable pub lease_current : Call → TicketLease → Repository → Ticket → Node → Result Verdict
unfolding still_open lease_if
lease_current c l r t n =
    if not (may_be_leased t.status)
    then ok (reject (wrong_status c.ticket_id "leased from PENDING or LEASED" t.status))
    else still_open t.lease_expires_at c.received_at >>= λ active. ok (lease_if c l r t active)

unfoldable pub decide_lease : Call → TicketLease → Repository → Result Verdict
unfolding with_current lease_current
decide_lease c l r =
    with_current c "Ticket must be created before it can be leased." (lease_current c l r) r

-- The end of the lease is computed first, and may raise; `lease_event` has the sum.
unfoldable pub handle_ticket_lease :
    (depth : ℕ) → Call → TicketLease → Repository → Result (Ack × Repository)
unfolding run_command decide_lease plus_seconds
handle_ticket_lease depth c l r =
    plus_seconds c.received_at l.lease_timeout_sec >>= λ lease_expires_at.
    run_command depth c "ticket-lease" (decide_lease c l) r
