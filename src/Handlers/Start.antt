-- ===== src/Handlers/Start.antt =====
-- backend/app/core/ticket_handlers.py, `handle_ticket_start`: the worker that holds the lease of a
-- ticket begins to execute it.
use boardroom_os.Base.{
  ℕ, String, Bool, true, false, not, ◌&&◌, none, some, List, option_eq, text_eq, ◌==◌,
  if◌then◌else◌,
}
use boardroom_os.Base.Result.{Result, ok, ◌>>=◌}
use boardroom_os.Field.{value}
use boardroom_os.Event.{ticket_started, empty_payload}
use boardroom_os.Ticket.State.{Ticket}
use boardroom_os.Node.{Node, NodeStatus}
use boardroom_os.Repository.{Repository, NewEvent}
use boardroom_os.Handlers.Workers.{
  Provider, resolve_provider_id_for_ticket, employee_is_active, is_provider_paused,
  allow_paused_provider_start,
}
use boardroom_os.Handlers.Lease.{is_leased}
use boardroom_os.Handlers.Transaction.{
  Call, Ack, wrong_status, wrong_node_status, not_the_owner, worker_not_active, provider_paused,
  lease_expired, Verdict, reject, write, acknowledge, nothing_more, with_current, still_open,
  run_command,
}

abbrev pub is_pending_node : NodeStatus → Bool
is_pending_node NodeStatus.pending = true
is_pending_node _ = false

unfoldable pub start_event : Call → (started_by : String) → NewEvent
start_event c worker = record {
  event_type = ticket_started;
  actor_type = "worker";
  actor_id = worker;
  workflow_id = some c.workflow_id;
  idempotency_key = c.idempotency_key;
  causation_id = some c.command_id;
  correlation_id = some c.workflow_id;
  payload = record empty_payload {
    ticket_id = value c.ticket_id;
    node_id = value c.node_id;
    started_by = value worker;
  };
  occurred_at = c.received_at;
}

unfoldable pub start_by_worker :
    Call → (started_by : String) → List Provider → Repository → Ticket → Verdict
unfolding employee_is_active resolve_provider_id_for_ticket is_provider_paused start_event
    allow_paused_provider_start
start_by_worker c worker providers r t =
    let provider = resolve_provider_id_for_ticket r t.lease_owner (some worker) none in
    if not (employee_is_active r worker)
    then reject (worker_not_active (some worker))
    else if is_provider_paused r provider && not (allow_paused_provider_start providers provider)
    then reject (provider_paused c.ticket_id provider)
    else write (start_event c worker) acknowledge nothing_more

unfoldable pub start_if :
    Call
    → (started_by : String) → List Provider
    → Repository
    → Ticket
    → (unexpired : Bool) → Verdict
unfolding start_by_worker
start_if c worker providers r t unexpired =
    if unexpired then start_by_worker c worker providers r t else reject (lease_expired c.ticket_id)

-- Past the test of the owner, `lease_owner` is the worker.
unfoldable pub start_current :
    Call → (started_by : String) → List Provider → Repository → Ticket → Node → Result Verdict
unfolding still_open start_if
start_current c worker providers r t n =
    if not (is_pending_node n.status)
    then ok (reject (wrong_node_status c.ticket_id c.node_id n.status))
    else if not (is_leased t.status)
    then ok (reject (wrong_status c.ticket_id "start from LEASED" t.status))
    else if not (t.lease_owner == some worker)
    then ok (reject (not_the_owner c.ticket_id t.lease_owner worker))
    else still_open t.lease_expires_at c.received_at >>= λ unexpired.
        ok (start_if c worker providers r t unexpired)

unfoldable pub decide_start :
    Call → (started_by : String) → List Provider → Repository → Result Verdict
unfolding with_current start_current
decide_start c worker providers r =
    with_current c "Ticket must be created before it can be started."
      (start_current c worker providers r) r

unfoldable pub handle_ticket_start :
    (depth : ℕ)
    → Call
    → (started_by : String) → List Provider
    → Repository
    → Result (Ack × Repository)
unfolding run_command decide_start
handle_ticket_start depth c worker providers =
    run_command depth c "ticket-start" (decide_start c worker providers)
