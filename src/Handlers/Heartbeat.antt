-- ===== src/Handlers/Heartbeat.antt =====
-- backend/app/core/ticket_handlers.py, `handle_ticket_heartbeat`: the worker of a ticket shows that it
-- is still at work.
use boardroom_os.Base.{
  ℕ, String, Bool, true, false, not, ◌&&◌, Option, none, some, option_eq, text_eq, nat_eq, ◌==◌,
  if◌then◌else◌,
}
use boardroom_os.Base.Result.{Result, ok, raise, type_error, ◌>>=◌}
use boardroom_os.Field.{value}
use boardroom_os.Event.{
  ticket_heartbeat_recorded, Timestamp, iso, other_text, plus_seconds, empty_payload,
}
use boardroom_os.Ticket.State.{TicketStatus, executing, Ticket}
use boardroom_os.Node.{Node, NodeStatus}
use boardroom_os.Repository.{Repository, NewEvent}
use boardroom_os.Handlers.Transaction.{
  Call, Ack, wrong_statuses, not_the_owner, heartbeat_expired, Verdict, reject, write, acknowledge,
  nothing_more, with_current, still_open, run_command,
}

abbrev pub is_executing : TicketStatus → Bool
is_executing executing = true
is_executing _ = false

abbrev pub is_executing_node : NodeStatus → Bool
is_executing_node NodeStatus.executing = true
is_executing_node _ = false

-- `last_signal_at + timedelta(seconds=...)`: a text is not added to, and the sum may be out of range.
unfoldable pub time_after : ℕ → Timestamp → Result (Option Timestamp)
unfolding plus_seconds
time_after timeout (iso t) = plus_seconds t timeout >>= λ end. ok (some end)
time_after timeout (other_text s) = raise type_error

-- `x or y`, where an empty text counts as none
unfoldable pub or_time : Option Timestamp → Timestamp → Timestamp
or_time none y = y
or_time (some (iso t)) y = iso t
or_time (some (other_text s)) y = if s == "" then y else other_text s

unfoldable pub last_signal : Ticket → Timestamp
unfolding or_time
last_signal t = or_time t.last_heartbeat_at (or_time t.started_at t.updated_at)

unfoldable pub resolve_heartbeat_expiry :
    Option Timestamp → Option ℕ → (last_signal_at : Timestamp) → Result (Option Timestamp)
unfolding time_after
resolve_heartbeat_expiry (some t) timeout signal = ok (some t)
resolve_heartbeat_expiry none none signal = ok none
resolve_heartbeat_expiry none (some timeout) signal = time_after timeout signal

unfoldable pub resolve_current_heartbeat_expiry : Ticket → Result (Option Timestamp)
unfolding resolve_heartbeat_expiry last_signal
resolve_current_heartbeat_expiry t =
    resolve_heartbeat_expiry t.heartbeat_expires_at t.heartbeat_timeout_sec (last_signal t)

-- `int(x or 600)`
unfoldable pub or_default_timeout : Option ℕ → ℕ
or_default_timeout none = 600
or_default_timeout (some n) = if n == 0 then 600 else n

unfoldable pub resolve_heartbeat_timeout_sec : Ticket → ℕ
unfolding or_default_timeout
resolve_heartbeat_timeout_sec t = or_default_timeout t.heartbeat_timeout_sec

unfoldable pub heartbeat_event :
    Call → (reported_by : String) → (heartbeat_expires_at : Timestamp) → NewEvent
heartbeat_event c worker expires = record {
  event_type = ticket_heartbeat_recorded;
  actor_type = "worker";
  actor_id = worker;
  workflow_id = some c.workflow_id;
  idempotency_key = c.idempotency_key;
  causation_id = some c.command_id;
  correlation_id = some c.workflow_id;
  payload = record empty_payload {
    ticket_id = value c.ticket_id;
    node_id = value c.node_id;
    reported_by = value worker;
    heartbeat_expires_at = value expires;
  };
  occurred_at = c.received_at;
}

unfoldable pub heartbeat_if :
    Call → (reported_by : String) → Ticket → (unexpired : Bool) → Result Verdict
unfolding heartbeat_event plus_seconds resolve_heartbeat_timeout_sec
heartbeat_if c worker t unexpired =
    if not unexpired
    then ok (reject (heartbeat_expired c.ticket_id))
    else plus_seconds c.received_at (resolve_heartbeat_timeout_sec t) >>= λ expires.
        ok (write (heartbeat_event c worker expires) acknowledge nothing_more)

unfoldable pub heartbeat_window_open : Ticket → (now : ℕ) → Result Bool
unfolding still_open resolve_current_heartbeat_expiry
heartbeat_window_open t now = resolve_current_heartbeat_expiry t >>= λ expiry. still_open expiry now

unfoldable pub heartbeat_current : Call → (reported_by : String) → Ticket → Node → Result Verdict
unfolding heartbeat_window_open heartbeat_if
heartbeat_current c worker t n =
    if not (is_executing t.status && is_executing_node n.status)
    then ok (reject (wrong_statuses c.ticket_id "report heartbeat" t.status n.status))
    else if not (t.lease_owner == some worker)
    then ok (reject (not_the_owner c.ticket_id t.lease_owner worker))
    else heartbeat_window_open t c.received_at >>= λ unexpired. heartbeat_if c worker t unexpired

unfoldable pub decide_heartbeat : Call → (reported_by : String) → Repository → Result Verdict
unfolding with_current heartbeat_current
decide_heartbeat c worker r =
    with_current c "Ticket must be created and started before it can report heartbeat."
      (heartbeat_current c worker) r

unfoldable pub handle_ticket_heartbeat :
    (depth : ℕ) → Call → (reported_by : String) → Repository → Result (Ack × Repository)
unfolding run_command decide_heartbeat
handle_ticket_heartbeat depth c worker =
    run_command depth c "ticket-heartbeat" (decide_heartbeat c worker)
