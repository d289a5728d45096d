-- ===== src/Ticket/Changes.antt =====
-- backend/app/core/reducer.py, `rebuild_ticket_projections`: what each event writes for its ticket,
-- given the base projection and the projection that is there, if any.
use boardroom_os.Base.{
  ℕ, String, Option, none, some, ◌==◌, option_eq, text_eq, ◌+◌, ◌*◌, if◌then◌else◌,
}
use boardroom_os.Field.{get, get_or}
use boardroom_os.Base.Result.{Result, ok, ◌>>=◌}
use boardroom_os.Event.{Timestamp, iso, seconds, plus_seconds, Payload, Event}
use boardroom_os.Ticket.State.{
  TicketStatus, pending, leased, executing, cancel_requested, cancelled, BlockingReason,
  board_rejected, modify_constraints, TicketBase, Ticket, found_key, base_or, scope, scope_previous,
}

-- The keys `status`, `updated_at` and `version`.
abbrev pub stamp : TicketStatus → Event → TicketBase → Ticket
stamp s e b = record {
  base = b;
  status = s;
  updated_at = iso e.occurred_at;
  version = e.sequence_no;
}

-- No lease: what every branch writes that ends or suspends an execution.
abbrev pub release : TicketBase → TicketBase
release b = record b {
  lease_owner = none;
  lease_expires_at = none;
  started_at = none;
  last_heartbeat_at = none;
  heartbeat_expires_at = none;
}

abbrev pub failure : Option String → Option String → Option String → TicketBase → TicketBase
failure kind message fingerprint b = record b {
  last_failure_kind = kind;
  last_failure_message = message;
  last_failure_fingerprint = fingerprint;
}

abbrev pub block : Option BlockingReason → TicketBase → TicketBase
block reason b = record b { blocking_reason_code = reason }

unfoldable pub lease : Event → Option String → TicketBase → Option Ticket → Ticket
unfolding scope
lease e node base found = stamp leased e (
    block none (
      failure (found_key (λ t. t.last_failure_kind) found)
        (found_key (λ t. t.last_failure_message) found)
        (found_key (λ t. t.last_failure_fingerprint) found)
        (record (scope e node found (base_or base found)) {
          lease_owner = get e.payload.leased_by;
          lease_expires_at = get e.payload.lease_expires_at;
          heartbeat_timeout_sec =
              get_or e.payload.lease_timeout_sec (found_key (λ t. t.heartbeat_timeout_sec) found);
        })))

-- `event["occurred_at"] + timedelta(seconds=heartbeat_timeout_sec)`, if there is a timeout. Where the
-- sum raises, `computed_expiry` does, and this value is not written.
abbrev pub expiry : ℕ → Option ℕ → Option Timestamp
expiry now none = none
expiry now (some n) = some (iso (now + n * seconds))

unfoldable pub computed_expiry : (occurred_at : ℕ) → Option ℕ → Result (Option Timestamp)
unfolding plus_seconds
computed_expiry now none = ok none
computed_expiry now (some n) = plus_seconds now n >>= λ t. ok (some t)

unfoldable pub start : Event → Option String → TicketBase → Option Ticket → Ticket
unfolding scope_previous
start e node base found =
    let previous = base_or base found in
    stamp executing e (
      block none (record (scope_previous e node previous) {
        started_at = some (iso e.occurred_at);
        last_heartbeat_at = some (iso e.occurred_at);
        heartbeat_expires_at = expiry e.occurred_at previous.heartbeat_timeout_sec;
      }))

-- The expiry that a heartbeat names, or the one that the timeout of the lease gives.
abbrev pub heartbeat_expiry : Option Timestamp → ℕ → Option ℕ → Option Timestamp
heartbeat_expiry (some t) now timeout = some t
heartbeat_expiry none now timeout = expiry now timeout

unfoldable pub computed_heartbeat_expiry :
    Option Timestamp → (occurred_at : ℕ) → Option ℕ → Result (Option Timestamp)
unfolding computed_expiry
computed_heartbeat_expiry (some t) now timeout = ok (some t)
computed_heartbeat_expiry none now timeout = computed_expiry now timeout

unfoldable pub record_heartbeat : Event → Option String → TicketBase → Option Ticket → Ticket
unfolding scope_previous
record_heartbeat e node base found =
    let previous = base_or base found in
    stamp executing e (
      block none (record (scope_previous e node previous) {
        last_heartbeat_at = some (iso e.occurred_at);
        heartbeat_expires_at =
            heartbeat_expiry (get e.payload.heartbeat_expires_at) e.occurred_at
              previous.heartbeat_timeout_sec;
      }))

unfoldable pub request_cancel : Event → Option String → TicketBase → Option Ticket → Ticket
unfolding scope_previous
request_cancel e node base found =
    stamp cancel_requested e (block none (scope_previous e node (base_or base found)))

unfoldable pub cancel : Event → Option String → TicketBase → Option Ticket → Ticket
unfolding scope_previous
cancel e node base found =
    stamp cancelled e (block none (release (scope_previous e node (base_or base found))))

-- TICKET_COMPLETED and the three board reviews: the lease ends and no failure is kept.
unfoldable pub settle :
    TicketStatus
    → Option BlockingReason
    → Event
    → Option String
    → TicketBase
    → Option Ticket
    → Ticket
unfolding scope
settle s reason e node base found =
    stamp s e
      (block reason (failure none none none (release (scope e node found (base_or base found)))))

-- TICKET_FAILED and TICKET_TIMED_OUT: the lease ends and the failure is recorded.
unfoldable pub fail : TicketStatus → Event → Option String → TicketBase → Option Ticket → Ticket
unfolding scope
fail s e node base found = stamp s e (
    block none (
      failure (get e.payload.failure_kind) (get e.payload.failure_message)
        (get e.payload.failure_fingerprint) (release (scope e node found (base_or base found)))))

unfoldable pub rejection_reason : Payload → BlockingReason
rejection_reason p =
    if get p.decision_action == some "MODIFY_CONSTRAINTS"
    then modify_constraints
    else board_rejected

unfoldable pub create : Event → Option String → TicketBase → Option Ticket → Ticket
create e _ base _ = stamp pending e (failure none none none base)
