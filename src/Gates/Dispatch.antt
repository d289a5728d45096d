-- ===== src/Gates/Dispatch.antt =====
-- backend/app/core/ticket_handlers.py, `_evaluate_dispatch_dependency_gates`: whether the gates of a
-- ticket let the scheduler lease it.
use boardroom_os.Base.{
  String, Bool, true, false, not, Option, none, some, List, [], ◌∷◌, if◌then◌else◌,
}
use boardroom_os.Base.Result.{Result, ok, ◌>>=◌}
use boardroom_os.Event.{Payload}
use boardroom_os.Ticket.State.{TicketStatus, completed, failed, timed_out, cancelled, Ticket}
use boardroom_os.Repository.{Repository, get_current_ticket_projection}
use boardroom_os.Gates.{resolve_dependency_gate_refs}

-- What the code gives to `_build_failure_payload`.
pub data GateFailure : Type 0 where
  gate_missing : (dependency_ticket_id : String) → GateFailure
  gate_unhealthy : (dependency_ticket_id : String) → TicketStatus → GateFailure

-- `DEPENDENCY_TERMINAL_FAILURE_STATUSES`
abbrev pub is_terminal_failure : TicketStatus → Bool
is_terminal_failure failed = true
is_terminal_failure timed_out = true
is_terminal_failure cancelled = true
is_terminal_failure _ = false

abbrev pub is_completed : TicketStatus → Bool
is_completed completed = true
is_completed _ = false

-- One round of the loop on the ticket that it has found; `rest` is what the further rounds give.
unfoldable pub gate_round :
    (gate : String)
    → Option Ticket
    → (rest : Result (Bool × Option GateFailure)) → Result (Bool × Option GateFailure)
gate_round gate none rest = ok (false, some (gate_missing gate))
gate_round gate (some t) rest =
    if is_terminal_failure t.status
    then ok (false, some (gate_unhealthy gate t.status))
    else if not (is_completed t.status)
    then ok (false, none)
    else rest

unfoldable pub evaluate_gates : Repository → List String → Result (Bool × Option GateFailure)
unfolding gate_round get_current_ticket_projection
evaluate_gates r [] = ok (true, none)
evaluate_gates r (gate ∷ gates) =
    let rest = evaluate_gates r gates in
    get_current_ticket_projection r gate >>= λ found. gate_round gate found rest

unfoldable pub evaluate_dispatch_dependency_gates :
    Repository → (created_spec : Payload) → Result (Bool × Option GateFailure)
unfolding evaluate_gates resolve_dependency_gate_refs
evaluate_dispatch_dependency_gates r spec = evaluate_gates r (resolve_dependency_gate_refs spec)
