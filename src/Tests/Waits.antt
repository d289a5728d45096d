-- ===== src/Tests/Waits.antt =====
-- Runs of `_evaluate_dispatch_dependency_gates` (backend/app/core/ticket_handlers.py).
use boardroom_os.Base.{◌≡◌, refl, ◌↔◌, true, false, none, some}
use mathlib.Core.List.{Memᴰ}
use boardroom_os.Base.All.{All}
use boardroom_os.Base.Dict
use boardroom_os.Base.Result.{ok}
use boardroom_os.Projection
use boardroom_os.Projection.{project}
use boardroom_os.Ticket
use boardroom_os.Ticket.State.{cancelled}
use boardroom_os.Ticket.{rebuild_ticket_projections}
use boardroom_os.Node
use boardroom_os.Node.{rebuild_node_projections}
use boardroom_os.Incident
use boardroom_os.Incident.{rebuild_incident_projections}
use boardroom_os.Employee
use boardroom_os.Employee.{rebuild_employee_projections}
use boardroom_os.Workflow.{rebuild_workflow_projections}
use boardroom_os.Repository.{Repository, insert_event, list_all_events}
use boardroom_os.Repository.Refresh.{refresh_projections, tables_of}
use boardroom_os.Handlers.Serve.{cancel, handle, after_transaction}
use boardroom_os.Gates.{resolve_dependency_gate_refs}
use boardroom_os.Gates.Dispatch.{gate_unhealthy, evaluate_dispatch_dependency_gates}
use boardroom_os.Gates.Ready.{
  IsCompletedGate, IsBroken, gate_of, evaluate_dispatch_dependency_gates_iff,
  evaluate_dispatch_dependency_gates-IsBroken,
}
use boardroom_os.Tests.Commands.{call, office, by_boss, then_handle, waiting}

-- The ticket that the other one waits for is cancelled.
abbrev dropped : Repository
dropped = then_handle office (call 5 "cancel") (cancel by_boss)

-- A pending gate holds the ticket back, and a cancelled one makes it fail.
record Held : Type 0 where
  waits : evaluate_dispatch_dependency_gates office (waiting "tkt") ≡ ok (false, none)
  fails :
      evaluate_dispatch_dependency_gates dropped (waiting "tkt")
      ≡ ok (false, some (gate_unhealthy "tkt" cancelled))

held : Held
unfolding refresh_projections tables_of list_all_events rebuild_workflow_projections Dict.get
    rebuild_ticket_projections Projection.rebuild project Ticket.plan rebuild_node_projections
    Node.plan rebuild_incident_projections Incident.plan Dict.put rebuild_employee_projections
    Employee.plan handle after_transaction Dict.find_by insert_event
    evaluate_dispatch_dependency_gates
held = record { waits = refl; fails = refl }

evaluate_dispatch_dependency_gates_iff_example :
    (evaluate_dispatch_dependency_gates office (waiting "tkt") ≡ ok (true, none))
    ↔ All (IsCompletedGate office) (resolve_dependency_gate_refs (waiting "tkt"))
evaluate_dispatch_dependency_gates_iff_example =
    evaluate_dispatch_dependency_gates_iff office (waiting "tkt")

evaluate_dispatch_dependency_gates-IsBroken_example :
    (false ≡ false)
    × Memᴰ (gate_of (gate_unhealthy "tkt" cancelled)) (resolve_dependency_gate_refs (waiting "tkt"))
    × IsBroken dropped (gate_unhealthy "tkt" cancelled)
evaluate_dispatch_dependency_gates-IsBroken_example =
    evaluate_dispatch_dependency_gates-IsBroken dropped false (gate_unhealthy "tkt" cancelled)
      (waiting "tkt") held.fails
