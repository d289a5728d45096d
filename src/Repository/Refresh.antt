-- ===== src/Repository/Refresh.antt =====
-- backend/app/db/repository.py, `refresh_projections`: the five tables are written anew from the log.
use boardroom_os.Base.{ℕ, Bool, true, false, ◌&&◌, Option, none, some, List, [], ◌∷◌, if◌then◌else◌}
use boardroom_os.Base.Result.{Result, ok, raise, integrity_error, ◌>>=◌}
use boardroom_os.Event.{Event}
use boardroom_os.Ticket.State.{Ticket}
use boardroom_os.Ticket.{rebuild_ticket_projections}
use boardroom_os.Node.{Node, rebuild_node_projections}
use boardroom_os.Employee.{Employee, rebuild_employee_projections}
use boardroom_os.Incident.{Incident, rebuild_incident_projections}
use boardroom_os.Workflow.Loop.{Workflow}
use boardroom_os.Workflow.{rebuild_workflow_projections}
use boardroom_os.Repository.{Repository, Tables, list_all_events}

-- A column that is NOT NULL.
abbrev pub filled {ℓ} : {A : Type ℓ} → Option A → Bool
filled none = false
filled (some a) = true

-- DELETE, and then an INSERT for each projection, which raises `IntegrityError` where a column that
-- is NOT NULL is given None.
unfoldable pub replace_rows {ℓ} : {A : Type ℓ} → (A → Bool) → List A → Result (List A)
replace_rows p [] = ok []
replace_rows p (a ∷ rest) =
    let others = replace_rows p rest in
    if p a then (others >>= λ done. ok (a ∷ done)) else raise integrity_error

unfoldable pub workflow_row : Workflow → Bool
workflow_row w =
    filled w.title
    && filled w.north_star_goal
    && filled w.workflow_profile
    && filled w.tenant_id
    && filled w.workspace_id
    && filled w.budget_total

unfoldable pub ticket_row : Ticket → Bool
ticket_row t =
    filled t.workflow_id
    && filled t.node_id
    && filled t.tenant_id
    && filled t.workspace_id
    && filled t.retry_count

unfoldable pub node_row : Node → Bool
node_row n = filled n.workflow_id && filled n.node_id && filled n.latest_ticket_id

unfoldable pub employee_row : Employee → Bool
employee_row v = true

unfoldable pub incident_row : Incident → Bool
incident_row i =
    filled i.workflow_id
    && filled i.incident_type
    && filled i.status
    && filled i.fingerprint
    && filled i.opened_at

-- A table is replaced by what is rebuilt, if that does not raise.
unfoldable pub replace_all {ℓ} : {A : Type ℓ} → (A → Bool) → Result (List A) → Result (List A)
unfolding replace_rows
replace_all p (ok as') = replace_rows p as'
replace_all p (raise x) = raise x

-- `depth` bounds the recursion of the workflow projections.
unfoldable pub tables_of : (depth : ℕ) → List Event → Result Tables
unfolding replace_all workflow_row ticket_row node_row employee_row incident_row
tables_of depth events = do
  workflows ← replace_all workflow_row (rebuild_workflow_projections depth events)
  tickets ← replace_all ticket_row (rebuild_ticket_projections events)
  nodes ← replace_all node_row (rebuild_node_projections events)
  employees ← replace_all employee_row (rebuild_employee_projections events)
  incidents ← replace_all incident_row (rebuild_incident_projections events)
  ok (record {
    workflows = workflows;
    tickets = tickets;
    nodes = nodes;
    employees = employees;
    incidents = incidents;
  })

unfoldable pub refresh_projections : (depth : ℕ) → Repository → Result Repository
unfolding list_all_events tables_of
refresh_projections depth r = do
  written ← tables_of depth (list_all_events r)
  ok (record r { tables = written })
