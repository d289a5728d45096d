-- ===== src/Tests/Commands.antt =====
-- Commands, dependency gates and retries, each on a small database.
use boardroom_os.Base.{
  arith, ℕ, String, ◌≡◌, ◌≢◌, ◌↔◌, refl, Bool, true, none, some, List, [], ◌∷◌, text_eq, ◌≤◌,
}
use boardroom_os.Base.All.{All, any}
use boardroom_os.Base.Float.{Float, int_times}
use boardroom_os.Base.Result.{ok, ok_or}
use boardroom_os.Field.{value, absent}
use boardroom_os.Event.{EventType, ticket_created, employee_hired, iso, Payload, empty_payload}
use boardroom_os.Base.Dict
use boardroom_os.Projection
use boardroom_os.Projection.{project}
use boardroom_os.Ticket
use boardroom_os.Ticket.{rebuild_ticket_projections}
use boardroom_os.Node
use boardroom_os.Node.{Node, rebuild_node_projections}
use boardroom_os.Incident
use boardroom_os.Incident.{rebuild_incident_projections}
use boardroom_os.Employee
use boardroom_os.Employee.{rebuild_employee_projections}
use boardroom_os.Workflow.{rebuild_workflow_projections}
use boardroom_os.Ticket.State.{Ticket}
use boardroom_os.Repository.{Row, Tables, Repository, list_all_events, insert_event}
use boardroom_os.Repository.Refresh.{refresh_projections, tables_of}
use boardroom_os.Repository.Log.{IsFresh, UniqueKeys}
use boardroom_os.Repository.{get_current_ticket_projection}
use boardroom_os.Ticket.History.{ticket_of}
use boardroom_os.Handlers.Transaction.{
  Call, Ack, AckStatus, accepted, rejected, duplicate_ack, leased_until,
}
use boardroom_os.Handlers.Promises.{
  IsLeaseTaken, IsStarted, cancelled_from, handle-lease_accepted, handle-start_accepted,
  handle-cancel_accepted,
}
use boardroom_os.Handlers.Alive.{IsAlive, handle-heartbeat_accepted}
use boardroom_os.Gates.{
  dependencies, references, references_left, resolve_dependency_ticket_refs,
  dependency_gate_would_create_cycle, validate_ticket_dependency_gates,
}
use boardroom_os.Gates.Search.{SomeReaches}
use boardroom_os.Gates.Correct.{
  IsGate, dependency_gate_would_create_cycle_iff, validate_ticket_dependency_gates-IsGate,
}
use boardroom_os.Retry.{
  max, apply_timeout_backoff, calculate_failure_streak, calculate_timeout_streak,
}
use boardroom_os.Retry.Bounds.{after_retries, after_retries-bounds}
use boardroom_os.Retry.Chain.{calculate_streak_ends}
use boardroom_os.Handlers.Lease.{TicketLease}
use boardroom_os.Handlers.Cancel.{TicketCancel}
use boardroom_os.Handlers.Serve.{
  Command, lease, start, heartbeat, cancel, handle, after_transaction, serve,
}
use boardroom_os.Handlers.Kept.{handle_refused, serve_consistent, serve_again}

abbrev row : ℕ → EventType → (key : String) → Payload → Row
row n t key p = record {
  event = record {
    event_type = t;
    workflow_id = some "wf";
    occurred_at = n;
    sequence_no = n;
    payload = p;
  };
  actor_type = "system";
  actor_id = "system";
  idempotency_key = key;
  causation_id = none;
  correlation_id = none;
}

abbrev hired : Row
hired = row 1 employee_hired "hire" (record empty_payload {
  employee_id = value "ada";
  role_type = value "backend_engineer";
  board_approved = value true;
})

abbrev created : ℕ → (ticket : String) → Payload → Row
created n ticket p =
    row n ticket_created ticket (record p { ticket_id = value ticket; node_id = value "node" })

abbrev no_tables : Tables
no_tables = record { workflows = []; tickets = []; nodes = []; employees = []; incidents = [] }

abbrev unread : Repository
unread = record { rows = hired ∷ created 2 "tkt" empty_payload ∷ []; tables = no_tables }

-- A pending ticket and an active employee.
abbrev pub office : Repository
office = ok_or unread (refresh_projections 10 unread)

abbrev pub call : ℕ → (key : String) → Call
call now key = record {
  command_id = "cmd";
  received_at = now;
  workflow_id = "wf";
  ticket_id = "tkt";
  node_id = "node";
  idempotency_key = key;
}

abbrev by_ada : TicketLease
by_ada = record { leased_by = "ada"; lease_timeout_sec = 60 }

office-fresh : IsFresh 10 office
unfolding refresh_projections tables_of list_all_events rebuild_workflow_projections Dict.get
    rebuild_ticket_projections Projection.rebuild project Ticket.plan rebuild_node_projections
    Node.plan rebuild_incident_projections Incident.plan Dict.put rebuild_employee_projections
    Employee.plan
office-fresh = refl

-- The database after a command.
abbrev pub then_handle : Repository → Call → Command → Repository
then_handle r c x = after_transaction r (handle 10 [] c x r)

abbrev leased_office : Repository
leased_office = then_handle office (call 5 "lease") (lease by_ada)

abbrev started_office : Repository
started_office = then_handle leased_office (call 6 "start") (start "ada")

abbrev beating_office : Repository
beating_office = then_handle started_office (call 8 "beat") (heartbeat "ada")

abbrev pub by_boss : TicketCancel
by_boss = record { cancelled_by = "boss"; reason = "Not needed." }

abbrev cancelled_office : Repository
cancelled_office = then_handle started_office (call 7 "cancel") (cancel by_boss)

abbrev ack : (now : ℕ) (key : String) → Ack
ack now key = record {
  command_id = "cmd";
  idempotency_key = key;
  status = accepted;
  received_at = now;
  reason = none;
  causation_hint = "tkt";
}

abbrev by_bob : TicketLease
by_bob = record { leased_by = "bob"; lease_timeout_sec = 60 }

abbrev refused_office : Repository
refused_office = then_handle leased_office (call 6 "bob") (lease by_bob)

-- The answer to another worker while the lease is open.
abbrev refusal : Ack
refusal = record (ack 6 "bob") {
  status = rejected;
  reason = some (leased_until "tkt" (some "ada") (iso 60_000_005));
}

-- A lease, a start, a heartbeat and a cancellation are accepted, and a second worker is refused.
record Served : Type 0 where
  leases : handle 10 [] (call 5 "lease") (lease by_ada) office ≡ ok (ack 5 "lease", leased_office)
  starts :
      handle 10 [] (call 6 "start") (start "ada") leased_office ≡ ok (ack 6 "start", started_office)
  beats :
      handle 10 [] (call 8 "beat") (heartbeat "ada") started_office
      ≡ ok (ack 8 "beat", beating_office)
  cancels :
      handle 10 [] (call 7 "cancel") (cancel by_boss) started_office
      ≡ ok (ack 7 "cancel", cancelled_office)
  refuses : handle 10 [] (call 6 "bob") (lease by_bob) leased_office ≡ ok (refusal, refused_office)

served : Served
unfolding refresh_projections tables_of list_all_events rebuild_workflow_projections Dict.get
    rebuild_ticket_projections Projection.rebuild project Ticket.plan rebuild_node_projections
    Node.plan rebuild_incident_projections Incident.plan Dict.put rebuild_employee_projections
    Employee.plan handle after_transaction Dict.find_by insert_event
served = record { leases = refl; starts = refl; beats = refl; cancels = refl; refuses = refl }

handle-lease_accepted_example :
    (t u : Ticket) × IsLeaseTaken 10 []
      (call 5 "lease")
      office
      leased_office
      (ack 5 "lease")
      by_ada
      t
      u
handle-lease_accepted_example =
    handle-lease_accepted 10 [] (call 5 "lease") office leased_office (ack 5 "lease") by_ada
      served.leases refl

handle-start_accepted_example :
    (t u : Ticket) × IsStarted 10 []
      (call 6 "start")
      leased_office
      started_office
      (ack 6 "start")
      "ada"
      t
      u
handle-start_accepted_example =
    handle-start_accepted 10 [] (call 6 "start") leased_office started_office (ack 6 "start") "ada"
      served.starts refl

handle-heartbeat_accepted_example :
    (t : Ticket) × (n : Node) × (u : Ticket) × IsAlive 10 []
      (call 8 "beat")
      started_office
      beating_office
      (ack 8 "beat")
      "ada"
      t
      n
      u
handle-heartbeat_accepted_example =
    handle-heartbeat_accepted 10 [] (call 8 "beat") started_office beating_office (ack 8 "beat")
      "ada" served.beats refl

handle-cancel_accepted_example :
    (t u : Ticket) × (get_current_ticket_projection started_office "tkt" ≡ ok (some t))
    × (ticket_of (some "tkt") cancelled_office.tickets ≡ some u)
    × (cancelled_from t.status ≡ some u.status)
handle-cancel_accepted_example =
    handle-cancel_accepted 10 [] (call 7 "cancel") started_office cancelled_office (ack 7 "cancel")
      by_boss served.cancels refl

not_accepted : AckStatus.rejected ≢ accepted
not_accepted h = absurd (cc)

handle_refused_test : refused_office ≡ leased_office
handle_refused_test =
    handle_refused 10 [] (call 6 "bob") (lease by_bob) leased_office refused_office refusal
      served.refuses not_accepted

abbrev requests : List (Call × Command)
requests = (call 5 "lease", lease by_ada) ∷ (call 6 "bob", lease by_bob) ∷ []

office_unique : UniqueKeys office.rows
unfolding refresh_projections tables_of list_all_events rebuild_workflow_projections Dict.get
    rebuild_ticket_projections Projection.rebuild project Ticket.plan rebuild_node_projections
    Node.plan rebuild_incident_projections Incident.plan Dict.put rebuild_employee_projections
    Employee.plan
office_unique = ((refl, tt), (tt, tt))

serve_consistent_example :
    IsFresh 10 (serve 10 [] office requests) × UniqueKeys (serve 10 [] office requests).rows
serve_consistent_example = serve_consistent 10 [] office requests office-fresh office_unique

serve_again_example :
    handle 10 [] (call 9 "lease") (lease by_bob) (serve 10 [] leased_office requests)
    ≡ ok (duplicate_ack (call 9 "lease") "ticket-lease", serve 10 [] leased_office requests)
serve_again_example =
    serve_again 10 [] (call 5 "lease") (call 9 "lease") (lease by_ada) (lease by_bob) office
      leased_office (ack 5 "lease") requests served.leases refl refl (omega arith)

-- A ticket that may wait for the one that is there.
abbrev gates : List String
gates = "tkt" ∷ []

gates_valid : validate_ticket_dependency_gates office "wf" "new" gates ≡ ok none
unfolding refresh_projections tables_of list_all_events rebuild_workflow_projections Dict.get
    rebuild_ticket_projections Projection.rebuild project Ticket.plan rebuild_node_projections
    Node.plan rebuild_incident_projections Incident.plan Dict.put rebuild_employee_projections
    Employee.plan validate_ticket_dependency_gates Dict.find_by references references_left any
    resolve_dependency_ticket_refs
gates_valid = refl

validate_ticket_dependency_gates-IsGate_example :
    All (IsGate office "wf" "new") gates × (SomeReaches (dependencies office) "new" gates → ⊥)
validate_ticket_dependency_gates-IsGate_example =
    validate_ticket_dependency_gates-IsGate office "wf" "new" gates gates_valid

-- A ticket that waits for itself through another one.
abbrev pub waiting : (gate : String) → Payload
waiting gate = record empty_payload {
  dispatch_intent =
      value (record { assignee_employee_id = absent; dependency_gate_refs = some gate ∷ [] });
}

abbrev circle : Repository
circle = record {
  rows = created 1 "a" (waiting "b") ∷ created 2 "b" (waiting "c") ∷ [];
  tables = no_tables;
}

abbrev gates_of_c : List String
gates_of_c = "a" ∷ []

circle_found : dependency_gate_would_create_cycle circle "c" gates_of_c ≡ some true
unfolding dependency_gate_would_create_cycle references references_left any list_all_events
    resolve_dependency_ticket_refs
circle_found = refl

dependency_gate_would_create_cycle_iff_example :
    (b : Bool) × (dependency_gate_would_create_cycle circle "c" gates_of_c ≡ some b)
    × ((b ≡ true) ↔ SomeReaches (dependencies circle) "c" gates_of_c)
dependency_gate_would_create_cycle_iff_example =
    dependency_gate_would_create_cycle_iff circle "c" gates_of_c

-- Ten seconds, by 1.5 and up to twice as long.
abbrev half_more : Float
half_more = record { mantissa = 3; scale = 1 }

abbrev twice : Float
twice = record { mantissa = 2; scale = 0 }

third_retry : after_retries 3 10 10 half_more twice ≡ 20
unfolding apply_timeout_backoff
third_retry = refl

after_retries-bounds_example :
    (10 ≤ after_retries 3 10 10 half_more twice)
    × (after_retries 3 10 10 half_more twice ≤ after_retries 4 10 10 half_more twice)
    × (after_retries 3 10 10 half_more twice ≤ max 10 (int_times 10 twice))
after_retries-bounds_example = after_retries-bounds 3 10 10 half_more twice

calculate_streak_ends_example :
    ((n : ℕ) × (calculate_failure_streak circle "wf" "node" empty_payload "f" ≡ some n)
      × (1 ≤ n)
      × (n ≤ 3))
    × ((n : ℕ) × (calculate_timeout_streak circle "wf" "node" empty_payload ≡ some n)
        × (1 ≤ n)
        × (n ≤ 3))
calculate_streak_ends_example = calculate_streak_ends circle "wf" "node" empty_payload "f"
