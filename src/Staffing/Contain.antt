-- ===== src/Staffing/Contain.antt =====
-- backend/app/core/staffing_containment.py, `contain_employee_active_tickets`: a leased ticket of the
-- employee is created anew without the employee; a running one is asked to stop, and an incident
-- with an open circuit breaker is recorded for it.
use Prim.Native.String.{◌++◌}
use boardroom_os.Base.{
  ℕ, ◌+◌, String, Bool, true, false, not, Option, none, some, List, [], ◌∷◌, ◌==◌, text_eq,
  if◌then◌else◌,
}
use mathlib.Core.List
use boardroom_os.Base.All.{keep}
use boardroom_os.Event.{
  EventType, ticket_created, ticket_cancel_requested, incident_opened, circuit_breaker_opened, iso,
}
use boardroom_os.Field.{text, str}
use boardroom_os.Ticket.State.{TicketStatus, Ticket, leased, executing, cancel_requested}
use boardroom_os.Staffing.Dedupe.{dedupe_string_values}
use boardroom_os.Staffing.Log.{
  ContainmentContext, contained, CreatedPayload, StaffingPayload, created, cancel_request, incident,
  breaker, StoredEvent, Store, insert_event, get_latest_ticket_created_payload,
}

-- The arguments that every call passes on.
pub record Request : Type 0 where
  pub employee_id : String
  pub action_kind : String
  pub reason : String
  pub replacement_employee_id : Option String
  pub occurred_at : ℕ
  pub command_id : String
  pub idempotency_key_base : String

abbrev pub staffing_router : String
staffing_router = "staffing-router"

unfoldable pub build_staffing_containment_context : Request → ContainmentContext
build_staffing_containment_context r = record {
  employee_id = some r.employee_id;
  action_kind = some r.action_kind;
  reason = some r.reason;
  replacement_employee_id = r.replacement_employee_id;
  contained_at = some (iso r.occurred_at);
}

-- A row that the router writes about a ticket.
unfoldable pub router_event :
    (command_id : String) (occurred_at : ℕ) (key : String)
    → EventType
    → Ticket
    → StaffingPayload
    → StoredEvent
router_event command at key type ticket payload = record {
  event_type = type;
  actor_type = "system";
  actor_id = staffing_router;
  workflow_id = some (str ticket.workflow_id);
  idempotency_key = key;
  causation_id = some command;
  correlation_id = some (str ticket.workflow_id);
  payload = payload;
  occurred_at = at;
}

-- `list(created_spec.get("excluded_employee_ids") or []) + [employee_id]`, without repeats
unfoldable pub exclude : String → List (Option String) → List String
unfolding dedupe_string_values
exclude employee ids = dedupe_string_values (mathlib.Core.List.◌++◌ ids (some employee ∷ []))

unfoldable pub requeued_payload : Request → CreatedPayload → CreatedPayload
unfolding exclude build_staffing_containment_context
requeued_payload r p = record p {
  excluded_employee_ids =
      mathlib.Core.List.map some (exclude r.employee_id p.excluded_employee_ids);
  staffing_containment = contained (build_staffing_containment_context r);
}

-- `if created_spec is None: return`
unfoldable pub requeue_with : Request → Ticket → Option CreatedPayload → Store → Store
unfolding requeued_payload insert_event router_event
requeue_with r ticket none s = s
requeue_with r ticket (some p) s =
    insert_event
      (router_event r.command_id r.occurred_at
        (r.idempotency_key_base ++ ":requeue:" ++ str ticket.ticket_id) ticket_created ticket
        (created (requeued_payload r p)))
      s

unfoldable pub requeue_leased_ticket : Request → Ticket → Store → Store
unfolding requeue_with get_latest_ticket_created_payload
requeue_leased_ticket r ticket s =
    requeue_with r ticket (get_latest_ticket_created_payload s (str ticket.ticket_id)) s

abbrev pub is_executing : TicketStatus → Bool
is_executing executing = true
is_executing _ = false

abbrev pub is_leased : TicketStatus → Bool
is_leased leased = true
is_leased _ = false

unfoldable pub request_stop : Request → Ticket → Store → Store
unfolding insert_event router_event build_staffing_containment_context
request_stop r ticket s =
    if is_executing ticket.status
    then insert_event
        (router_event r.command_id r.occurred_at
          (r.idempotency_key_base ++ ":cancel-requested:" ++ str ticket.ticket_id)
          ticket_cancel_requested ticket
          (cancel_request (record {
            ticket_id = str ticket.ticket_id;
            node_id = str ticket.node_id;
            cancelled_by = staffing_router;
            reason = r.reason;
            staffing_containment = build_staffing_containment_context r;
          })))
        s
    else s

unfoldable pub containment_fingerprint : Request → Ticket → String
containment_fingerprint r ticket =
    str ticket.workflow_id
    ++ ":"
    ++ str ticket.node_id
    ++ ":staffing-containment:"
    ++ str ticket.ticket_id
    ++ ":"
    ++ r.employee_id

abbrev pub is_held : TicketStatus → Bool
is_held leased = true
is_held executing = true
is_held cancel_requested = true
is_held _ = false

-- `new_prefixed_id("inc")` is the `n`-th random id that is drawn.
module _ (new_prefixed_id : (prefix : String) (n : ℕ) → String) where
  unfoldable pub record_incident : Request → Ticket → Store → Store
  unfolding insert_event router_event containment_fingerprint build_staffing_containment_context
  record_incident r ticket s =
      let incident_id = new_prefixed_id "inc" s.drawn in
      let fingerprint = containment_fingerprint r ticket in
      let context = build_staffing_containment_context r in
      let opened =
        insert_event
          (router_event r.command_id r.occurred_at
            (r.idempotency_key_base ++ ":incident-opened:" ++ str ticket.ticket_id) incident_opened
            ticket
            (incident (record {
              incident_id = incident_id;
              incident_type = "STAFFING_CONTAINMENT";
              status = "OPEN";
              severity = "high";
              fingerprint = fingerprint;
              node_id = str ticket.node_id;
              ticket_id = str ticket.ticket_id;
              containment = context;
            })))
          (record s { drawn = s.drawn + 1 }) in
      insert_event
        (router_event r.command_id r.occurred_at
          (r.idempotency_key_base ++ ":breaker-opened:" ++ str ticket.ticket_id)
          circuit_breaker_opened ticket
          (breaker (record {
            incident_id = incident_id;
            circuit_breaker_state = "OPEN";
            fingerprint = fingerprint;
            node_id = str ticket.node_id;
            ticket_id = str ticket.ticket_id;
            containment = context;
          })))
        opened

  unfoldable pub contain_inflight_ticket : Request → Ticket → Store → Store
  unfolding request_stop record_incident
  contain_inflight_ticket r ticket s = record_incident r ticket (request_stop r ticket s)

  -- One pass of the loop.
  unfoldable pub contain_ticket : Request → Ticket → Store → Store
  unfolding requeue_leased_ticket contain_inflight_ticket
  contain_ticket r ticket s =
      if not (text ticket.lease_owner == r.employee_id)
      then s
      else if is_leased ticket.status
      then requeue_leased_ticket r ticket s
      else contain_inflight_ticket r ticket s

  unfoldable pub contain_all : Request → List Ticket → Store → Store
  unfolding contain_ticket
  contain_all r [] s = s
  contain_all r (t ∷ ts) s = contain_all r ts (contain_ticket r t s)

  -- `tickets` are the rows of `ticket_projection` in the order of the query.
  unfoldable pub contain_employee_active_tickets : Request → (tickets : List Ticket) → Store → Store
  unfolding contain_all keep
  contain_employee_active_tickets r tickets s =
      contain_all r (keep (λ t. is_held t.status) tickets) s
