-- ===== src/Ticket/State.antt =====
-- backend/app/core/reducer.py: the record of a ticket, `_base_ticket_projection` and
-- `_resolve_scope`.
use boardroom_os.Base.{ℕ, String, Option, none, some, option_eq, text_eq}
use boardroom_os.Base.Result.{Result, ok, ◌>>=◌}
use boardroom_os.Field.{get, get_or, item, str, or_else}
use boardroom_os.Event.{Timestamp, Payload, Event}

-- `TICKET_STATUS_*`
pub data TicketStatus : Type 0 where
  pending leased executing cancel_requested cancelled completed failed timed_out : TicketStatus
  blocked_for_board_review rework_required : TicketStatus

-- `BLOCKING_REASON_*`
pub data BlockingReason : Type 0 where
  board_review_needed board_rejected modify_constraints : BlockingReason

-- The keys of `_base_ticket_projection`.
pub record TicketBase : Type 0 where
  pub ticket_id : Option String
  pub workflow_id : Option String
  pub node_id : Option String
  pub tenant_id : Option String
  pub workspace_id : Option String
  pub lease_owner : Option String
  pub lease_expires_at : Option Timestamp
  pub started_at : Option Timestamp
  pub last_heartbeat_at : Option Timestamp
  pub heartbeat_expires_at : Option Timestamp
  pub heartbeat_timeout_sec : Option ℕ
  pub retry_count : Option ℕ
  pub retry_budget : Option ℕ
  pub timeout_sla_sec : Option ℕ
  pub priority : Option String
  pub last_failure_kind : Option String
  pub last_failure_message : Option String
  pub last_failure_fingerprint : Option String
  pub blocking_reason_code : Option BlockingReason

-- A projection: the keys above, and the three that every branch writes.
pub record Ticket : Type 0 where
  pub base : TicketBase
  pub open base use *
  pub status : TicketStatus
  pub updated_at : Timestamp
  pub version : ℕ

abbrev pub default_tenant_id : String
default_tenant_id = "tenant_default"

abbrev pub default_workspace_id : String
default_workspace_id = "ws_default"

unfoldable pub base_ticket_projection : Event → Result TicketBase
base_ticket_projection e = do
  ticket ← item "ticket_id" e.payload.ticket_id
  node ← item "node_id" e.payload.node_id
  ok (record {
    ticket_id = ticket;
    workflow_id = e.workflow_id;
    node_id = node;
    tenant_id = get_or e.payload.tenant_id (some default_tenant_id);
    workspace_id = get_or e.payload.workspace_id (some default_workspace_id);
    lease_owner = none;
    lease_expires_at = none;
    started_at = none;
    last_heartbeat_at = none;
    heartbeat_expires_at = none;
    heartbeat_timeout_sec = none;
    retry_count = get_or e.payload.retry_count (some 0);
    retry_budget = get e.payload.retry_budget;
    timeout_sla_sec = get e.payload.timeout_sla_sec;
    priority = get e.payload.priority;
    last_failure_kind = none;
    last_failure_message = none;
    last_failure_fingerprint = none;
    blocking_reason_code = none;
  })

-- A key of `projections.get(ticket_id, {})`.
abbrev pub found_key {ℓ} : {A : Type ℓ} → (Ticket → Option A) → Option Ticket → Option A
found_key f none = none
found_key f (some t) = f t

-- `_resolve_scope`, given the tenant and the workspace of the previous projection.
unfoldable pub resolve_scope : Payload → Option String → Option String → String × String
resolve_scope p tenant workspace = (
  str (or_else (or_else (get p.tenant_id) tenant) (some default_tenant_id)),
  str (or_else (or_else (get p.workspace_id) workspace) (some default_workspace_id)),
)

-- `{**projections.get(ticket_id, base), ...}`
abbrev pub base_or : TicketBase → Option Ticket → TicketBase
base_or b none = b
base_or b (some t) = t.base

-- The keys `workflow_id`, `node_id`, `tenant_id` and `workspace_id`, where the scope comes from
-- `projections.get(ticket_id)`.
unfoldable pub scope : Event → Option String → Option Ticket → TicketBase → TicketBase
unfolding resolve_scope
scope e node found b =
    let (tenant, workspace) =
      resolve_scope e.payload (found_key (λ t. t.tenant_id) found)
        (found_key (λ t. t.workspace_id) found) in
    record b {
      workflow_id = e.workflow_id;
      node_id = node;
      tenant_id = some tenant;
      workspace_id = some workspace;
    }

-- The same, where it comes from `projections.get(ticket_id, base)`.
unfoldable pub scope_previous : Event → Option String → TicketBase → TicketBase
unfolding resolve_scope
scope_previous e node b =
    let (tenant, workspace) = resolve_scope e.payload b.tenant_id b.workspace_id in
    record b {
      workflow_id = e.workflow_id;
      node_id = node;
      tenant_id = some tenant;
      workspace_id = some workspace;
    }
