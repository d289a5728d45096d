-- ===== src/Workflow/Loop.antt =====
-- backend/app/core/reducer.py, the first loop of `rebuild_workflow_projections`: the workflows of the
-- log, the specs of their tickets, the ticket and node states that the loop keeps for itself, and the
-- counts of open approvals and incidents.
use boardroom_os.Base.{
  ℕ, ◌+◌, ◌-◌, String, Bool, true, false, Option, none, some, List, [], text_eq, option_eq, pair_eq,
  if◌then◌else◌,
}
use boardroom_os.Base.Result.{Result, ok, ◌>>=◌, replay}
use boardroom_os.Base.Dict
use boardroom_os.Base.Dict.{Dict, put, get_or}
use boardroom_os.Field.{get, item, str, or_else, truthy}
use boardroom_os.Field as Field
use boardroom_os.Spec.{CreatedSpec}
use boardroom_os.Event.{
  EventType, workflow_created, ticket_created, ticket_leased, ticket_started,
  ticket_cancel_requested, ticket_cancelled, ticket_completed, ticket_failed, ticket_timed_out,
  board_review_required, board_review_approved, board_review_rejected, incident_opened,
  incident_closed, Timestamp, iso, spec_of, Event,
}
use boardroom_os.Ticket.State.{TicketStatus, default_tenant_id, default_workspace_id}
use boardroom_os.Node.{NodeStatus}

pub record Workflow : Type 0 where
  pub workflow_id : Option String
  pub title : Option String
  pub north_star_goal : Option String
  pub workflow_profile : Option String
  pub tenant_id : Option String
  pub workspace_id : Option String
  pub current_stage : String
  pub status : String
  pub budget_total : Option ℕ
  pub budget_used : ℕ
  pub board_gate_state : String
  pub deadline_at : Option Timestamp
  pub started_at : Timestamp
  pub updated_at : Timestamp
  pub version : ℕ

pub record TicketState : Type 0 where
  pub ticket_id : String
  pub workflow_id : Option String
  pub node_id : String
  pub status : TicketStatus
  pub updated_at : ℕ

pub record NodeState : Type 0 where
  pub workflow_id : Option String
  pub node_id : String
  pub latest_ticket_id : String
  pub status : NodeStatus
  pub updated_at : ℕ

pub record Loop : Type 0 where
  pub projections : Dict (Option String) Workflow
  pub created_specs : Dict String CreatedSpec
  pub ticket_states : Dict String TicketState
  pub node_states : Dict (Option String × String) NodeState
  pub open_approvals : Dict (Option String) ℕ
  pub open_incidents : Dict (Option String) ℕ

abbrev pub start : Loop
start = record {
  projections = [];
  created_specs = [];
  ticket_states = [];
  node_states = [];
  open_approvals = [];
  open_incidents = [];
}

abbrev pub default_workflow_stage : String
default_workflow_stage = "project_init"

abbrev pub default_workflow_status : String
default_workflow_status = "EXECUTING"

unfoldable pub create_workflow : Event → Loop → Result Loop
create_workflow e s = do
  goal ← item "north_star_goal" e.payload.north_star_goal
  cap ← item "budget_cap" e.payload.budget_cap
  ok (record s {
    projections =
        put e.workflow_id
          (record {
            workflow_id = e.workflow_id;
            title = or_else (get e.payload.title) goal;
            north_star_goal = goal;
            workflow_profile = or_else (get e.payload.workflow_profile) (some "STANDARD");
            tenant_id = Field.get_or e.payload.tenant_id (some default_tenant_id);
            workspace_id = Field.get_or e.payload.workspace_id (some default_workspace_id);
            current_stage = default_workflow_stage;
            status = default_workflow_status;
            budget_total = cap;
            budget_used = 0;
            board_gate_state = "UNREQUESTED";
            deadline_at = get e.payload.deadline_at;
            started_at = iso e.occurred_at;
            updated_at = iso e.occurred_at;
            version = e.sequence_no;
          })
          s.projections;
    open_approvals = put e.workflow_id 0 s.open_approvals;
    open_incidents = put e.workflow_id 0 s.open_incidents;
  })

-- `{**ticket_state_by_id.get(ticket_id, {...}), "status": ..., "updated_at": ...}`
unfoldable pub track_ticket : TicketStatus → Event → (ticket node_id : String) → Loop → Loop
track_ticket status e ticket node_id s =
    let known =
      get_or ticket
        (record {
          ticket_id = ticket;
          workflow_id = e.workflow_id;
          node_id = node_id;
          status = status;
          updated_at = e.occurred_at;
        })
        s.ticket_states in
    record s {
      ticket_states =
          put ticket (record known { status = status; updated_at = e.occurred_at }) s.ticket_states;
    }

unfoldable pub track_node : NodeStatus → Event → (ticket node_id : String) → Loop → Loop
track_node status e ticket node_id s =
    let known =
      get_or (e.workflow_id, node_id)
        (record {
          workflow_id = e.workflow_id;
          node_id = node_id;
          latest_ticket_id = ticket;
          status = status;
          updated_at = e.occurred_at;
        })
        s.node_states in
    record s {
      node_states =
          put (e.workflow_id, node_id)
            (record known {
              latest_ticket_id = ticket;
              status = status;
              updated_at = e.occurred_at;
            })
            s.node_states;
    }

unfoldable pub track : TicketStatus → NodeStatus → Event → String → String → Loop → Loop
unfolding track_ticket track_node
track t n e ticket node_id s = track_node n e ticket node_id (track_ticket t e ticket node_id s)

-- TICKET_CREATED: both states anew, and the payload as the ticket's spec.
unfoldable pub create_ticket : Event → String → String → Loop → Loop
create_ticket e ticket node_id s = record s {
  created_specs = put ticket (spec_of e.payload) s.created_specs;
  ticket_states =
      put ticket
        (record {
          ticket_id = ticket;
          workflow_id = e.workflow_id;
          node_id = node_id;
          status = TicketStatus.pending;
          updated_at = e.occurred_at;
        })
        s.ticket_states;
  node_states =
      put (e.workflow_id, node_id)
        (record {
          workflow_id = e.workflow_id;
          node_id = node_id;
          latest_ticket_id = ticket;
          status = NodeStatus.pending;
          updated_at = e.occurred_at;
        })
        s.node_states;
}

-- `str(payload["ticket_id"])` and `str(payload["node_id"])`
unfoldable pub with_ids : (String → String → Loop → Loop) → Event → Loop → Result Loop
with_ids change e s = do
  ticket ← item "ticket_id" e.payload.ticket_id
  node ← item "node_id" e.payload.node_id
  ok (change (str ticket) (str node) s)

unfoldable pub complete_ticket : Event → String → String → Loop → Loop
unfolding track_ticket track_node
complete_ticket e ticket node_id s =
    let tracked = track_ticket TicketStatus.completed e ticket node_id s in
    if truthy (get e.payload.board_review_requested)
    then tracked
    else track_node NodeStatus.completed e ticket node_id tracked

unfoldable pub add_approval : Event → Loop → Loop
add_approval e s = record s {
  open_approvals = put e.workflow_id (get_or e.workflow_id 0 s.open_approvals + 1) s.open_approvals;
}

-- `max(count - 1, 0)`
unfoldable pub drop_approval : Event → Loop → Loop
drop_approval e s = record s {
  open_approvals = put e.workflow_id (get_or e.workflow_id 0 s.open_approvals - 1) s.open_approvals;
}

-- BOARD_REVIEW_REQUIRED with no ticket or no node is passed over; a decision on it still takes one
-- off the count.
unfoldable pub require_review : Event → Option String → Option String → Loop → Loop
unfolding track add_approval
require_review e (some ticket) (some node_id) s = add_approval e (
    track TicketStatus.blocked_for_board_review NodeStatus.blocked_for_board_review e ticket node_id
      s)
require_review e _ _ s = s

unfoldable pub decide_review :
    TicketStatus → NodeStatus → Event → Option String → Option String → Loop → Loop
unfolding track drop_approval
decide_review t n e (some ticket) (some node_id) s = drop_approval e (track t n e ticket node_id s)
decide_review t n e _ _ s = drop_approval e s

unfoldable pub add_incident : Event → Loop → Loop
add_incident e s = record s {
  open_incidents = put e.workflow_id (get_or e.workflow_id 0 s.open_incidents + 1) s.open_incidents;
}

unfoldable pub drop_incident : Event → Loop → Loop
drop_incident e s = record s {
  open_incidents = put e.workflow_id (get_or e.workflow_id 0 s.open_incidents - 1) s.open_incidents;
}

unfoldable pub on_event : EventType → Event → Loop → Result Loop
unfolding with_ids create_ticket track complete_ticket require_review decide_review add_incident
    drop_incident
on_event ticket_created e s = with_ids (create_ticket e) e s
on_event ticket_leased e s = with_ids (track TicketStatus.leased NodeStatus.pending e) e s
on_event ticket_started e s = with_ids (track TicketStatus.executing NodeStatus.executing e) e s
on_event ticket_cancel_requested e s =
    with_ids (track TicketStatus.cancel_requested NodeStatus.cancel_requested e) e s
on_event ticket_cancelled e s = with_ids (track TicketStatus.cancelled NodeStatus.cancelled e) e s
on_event ticket_completed e s = with_ids (complete_ticket e) e s
on_event ticket_failed e s = with_ids (track TicketStatus.failed NodeStatus.rework_required e) e s
on_event ticket_timed_out e s =
    with_ids (track TicketStatus.timed_out NodeStatus.rework_required e) e s
on_event board_review_required e s =
    ok (require_review e (get e.payload.ticket_id) (get e.payload.node_id) s)
on_event board_review_approved e s = ok (
    decide_review TicketStatus.completed NodeStatus.completed e (get e.payload.ticket_id)
      (get e.payload.node_id) s)
on_event board_review_rejected e s = ok (
    decide_review TicketStatus.rework_required NodeStatus.rework_required e
      (get e.payload.ticket_id) (get e.payload.node_id) s)
on_event incident_opened e s = ok (add_incident e s)
on_event incident_closed e s = ok (drop_incident e s)
on_event _ e s = ok s

-- `projection["updated_at"] = ...; projection["version"] = ...`
unfoldable pub touch_workflow : Event → Workflow → Loop → Loop
touch_workflow e p s = record s {
  projections =
      put e.workflow_id (record p { updated_at = iso e.occurred_at; version = e.sequence_no })
        s.projections;
}

-- `if workflow_id is None or workflow_id not in projections: continue`
unfoldable pub in_known_workflow : Option String → Event → Loop → Result Loop
unfolding on_event touch_workflow
in_known_workflow none e s = ok s
in_known_workflow (some w) e s = elim (Dict.get (some w) s.projections) [
  | none ↦ ok s
  | some p ↦ on_event e.event_type e (touch_workflow e p s)
]

abbrev pub is_creation : EventType → Bool
is_creation workflow_created = true
is_creation _ = false

unfoldable pub loop_step : Loop → Event → Result Loop
unfolding create_workflow in_known_workflow
loop_step s e =
    if is_creation e.event_type then create_workflow e s else in_known_workflow e.workflow_id e s

unfoldable pub run_loop : List Event → Result Loop
unfolding loop_step replay
run_loop events = replay loop_step start events
