-- ===== src/Node.antt =====
-- backend/app/core/reducer.py, `rebuild_node_projections`: the state of every workflow node, from the
-- log. A node is known by its workflow and its id, and points to the ticket that last worked on it.
pub mod Consistent
pub mod Stamps
pub mod History
pub mod Agreement
use boardroom_os.Base.{
  ℕ, String, Option, none, some, option_eq, text_eq, pair_eq, List, if◌then◌else◌,
}
use boardroom_os.Base.Result.{Result, ok, ◌>>=◌}
use boardroom_os.Field.{get, item, truthy}
use boardroom_os.Event.{
  EventType, ticket_created, ticket_leased, ticket_started, ticket_cancel_requested,
  ticket_cancelled, ticket_completed, ticket_failed, ticket_timed_out, board_review_required,
  board_review_approved, board_review_rejected, Timestamp, iso, Event,
}
use boardroom_os.Projection.{Write, rebuild}
use boardroom_os.Ticket.State.{BlockingReason, board_review_needed}
use boardroom_os.Ticket.Changes.{rejection_reason}

-- `NODE_STATUS_*`
pub data NodeStatus : Type 0 where
  pending executing cancel_requested cancelled completed : NodeStatus
  blocked_for_board_review rework_required : NodeStatus

-- The keys of `_base_node_projection`.
pub record NodeBase : Type 0 where
  pub workflow_id : Option String
  pub node_id : Option String
  pub latest_ticket_id : Option String
  pub blocking_reason_code : Option BlockingReason

pub record Node : Type 0 where
  pub base : NodeBase
  pub open base use *
  pub status : NodeStatus
  pub updated_at : Timestamp
  pub version : ℕ

-- `(workflow_id, node_id)`
abbrev pub NodeKey : Type 0
NodeKey = Option String × Option String

abbrev pub key_of : Node → NodeKey
key_of n = (n.workflow_id, n.node_id)

abbrev pub NodeWrite : Type 0
NodeWrite = Write NodeKey Node

unfoldable pub base_node_projection : Event → Result NodeBase
base_node_projection e = do
  node ← item "node_id" e.payload.node_id
  ticket ← item "ticket_id" e.payload.ticket_id
  ok (record {
    workflow_id = e.workflow_id;
    node_id = node;
    latest_ticket_id = ticket;
    blocking_reason_code = none;
  })

-- `{**base, ...}`, for TICKET_CREATED
unfoldable pub create : Event → NodeBase → Option Node → Node
create e base _ = record {
  base = base;
  status = pending;
  updated_at = iso e.occurred_at;
  version = e.sequence_no;
}

abbrev pub base_or : NodeBase → Option Node → NodeBase
base_or b none = b
base_or b (some n) = n.base

-- `{**projections.get(key, base), ...}`, for every other event
unfoldable pub settle : NodeStatus → Option BlockingReason → Event → NodeBase → Option Node → Node
settle s reason e base found = record {
  base = record (base_or base found) {
    latest_ticket_id = base.latest_ticket_id;
    blocking_reason_code = reason;
  };
  status = s;
  updated_at = iso e.occurred_at;
  version = e.sequence_no;
}

-- A ticket event: `payload["node_id"]` and `payload["ticket_id"]` have to be there.
unfoldable pub on_ticket :
    (Event → NodeBase → Option Node → Node) → Event → Result (Option NodeWrite)
unfolding base_node_projection
on_ticket change e = do
  node ← item "node_id" e.payload.node_id
  base ← base_node_projection e
  ok (some (record { key = (e.workflow_id, node); update = change e base }))

-- A board event: one with no ticket or no node changes nothing.
unfoldable pub review_write :
    (Event → NodeBase → Option Node → Node)
    → Event
    → (ticket_id node_id : Option String) → Result (Option NodeWrite)
unfolding base_node_projection
review_write change e (some _) (some node_id) = do
  base ← base_node_projection e
  ok (some (record { key = (e.workflow_id, some node_id); update = change e base }))
review_write change e _ _ = ok none

unfoldable pub on_review :
    (Event → NodeBase → Option Node → Node) → Event → Result (Option NodeWrite)
unfolding review_write
on_review change e = review_write change e (get e.payload.ticket_id) (get e.payload.node_id)

-- TICKET_COMPLETED: a result that goes to the board leaves the node to the board's events.
unfoldable pub on_completed : Event → Result (Option NodeWrite)
unfolding on_ticket settle
on_completed e =
    if truthy (get e.payload.board_review_requested)
    then ok none
    else on_ticket (settle completed none) e

unfoldable pub plan_of : EventType → Event → Result (Option NodeWrite)
unfolding on_ticket on_review on_completed create settle rejection_reason
plan_of ticket_created e = on_ticket create e
plan_of ticket_leased e = on_ticket (settle pending none) e
plan_of ticket_started e = on_ticket (settle executing none) e
plan_of ticket_cancel_requested e = on_ticket (settle cancel_requested none) e
plan_of ticket_cancelled e = on_ticket (settle cancelled none) e
plan_of ticket_completed e = on_completed e
plan_of ticket_failed e = on_ticket (settle rework_required none) e
plan_of ticket_timed_out e = on_ticket (settle rework_required none) e
plan_of board_review_required e =
    on_review (settle blocked_for_board_review (some board_review_needed)) e
plan_of board_review_approved e = on_review (settle completed none) e
plan_of board_review_rejected e =
    on_review (settle rework_required (some (rejection_reason e.payload))) e
plan_of _ e = ok none

-- `if workflow_id is None: continue`
abbrev in_workflow : Option String → Result (Option NodeWrite) → Result (Option NodeWrite)
in_workflow none r = ok none
in_workflow (some _) r = r

unfoldable pub plan : Event → Result (Option NodeWrite)
unfolding plan_of
plan e = in_workflow e.workflow_id (plan_of e.event_type e)

unfoldable pub rebuild_node_projections : List Event → Result (List Node)
rebuild_node_projections = rebuild plan
