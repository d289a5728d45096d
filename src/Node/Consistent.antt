-- ===== src/Node/Consistent.antt =====
-- What holds of every node projection, after any log.
use boardroom_os.Base.{
  String, ◌≡◌, refl, sym, ◌∙◌, inl, inr, Bool-cases, ◌⊎◌, Option, none, some, List, arith,
  option_eq, text_eq, pair_eq,
}
use boardroom_os.Base.Result.{Result, ok}
use boardroom_os.Base.All.{All}
use boardroom_os.Field.{item, get, item-eq-get, truthy}
use boardroom_os.Event.{
  EventType, ticket_created, ticket_leased, ticket_started, ticket_cancel_requested,
  ticket_cancelled, ticket_completed, ticket_failed, ticket_timed_out, board_review_required,
  board_review_approved, board_review_rejected, Event,
}
use boardroom_os.Ticket.State.{
  BlockingReason, board_review_needed, board_rejected, modify_constraints,
}
use boardroom_os.Ticket.Changes.{rejection_reason}
use boardroom_os.Projection.Laws.{Was, Writes, Writes-bind}
use boardroom_os.Projection.Rebuild.{rebuild-All}
use boardroom_os.Node.{
  NodeStatus, pending, executing, cancel_requested, cancelled, completed, blocked_for_board_review,
  rework_required, NodeBase, Node, NodeKey, key_of, NodeWrite, base_node_projection, create, settle,
  on_ticket, review_write, on_review, on_completed, in_workflow, plan_of, plan,
  rebuild_node_projections,
}

-- A reason stands at a node exactly while the board is to decide or has refused. A failed or timed
-- out ticket asks for rework with no reason.
abbrev pub FitsReason : NodeStatus → Option BlockingReason → Type 0
FitsReason blocked_for_board_review r = r ≡ some board_review_needed
FitsReason rework_required r =
    (r ≡ none) ⊎ ((r ≡ some board_rejected) ⊎ (r ≡ some modify_constraints))
FitsReason _ r = r ≡ none

-- The entry of a key: the projection of that node, with a reason that fits its status.
pub record IsEntry (key : NodeKey) (n : Node) : Type 0 where
  pub own_key : key_of n ≡ key
  pub reason : FitsReason n.status n.blocking_reason_code

abbrev Keeps : Event → (Event → NodeBase → Option Node → Node) → Type 0
Keeps e change =
    (key : NodeKey) (b : NodeBase)
    → (b.workflow_id, b.node_id) ≡ key
    → b.blocking_reason_code ≡ none
    → (o : Option Node) → Was IsEntry key o
    → IsEntry key (change e b o)

pair_path : {a b c d : Option String} → a ≡ b → c ≡ d → ◌≡◌ {A = NodeKey} (a, c) (b, d)
pair_path p q = ground arith

create-Keeps : (e : Event) → Keeps e create
unfolding create
create-Keeps e key b own unblocked o was = record { own_key = own; reason = unblocked }

settle-Keeps :
    (e : Event) (s : NodeStatus) (r : Option BlockingReason) → FitsReason s r → Keeps e (settle s r)
unfolding settle
settle-Keeps e s r fits key b own _ none was = record { own_key = own; reason = fits }
settle-Keeps e s r fits key b own _ (some n) was = record { own_key = was.own_key; reason = fits }

pub base_node_projection_keys :
    (e : Event) (b : NodeBase)
    → base_node_projection e ≡ ok b
    → (b.workflow_id ≡ e.workflow_id)
      × (b.node_id ≡ get e.payload.node_id)
      × (b.latest_ticket_id ≡ get e.payload.ticket_id)
      × (b.blocking_reason_code ≡ none)
unfolding base_node_projection
base_node_projection_keys e b h = ground arith

on_ticket-Writes :
    (change : Event → NodeBase → Option Node → Node) (e : Event)
    → Keeps e change
    → Writes IsEntry (on_ticket change e)
unfolding on_ticket
on_ticket-Writes change e keeps = Writes-bind IsEntry (item "node_id" e.payload.node_id) _ λ n got.
    Writes-bind IsEntry (base_node_projection e) _ λ b made.
      let (flow, at, _, unblocked) = base_node_projection_keys e b made in
      keeps (e.workflow_id, n) b
        (pair_path flow (at ∙ sym (item-eq-get "node_id" e.payload.node_id n got))) unblocked

review_write-Writes :
    (change : Event → NodeBase → Option Node → Node) (e : Event)
    → Keeps e change
    → (ticket n : Option String) → get e.payload.node_id ≡ n
    → Writes IsEntry (review_write change e ticket n)
unfolding review_write
review_write-Writes change e keeps (some ticket) (some n) got =
    Writes-bind IsEntry (base_node_projection e) _ λ b made.
      let (flow, at, _, unblocked) = base_node_projection_keys e b made in
      keeps (e.workflow_id, some n) b (pair_path flow (at ∙ got)) unblocked
review_write-Writes change e keeps none _ got = tt
review_write-Writes change e keeps (some ticket) none got = tt

on_review-Writes :
    (change : Event → NodeBase → Option Node → Node) (e : Event)
    → Keeps e change
    → Writes IsEntry (on_review change e)
unfolding on_review
on_review-Writes change e keeps = review_write-Writes change e keeps _ _ refl

on_completed-Writes : (e : Event) → Writes IsEntry (on_completed e)
unfolding on_completed
on_completed-Writes e = elim (Bool-cases (truthy (get e.payload.board_review_requested))) [
  | inl asked ↦ rw asked tt
  | inr free ↦
      rw free (on_ticket-Writes (settle completed none) e (settle-Keeps e completed none refl))
]

rejection_reason-FitsReason :
    (e : Event) → FitsReason rework_required (some (rejection_reason e.payload))
unfolding rejection_reason
rejection_reason-FitsReason e = ground arith

plan_of-Writes : (t : EventType) (e : Event) → Writes IsEntry (plan_of t e)
unfolding plan_of
plan_of-Writes ticket_created e = on_ticket-Writes create e (create-Keeps e)
plan_of-Writes ticket_leased e =
    on_ticket-Writes (settle pending none) e (settle-Keeps e pending none refl)
plan_of-Writes ticket_started e =
    on_ticket-Writes (settle executing none) e (settle-Keeps e executing none refl)
plan_of-Writes ticket_cancel_requested e =
    on_ticket-Writes (settle cancel_requested none) e (settle-Keeps e cancel_requested none refl)
plan_of-Writes ticket_cancelled e =
    on_ticket-Writes (settle cancelled none) e (settle-Keeps e cancelled none refl)
plan_of-Writes ticket_completed e = on_completed-Writes e
plan_of-Writes ticket_failed e =
    on_ticket-Writes (settle rework_required none) e
      (settle-Keeps e rework_required none (inl refl))
plan_of-Writes ticket_timed_out e =
    on_ticket-Writes (settle rework_required none) e
      (settle-Keeps e rework_required none (inl refl))
plan_of-Writes board_review_required e =
    on_review-Writes (settle blocked_for_board_review (some board_review_needed)) e
      (settle-Keeps e blocked_for_board_review _ refl)
plan_of-Writes board_review_approved e =
    on_review-Writes (settle completed none) e (settle-Keeps e completed none refl)
plan_of-Writes board_review_rejected e =
    on_review-Writes (settle rework_required (some (rejection_reason e.payload))) e
      (settle-Keeps e rework_required _ (rejection_reason-FitsReason e))
plan_of-Writes _ e = tt

in_workflow-Writes :
    (w : Option String) (r : Result (Option NodeWrite))
    → Writes IsEntry r
    → Writes IsEntry (in_workflow w r)
in_workflow-Writes none r h = tt
in_workflow-Writes (some w) r h = h

pub plan-IsEntry : (e : Event) → Writes IsEntry (plan e)
unfolding plan
plan-IsEntry e = in_workflow-Writes e.workflow_id _ (plan_of-Writes e.event_type e)

-- After any log that can be read, every node has a blocking reason that fits its status.
pub rebuild_node_projections-FitsReason :
    (events : List Event) (nodes : List Node)
    → rebuild_node_projections events ≡ ok nodes
    → All (λ n. FitsReason n.status n.blocking_reason_code) nodes
unfolding rebuild_node_projections
rebuild_node_projections-FitsReason =
    rebuild-All plan IsEntry (λ n. FitsReason n.status n.blocking_reason_code)
      (λ k n entry. entry.reason) plan-IsEntry
