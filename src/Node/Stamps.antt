-- ===== src/Node/Stamps.antt =====
-- The stamp that an event leaves at its node: the status, the time, the number and the ticket.
use boardroom_os.Base.{
  String, ◌≡◌, refl, sym, ap, Bool, true, false, Option, none, some, option_eq, text_eq, pair_eq,
}
use boardroom_os.Base.Result.{Result, ok, raise, ◌>>=◌}
use boardroom_os.Field.{item, get, item-eq-get, truthy}
use boardroom_os.Event.{
  EventType, ticket_created, ticket_leased, ticket_started, ticket_cancel_requested,
  ticket_cancelled, ticket_completed, ticket_failed, ticket_timed_out, board_review_required,
  board_review_approved, board_review_rejected, Event, iso,
}
use boardroom_os.Ticket.State.{BlockingReason, board_review_needed}
use boardroom_os.Ticket.Changes.{rejection_reason}
use boardroom_os.Node.{
  NodeStatus, pending, executing, cancel_requested, cancelled, completed, blocked_for_board_review,
  rework_required, NodeBase, Node, NodeWrite, base_node_projection, create, settle, on_ticket,
  review_write, on_review, on_completed, plan_of,
}
use boardroom_os.Node.Consistent.{base_node_projection_keys}

-- The status that an event of a type gives its node. A completed ticket whose result goes to the
-- board gives none.
abbrev pub status_given : EventType → Bool → Option NodeStatus
status_given ticket_created _ = some pending
status_given ticket_leased _ = some pending
status_given ticket_started _ = some executing
status_given ticket_cancel_requested _ = some cancel_requested
status_given ticket_cancelled _ = some cancelled
status_given ticket_completed true = none
status_given ticket_completed false = some completed
status_given ticket_failed _ = some rework_required
status_given ticket_timed_out _ = some rework_required
status_given board_review_required _ = some blocked_for_board_review
status_given board_review_approved _ = some completed
status_given board_review_rejected _ = some rework_required
status_given _ _ = none

abbrev pub review_requested : Event → Bool
review_requested e = truthy (get e.payload.board_review_requested)

-- What an event with a status leaves at its node.
pub record IsStamped (e : Event) (s : NodeStatus) (n : Node) : Type 0 where
  pub status : n.status ≡ s
  pub updated_at : n.updated_at ≡ iso e.occurred_at
  pub version : n.version ≡ e.sequence_no
  pub latest_ticket_id : n.latest_ticket_id ≡ get e.payload.ticket_id

abbrev pub Stamps : Event → Option NodeStatus → Result (Option NodeWrite) → Type 0
Stamps e none r = Unit
Stamps e (some s) (ok (some w)) =
    (w.key ≡ (e.workflow_id, get e.payload.node_id))
    × ((o : Option Node) → IsStamped e s (w.update o))
Stamps e (some s) (ok none) = ⊥
Stamps e (some s) (raise x) = Unit

abbrev pub StampsAt : Event → NodeStatus → (Event → NodeBase → Option Node → Node) → Type 0
StampsAt e s change =
    (b : NodeBase) (o : Option Node)
    → b.latest_ticket_id ≡ get e.payload.ticket_id
    → IsStamped e s (change e b o)

Stamps-bind :
    {A : Type 0} (e : Event) (s : NodeStatus) (m : Result A) (f : A → Result (Option NodeWrite))
    → ((a : A) → m ≡ ok a → Stamps e (some s) (f a))
    → Stamps e (some s) (m >>= f)
Stamps-bind e s (ok a) f h = h a refl
Stamps-bind e s (raise x) f h = tt

create-Stamps : (e : Event) → StampsAt e pending create
unfolding create
create-Stamps e b o h = record {
  status = refl;
  updated_at = refl;
  version = refl;
  latest_ticket_id = h;
}

settle-Stamps : (e : Event) (s : NodeStatus) (r : Option BlockingReason) → StampsAt e s (settle s r)
unfolding settle
settle-Stamps e s r b o h = record {
  status = refl;
  updated_at = refl;
  version = refl;
  latest_ticket_id = h;
}

on_ticket-Stamps :
    (change : Event → NodeBase → Option Node → Node) (e : Event) (s : NodeStatus)
    → StampsAt e s change
    → Stamps e (some s) (on_ticket change e)
unfolding on_ticket
on_ticket-Stamps change e s h = Stamps-bind e s (item "node_id" e.payload.node_id) _ λ n got.
    Stamps-bind e s (base_node_projection e) _ λ b made. (
      ap (λ (m : Option String). (e.workflow_id, m))
          (item-eq-get "node_id" e.payload.node_id n got),
      λ o. h b o (base_node_projection_keys e b made).2,
    )

on_review-Stamps :
    (change : Event → NodeBase → Option Node → Node) (e : Event) (s : NodeStatus) (k n : String)
    → get e.payload.ticket_id ≡ some k
    → get e.payload.node_id ≡ some n
    → StampsAt e s change
    → Stamps e (some s) (on_review change e)
unfolding on_review review_write
on_review-Stamps change e s k n hk hn h =
    rw (hk, hn)
      (Stamps-bind e s (base_node_projection e) _ λ b made. (
        ap (λ (m : Option String). (e.workflow_id, m)) (sym hn),
        λ o. h b o (base_node_projection_keys e b made).2,
      ))

module _ (e : Event) (k n : String) (hk : get e.payload.ticket_id ≡ some k)
    (hn : get e.payload.node_id ≡ some n) where
  on_completed-Stamps :
      (asked : Bool)
      → review_requested e ≡ asked
      → Stamps e (status_given ticket_completed asked) (on_completed e)
  unfolding on_completed
  on_completed-Stamps true h = tt
  on_completed-Stamps false h =
      rw h (on_ticket-Stamps (settle completed none) e _ (settle-Stamps e completed none))

  pub plan_of-Stamps :
      (t : EventType) → Stamps e (status_given t (review_requested e)) (plan_of t e)
  unfolding plan_of
  plan_of-Stamps ticket_created = on_ticket-Stamps create e _ (create-Stamps e)
  plan_of-Stamps ticket_leased =
      on_ticket-Stamps (settle pending none) e _ (settle-Stamps e pending none)
  plan_of-Stamps ticket_started =
      on_ticket-Stamps (settle executing none) e _ (settle-Stamps e executing none)
  plan_of-Stamps ticket_cancel_requested =
      on_ticket-Stamps (settle cancel_requested none) e _ (settle-Stamps e cancel_requested none)
  plan_of-Stamps ticket_cancelled =
      on_ticket-Stamps (settle cancelled none) e _ (settle-Stamps e cancelled none)
  plan_of-Stamps ticket_completed = on_completed-Stamps (review_requested e) refl
  plan_of-Stamps ticket_failed =
      on_ticket-Stamps (settle rework_required none) e _ (settle-Stamps e rework_required none)
  plan_of-Stamps ticket_timed_out =
      on_ticket-Stamps (settle rework_required none) e _ (settle-Stamps e rework_required none)
  plan_of-Stamps board_review_required =
      on_review-Stamps (settle blocked_for_board_review (some board_review_needed)) e _ k n hk hn
        (settle-Stamps e blocked_for_board_review (some board_review_needed))
  plan_of-Stamps board_review_approved =
      on_review-Stamps (settle completed none) e _ k n hk hn (settle-Stamps e completed none)
  plan_of-Stamps board_review_rejected =
      on_review-Stamps (settle rework_required (some (rejection_reason e.payload))) e _ k n hk hn
        (settle-Stamps e rework_required (some (rejection_reason e.payload)))
  plan_of-Stamps _ = tt
