-- ===== src/Node/History.antt =====
-- How the node projections follow from the log: a node owes its state to the events that name it,
-- and to the last of them.
use boardroom_os.Base.{
  String, ◌≡◌, refl, ◌∙◌, Bool, false, Option, none, some, List, ◌∷◌, ◌++◌, arith, option_eq,
  text_eq, pair_eq, ◌==◌,
}
use boardroom_os.Base.Result.{Result, ok}
use boardroom_os.Base.All.{All, All-weaken, keep}
use boardroom_os.Base.Dict.{find_by, DistinctIds}
use boardroom_os.Field.{get}
use boardroom_os.Event.{EventType, ticket_completed, Event}
use boardroom_os.Projection.{rebuild, trace, touches, hits}
use boardroom_os.Projection.Rebuild.{
  rebuild-DistinctIds, rebuild-keep, rebuild_last, rebuild-Succeeds,
}
use boardroom_os.Node.{
  NodeStatus, completed, NodeBase, Node, NodeKey, key_of, NodeWrite, base_node_projection, settle,
  on_ticket, review_write, on_review, on_completed, in_workflow, plan_of, plan,
  rebuild_node_projections,
}
use boardroom_os.Node.Stamps.{status_given, review_requested, IsStamped, Stamps, plan_of-Stamps}
use boardroom_os.Node.Consistent.{IsEntry, plan-IsEntry}

-- The event is of the workflow and its payload names the node.
abbrev pub names_node : NodeKey → Event → Bool
names_node key e = (e.workflow_id, get e.payload.node_id) == key

on_ticket-misses :
    (change : Event → NodeBase → Option Node → Node) (e : Event) (key : NodeKey)
    → names_node key e ≡ false
    → hits key (on_ticket change e) ≡ false
unfolding on_ticket base_node_projection hits
on_ticket-misses change e key h = ground arith

on_review-misses :
    (change : Event → NodeBase → Option Node → Node) (e : Event) (key : NodeKey)
    → names_node key e ≡ false
    → hits key (on_review change e) ≡ false
unfolding on_review review_write base_node_projection hits
on_review-misses change e key h = ground arith

on_completed-misses :
    (e : Event) (key : NodeKey) → names_node key e ≡ false → hits key (on_completed e) ≡ false
unfolding on_completed hits
on_completed-misses e key h = ground (arith, on_ticket-misses (settle completed none) e key h)

plan_of-misses :
    (t : EventType) (e : Event) (key : NodeKey)
    → names_node key e ≡ false
    → hits key (plan_of t e) ≡ false
unfolding plan_of hits
plan_of-misses ticket_completed e key h = on_completed-misses e key h
plan_of-misses _ e key h = search (on_ticket-misses, on_review-misses)

in_workflow-misses :
    (w : Option String) (r : Result (Option NodeWrite)) (key : NodeKey)
    → hits key r ≡ false
    → hits key (in_workflow w r) ≡ false
unfolding hits
in_workflow-misses none r key h = refl
in_workflow-misses (some w) r key h = h

misses_unnamed : (key : NodeKey) (e : Event) → names_node key e ≡ false → touches plan key e ≡ false
unfolding touches plan
misses_unnamed key e h =
    in_workflow-misses e.workflow_id (plan_of e.event_type e) key
      (plan_of-misses e.event_type e key h)

-- `next(n for n in nodes if (n["workflow_id"], n["node_id"]) == key)`
abbrev pub node_of : NodeKey → List Node → Option Node
node_of = find_by key_of

-- After any log that can be read, no node is listed twice.
pub rebuild_node_projections-DistinctIds :
    (events : List Event) (nodes : List Node)
    → rebuild_node_projections events ≡ ok nodes
    → DistinctIds key_of nodes
unfolding rebuild_node_projections
rebuild_node_projections-DistinctIds =
    rebuild-DistinctIds plan key_of IsEntry (λ k n entry. entry.own_key) plan-IsEntry

-- In a log that can be read, the projection of a node is the one that the events which name it give
-- on their own.
pub rebuild_node_projections-keep :
    (key : NodeKey) (events : List Event) (nodes : List Node)
    → rebuild_node_projections events ≡ ok nodes
    → (own : List Node) × (rebuild_node_projections (keep (names_node key) events) ≡ ok own)
      × (node_of key own ≡ node_of key nodes)
unfolding rebuild_node_projections
rebuild_node_projections-keep key =
    rebuild-keep plan key_of IsEntry (λ k n entry. entry.own_key) plan-IsEntry key (names_node key)
      (misses_unnamed key)

last_write :
    (before after : List Event) (e : Event) (key : NodeKey) (s : NodeStatus) (nodes : List Node)
    → (w : Option NodeWrite) → plan e ≡ ok w
    → (e.workflow_id, get e.payload.node_id) ≡ key
    → Stamps e (some s) (ok w)
    → All (λ y. names_node key y ≡ false) after
    → rebuild plan (before ++ e ∷ after) ≡ ok nodes
    → (n : Node) × (node_of key nodes ≡ some n) × IsStamped e s n
last_write before after e key s nodes none p hk stamps others h = absurd stamps
last_write before after e key s nodes (some w) p hk stamps others h =
    let at : w.key ≡ key = stamps.0 ∙ hk in
    let misses : All (λ y. touches plan w.key y ≡ false) after =
      rw at (All-weaken _ _ (λ y q. misses_unnamed key y q) after others) in
    (
      w.update (trace plan w.key none before),
      rw (← at) (
          rebuild_last plan key_of IsEntry (λ k n entry. entry.own_key) plan-IsEntry before after e
            w nodes p misses h),
      stamps.1 _,
    )

in_workflow-Stamps :
    (e : Event) (s : NodeStatus) (o : Option String) (flow : String) (r : Result (Option NodeWrite))
    → o ≡ some flow
    → Stamps e (some s) r
    → Stamps e (some s) (in_workflow o r)
in_workflow-Stamps e s none flow r h stamps = absurd (cc)
in_workflow-Stamps e s (some _) flow r h stamps = stamps

plan-Stamps :
    (e : Event) (flow k n : String) (s : NodeStatus)
    → e.workflow_id ≡ some flow
    → get e.payload.ticket_id ≡ some k
    → get e.payload.node_id ≡ some n
    → status_given e.event_type (review_requested e) ≡ some s
    → Stamps e (some s) (plan e)
unfolding plan
plan-Stamps e flow k n s hw hk hn hs =
    in_workflow-Stamps e s e.workflow_id flow (plan_of e.event_type e) hw
      (rw hs at (plan_of-Stamps e k n hk hn e.event_type))

-- In a log that can be read, if the last event that names a node names a ticket and gives a status,
-- the node has that status, the ticket as its latest, and the event's time and version.
pub rebuild_node_projections_last :
    (before after : List Event) (e : Event) (flow k n : String) (s : NodeStatus) (nodes : List Node)
    → e.workflow_id ≡ some flow
    → get e.payload.ticket_id ≡ some k
    → get e.payload.node_id ≡ some n
    → status_given e.event_type (review_requested e) ≡ some s
    → All (λ y. names_node (some flow, some n) y ≡ false) after
    → rebuild_node_projections (before ++ e ∷ after) ≡ ok nodes
    → (m : Node) × (node_of (some flow, some n) nodes ≡ some m) × IsStamped e s m
unfolding rebuild_node_projections
rebuild_node_projections_last before after e flow k n s nodes hw hk hn hs others h =
    let (w, p) = rebuild-Succeeds plan before after e nodes h in
    last_write before after e (some flow, some n) s nodes w p (rw (hw, hn) refl)
      (rw p at (plan-Stamps e flow k n s hw hk hn hs)) others h
