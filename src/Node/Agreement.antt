-- ===== src/Node/Agreement.antt =====
-- The node table against the ticket table: the two are rebuilt by separate loops over the same log.
use boardroom_os.Base.{
  String, ◌≡◌, refl, sym, ap, ◌∙◌, Bool, true, false, Option, none, some, List, ◌∷◌, ◌++◌,
  option_eq, text_eq, pair_eq,
}
use mathlib.Core.Option.{some_inj}
use boardroom_os.Base.Result.{ok}
use boardroom_os.Base.All.{All}
use boardroom_os.Field.{get}
use boardroom_os.Event.{EventType, Event, ticket_created, ticket_completed}
use boardroom_os.Ticket.State.{TicketStatus, Ticket}
use boardroom_os.Ticket.Stamps as TicketStamps
use boardroom_os.Ticket.History.{names_ticket, ticket_of, rebuild_ticket_projections_last}
use boardroom_os.Ticket.{rebuild_ticket_projections}
use boardroom_os.Node.{
  NodeStatus, pending, executing, cancel_requested, cancelled, completed, blocked_for_board_review,
  rework_required, Node, rebuild_node_projections,
}
use boardroom_os.Node.Stamps as NodeStamps
use boardroom_os.Node.Stamps.{review_requested}
use boardroom_os.Node.History.{names_node, node_of, rebuild_node_projections_last}

-- How a node shows the status of its latest ticket.
abbrev pub shown : TicketStatus → NodeStatus
shown TicketStatus.pending = pending
shown TicketStatus.leased = pending
shown TicketStatus.executing = executing
shown TicketStatus.cancel_requested = cancel_requested
shown TicketStatus.cancelled = cancelled
shown TicketStatus.completed = completed
shown TicketStatus.failed = rework_required
shown TicketStatus.timed_out = rework_required
shown TicketStatus.blocked_for_board_review = blocked_for_board_review
shown TicketStatus.rework_required = rework_required

-- Where an event gives a node a status, it is the one that shows what it gives the ticket.
abbrev Shows : Option NodeStatus → Option TicketStatus → Type 0
Shows none r = Unit
Shows (some s) none = ⊥
Shows (some s) (some r) = s ≡ shown r

status_given-Shows :
    (t : EventType) (asked : Bool)
    → Shows (NodeStamps.status_given t asked) (TicketStamps.status_given t)
status_given-Shows ticket_completed true = tt
status_given-Shows ticket_completed false = refl
status_given-Shows ticket_created asked = refl
status_given-Shows _ asked = first_of (search refl, search tt)

Shows-value :
    (given : Option NodeStatus) (r : Option TicketStatus) (s : NodeStatus)
    → Shows given r
    → given ≡ some s
    → (q : TicketStatus) × (r ≡ some q) × (s ≡ shown q)
Shows-value none r s h p = absurd (cc)
Shows-value (some s') none s h p = absurd h
Shows-value (some s') (some q) s h p = (q, refl, some_inj.0 (sym p) ∙ h)

-- In a log that can be read, if the last event that names a node is also the last that names its ticket, and gives the node a
-- status, then the two tables agree: the node points to the ticket, shows its status, and has the
-- time and version of the same event.
pub node-ticket_agree :
    (before after : List Event) (e : Event) (flow k n : String) (s : NodeStatus)
    (tickets : List Ticket) (nodes : List Node)
    → e.workflow_id ≡ some flow
    → get e.payload.ticket_id ≡ some k
    → get e.payload.node_id ≡ some n
    → NodeStamps.status_given e.event_type (review_requested e) ≡ some s
    → All (λ y. names_ticket (some k) y ≡ false) after
    → All (λ y. names_node (some flow, some n) y ≡ false) after
    → rebuild_ticket_projections (before ++ e ∷ after) ≡ ok tickets
    → rebuild_node_projections (before ++ e ∷ after) ≡ ok nodes
    → (t : Ticket) × (m : Node) × (ticket_of (some k) tickets ≡ some t)
      × (node_of (some flow, some n) nodes ≡ some m)
      × (m.status ≡ shown t.status)
      × (m.latest_ticket_id ≡ some k)
      × (t.node_id ≡ some n)
      × (m.version ≡ t.version)
      × (m.updated_at ≡ t.updated_at)
node-ticket_agree before after e flow k n s tickets nodes hw hk hn hs tickets_done nodes_done ht
      hm =
    let (q, given, same) =
      Shows-value _ _ s (status_given-Shows e.event_type (review_requested e)) hs in
    let (t, at, st) =
      rebuild_ticket_projections_last before after e k n q tickets hk hn given tickets_done ht in
    let (m, there, sm) =
      rebuild_node_projections_last before after e flow k n s nodes hw hk hn hs nodes_done hm in
    (
      t,
      m,
      at,
      there,
      sm.status ∙ (same ∙ ap shown (sym st.status)),
      sm.latest_ticket_id ∙ hk,
      st.node_id ∙ hn,
      sm.version ∙ sym st.version,
      sm.updated_at ∙ sym st.updated_at,
    )
