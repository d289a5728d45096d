-- ===== src/Completion/Closeout.antt =====
-- backend/app/core/workflow_completion.py, `resolve_workflow_closeout_completion`: the ticket whose
-- closeout package completes a workflow, if the workflow is complete.
use Prim.Native.String.{compare as compare_text}
use package.text.Mathlib.Text.{is_lt}
use boardroom_os.Base.{
  ℕ, String, Bool, true, false, not, ◌&&◌, ◌||◌, Option, none, some, List, [], ◌∷◌, ◌==◌, text_eq,
  nat_eq, if◌then◌else◌, ltb, leb,
}
use boardroom_os.Base.Result.{Result, ok, ◌>>=◌}
use boardroom_os.Base.All.{any}
use boardroom_os.Base.Dict.{Dict, get}
use boardroom_os.Base.Max.{max_by}
use boardroom_os.Field.{text}
use boardroom_os.Spec.{CreatedSpec}
use boardroom_os.Event.{EventType, ticket_completed}
use boardroom_os.Ticket.State.{
  TicketStatus, pending, leased, executing, cancel_requested, blocked_for_board_review,
  rework_required,
}
use boardroom_os.Node.{NodeStatus}
use boardroom_os.Completion.Rows.{Moment, datetime, other_text, TicketRow, NodeRow, TerminalEvent}
use boardroom_os.Completion.Stage.{Specs, schema_ref, workflow_has_evidence}

pub record CloseoutCompletion : Type 0 where
  pub closeout_ticket : TicketRow
  pub closeout_terminal_event : TerminalEvent

-- `(occurred_at, ticket_id, ticket, terminal_event)`
pub record Candidate : Type 0 where
  pub occurred_at : ℕ
  pub ticket_id : String
  pub ticket : TicketRow
  pub terminal_event : TerminalEvent

abbrev pub Terminals : Type 0
Terminals = Dict String (Option TerminalEvent)

abbrev pub delivery_closeout_package : String
delivery_closeout_package = "delivery_closeout_package"

-- `status in ACTIVE_TICKET_STATUSES`
abbrev pub is_active : TicketStatus → Bool
is_active pending = true
is_active leased = true
is_active executing = true
is_active blocked_for_board_review = true
is_active rework_required = true
is_active cancel_requested = true
is_active _ = false

abbrev pub is_completed : NodeStatus → Bool
is_completed NodeStatus.completed = true
is_completed _ = false

abbrev pub is_completion : EventType → Bool
is_completion ticket_completed = true
is_completion _ = false

abbrev pub id_of : TicketRow → String
id_of t = text t.projection.ticket_id

abbrev pub not_after : Moment → ℕ → Bool
not_after (datetime t) limit = leb t limit
not_after (other_text s) limit = false

-- `_is_redundant_active_closeout_ticket`
unfoldable pub is_redundant : TicketRow → TicketRow → ℕ → Option CreatedSpec → Bool
is_redundant ticket closeout completed_at spec =
    if id_of ticket == id_of closeout
    then false
    else if not (is_active ticket.projection.status)
    then false
    else if not (text ticket.projection.node_id == text closeout.projection.node_id)
    then false
    else if not (schema_ref spec == delivery_closeout_package)
    then false
    else not_after ticket.updated_at completed_at

-- What one pass of the loop over the tickets appends.
unfoldable pub completion_candidate : TicketRow → Option (Option TerminalEvent) → Option Candidate
completion_candidate ticket (some (some event)) =
    if is_completion event.event_type
    then some (record {
      occurred_at = event.occurred_at;
      ticket_id = id_of ticket;
      ticket = ticket;
      terminal_event = event;
    })
    else none
completion_candidate ticket _ = none

unfoldable pub candidate_of : Specs → Terminals → TicketRow → Option Candidate
unfolding completion_candidate
candidate_of specs terminals ticket =
    if schema_ref (get (id_of ticket) specs) == delivery_closeout_package
    then completion_candidate ticket (get (id_of ticket) terminals)
    else none

abbrev pub push {ℓ} : {A : Type ℓ} → Option A → List A → List A
push none xs = xs
push (some a) xs = a ∷ xs

unfoldable pub closeout_candidates : Specs → Terminals → List TicketRow → List Candidate
unfolding candidate_of
closeout_candidates specs terminals [] = []
closeout_candidates specs terminals (t ∷ ts) =
    push (candidate_of specs terminals t) (closeout_candidates specs terminals ts)

-- `(a.occurred_at, a.ticket_id) < (b.occurred_at, b.ticket_id)`
unfoldable pub earlier : Candidate → Candidate → Bool
earlier a b =
    if a.occurred_at == b.occurred_at
    then is_lt (compare_text a.ticket_id b.ticket_id)
    else ltb a.occurred_at b.occurred_at

-- An active ticket that is not redundant keeps the workflow open.
unfoldable pub keeps_open : Specs → Candidate → TicketRow → Bool
unfolding is_redundant
keeps_open specs best t =
    is_active t.projection.status
    && not (is_redundant t best.ticket best.occurred_at (get (id_of t) specs))

unfoldable pub close_with : Specs → List TicketRow → List Candidate → Option CloseoutCompletion
unfolding keeps_open max_by earlier any
close_with specs tickets [] = none
close_with specs tickets (c ∷ cs) =
    let best = max_by earlier c cs in
    if any (keeps_open specs best) tickets
    then none
    else some
        (record { closeout_ticket = best.ticket; closeout_terminal_event = best.terminal_event })

-- `not nodes or any(node.status != "COMPLETED" for node in nodes)`
unfoldable pub nodes_incomplete : List NodeRow → Bool
unfolding any
nodes_incomplete [] = true
nodes_incomplete nodes = any (λ n. not (is_completed n.projection.status)) nodes

unfoldable pub close_if :
    Specs → Terminals → List TicketRow → (evidence : Bool) → Option CloseoutCompletion
unfolding close_with closeout_candidates
close_if specs terminals tickets true =
    close_with specs tickets (closeout_candidates specs terminals tickets)
close_if specs terminals tickets false = none

unfoldable pub resolve_workflow_closeout_completion :
    (depth : ℕ)
    → List TicketRow
    → List NodeRow
    → (has_open_approval has_open_incident : Bool) → Specs
    → Terminals
    → Result (Option CloseoutCompletion)
unfolding nodes_incomplete workflow_has_evidence close_if
resolve_workflow_closeout_completion depth tickets nodes approval incident specs terminals =
    if nodes_incomplete nodes then ok none else if approval || incident then ok none else do
      evidence ← workflow_has_evidence depth specs
      ok (close_if specs terminals tickets evidence)
