-- ===== src/Workflow/Rows.antt =====
-- backend/app/core/reducer.py, `rebuild_workflow_projections` after its first loop: the projections
-- by workflow, their times as datetimes, the open incidents, and the last terminal event of a ticket.
use boardroom_os.Base.{
  ℕ, ◌+◌, String, Bool, true, false, Option, none, some, List, [], ◌∷◌, ◌++◌, ◌==◌, text_eq,
  option_eq, if◌then◌else◌,
}
use boardroom_os.Base.Dict.{Dict, put, get_or}
use boardroom_os.Field.{str, text}
use boardroom_os.Field as Field
use boardroom_os.Event.{
  EventType, ticket_completed, ticket_failed, ticket_timed_out, Timestamp, iso, Event,
}
use boardroom_os.Ticket.State.{Ticket}
use boardroom_os.Node.{Node}
use boardroom_os.Incident.{Incident}
use boardroom_os.Completion.Rows.{Moment, datetime, other_text, TicketRow, NodeRow, TerminalEvent}

-- `_coerce_iso_datetime`
abbrev pub coerce_iso_datetime : Timestamp → Moment
coerce_iso_datetime (iso t) = datetime t
coerce_iso_datetime (Timestamp.other_text s) = other_text s

abbrev pub coerce_optional : Option Timestamp → Option Moment
coerce_optional none = none
coerce_optional (some t) = some (coerce_iso_datetime t)

-- `_normalized_ticket_projection_for_workflow`
unfoldable pub ticket_row : Ticket → TicketRow
ticket_row t = record {
  projection = t;
  lease_expires_at = coerce_optional t.lease_expires_at;
  started_at = coerce_optional t.started_at;
  last_heartbeat_at = coerce_optional t.last_heartbeat_at;
  heartbeat_expires_at = coerce_optional t.heartbeat_expires_at;
  updated_at = coerce_iso_datetime t.updated_at;
}

-- `_normalized_node_projection_for_workflow`
unfoldable pub node_row : Node → NodeRow
node_row n = record { projection = n; updated_at = coerce_iso_datetime n.updated_at }

-- `for item in items: groups.setdefault(key(item), []).append(row(item))`
unfoldable pub group_from {ℓ} :
    {A B : Type ℓ} → (A → String) → (A → B) → Dict String (List B) → List A → Dict String (List B)
group_from key row groups [] = groups
group_from key row groups (a ∷ items) =
    group_from key row (put (key a) (get_or (key a) [] groups ++ row a ∷ []) groups) items

unfoldable pub tickets_by_workflow : List Ticket → Dict String (List TicketRow)
unfolding group_from ticket_row
tickets_by_workflow = group_from (λ t. str t.workflow_id) ticket_row []

unfoldable pub nodes_by_workflow : List Node → Dict String (List NodeRow)
unfolding group_from node_row
nodes_by_workflow = group_from (λ n. str n.workflow_id) node_row []

-- One pass of the loop over the incidents.
unfoldable pub count_open : Incident → Dict String ℕ → Dict String ℕ
count_open i counts =
    if text i.status == "OPEN"
    then (let w = text i.workflow_id in
        if w == "" then counts else put w (get_or w 0 counts + 1) counts)
    else counts

unfoldable pub count_open_from : Dict String ℕ → List Incident → Dict String ℕ
unfolding count_open
count_open_from counts [] = counts
count_open_from counts (i ∷ is) = count_open_from (count_open i counts) is

abbrev pub is_terminal : EventType → Bool
is_terminal ticket_completed = true
is_terminal ticket_failed = true
is_terminal ticket_timed_out = true
is_terminal _ = false

-- One pass of the loop that keeps the last terminal event of each ticket.
unfoldable pub note_terminal : Event → Dict String TerminalEvent → Dict String TerminalEvent
note_terminal e terminals =
    if is_terminal e.event_type
    then (let ticket = text (Field.get e.payload.ticket_id) in
        if ticket == ""
        then terminals
        else put ticket (record { event_type = e.event_type; occurred_at = e.occurred_at })
            terminals)
    else terminals

unfoldable pub terminal_events_from :
    Dict String TerminalEvent → List Event → Dict String TerminalEvent
unfolding note_terminal
terminal_events_from terminals [] = terminals
terminal_events_from terminals (e ∷ es) = terminal_events_from (note_terminal e terminals) es
