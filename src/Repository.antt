-- ===== src/Repository.antt =====
-- backend/app/db/repository.py: the table of events, the tables of projections, and the queries on
-- them that backend/app/core/ticket_handlers.py makes. A row of a projection table is the projection
-- that was written to it.
pub mod Refresh
pub mod Log
use boardroom_os.Base.{
  ℕ, suc, String, Bool, true, false, ◌&&◌, Option, none, some, List, [], ◌∷◌, ◌++◌, map, ◌==◌,
  text_eq, option_eq, pair_eq, if◌then◌else◌,
}
use boardroom_os.Base.Result.{Result, ok, raise, value_error, ◌>>=◌}
use boardroom_os.Base.All.{any}
use boardroom_os.Base.Dict.{find_by}
use boardroom_os.Field.{get}
use boardroom_os.Event.{
  EventType, ticket_created, ticket_completed, ticket_failed, ticket_timed_out, Timestamp, iso,
  other_text, Payload, Event,
}
use boardroom_os.Ticket.State.{Ticket}
use boardroom_os.Node.{Node, key_of}
use boardroom_os.Employee.{Employee}
use boardroom_os.Incident.{Incident}
use boardroom_os.Workflow.Loop.{Workflow}

-- A row of `events`, without its random event id.
pub record Row : Type 0 where
  pub event : Event
  pub actor_type : String
  pub actor_id : String
  pub idempotency_key : String
  pub causation_id : Option String
  pub correlation_id : Option String

-- The five projection tables.
pub record Tables : Type 0 where
  pub workflows : List Workflow
  pub tickets : List Ticket
  pub nodes : List Node
  pub employees : List Employee
  pub incidents : List Incident

-- The database: the rows of `events` by sequence number, and the projections.
pub record Repository : Type 0 where
  pub rows : List Row
  pub tables : Tables
  pub open tables use *

-- The arguments of `insert_event`.
pub record NewEvent : Type 0 where
  pub event_type : EventType
  pub actor_type : String
  pub actor_id : String
  pub workflow_id : Option String
  pub idempotency_key : String
  pub causation_id : Option String
  pub correlation_id : Option String
  pub payload : Payload
  pub occurred_at : ℕ

abbrev pub count {ℓ} : {A : Type ℓ} → List A → ℕ
count [] = 0
count (a ∷ as') = suc (count as')

unfoldable pub known_key : String → List Row → Bool
unfolding any
known_key k rows = any (λ r. r.idempotency_key == k) rows

unfoldable pub get_event_by_idempotency_key : Repository → String → Option Row
get_event_by_idempotency_key r k = find_by (λ row. row.idempotency_key) k r.rows

-- `sequence_no` counts the rows, of which none is ever deleted.
abbrev pub row_of : NewEvent → List Row → Row
row_of e rows = record {
  event = record {
    event_type = e.event_type;
    workflow_id = e.workflow_id;
    occurred_at = e.occurred_at;
    sequence_no = suc (count rows);
    payload = e.payload;
  };
  actor_type = e.actor_type;
  actor_id = e.actor_id;
  idempotency_key = e.idempotency_key;
  causation_id = e.causation_id;
  correlation_id = e.correlation_id;
}

-- The column `idempotency_key` is UNIQUE: a second row with a key raises `IntegrityError`, and the
-- call gives None.
unfoldable pub insert_event : NewEvent → Repository → Option Repository
unfolding known_key
insert_event e r =
    if known_key e.idempotency_key r.rows
    then none
    else some (record r { rows = r.rows ++ row_of e r.rows ∷ [] })

unfoldable pub list_all_events : Repository → List Event
list_all_events r = map (λ row. row.event) r.rows

-- `datetime.fromisoformat` on a column that is neither NULL nor empty.
unfoldable pub convert_time : Option Timestamp → Result (Option Timestamp)
convert_time none = ok none
convert_time (some (iso n)) = ok (some (iso n))
convert_time (some (other_text s)) = if s == "" then ok (some (other_text s)) else raise value_error

unfoldable pub convert_ticket_projection_row : Ticket → Result Ticket
unfolding convert_time
convert_ticket_projection_row t = do
  _ ← convert_time (some t.updated_at)
  _ ← convert_time t.lease_expires_at
  _ ← convert_time t.started_at
  _ ← convert_time t.last_heartbeat_at
  _ ← convert_time t.heartbeat_expires_at
  ok t

unfoldable pub convert_found : Option Ticket → Result (Option Ticket)
unfolding convert_ticket_projection_row
convert_found none = ok none
convert_found (some t) = do converted ← convert_ticket_projection_row t; ok (some converted)

unfoldable pub get_current_ticket_projection : Repository → String → Result (Option Ticket)
unfolding convert_found
get_current_ticket_projection r ticket =
    convert_found (find_by (λ t. t.ticket_id) (some ticket) r.tickets)

unfoldable pub get_current_node_projection : Repository → (workflow node : String) → Option Node
get_current_node_projection r workflow node = find_by key_of (some workflow, some node) r.nodes

unfoldable pub get_employee_projection : Repository → String → Option Employee
get_employee_projection r id = find_by (λ v. v.employee_id) (some id) r.employees

unfoldable pub has_open_circuit_breaker_for_provider : Repository → String → Bool
unfolding any
has_open_circuit_breaker_for_provider r provider =
    any
      (λ i.
        i.provider_id == some provider
        && i.status == some "OPEN"
        && i.circuit_breaker_state == some "OPEN")
      r.incidents

-- The last element that a test holds of.
unfoldable pub last_where {ℓ} : {A : Type ℓ} → (A → Bool) → List A → Option A
last_where p [] = none
last_where p (a ∷ as') =
    let later = last_where p as' in
    elim later [ some b ↦ some b | none ↦ if p a then some a else none ]

abbrev pub is_creation : EventType → Bool
is_creation ticket_created = true
is_creation _ = false

abbrev pub is_terminal : EventType → Bool
is_terminal ticket_timed_out = true
is_terminal ticket_failed = true
is_terminal ticket_completed = true
is_terminal _ = false

abbrev pub payload_of : Option Event → Option Payload
payload_of none = none
payload_of (some e) = some e.payload

unfoldable pub get_latest_ticket_created_payload : Repository → String → Option Payload
unfolding last_where list_all_events
get_latest_ticket_created_payload r ticket = payload_of (
    last_where (λ e. is_creation e.event_type && get e.payload.ticket_id == some ticket)
      (list_all_events r))

unfoldable pub get_latest_ticket_terminal_event : Repository → String → Option Event
unfolding last_where list_all_events
get_latest_ticket_terminal_event r ticket =
    last_where (λ e. is_terminal e.event_type && get e.payload.ticket_id == some ticket)
      (list_all_events r)
