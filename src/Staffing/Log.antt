-- ===== src/Staffing/Log.antt =====
-- backend/app/db/repository.py, `insert_event` and `get_latest_ticket_created_payload`, on the events
-- that backend/app/core/staffing_containment.py writes and reads.
use boardroom_os.Base.{
  ℕ, String, Bool, Option, none, some, List, [], ◌∷◌, ◌==◌, text_eq, option_eq, if◌then◌else◌,
}
use boardroom_os.Base.All.{any}
use boardroom_os.Event.{EventType, ticket_created, Timestamp, Payload}
use boardroom_os.Field.{get}

-- `_build_staffing_containment_context`, and what of it a stored payload may lack
pub record ContainmentContext : Type 0 where
  pub employee_id : Option String
  pub action_kind : Option String
  pub reason : Option String
  pub replacement_employee_id : Option String
  pub contained_at : Option Timestamp

-- `staffing_containment`: missing or empty, a dictionary, or any other JSON value
pub data Containment : Type 0 where
  no_containment : Containment
  contained : ContainmentContext → Containment
  not_a_dict : Containment

-- `_build_staffing_recovery_context`
pub record RecoveryContext : Type 0 where
  pub employee_id : String
  pub restored_at : Timestamp

-- The payload of TICKET_CREATED: the keys that this module reads or writes, and the others.
pub record CreatedPayload : Type 0 where
  pub excluded_employee_ids : List (Option String)
  pub staffing_containment : Containment
  pub staffing_recovery : Option RecoveryContext
  pub others : Payload

pub record IncidentPayload : Type 0 where
  pub incident_id : String
  pub incident_type : String
  pub status : String
  pub severity : String
  pub fingerprint : String
  pub node_id : String
  pub ticket_id : String
  pub containment : ContainmentContext

pub record BreakerPayload : Type 0 where
  pub incident_id : String
  pub circuit_breaker_state : String
  pub fingerprint : String
  pub node_id : String
  pub ticket_id : String
  pub containment : ContainmentContext

pub record CancelPayload : Type 0 where
  pub ticket_id : String
  pub node_id : String
  pub cancelled_by : String
  pub reason : String
  pub staffing_containment : ContainmentContext

pub data StaffingPayload : Type 0 where
  created : CreatedPayload → StaffingPayload
  cancel_request : CancelPayload → StaffingPayload
  incident : IncidentPayload → StaffingPayload
  breaker : BreakerPayload → StaffingPayload
  -- A payload of any other event.
  other : Payload → StaffingPayload

-- A row of the table `events`, without its random event id.
pub record StoredEvent : Type 0 where
  pub event_type : EventType
  pub actor_type : String
  pub actor_id : String
  pub workflow_id : Option String
  pub idempotency_key : String
  pub causation_id : Option String
  pub correlation_id : Option String
  pub payload : StaffingPayload
  pub occurred_at : ℕ

-- The table, the last row first, and the number of ids drawn so far.
pub record Store : Type 0 where
  pub events : List StoredEvent
  pub drawn : ℕ

unfoldable pub known_key : String → List StoredEvent → Bool
unfolding any
known_key k events = any (λ e. e.idempotency_key == k) events

-- The column `idempotency_key` is UNIQUE: a second row with a key is not inserted.
unfoldable pub insert_event : StoredEvent → Store → Store
unfolding known_key
insert_event e s =
    if known_key e.idempotency_key s.events then s else record s { events = e ∷ s.events }

abbrev pub created_for : String → StaffingPayload → Option CreatedPayload
created_for ticket (created p) = if get p.others.ticket_id == some ticket then some p else none
created_for ticket _ = none

-- `WHERE event_type = 'TICKET_CREATED'`, and the payload is the ticket's.
abbrev pub creation_of : String → EventType → StaffingPayload → Option CreatedPayload
creation_of ticket ticket_created p = created_for ticket p
creation_of ticket _ p = none

unfoldable pub latest_created : String → List StoredEvent → Option CreatedPayload
latest_created ticket [] = none
latest_created ticket (e ∷ es) =
    let earlier = latest_created ticket es in
    elim (creation_of ticket e.event_type e.payload) [ some p ↦ some p | none ↦ earlier ]

unfoldable pub get_latest_ticket_created_payload : Store → String → Option CreatedPayload
unfolding latest_created
get_latest_ticket_created_payload s ticket = latest_created ticket s.events
