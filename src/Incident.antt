-- ===== src/Incident.antt =====
-- backend/app/core/reducer.py, `rebuild_incident_projections`: incidents and their circuit breakers,
-- from the log.
pub mod History
pub mod Status
use boardroom_os.Base.{ℕ, String, Option, none, some, List, option_eq, text_eq}
use boardroom_os.Base.Result.{Result, ok, ◌>>=◌}
use boardroom_os.Field.{get, get_or, item}
use boardroom_os.Event.{
  EventType, incident_opened, incident_recovery_started, incident_closed, circuit_breaker_opened,
  circuit_breaker_closed, Timestamp, iso, Payload, merge, Event,
}
use boardroom_os.Projection.{Write, rebuild}

-- The keys of `_base_incident_projection`.
pub record IncidentBase : Type 0 where
  pub incident_id : Option String
  pub workflow_id : Option String
  pub node_id : Option String
  pub ticket_id : Option String
  pub provider_id : Option String
  pub incident_type : Option String
  pub status : Option String
  pub severity : Option String
  pub fingerprint : Option String
  pub circuit_breaker_state : Option String
  pub opened_at : Option Timestamp
  pub closed_at : Option Timestamp
  pub payload : Payload

pub record Incident : Type 0 where
  pub base : IncidentBase
  pub open base use *
  pub updated_at : Timestamp
  pub version : ℕ

abbrev pub IncidentWrite : Type 0
IncidentWrite = Write (Option String) Incident

unfoldable pub base_incident_projection : Event → Result IncidentBase
base_incident_projection e = do
  incident ← item "incident_id" e.payload.incident_id
  ok (record {
    incident_id = incident;
    workflow_id = e.workflow_id;
    node_id = get e.payload.node_id;
    ticket_id = get e.payload.ticket_id;
    provider_id = get e.payload.provider_id;
    incident_type = get e.payload.incident_type;
    status = get e.payload.status;
    severity = get e.payload.severity;
    fingerprint = get e.payload.fingerprint;
    circuit_breaker_state = none;
    opened_at = none;
    closed_at = none;
    payload = e.payload;
  })

abbrev pub base_or : IncidentBase → Option Incident → IncidentBase
base_or b none = b
base_or b (some i) = i.base

-- A key of `projections.get(incident_id, {})`.
abbrev pub found_key : (Incident → Option String) → Option Incident → Option String
found_key f none = none
found_key f (some i) = f i

abbrev pub stamp : Event → IncidentBase → Incident
stamp e b = record { base = b; updated_at = iso e.occurred_at; version = e.sequence_no }

unfoldable pub open_incident : Event → IncidentBase → Option Incident → Incident
open_incident e b _ = stamp e (record b {
  incident_type = get e.payload.incident_type;
  status = get_or e.payload.status (some "OPEN");
  severity = get e.payload.severity;
  fingerprint = get e.payload.fingerprint;
  opened_at = some (iso e.occurred_at);
  closed_at = none;
  payload = e.payload;
})

unfoldable pub open_breaker : Event → IncidentBase → Option Incident → Incident
open_breaker e b found = stamp e (record (base_or b found) {
  workflow_id = e.workflow_id;
  node_id = get_or e.payload.node_id (found_key (λ i. i.node_id) found);
  ticket_id = get_or e.payload.ticket_id (found_key (λ i. i.ticket_id) found);
  provider_id = get_or e.payload.provider_id (found_key (λ i. i.provider_id) found);
  fingerprint = get_or e.payload.fingerprint (found_key (λ i. i.fingerprint) found);
  circuit_breaker_state = get_or e.payload.circuit_breaker_state (some "OPEN");
})

unfoldable pub close_breaker : Event → IncidentBase → Option Incident → Incident
close_breaker e b found = stamp e (record (base_or b found) {
  workflow_id = e.workflow_id;
  node_id = get_or e.payload.node_id (found_key (λ i. i.node_id) found);
  ticket_id = get_or e.payload.ticket_id (found_key (λ i. i.ticket_id) found);
  provider_id = get_or e.payload.provider_id (found_key (λ i. i.provider_id) found);
  circuit_breaker_state = get_or e.payload.circuit_breaker_state (some "CLOSED");
})

unfoldable pub start_recovery : Event → IncidentBase → Option Incident → Incident
start_recovery e b found =
    let previous = base_or b found in
    stamp e (record previous {
      workflow_id = e.workflow_id;
      node_id = get_or e.payload.node_id previous.node_id;
      ticket_id = get_or e.payload.ticket_id previous.ticket_id;
      provider_id = get_or e.payload.provider_id previous.provider_id;
      status = get_or e.payload.status (some "RECOVERING");
      payload = merge previous.payload e.payload;
    })

unfoldable pub close_incident : Event → IncidentBase → Option Incident → Incident
close_incident e b found =
    let previous = base_or b found in
    stamp e (record previous {
      workflow_id = e.workflow_id;
      node_id = get_or e.payload.node_id previous.node_id;
      ticket_id = get_or e.payload.ticket_id previous.ticket_id;
      provider_id = get_or e.payload.provider_id previous.provider_id;
      status = get_or e.payload.status (some "CLOSED");
      closed_at = some (iso e.occurred_at);
      payload = merge previous.payload e.payload;
    })

unfoldable pub on_incident :
    (Event → IncidentBase → Option Incident → Incident)
    → Event
    → (incident_id : String) → Result (Option IncidentWrite)
unfolding base_incident_projection
on_incident change e incident = do
  b ← base_incident_projection e
  ok (some (record { key = some incident; update = change e b }))

unfoldable pub plan_of : EventType → Event → String → Result (Option IncidentWrite)
unfolding on_incident open_incident open_breaker close_breaker start_recovery close_incident
plan_of incident_opened e i = on_incident open_incident e i
plan_of circuit_breaker_opened e i = on_incident open_breaker e i
plan_of circuit_breaker_closed e i = on_incident close_breaker e i
plan_of incident_recovery_started e i = on_incident start_recovery e i
plan_of incident_closed e i = on_incident close_incident e i
plan_of _ e i = ok none

-- `if incident_id is None: continue`
unfoldable pub plan_at : Option String → Event → Result (Option IncidentWrite)
unfolding plan_of
plan_at none e = ok none
plan_at (some i) e = plan_of e.event_type e i

unfoldable pub plan : Event → Result (Option IncidentWrite)
unfolding plan_at
plan e = plan_at (get e.payload.incident_id) e

unfoldable pub rebuild_incident_projections : List Event → Result (List Incident)
rebuild_incident_projections = rebuild plan
