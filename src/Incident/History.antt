-- ===== src/Incident/History.antt =====
-- Every log can be read for its incidents, and each is stored under its own id.
use boardroom_os.Base.{
  String, ◌≡◌, refl, Option, none, some, List, [], ◌∷◌, arith, text_eq, option_eq,
}
use boardroom_os.Base.Result.{ok, ◌>>=◌, IsOk, IsOk-value}
use boardroom_os.Base.All.{All}
use boardroom_os.Field.{get, item}
use boardroom_os.Event.{
  EventType, incident_opened, incident_recovery_started, incident_closed, circuit_breaker_opened,
  circuit_breaker_closed, Event,
}
use boardroom_os.Projection.{Succeeds}
use boardroom_os.Projection.Laws.{Was, Writes, Writes-bind}
use boardroom_os.Projection.Rebuild.{rebuild-ok_iff}
use boardroom_os.Incident.{
  IncidentBase, Incident, base_incident_projection, open_incident, open_breaker, close_breaker,
  start_recovery, close_incident, on_incident, plan_of, plan_at, plan, rebuild_incident_projections,
}

on_incident-IsOk :
    (change : Event → IncidentBase → Option Incident → Incident) (e : Event) (i : String)
    → get e.payload.incident_id ≡ some i
    → IsOk (on_incident change e i)
unfolding on_incident base_incident_projection
on_incident-IsOk change e i h = ground arith

plan_of-IsOk :
    (t : EventType) (e : Event) (i : String)
    → get e.payload.incident_id ≡ some i
    → IsOk (plan_of t e i)
unfolding plan_of
plan_of-IsOk incident_opened e i h = search on_incident-IsOk
plan_of-IsOk _ e i h = first_of (search on_incident-IsOk, search tt)

plan_at-IsOk : (o : Option String) (e : Event) → get e.payload.incident_id ≡ o → IsOk (plan_at o e)
unfolding plan_at
plan_at-IsOk none e h = tt
plan_at-IsOk (some i) e h = plan_of-IsOk e.event_type e i h

plan-Succeeds : (e : Event) → Succeeds plan e
unfolding plan
plan-Succeeds e = IsOk-value (plan e) (plan_at-IsOk _ e refl)

All-everywhere : (P : Event → Type 0) → ((e : Event) → P e) → (es : List Event) → All P es
All-everywhere P f [] = tt
All-everywhere P f (e ∷ es) = (f e, All-everywhere P f es)

-- Every log can be read for its incidents.
pub rebuild_incident_projections-IsOk :
    (events : List Event)
    → (incidents : List Incident) × (rebuild_incident_projections events ≡ ok incidents)
unfolding rebuild_incident_projections
rebuild_incident_projections-IsOk events =
    (rebuild-ok_iff plan events).1 (All-everywhere (Succeeds plan) plan-Succeeds events)

abbrev pub OwnId : Option String → Incident → Type 0
OwnId k i = i.incident_id ≡ k

abbrev Keeps : Event → (Event → IncidentBase → Option Incident → Incident) → Type 0
Keeps e change =
    (k : Option String) (b : IncidentBase)
    → b.incident_id ≡ k
    → (o : Option Incident) → Was OwnId k o
    → OwnId k (change e b o)

on_incident-Writes :
    (change : Event → IncidentBase → Option Incident → Incident) (e : Event) (i : String)
    → get e.payload.incident_id ≡ some i
    → Keeps e change
    → Writes OwnId (on_incident change e i)
unfolding on_incident base_incident_projection
on_incident-Writes change e i h keeps =
    Writes-bind OwnId (item "incident_id" e.payload.incident_id >>= _) _
      λ b made. keeps (some i) b (ground arith)

open_incident-Keeps : (e : Event) → Keeps e open_incident
unfolding open_incident
open_incident-Keeps e k b h o was = h

open_breaker-Keeps : (e : Event) → Keeps e open_breaker
unfolding open_breaker
open_breaker-Keeps e k b h none was = h
open_breaker-Keeps e k b h (some i) was = was

close_breaker-Keeps : (e : Event) → Keeps e close_breaker
unfolding close_breaker
close_breaker-Keeps e k b h none was = h
close_breaker-Keeps e k b h (some i) was = was

start_recovery-Keeps : (e : Event) → Keeps e start_recovery
unfolding start_recovery
start_recovery-Keeps e k b h none was = h
start_recovery-Keeps e k b h (some i) was = was

close_incident-Keeps : (e : Event) → Keeps e close_incident
unfolding close_incident
close_incident-Keeps e k b h none was = h
close_incident-Keeps e k b h (some i) was = was

plan_of-OwnId :
    (t : EventType) (e : Event) (i : String)
    → get e.payload.incident_id ≡ some i
    → Writes OwnId (plan_of t e i)
unfolding plan_of
plan_of-OwnId incident_opened e i h = on_incident-Writes open_incident e i h (open_incident-Keeps e)
plan_of-OwnId circuit_breaker_opened e i h =
    on_incident-Writes open_breaker e i h (open_breaker-Keeps e)
plan_of-OwnId circuit_breaker_closed e i h =
    on_incident-Writes close_breaker e i h (close_breaker-Keeps e)
plan_of-OwnId incident_recovery_started e i h =
    on_incident-Writes start_recovery e i h (start_recovery-Keeps e)
plan_of-OwnId incident_closed e i h =
    on_incident-Writes close_incident e i h (close_incident-Keeps e)
plan_of-OwnId _ e i h = tt

plan_at-OwnId :
    (o : Option String) (e : Event) → get e.payload.incident_id ≡ o → Writes OwnId (plan_at o e)
unfolding plan_at
plan_at-OwnId none e h = tt
plan_at-OwnId (some i) e h = plan_of-OwnId e.event_type e i h

pub plan-OwnId : (e : Event) → Writes OwnId (plan e)
unfolding plan
plan-OwnId e = plan_at-OwnId _ e refl
