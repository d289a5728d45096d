-- ===== src/Incident/Status.antt =====
-- The status of an incident is that of its last event which opens, recovers or closes it, whatever
-- its circuit breaker did since.
use boardroom_os.Base.{
  String, ◌≡◌, refl, subst, ◌∙◌, ◌⊎◌, inl, inr, Bool-cases, Bool, false, Option, none, some, List,
  ◌∷◌, ◌++◌, arith, text_eq, ◌==◌, option_eq,
}
use mathlib.Core.Option.{some_inj}
use boardroom_os.Base.Result.{Result, ok, raise}
use boardroom_os.Base.All.{All}
use boardroom_os.Base.Dict.{find_by}
use boardroom_os.Field.{get, get_or}
use boardroom_os.Event.{
  EventType, incident_opened, incident_recovery_started, incident_closed, circuit_breaker_opened,
  circuit_breaker_closed, Event,
}
use boardroom_os.Projection.{hits, trace, effect, touch}
use boardroom_os.Projection.Laws.{effect-eq_of_miss, trace_inv, trace_of_write, trace-append}
use boardroom_os.Projection.Rebuild.{find_by-rebuild, rebuild-Succeeds}
use boardroom_os.Incident.History.{OwnId, plan-OwnId}
use boardroom_os.Incident.{
  IncidentBase, Incident, IncidentWrite, base_incident_projection, open_incident, open_breaker,
  close_breaker, start_recovery, close_incident, on_incident, plan_of, plan_at, plan,
  rebuild_incident_projections,
}

-- The status that an event of a type gives, if its payload names none.
abbrev pub default_status : EventType → Option String
default_status incident_opened = some "OPEN"
default_status incident_recovery_started = some "RECOVERING"
default_status incident_closed = some "CLOSED"
default_status _ = none

abbrev HasStatus : Option String → Option Incident → Type 0
HasStatus s none = ⊥
HasStatus s (some i) = i.status ≡ s

-- A write that leaves the status alone.
abbrev Spares : Result (Option IncidentWrite) → Type 0
Spares (ok (some w)) = (i : Incident) → (w.update (some i)).status ≡ i.status
Spares _ = Unit

abbrev names_incident : String → Event → Bool
names_incident i e = get e.payload.incident_id == some i

-- A write of the entry that gives it the status `s`.
abbrev Gives : String → Option String → Result (Option IncidentWrite) → Type 0
Gives i s (ok (some w)) = (w.key ≡ some i) × ((o : Option Incident) → (w.update o).status ≡ s)
Gives i s (ok none) = ⊥
Gives i s (raise x) = Unit

Spares-effect :
    (k s : Option String) (o : Option Incident) (r : Result (Option IncidentWrite))
    → Spares r
    → HasStatus s o
    → HasStatus s (effect k o r)
unfolding effect touch
Spares-effect k s none r spares h = absurd h
Spares-effect k s (some i) (ok none) spares h = h
Spares-effect k s (some i) (raise x) spares h = h
Spares-effect k s (some i) (ok (some w)) spares h = elim (Bool-cases (w.key == k)) [
  | inl hit ↦ rw hit (spares i ∙ h)
  | inr miss ↦ rw miss h
]

plan_of-Spares :
    (t : EventType) (e : Event) (i : String) → default_status t ≡ none → Spares (plan_of t e i)
unfolding plan_of on_incident base_incident_projection open_breaker close_breaker
plan_of-Spares incident_opened e i h = cc
plan_of-Spares incident_recovery_started e i h = cc
plan_of-Spares incident_closed e i h = cc
plan_of-Spares circuit_breaker_opened e i h = ground arith
plan_of-Spares circuit_breaker_closed e i h = ground arith
plan_of-Spares _ e i h = tt

abbrev GivesDefault : Event → String → Option String → Result (Option IncidentWrite) → Type 0
GivesDefault e i none r = Unit
GivesDefault e i (some d) r = Gives i (get_or e.payload.status (some d)) r

plan_of-GivesDefault :
    (t : EventType) (e : Event) (i : String) → GivesDefault e i (default_status t) (plan_of t e i)
unfolding plan_of on_incident base_incident_projection open_incident start_recovery close_incident
plan_of-GivesDefault incident_opened e i = ground arith
plan_of-GivesDefault incident_recovery_started e i = ground arith
plan_of-GivesDefault incident_closed e i = ground arith
plan_of-GivesDefault _ e i = tt

on_incident-misses :
    (change : Event → IncidentBase → Option Incident → Incident) (e : Event) (i : String)
    (k : Option String)
    → (some i == k) ≡ false
    → hits k (on_incident change e i) ≡ false
unfolding on_incident base_incident_projection hits
on_incident-misses change e i k h = ground arith

plan_of-misses :
    (t : EventType) (e : Event) (i : String) (k : Option String)
    → (some i == k) ≡ false
    → hits k (plan_of t e i) ≡ false
unfolding plan_of hits
plan_of-misses incident_opened e i k h = search on_incident-misses
plan_of-misses _ e i k h = first_of (search on_incident-misses, search refl)

plan_at-misses :
    (o : Option String) (e : Event) (k : Option String)
    → (o == k) ≡ false
    → hits k (plan_at o e) ≡ false
unfolding plan_at hits
plan_at-misses none e k h = refl
plan_at-misses (some i) e k h = plan_of-misses e.event_type e i k h

plan_at-Spares :
    (o : Option String) (e : Event) → default_status e.event_type ≡ none → Spares (plan_at o e)
unfolding plan_at
plan_at-Spares none e h = tt
plan_at-Spares (some i) e h = plan_of-Spares e.event_type e i h

abbrev IsQuiet : String → Event → Type 0
IsQuiet i y = (names_incident i y ≡ false) ⊎ (default_status y.event_type ≡ none)

quiet_keeps :
    (i : String) (s : Option String) (y : Event) (o : Option Incident)
    → IsQuiet i y
    → HasStatus s o
    → HasStatus s (effect (some i) o (plan y))
unfolding plan
quiet_keeps i s y o (inl unnamed) h =
    rw (effect-eq_of_miss (some i) o _ (plan_at-misses _ y (some i) unnamed)) h
quiet_keeps i s y o (inr spared) h = Spares-effect (some i) s o _ (plan_at-Spares _ y spared) h

HasStatus-value :
    (s : Option String) (o : Option Incident)
    → HasStatus s o
    → (n : Incident) × (o ≡ some n) × (n.status ≡ s)
HasStatus-value s none h = absurd h
HasStatus-value s (some n) h = (n, refl, h)

plan-Gives :
    (e : Event) (i d : String) (o : Option String)
    → o ≡ some i
    → default_status e.event_type ≡ some d
    → Gives i (get_or e.payload.status (some d)) (plan_at o e)
unfolding plan_at
plan-Gives e i d none h hd = absurd (cc)
plan-Gives e i d (some j) h hd =
    let given : Gives j (get_or e.payload.status (some d)) (plan_of e.event_type e j) =
      rw hd at (plan_of-GivesDefault e.event_type e j) in
    subst (λ m. Gives m (get_or e.payload.status (some d)) (plan_of e.event_type e j))
      (some_inj.0 h) given

written-HasStatus :
    (i : String) (s : Option String) (w : Option IncidentWrite) (e : Event) (o : Option Incident)
    (after : List Event)
    → plan e ≡ ok w
    → Gives i s (ok w)
    → All (IsQuiet i) after
    → HasStatus s (trace plan (some i) o (e ∷ after))
written-HasStatus i s none e o after p gives quiet = absurd gives
written-HasStatus i s (some w) e o after p gives quiet = rw (← gives.0) (
    rw (trace_of_write plan o e w after p) (
      rw gives.0 (
        trace_inv plan (some i) (HasStatus s) (IsQuiet i) (λ y q. quiet_keeps i s y q)
          (some (w.update o)) after quiet (gives.1 o))))

-- `next(i for i in incidents if i["incident_id"] == k)`
abbrev pub incident_of : String → List Incident → Option Incident
incident_of i = find_by (λ n. n.incident_id) (some i)

-- After an event that opens, recovers or closes an incident, and whatever follows that is about
-- other incidents or only about circuit breakers, the incident has the status that the event's
-- payload names, or else the default of the event's type.
pub rebuild_incident_projections_last :
    (before after : List Event) (e : Event) (i d : String) (incidents : List Incident)
    → get e.payload.incident_id ≡ some i
    → default_status e.event_type ≡ some d
    → All (λ y. (names_incident i y ≡ false) ⊎ (default_status y.event_type ≡ none)) after
    → rebuild_incident_projections (before ++ e ∷ after) ≡ ok incidents
    → (n : Incident) × (incident_of i incidents ≡ some n)
      × (n.status ≡ get_or e.payload.status (some d))
unfolding rebuild_incident_projections plan
rebuild_incident_projections_last before after e i d incidents hi hd others h =
    let (w, p) = rebuild-Succeeds plan before after e incidents h in
    let s = get_or e.payload.status (some d) in
    let there : incident_of i incidents
        ≡ trace plan (some i) (trace plan (some i) none before) (e ∷ after) =
      find_by-rebuild plan (λ n. n.incident_id) OwnId (λ k n own. own) plan-OwnId (some i)
        (before ++ e ∷ after) incidents h
      ∙ trace-append plan (some i) none before (e ∷ after) in
    let (n, at, status) = HasStatus-value s _ (
      written-HasStatus i s w e (trace plan (some i) none before) after p
        (rw p at (plan-Gives e i d _ hi hd)) others) in
    (n, there ∙ at, status)
