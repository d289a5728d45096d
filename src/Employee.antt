-- ===== src/Employee.antt =====
-- backend/app/core/reducer.py, `rebuild_employee_projections`: the employees, from the log, in the
-- order of their ids. `plan` gives the write of one event, and the loop is that of Projection.antt.
pub mod Sort
pub mod Roster
use boardroom_os.Base.{ℕ, String, Bool, false, Option, none, some, List, [], option_eq, text_eq}
use boardroom_os.Base.Result.{Result, ok, ◌>>=◌}
use boardroom_os.Base.Dict.{values}
use boardroom_os.Field.{Field, get, item, str, or_else, truthy}
use boardroom_os.Event.{
  EventType, employee_hired, employee_replaced, employee_frozen, employee_restored, Timestamp, iso,
  Payload, Event,
}
use boardroom_os.Persona.Profiles.{Persona, RawSkill, RawPersonality, RawAesthetic}
use boardroom_os.Persona.Normalize.{NormalizedPersona, normalize_persona_profiles}
use boardroom_os.Projection.{Write, project}
use Sort.{sort_ids}

-- `profiles` stands for the three columns `skill_profile_json`, `personality_profile_json` and
-- `aesthetic_profile_json`: they are normalised together, or `{}` together.
pub record EmployeeBase : Type 0 where
  pub employee_id : Option String
  pub role_type : String
  pub profiles : Option Persona
  pub board_approved : Bool
  pub provider_id : Option String
  pub role_profile_refs : List String

pub record Employee : Type 0 where
  pub base : EmployeeBase
  pub open base use *
  pub state : String
  pub updated_at : Timestamp
  pub version : ℕ

abbrev pub EmployeeWrite : Type 0
EmployeeWrite = Write (Option String) Employee

abbrev pub or_empty {ℓ} : {A : Type ℓ} → A → Option A → A
or_empty d none = d
or_empty d (some a) = a

-- `{}`, for each of the three profiles
abbrev pub empty_skill : RawSkill
empty_skill = record { primary_domain = none; system_scope = none; validation_bias = none }

abbrev pub empty_personality : RawPersonality
empty_personality = record {
  risk_posture = none;
  challenge_style = none;
  execution_pace = none;
  detail_rigor = none;
  communication_style = none;
  style = none;
}

abbrev pub empty_aesthetic : RawAesthetic
empty_aesthetic = record {
  surface_preference = none;
  information_density = none;
  motion_tolerance = none;
  preference = none;
}

-- `str(payload.get("role_type") or "unknown")`
unfoldable pub role_of : Payload → String
role_of p = str (or_else (get p.role_type) (some "unknown"))

unfoldable pub hired_profiles : Payload → Result NormalizedPersona
unfolding normalize_persona_profiles role_of
hired_profiles p =
    normalize_persona_profiles (role_of p) none (or_empty empty_skill (get p.skill_profile))
      (or_empty empty_personality (get p.personality_profile))
      (or_empty empty_aesthetic (get p.aesthetic_profile))

abbrev pub stamp : String → Event → EmployeeBase → Employee
stamp s e b = record {
  base = b;
  state = s;
  updated_at = iso e.occurred_at;
  version = e.sequence_no;
}

unfoldable pub hire : Event → Option String → Persona → Option Employee → Employee
unfolding role_of
hire e id persona _ = stamp (str (or_else (get e.payload.state) (some "ACTIVE"))) e (record {
  employee_id = id;
  role_type = role_of e.payload;
  profiles = some persona;
  board_approved = truthy (get e.payload.board_approved);
  provider_id = get e.payload.provider_id;
  role_profile_refs = or_empty [] (get e.payload.role_profile_refs);
})

-- `projections.get(employee_id, {...})`
unfoldable pub previous_projection : Event → Option String → Option Employee → EmployeeBase
unfolding role_of
previous_projection e id (some found) = found.base
previous_projection e id none = record {
  employee_id = id;
  role_type = role_of e.payload;
  profiles = none;
  board_approved = false;
  provider_id = none;
  role_profile_refs = [];
}

unfoldable pub replace : Event → Option String → Option Employee → Employee
unfolding previous_projection
replace e id found =
    stamp "REPLACED" e (record (previous_projection e id found) { board_approved = false })

unfoldable pub freeze : Event → Option String → Option Employee → Employee
unfolding previous_projection
freeze e id found = stamp "FROZEN" e (previous_projection e id found)

unfoldable pub restore : Event → Option String → Option Employee → Employee
unfolding previous_projection
restore e id found = stamp "ACTIVE" e (previous_projection e id found)

unfoldable pub on_hired : Event → Result (Option EmployeeWrite)
unfolding hired_profiles hire
on_hired e = do
  id ← item "employee_id" e.payload.employee_id
  n ← hired_profiles e.payload
  ok (some (record { key = id; update = hire e id n.persona }))

unfoldable pub on_changed :
    (Event → Option String → Option Employee → Employee) → Event → Result (Option EmployeeWrite)
on_changed change e = do
  id ← item "employee_id" e.payload.employee_id
  ok (some (record { key = id; update = change e id }))

unfoldable pub plan_of : EventType → Event → Result (Option EmployeeWrite)
unfolding on_hired on_changed replace freeze restore
plan_of employee_hired e = on_hired e
plan_of employee_replaced e = on_changed replace e
plan_of employee_frozen e = on_changed freeze e
plan_of employee_restored e = on_changed restore e
plan_of _ e = ok none

unfoldable pub plan : Event → Result (Option EmployeeWrite)
unfolding plan_of
plan e = plan_of e.event_type e

-- `[projections[employee_id] for employee_id in sorted(projections)]`
unfoldable pub rebuild_employee_projections : List Event → Result (List Employee)
unfolding sort_ids
rebuild_employee_projections events = do
  projections ← project plan events
  sorted ← sort_ids projections
  ok (values sorted)
