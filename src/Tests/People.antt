-- ===== src/Tests/People.antt =====
-- Employees that are hired, frozen and normalised.
use boardroom_os.Base.{ℕ, String, ◌≡◌, refl, false, none, some, List, [], ◌∷◌, ◌++◌, text_eq}
use boardroom_os.Base.All.{All}
use boardroom_os.Base.Result.{ok, ok_or, replay}
use boardroom_os.Base.Dict
use boardroom_os.Field.{value}
use boardroom_os.Event.{
  EventType, employee_hired, employee_frozen, Payload, empty_payload, Event, iso,
}
use boardroom_os.Projection.{project}
use boardroom_os.Persona.Profiles.{RawPersonality}
use boardroom_os.Persona.Templates.{frontend_core_builder}
use boardroom_os.Persona.Normalize.{NormalizedPersona, normalize_persona_profiles}
use boardroom_os.Persona.Allowed.{IsAllowed, raw_skill, raw_personality, raw_aesthetic}
use boardroom_os.Persona.Known.{normalize_persona_profiles-ok, normalize_persona_profiles_idem}
use boardroom_os.Employee
use boardroom_os.Employee.{
  Employee, empty_skill, empty_personality, empty_aesthetic, rebuild_employee_projections,
}
use boardroom_os.Employee.Roster.{
  AllowedOrEmpty, AscendingIds, employee_of, IsChanged, rebuild_employee_projections-AllowedOrEmpty,
  rebuild_employee_projections-AscendingIds, rebuild_employee_projections_last,
}

abbrev maker : RawPersonality
maker = record empty_personality { style = some " Maker "; risk_posture = some "unheard of" }

normalize_persona_profiles-ok_example :
    (n : NormalizedPersona) × (normalize_persona_profiles "frontend_engineer" none empty_skill maker
        empty_aesthetic
      ≡ ok n)
    × IsAllowed n.persona
normalize_persona_profiles-ok_example =
    normalize_persona_profiles-ok "frontend_engineer" empty_skill maker empty_aesthetic

abbrev blank : NormalizedPersona
blank = record { persona = frontend_core_builder; profile_summary = ""; template_id = "" }

abbrev once : NormalizedPersona
once =
    ok_or blank
      (normalize_persona_profiles "frontend_engineer" none empty_skill maker empty_aesthetic)

-- The persona is normalised again for another role.
abbrev twice : NormalizedPersona
twice = ok_or blank (
    normalize_persona_profiles "checker" none (raw_skill once.persona.skill_profile)
      (raw_personality once.persona.personality_profile)
      (raw_aesthetic once.persona.aesthetic_profile))

record Normalized : Type 0 where
  first :
      normalize_persona_profiles "frontend_engineer" none empty_skill maker empty_aesthetic
      ≡ ok once
  second :
      normalize_persona_profiles "checker" none
        (raw_skill once.persona.skill_profile)
        (raw_personality once.persona.personality_profile)
        (raw_aesthetic once.persona.aesthetic_profile)
      ≡ ok twice
  template : once.template_id ≡ "frontend_core_builder"

normalized : Normalized
unfolding normalize_persona_profiles Dict.get
normalized = record { first = refl; second = refl; template = refl }

normalize_persona_profiles_idem_example : twice.persona ≡ once.persona
normalize_persona_profiles_idem_example =
    normalize_persona_profiles_idem "frontend_engineer" "checker" none none empty_skill maker
      empty_aesthetic once twice normalized.first normalized.second

abbrev event : EventType → ℕ → Payload → Event
event t n p = record {
  event_type = t;
  workflow_id = none;
  occurred_at = n;
  sequence_no = n;
  payload = p;
}

abbrev hired : (id : String) → ℕ → Event
hired id n = event employee_hired n (record empty_payload {
  employee_id = value id;
  role_type = value "frontend_engineer";
  personality_profile = value maker;
})

-- Hired against the order of their ids.
abbrev two : List Event
two = hired "zoe" 1 ∷ hired "ada" 2 ∷ []

abbrev freezing : Event
freezing = event employee_frozen 3 (record empty_payload { employee_id = value "zoe" })

abbrev roster : List Event → List Employee
roster events = ok_or [] (rebuild_employee_projections events)

abbrev zoe : Employee
zoe = record {
  base = record {
    employee_id = some "zoe";
    role_type = "frontend_engineer";
    profiles = some once.persona;
    board_approved = false;
    provider_id = none;
    role_profile_refs = [];
  };
  state = "ACTIVE";
  updated_at = iso 1;
  version = 1;
}

record Rostered : Type 0 where
  first : rebuild_employee_projections two ≡ ok (roster two)
  found : employee_of (some "zoe") (roster two) ≡ some zoe
  second : rebuild_employee_projections (two ++ freezing ∷ []) ≡ ok (roster (two ++ freezing ∷ []))

rostered : Rostered
unfolding rebuild_employee_projections project Employee.plan Dict.put Dict.get Dict.find_by
    normalize_persona_profiles replay
rostered = record { first = refl; found = refl; second = refl }

rebuild_employee_projections-AllowedOrEmpty_example :
    All (λ v. AllowedOrEmpty v.profiles) (roster two)
rebuild_employee_projections-AllowedOrEmpty_example =
    rebuild_employee_projections-AllowedOrEmpty two (roster two) rostered.first

rebuild_employee_projections-AscendingIds_example : AscendingIds (roster two)
rebuild_employee_projections-AscendingIds_example =
    rebuild_employee_projections-AscendingIds two (roster two) rostered.first

rebuild_employee_projections_last_example :
    (v : Employee) × (employee_of (some "zoe") (roster (two ++ freezing ∷ [])) ≡ some v)
    × IsChanged "FROZEN" freezing zoe v
rebuild_employee_projections_last_example =
    rebuild_employee_projections_last two [] freezing "zoe" "FROZEN" zoe (roster two)
      (roster (two ++ freezing ∷ [])) refl refl tt rostered.first rostered.found rostered.second
