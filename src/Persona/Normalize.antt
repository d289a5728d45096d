-- ===== src/Persona/Normalize.antt =====
-- backend/app/core/persona_profiles.py, `normalize_persona_profiles`: a persona with an allowed value
-- in every dimension, from what a payload holds.
use Prim.Native.Char.{Char}
use Prim.Native.String.{◌++◌}
use boardroom_os.Base.{
  ℕ, ◌+◌, String, ◌&&◌, ◌||◌, Option, none, some, List, [], ◌∷◌, map, ◌==◌, text_eq, nat_eq,
  pair_eq, if◌then◌else◌, leb,
}
use boardroom_os.Base.Result.{Result, ok, raise, key_error, ◌>>=◌}
use boardroom_os.Base.Dict.{Dict, get, get_or}
use boardroom_os.Base.Text.{codes, codes_beq, strip, chars, to_text}
use boardroom_os.Field.{text, or_else}
use boardroom_os.Persona.Profiles.{
  Dimension, primary_domain, system_scope, validation_bias, risk_posture, challenge_style,
  execution_pace, detail_rigor, communication_style, surface_preference, information_density,
  motion_tolerance, allowed_values, SkillProfile, PersonalityProfile, AestheticProfile, Persona,
  RawSkill, RawPersonality, RawAesthetic,
}
use boardroom_os.Persona.Templates.{persona_templates}

-- `str.lower` of a character, as far as it decides whether the text is one of ASCII letters: the
-- Kelvin sign becomes a k.
unfoldable pub lower_char : ℕ → ℕ
lower_char c = if leb b'A' c && leb c b'Z' then c + 32 else if c == 8490 then b'k' else c

-- `_normalize_string`, as code points. `None` is the empty text.
unfoldable pub normalize_string : Option String → List ℕ
unfolding lower_char strip
normalize_string v = map lower_char (codes (strip (text v)))

-- `normalized in allowed`, with the text that it is
unfoldable pub find_text : List ℕ → List String → Option String
find_text s [] = none
find_text s (v ∷ vs) = if codes_beq s (codes v) then some v else find_text s vs

-- One dimension of `_normalize_profile_group`.
unfoldable pub normalize_value : Dimension → Option String → (fallback : String) → String
unfolding normalize_string find_text
normalize_value d raw fallback = elim (find_text (normalize_string raw) (allowed_values d)) [
  | some v ↦ v
  | none ↦ fallback
]

unfoldable pub normalize_skill : RawSkill → SkillProfile → SkillProfile
unfolding normalize_value
normalize_skill raw base = record {
  primary_domain = normalize_value primary_domain raw.primary_domain base.primary_domain;
  system_scope = normalize_value system_scope raw.system_scope base.system_scope;
  validation_bias = normalize_value validation_bias raw.validation_bias base.validation_bias;
}

unfoldable pub normalize_personality : RawPersonality → PersonalityProfile → PersonalityProfile
unfolding normalize_value
normalize_personality raw base = record {
  risk_posture = normalize_value risk_posture raw.risk_posture base.risk_posture;
  challenge_style = normalize_value challenge_style raw.challenge_style base.challenge_style;
  execution_pace = normalize_value execution_pace raw.execution_pace base.execution_pace;
  detail_rigor = normalize_value detail_rigor raw.detail_rigor base.detail_rigor;
  communication_style =
      normalize_value communication_style raw.communication_style base.communication_style;
}

unfoldable pub normalize_aesthetic : RawAesthetic → AestheticProfile → AestheticProfile
unfolding normalize_value
normalize_aesthetic raw base = record {
  surface_preference =
      normalize_value surface_preference raw.surface_preference base.surface_preference;
  information_density =
      normalize_value information_density raw.information_density base.information_density;
  motion_tolerance = normalize_value motion_tolerance raw.motion_tolerance base.motion_tolerance;
}

-- `_LEGACY_STYLE_TEMPLATE_BY_ROLE_TYPE.get((role_type, style))`
unfoldable pub legacy_style_template : (role_type : String) (style : List ℕ) → Option String
legacy_style_template role style =
    if role == "frontend_engineer" && codes_beq style (codes "maker")
    then some "frontend_core_builder"
    else if role == "checker" && codes_beq style (codes "checker")
    then some "checker_evidence_guard"
    else none

-- `_LEGACY_PREFERENCE_TEMPLATE_BY_ROLE_TYPE.get((role_type, preference))`
unfoldable pub legacy_preference_template :
    (role_type : String) (preference : List ℕ) → Option String
legacy_preference_template role preference =
    if role == "frontend_engineer" && codes_beq preference (codes "minimal")
    then some "frontend_core_builder"
    else if role == "checker"
        && (codes_beq preference (codes "structured") || codes_beq preference (codes "systematic"))
    then some "checker_evidence_guard"
    else none

-- The template that the role or the primary domain names.
unfoldable pub domain_template : (role_type : String) (domain : List ℕ) → Option String
domain_template role domain =
    if role == "checker" || codes_beq domain (codes "quality")
    then some "checker_evidence_guard"
    else if role == "frontend_engineer" || codes_beq domain (codes "frontend")
    then some "frontend_core_builder"
    else if role == "backend_engineer" || codes_beq domain (codes "backend")
    then some "backend_service_builder"
    else if role == "database_engineer" || codes_beq domain (codes "data")
    then some "database_reliability_guard"
    else if role == "platform_sre" || codes_beq domain (codes "platform")
    then some "platform_operations_guard"
    else if role == "governance_architect"
    then some "architecture_design_reviewer"
    else if role == "governance_cto" || codes_beq domain (codes "architecture")
    then some "architecture_governance_director"
    else none

-- The first that is not `None`.
abbrev pub first_some {ℓ} : {A : Type ℓ} → Option A → Option A → Option A
first_some none y = y
first_some (some a) y = some a

unfoldable pub resolve_legacy_template_id :
    (role_type : String) → RawSkill → RawPersonality → RawAesthetic → Option String
unfolding legacy_style_template legacy_preference_template domain_template normalize_string
resolve_legacy_template_id role skill personality aesthetic =
    first_some (legacy_style_template role (normalize_string personality.style)) (
      first_some (legacy_preference_template role (normalize_string aesthetic.preference))
        (domain_template role (normalize_string skill.primary_domain)))

-- `_BASELINE_TEMPLATE_BY_ROLE_TYPE`
abbrev pub baseline_template_by_role_type : Dict String String
baseline_template_by_role_type =
    ("frontend_engineer", "frontend_core_builder")
    ∷ ("checker", "checker_evidence_guard")
    ∷ ("backend_engineer", "backend_service_builder")
    ∷ ("database_engineer", "database_reliability_guard")
    ∷ ("platform_sre", "platform_operations_guard")
    ∷ ("governance_architect", "architecture_design_reviewer")
    ∷ ("governance_cto", "architecture_governance_director")
    ∷ []

unfoldable pub get_baseline_persona_template_id : (role_type : String) → String
unfolding strip get
get_baseline_persona_template_id role =
    get_or (strip role) "frontend_core_builder" baseline_template_by_role_type

-- `_HIRE_TEMPLATE_BY_ROLE_TYPE`
abbrev pub hire_template_by_role_type : Dict String String
hire_template_by_role_type =
    ("frontend_engineer", "frontend_polish_counterweight")
    ∷ ("checker", "checker_release_sweeper")
    ∷ ("backend_engineer", "backend_integration_counterweight")
    ∷ ("database_engineer", "database_change_guard")
    ∷ ("platform_sre", "platform_reliability_counterweight")
    ∷ ("governance_architect", "architecture_design_reviewer")
    ∷ ("governance_cto", "architecture_governance_director")
    ∷ []

unfoldable pub get_hire_persona_template_id : (role_type : String) → String
unfolding strip get get_baseline_persona_template_id
get_hire_persona_template_id role =
    let normalized = strip role in
    get_or normalized (get_baseline_persona_template_id normalized) hire_template_by_role_type

unfoldable pub clone_persona_template : (template_id : String) → Result Persona
unfolding get
clone_persona_template id = elim (get id persona_templates) [
  | none ↦ raise (key_error ("Unknown persona template: " ++ id))
  | some t ↦ ok t
]

-- `template_id or _resolve_legacy_template_id(...)`, or the baseline of the role
unfoldable pub effective_template_id :
    (role_type : String) (template_id : Option String)
    → RawSkill
    → RawPersonality
    → RawAesthetic
    → String
unfolding resolve_legacy_template_id get_baseline_persona_template_id
effective_template_id role template skill personality aesthetic =
    elim (or_else template (resolve_legacy_template_id (strip role) skill personality aesthetic)) [
      | some id ↦ id
      | none ↦ get_baseline_persona_template_id role
    ]

abbrev pub underscore_to_space : List Char → List Char
underscore_to_space [] = []
underscore_to_space (c ∷ s) =
    (if Prim.Native.Char.code c == b'_' then " " else c) ∷ underscore_to_space s

-- `_humanize`
unfoldable pub humanize : String → String
humanize s = to_text (underscore_to_space (chars s))

unfoldable pub build_persona_summary : Persona → String
unfolding humanize
build_persona_summary p =
    let s = p.skill_profile in
    let q = p.personality_profile in
    let a = p.aesthetic_profile in
    "Skill "
    ++ humanize s.primary_domain
    ++ ", "
    ++ humanize s.system_scope
    ++ ", "
    ++ humanize s.validation_bias
    ++ ". Personality "
    ++ humanize q.risk_posture
    ++ ", "
    ++ humanize q.challenge_style
    ++ ", "
    ++ humanize q.execution_pace
    ++ ", "
    ++ humanize q.detail_rigor
    ++ ", "
    ++ humanize q.communication_style
    ++ ". Aesthetic "
    ++ humanize a.surface_preference
    ++ ", "
    ++ humanize a.information_density
    ++ ", "
    ++ humanize a.motion_tolerance
    ++ "."

pub record NormalizedPersona : Type 0 where
  pub persona : Persona
  pub profile_summary : String
  pub template_id : String

unfoldable pub normalize_persona : RawSkill → RawPersonality → RawAesthetic → Persona → Persona
unfolding normalize_skill normalize_personality normalize_aesthetic
normalize_persona skill personality aesthetic base = record {
  skill_profile = normalize_skill skill base.skill_profile;
  personality_profile = normalize_personality personality base.personality_profile;
  aesthetic_profile = normalize_aesthetic aesthetic base.aesthetic_profile;
}

unfoldable pub normalize_persona_profiles :
    (role_type : String) (template_id : Option String)
    → RawSkill
    → RawPersonality
    → RawAesthetic
    → Result NormalizedPersona
unfolding effective_template_id clone_persona_template normalize_persona build_persona_summary
normalize_persona_profiles role template skill personality aesthetic = do
  let id = effective_template_id role template skill personality aesthetic
  base ← clone_persona_template id
  let persona = normalize_persona skill personality aesthetic base
  ok (record {
    persona = persona;
    profile_summary = build_persona_summary persona;
    template_id = id;
  })
