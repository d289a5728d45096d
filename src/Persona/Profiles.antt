-- ===== src/Persona/Profiles.antt =====
-- backend/app/core/persona_profiles.py: what a persona consists of. Each dimension has a few values.
use boardroom_os.Base.{String, Option, List, [], ◌∷◌}

pub data Dimension : Type 0 where
  primary_domain system_scope validation_bias risk_posture challenge_style execution_pace
        detail_rigor communication_style surface_preference information_density motion_tolerance :
      Dimension

-- `_ALLOWED_VALUES_BY_DIMENSION`
abbrev pub allowed_values : Dimension → List String
allowed_values primary_domain =
    "frontend" ∷ "quality" ∷ "backend" ∷ "data" ∷ "platform" ∷ "architecture" ∷ []
allowed_values system_scope =
    "delivery_slice" ∷ "surface_polish" ∷ "release_guard" ∷ "release_sweep" ∷ "service_delivery"
    ∷ "data_reliability" ∷ "runtime_operations" ∷ "design_review" ∷ "governance_direction" ∷ []
allowed_values validation_bias =
    "balanced" ∷ "finish_first" ∷ "evidence_first" ∷ "regression_first" ∷ []
allowed_values risk_posture = "assertive" ∷ "cautious" ∷ "guarded" ∷ []
allowed_values challenge_style = "constructive" ∷ "probing" ∷ "adversarial" ∷ []
allowed_values execution_pace = "fast" ∷ "measured" ∷ "deliberate" ∷ []
allowed_values detail_rigor = "focused" ∷ "rigorous" ∷ "sweeping" ∷ []
allowed_values communication_style = "direct" ∷ "concise" ∷ "forensic" ∷ []
allowed_values surface_preference = "functional" ∷ "polished" ∷ "systematic" ∷ "clarifying" ∷ []
allowed_values information_density = "balanced" ∷ "layered" ∷ "dense" ∷ []
allowed_values motion_tolerance = "measured" ∷ "restrained" ∷ "minimal" ∷ []

-- `SKILL_PROFILE_DIMENSIONS`
pub record SkillProfile : Type 0 where
  pub primary_domain : String
  pub system_scope : String
  pub validation_bias : String

-- `PERSONALITY_PROFILE_DIMENSIONS`
pub record PersonalityProfile : Type 0 where
  pub risk_posture : String
  pub challenge_style : String
  pub execution_pace : String
  pub detail_rigor : String
  pub communication_style : String

-- `AESTHETIC_PROFILE_DIMENSIONS`
pub record AestheticProfile : Type 0 where
  pub surface_preference : String
  pub information_density : String
  pub motion_tolerance : String

-- A template
pub record Persona : Type 0 where
  pub skill_profile : SkillProfile
  pub personality_profile : PersonalityProfile
  pub aesthetic_profile : AestheticProfile

-- What a payload may hold: any of the keys, each a text, null or missing, and two older keys.
pub record RawSkill : Type 0 where
  pub primary_domain : Option String
  pub system_scope : Option String
  pub validation_bias : Option String

pub record RawPersonality : Type 0 where
  pub risk_posture : Option String
  pub challenge_style : Option String
  pub execution_pace : Option String
  pub detail_rigor : Option String
  pub communication_style : Option String
  pub style : Option String

pub record RawAesthetic : Type 0 where
  pub surface_preference : Option String
  pub information_density : Option String
  pub motion_tolerance : Option String
  pub preference : Option String
