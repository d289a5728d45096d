-- ===== src/Persona/Allowed.antt =====
-- Every persona that `normalize_persona_profiles` returns has allowed values, and it changes no
-- persona that has.
use boardroom_os.Base.{
  ℕ, String, ◌≡◌, refl, ap, Bool, true, Option, none, some, List, [], ◌∷◌, arith, ◌==◌, text_eq,
  eq_iff, Bool-cases, inl, inr,
}
use boardroom_os.Base.All.{All, any}
use boardroom_os.Base.Dict.{Entries}
use boardroom_os.Persona.Profiles.{
  Dimension, primary_domain, system_scope, validation_bias, risk_posture, challenge_style,
  execution_pace, detail_rigor, communication_style, surface_preference, information_density,
  motion_tolerance, allowed_values, SkillProfile, PersonalityProfile, AestheticProfile, Persona,
  RawSkill, RawPersonality, RawAesthetic,
}
use boardroom_os.Persona.Templates.{persona_templates}
use boardroom_os.Persona.Normalize.{
  normalize_string, find_text, normalize_value, normalize_skill, normalize_personality,
  normalize_aesthetic, normalize_persona,
}

-- `value in _ALLOWED_VALUES_BY_DIMENSION[dimension]`
unfoldable pub is_allowed : Dimension → String → Bool
unfolding any
is_allowed d x = any (λ v. v == x) (allowed_values d)

pub record IsAllowed (p : Persona) : Type 0 where
  pub primary_domain : is_allowed primary_domain p.skill_profile.primary_domain ≡ true
  pub system_scope : is_allowed system_scope p.skill_profile.system_scope ≡ true
  pub validation_bias : is_allowed validation_bias p.skill_profile.validation_bias ≡ true
  pub risk_posture : is_allowed risk_posture p.personality_profile.risk_posture ≡ true
  pub challenge_style : is_allowed challenge_style p.personality_profile.challenge_style ≡ true
  pub execution_pace : is_allowed execution_pace p.personality_profile.execution_pace ≡ true
  pub detail_rigor : is_allowed detail_rigor p.personality_profile.detail_rigor ≡ true
  pub communication_style :
      is_allowed communication_style p.personality_profile.communication_style ≡ true
  pub surface_preference :
      is_allowed surface_preference p.aesthetic_profile.surface_preference ≡ true
  pub information_density :
      is_allowed information_density p.aesthetic_profile.information_density ≡ true
  pub motion_tolerance : is_allowed motion_tolerance p.aesthetic_profile.motion_tolerance ≡ true

find_text-any :
    (s : List ℕ) (vs : List String) (v : String)
    → find_text s vs ≡ some v
    → any (λ w. w == v) vs ≡ true
unfolding find_text any
find_text-any s [] v h = absurd (cc)
find_text-any s (w ∷ ws) v h = ground (arith, find_text-any s ws v, eq_iff w v)

found-allowed :
    (d : Dimension) (o : Option String) (fallback : String)
    → ((v : String) → o ≡ some v → is_allowed d v ≡ true)
    → is_allowed d fallback ≡ true
    → is_allowed d (elim o [ some v ↦ v | none ↦ fallback ]) ≡ true
found-allowed d none fallback f h = h
found-allowed d (some v) fallback f h = f v refl

normalize_value-allowed :
    (d : Dimension) (raw : Option String) (fallback : String)
    → is_allowed d fallback ≡ true
    → is_allowed d (normalize_value d raw fallback) ≡ true
unfolding normalize_value is_allowed
normalize_value-allowed d raw fallback h =
    found-allowed d (find_text (normalize_string raw) (allowed_values d)) fallback
      (find_text-any (normalize_string raw) (allowed_values d)) h

pub normalize_persona-IsAllowed :
    (s : RawSkill) (q : RawPersonality) (a : RawAesthetic) (base : Persona)
    → IsAllowed base
    → IsAllowed (normalize_persona s q a base)
unfolding normalize_persona normalize_skill normalize_personality normalize_aesthetic
normalize_persona-IsAllowed s q a base h = record {
  primary_domain =
      normalize_value-allowed primary_domain s.primary_domain base.skill_profile.primary_domain
        h.primary_domain;
  system_scope =
      normalize_value-allowed system_scope s.system_scope base.skill_profile.system_scope
        h.system_scope;
  validation_bias =
      normalize_value-allowed validation_bias s.validation_bias base.skill_profile.validation_bias
        h.validation_bias;
  risk_posture =
      normalize_value-allowed risk_posture q.risk_posture base.personality_profile.risk_posture
        h.risk_posture;
  challenge_style =
      normalize_value-allowed challenge_style q.challenge_style
        base.personality_profile.challenge_style h.challenge_style;
  execution_pace =
      normalize_value-allowed execution_pace q.execution_pace
        base.personality_profile.execution_pace h.execution_pace;
  detail_rigor =
      normalize_value-allowed detail_rigor q.detail_rigor base.personality_profile.detail_rigor
        h.detail_rigor;
  communication_style =
      normalize_value-allowed communication_style q.communication_style
        base.personality_profile.communication_style h.communication_style;
  surface_preference =
      normalize_value-allowed surface_preference a.surface_preference
        base.aesthetic_profile.surface_preference h.surface_preference;
  information_density =
      normalize_value-allowed information_density a.information_density
        base.aesthetic_profile.information_density h.information_density;
  motion_tolerance =
      normalize_value-allowed motion_tolerance a.motion_tolerance
        base.aesthetic_profile.motion_tolerance h.motion_tolerance;
}

pub templates-IsAllowed : Entries (λ id p. IsAllowed p) persona_templates
unfolding is_allowed
templates-IsAllowed = (
  record {
    primary_domain = refl;
    system_scope = refl;
    validation_bias = refl;
    risk_posture = refl;
    challenge_style = refl;
    execution_pace = refl;
    detail_rigor = refl;
    communication_style = refl;
    surface_preference = refl;
    information_density = refl;
    motion_tolerance = refl;
  },
  (
    record {
      primary_domain = refl;
      system_scope = refl;
      validation_bias = refl;
      risk_posture = refl;
      challenge_style = refl;
      execution_pace = refl;
      detail_rigor = refl;
      communication_style = refl;
      surface_preference = refl;
      information_density = refl;
      motion_tolerance = refl;
    },
    (
      record {
        primary_domain = refl;
        system_scope = refl;
        validation_bias = refl;
        risk_posture = refl;
        challenge_style = refl;
        execution_pace = refl;
        detail_rigor = refl;
        communication_style = refl;
        surface_preference = refl;
        information_density = refl;
        motion_tolerance = refl;
      },
      (
        record {
          primary_domain = refl;
          system_scope = refl;
          validation_bias = refl;
          risk_posture = refl;
          challenge_style = refl;
          execution_pace = refl;
          detail_rigor = refl;
          communication_style = refl;
          surface_preference = refl;
          information_density = refl;
          motion_tolerance = refl;
        },
        (
          record {
            primary_domain = refl;
            system_scope = refl;
            validation_bias = refl;
            risk_posture = refl;
            challenge_style = refl;
            execution_pace = refl;
            detail_rigor = refl;
            communication_style = refl;
            surface_preference = refl;
            information_density = refl;
            motion_tolerance = refl;
          },
          (
            record {
              primary_domain = refl;
              system_scope = refl;
              validation_bias = refl;
              risk_posture = refl;
              challenge_style = refl;
              execution_pace = refl;
              detail_rigor = refl;
              communication_style = refl;
              surface_preference = refl;
              information_density = refl;
              motion_tolerance = refl;
            },
            (
              record {
                primary_domain = refl;
                system_scope = refl;
                validation_bias = refl;
                risk_posture = refl;
                challenge_style = refl;
                execution_pace = refl;
                detail_rigor = refl;
                communication_style = refl;
                surface_preference = refl;
                information_density = refl;
                motion_tolerance = refl;
              },
              (
                record {
                  primary_domain = refl;
                  system_scope = refl;
                  validation_bias = refl;
                  risk_posture = refl;
                  challenge_style = refl;
                  execution_pace = refl;
                  detail_rigor = refl;
                  communication_style = refl;
                  surface_preference = refl;
                  information_density = refl;
                  motion_tolerance = refl;
                },
                (
                  record {
                    primary_domain = refl;
                    system_scope = refl;
                    validation_bias = refl;
                    risk_posture = refl;
                    challenge_style = refl;
                    execution_pace = refl;
                    detail_rigor = refl;
                    communication_style = refl;
                    surface_preference = refl;
                    information_density = refl;
                    motion_tolerance = refl;
                  },
                  (
                    record {
                      primary_domain = refl;
                      system_scope = refl;
                      validation_bias = refl;
                      risk_posture = refl;
                      challenge_style = refl;
                      execution_pace = refl;
                      detail_rigor = refl;
                      communication_style = refl;
                      surface_preference = refl;
                      information_density = refl;
                      motion_tolerance = refl;
                    },
                    (
                      record {
                        primary_domain = refl;
                        system_scope = refl;
                        validation_bias = refl;
                        risk_posture = refl;
                        challenge_style = refl;
                        execution_pace = refl;
                        detail_rigor = refl;
                        communication_style = refl;
                        surface_preference = refl;
                        information_density = refl;
                        motion_tolerance = refl;
                      },
                      (
                        record {
                          primary_domain = refl;
                          system_scope = refl;
                          validation_bias = refl;
                          risk_posture = refl;
                          challenge_style = refl;
                          execution_pace = refl;
                          detail_rigor = refl;
                          communication_style = refl;
                          surface_preference = refl;
                          information_density = refl;
                          motion_tolerance = refl;
                        },
                        tt,
                      ),
                    ),
                  ),
                ),
              ),
            ),
          ),
        ),
      ),
    ),
  ),
)

-- An allowed value is the normal form of itself.
fixed_values :
    (d : Dimension)
    → All
        (λ v. find_text (normalize_string (some v)) (allowed_values d) ≡ some v)
        (allowed_values d)
unfolding normalize_string find_text
fixed_values primary_domain = (refl, (refl, (refl, (refl, (refl, (refl, tt))))))
fixed_values system_scope =
    (refl, (refl, (refl, (refl, (refl, (refl, (refl, (refl, (refl, tt)))))))))
fixed_values validation_bias = (refl, (refl, (refl, (refl, tt))))
fixed_values risk_posture = (refl, (refl, (refl, tt)))
fixed_values challenge_style = (refl, (refl, (refl, tt)))
fixed_values execution_pace = (refl, (refl, (refl, tt)))
fixed_values detail_rigor = (refl, (refl, (refl, tt)))
fixed_values communication_style = (refl, (refl, (refl, tt)))
fixed_values surface_preference = (refl, (refl, (refl, (refl, tt))))
fixed_values information_density = (refl, (refl, (refl, tt)))
fixed_values motion_tolerance = (refl, (refl, (refl, tt)))

fixed_of :
    (f : String → Option String) (x : String) (vs : List String)
    → All (λ v. f v ≡ some v) vs
    → any (λ v. v == x) vs ≡ true
    → f x ≡ some x
unfolding any
fixed_of f x [] h m = absurd (cc)
fixed_of f x (v ∷ vs) h m = elim (Bool-cases (v == x)) [
  | inl same ↦ rw (← (eq_iff v x).0 same) h.0
  | inr other ↦ fixed_of f x vs h.1 (rw other at m)
]

normalize_value-fixed :
    (d : Dimension) (x fallback : String)
    → is_allowed d x ≡ true
    → normalize_value d (some x) fallback ≡ x
unfolding normalize_value is_allowed
normalize_value-fixed d x fallback h =
    ap (λ (o : Option String). elim o [ some v ↦ v | none ↦ fallback ])
      (fixed_of (λ y. find_text (normalize_string (some y)) (allowed_values d)) x (allowed_values d)
        (fixed_values d) h)

abbrev pub raw_skill : SkillProfile → RawSkill
raw_skill p = record {
  primary_domain = some p.primary_domain;
  system_scope = some p.system_scope;
  validation_bias = some p.validation_bias;
}

abbrev pub raw_personality : PersonalityProfile → RawPersonality
raw_personality p = record {
  risk_posture = some p.risk_posture;
  challenge_style = some p.challenge_style;
  execution_pace = some p.execution_pace;
  detail_rigor = some p.detail_rigor;
  communication_style = some p.communication_style;
  style = none;
}

abbrev pub raw_aesthetic : AestheticProfile → RawAesthetic
raw_aesthetic p = record {
  surface_preference = some p.surface_preference;
  information_density = some p.information_density;
  motion_tolerance = some p.motion_tolerance;
  preference = none;
}

pub normalize_persona-fixed :
    (p base : Persona)
    → IsAllowed p
    → normalize_persona
        (raw_skill p.skill_profile)
        (raw_personality p.personality_profile)
        (raw_aesthetic p.aesthetic_profile)
        base
      ≡ p
unfolding normalize_persona normalize_skill normalize_personality normalize_aesthetic
normalize_persona-fixed p base h = λ i. record {
  skill_profile = record {
    primary_domain =
        normalize_value-fixed primary_domain p.skill_profile.primary_domain
          base.skill_profile.primary_domain h.primary_domain i;
    system_scope =
        normalize_value-fixed system_scope p.skill_profile.system_scope
          base.skill_profile.system_scope h.system_scope i;
    validation_bias =
        normalize_value-fixed validation_bias p.skill_profile.validation_bias
          base.skill_profile.validation_bias h.validation_bias i;
  };
  personality_profile = record {
    risk_posture =
        normalize_value-fixed risk_posture p.personality_profile.risk_posture
          base.personality_profile.risk_posture h.risk_posture i;
    challenge_style =
        normalize_value-fixed challenge_style p.personality_profile.challenge_style
          base.personality_profile.challenge_style h.challenge_style i;
    execution_pace =
        normalize_value-fixed execution_pace p.personality_profile.execution_pace
          base.personality_profile.execution_pace h.execution_pace i;
    detail_rigor =
        normalize_value-fixed detail_rigor p.personality_profile.detail_rigor
          base.personality_profile.detail_rigor h.detail_rigor i;
    communication_style =
        normalize_value-fixed communication_style p.personality_profile.communication_style
          base.personality_profile.communication_style h.communication_style i;
  };
  aesthetic_profile = record {
    surface_preference =
        normalize_value-fixed surface_preference p.aesthetic_profile.surface_preference
          base.aesthetic_profile.surface_preference h.surface_preference i;
    information_density =
        normalize_value-fixed information_density p.aesthetic_profile.information_density
          base.aesthetic_profile.information_density h.information_density i;
    motion_tolerance =
        normalize_value-fixed motion_tolerance p.aesthetic_profile.motion_tolerance
          base.aesthetic_profile.motion_tolerance h.motion_tolerance i;
  };
}
