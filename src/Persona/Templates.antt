-- ===== src/Persona/Templates.antt =====
-- backend/app/core/persona_profiles.py, the persona templates, `_PERSONA_TEMPLATES`.
use boardroom_os.Base.{String, [], ◌∷◌}
use boardroom_os.Base.Dict.{Dict}
use boardroom_os.Persona.Profiles.{Persona}

abbrev pub frontend_core_builder : Persona
frontend_core_builder = record {
  skill_profile = record {
    primary_domain = "frontend";
    system_scope = "delivery_slice";
    validation_bias = "balanced";
  };
  personality_profile = record {
    risk_posture = "assertive";
    challenge_style = "constructive";
    execution_pace = "fast";
    detail_rigor = "focused";
    communication_style = "direct";
  };
  aesthetic_profile = record {
    surface_preference = "functional";
    information_density = "balanced";
    motion_tolerance = "measured";
  };
}

abbrev pub frontend_polish_counterweight : Persona
frontend_polish_counterweight = record {
  skill_profile = record {
    primary_domain = "frontend";
    system_scope = "surface_polish";
    validation_bias = "finish_first";
  };
  personality_profile = record {
    risk_posture = "cautious";
    challenge_style = "probing";
    execution_pace = "measured";
    detail_rigor = "rigorous";
    communication_style = "concise";
  };
  aesthetic_profile = record {
    surface_preference = "polished";
    information_density = "layered";
    motion_tolerance = "restrained";
  };
}

abbrev pub checker_evidence_guard : Persona
checker_evidence_guard = record {
  skill_profile = record {
    primary_domain = "quality";
    system_scope = "release_guard";
    validation_bias = "evidence_first";
  };
  personality_profile = record {
    risk_posture = "guarded";
    challenge_style = "probing";
    execution_pace = "measured";
    detail_rigor = "rigorous";
    communication_style = "forensic";
  };
  aesthetic_profile = record {
    surface_preference = "systematic";
    information_density = "dense";
    motion_tolerance = "minimal";
  };
}

abbrev pub checker_release_sweeper : Persona
checker_release_sweeper = record {
  skill_profile = record {
    primary_domain = "quality";
    system_scope = "release_sweep";
    validation_bias = "regression_first";
  };
  personality_profile = record {
    risk_posture = "cautious";
    challenge_style = "constructive";
    execution_pace = "deliberate";
    detail_rigor = "sweeping";
    communication_style = "concise";
  };
  aesthetic_profile = record {
    surface_preference = "clarifying";
    information_density = "balanced";
    motion_tolerance = "restrained";
  };
}

abbrev pub backend_service_builder : Persona
backend_service_builder = record {
  skill_profile = record {
    primary_domain = "backend";
    system_scope = "service_delivery";
    validation_bias = "balanced";
  };
  personality_profile = record {
    risk_posture = "assertive";
    challenge_style = "constructive";
    execution_pace = "fast";
    detail_rigor = "focused";
    communication_style = "direct";
  };
  aesthetic_profile = record {
    surface_preference = "functional";
    information_density = "balanced";
    motion_tolerance = "measured";
  };
}

abbrev pub backend_integration_counterweight : Persona
backend_integration_counterweight = record {
  skill_profile = record {
    primary_domain = "backend";
    system_scope = "service_delivery";
    validation_bias = "evidence_first";
  };
  personality_profile = record {
    risk_posture = "cautious";
    challenge_style = "probing";
    execution_pace = "measured";
    detail_rigor = "rigorous";
    communication_style = "concise";
  };
  aesthetic_profile = record {
    surface_preference = "systematic";
    information_density = "layered";
    motion_tolerance = "restrained";
  };
}

abbrev pub database_reliability_guard : Persona
database_reliability_guard = record {
  skill_profile = record {
    primary_domain = "data";
    system_scope = "data_reliability";
    validation_bias = "evidence_first";
  };
  personality_profile = record {
    risk_posture = "guarded";
    challenge_style = "probing";
    execution_pace = "measured";
    detail_rigor = "rigorous";
    communication_style = "forensic";
  };
  aesthetic_profile = record {
    surface_preference = "systematic";
    information_density = "dense";
    motion_tolerance = "minimal";
  };
}

abbrev pub database_change_guard : Persona
database_change_guard = record {
  skill_profile = record {
    primary_domain = "data";
    system_scope = "data_reliability";
    validation_bias = "regression_first";
  };
  personality_profile = record {
    risk_posture = "cautious";
    challenge_style = "constructive";
    execution_pace = "deliberate";
    detail_rigor = "sweeping";
    communication_style = "concise";
  };
  aesthetic_profile = record {
    surface_preference = "clarifying";
    information_density = "balanced";
    motion_tolerance = "restrained";
  };
}

abbrev pub platform_operations_guard : Persona
platform_operations_guard = record {
  skill_profile = record {
    primary_domain = "platform";
    system_scope = "runtime_operations";
    validation_bias = "evidence_first";
  };
  personality_profile = record {
    risk_posture = "guarded";
    challenge_style = "probing";
    execution_pace = "measured";
    detail_rigor = "rigorous";
    communication_style = "forensic";
  };
  aesthetic_profile = record {
    surface_preference = "systematic";
    information_density = "dense";
    motion_tolerance = "minimal";
  };
}

abbrev pub platform_reliability_counterweight : Persona
platform_reliability_counterweight = record {
  skill_profile = record {
    primary_domain = "platform";
    system_scope = "runtime_operations";
    validation_bias = "regression_first";
  };
  personality_profile = record {
    risk_posture = "cautious";
    challenge_style = "constructive";
    execution_pace = "deliberate";
    detail_rigor = "sweeping";
    communication_style = "concise";
  };
  aesthetic_profile = record {
    surface_preference = "clarifying";
    information_density = "balanced";
    motion_tolerance = "restrained";
  };
}

abbrev pub architecture_design_reviewer : Persona
architecture_design_reviewer = record {
  skill_profile = record {
    primary_domain = "architecture";
    system_scope = "design_review";
    validation_bias = "evidence_first";
  };
  personality_profile = record {
    risk_posture = "guarded";
    challenge_style = "probing";
    execution_pace = "measured";
    detail_rigor = "rigorous";
    communication_style = "direct";
  };
  aesthetic_profile = record {
    surface_preference = "clarifying";
    information_density = "layered";
    motion_tolerance = "restrained";
  };
}

abbrev pub architecture_governance_director : Persona
architecture_governance_director = record {
  skill_profile = record {
    primary_domain = "architecture";
    system_scope = "governance_direction";
    validation_bias = "balanced";
  };
  personality_profile = record {
    risk_posture = "guarded";
    challenge_style = "probing";
    execution_pace = "deliberate";
    detail_rigor = "rigorous";
    communication_style = "direct";
  };
  aesthetic_profile = record {
    surface_preference = "clarifying";
    information_density = "layered";
    motion_tolerance = "restrained";
  };
}

-- `_PERSONA_TEMPLATES`
abbrev pub persona_templates : Dict String Persona
persona_templates =
    ("frontend_core_builder", frontend_core_builder)
    ∷ ("frontend_polish_counterweight", frontend_polish_counterweight)
    ∷ ("checker_evidence_guard", checker_evidence_guard)
    ∷ ("checker_release_sweeper", checker_release_sweeper)
    ∷ ("backend_service_builder", backend_service_builder)
    ∷ ("backend_integration_counterweight", backend_integration_counterweight)
    ∷ ("database_reliability_guard", database_reliability_guard)
    ∷ ("database_change_guard", database_change_guard)
    ∷ ("platform_operations_guard", platform_operations_guard)
    ∷ ("platform_reliability_counterweight", platform_reliability_counterweight)
    ∷ ("architecture_design_reviewer", architecture_design_reviewer)
    ∷ ("architecture_governance_director", architecture_governance_director)
    ∷ []
