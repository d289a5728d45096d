-- ===== src/Persona.antt =====
-- backend/app/core/persona_profiles.py: the persona of an employee.
pub mod Profiles
pub mod Templates
pub mod Normalize
pub mod Allowed
pub mod Known
