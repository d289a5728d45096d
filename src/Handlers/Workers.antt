-- ===== src/Handlers/Workers.antt =====
-- backend/app/core/ticket_handlers.py: the worker of a ticket, its provider, and the provider's
-- circuit breaker.
use boardroom_os.Base.{
  String, Bool, false, Option, none, some, List, [], ◌∷◌, text_eq, ◌==◌, if◌then◌else◌,
}
use boardroom_os.Base.Text.{strip}
use boardroom_os.Field.{or_else}
use boardroom_os.Event.{FailureDetail}
use boardroom_os.Employee.{Employee}
use boardroom_os.Repository.{
  Repository, get_employee_projection, has_open_circuit_breaker_for_provider,
}

-- `x if x else None`
unfoldable pub non_empty : Option String → Option String
non_empty none = none
non_empty (some s) = if s == "" then none else some s

unfoldable pub provider_of : Option Employee → Option String
unfolding non_empty
provider_of none = none
provider_of (some v) = non_empty v.provider_id

unfoldable pub provider_of_owner : Repository → Option String → Option String
unfolding provider_of get_employee_projection
provider_of_owner r none = none
provider_of_owner r (some owner) = provider_of (get_employee_projection r owner)

-- The provider that a failure names.
unfoldable pub named_provider : Option FailureDetail → Option String
unfolding non_empty
named_provider none = none
named_provider (some d) = non_empty d.provider_id

-- `_resolve_provider_id_for_ticket`, given `ticket["lease_owner"]`
unfoldable pub resolve_provider_id_for_ticket :
    Repository → (ticket_owner lease_owner : Option String) → Option FailureDetail → Option String
unfolding named_provider provider_of_owner non_empty
resolve_provider_id_for_ticket r ticket_owner lease_owner detail = elim (named_provider detail) [
  | some p ↦ some p
  | none ↦ provider_of_owner r (or_else lease_owner (non_empty ticket_owner))
]

unfoldable pub is_active : Option Employee → Bool
is_active none = false
is_active (some v) = v.state == "ACTIVE"

unfoldable pub employee_is_active : Repository → String → Bool
unfolding is_active get_employee_projection
employee_is_active r id = is_active (get_employee_projection r id)

unfoldable pub is_provider_paused : Repository → Option String → Bool
unfolding has_open_circuit_breaker_for_provider
is_provider_paused r none = false
is_provider_paused r (some p) = has_open_circuit_breaker_for_provider r p

-- An entry of the stored provider configuration.
pub record Provider : Type 0 where
  pub provider_id : String
  pub enabled : Bool

unfoldable pub find_entry : String → List Provider → Option Provider
find_entry id [] = none
find_entry id (p ∷ ps) = if p.provider_id == id then some p else find_entry id ps

unfoldable pub find_provider_entry : List Provider → Option String → Option Provider
unfolding find_entry strip
find_provider_entry providers none = none
find_provider_entry providers (some id) =
    if strip id == "" then none else find_entry (strip id) providers

unfoldable pub is_enabled : Option Provider → Bool
is_enabled none = false
is_enabled (some p) = p.enabled

unfoldable pub allow_paused_provider_start : List Provider → Option String → Bool
unfolding find_provider_entry is_enabled
allow_paused_provider_start providers provider = is_enabled (find_provider_entry providers provider)
