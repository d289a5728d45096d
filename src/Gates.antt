-- ===== src/Gates.antt =====
-- backend/app/core/ticket_handlers.py: the tickets that a ticket waits for, and the test that they do
-- not wait for it.
pub mod Terminates
pub mod Search
pub mod Correct
pub mod Dispatch
pub mod Ready
use boardroom_os.Base.{
  ℕ, zero, suc, ◌+◌, String, Bool, true, false, ◌&&◌, ◌||◌, not, Option, none, some, List, [], ◌∷◌,
  ◌++◌, text_eq, option_eq, ◌==◌, if◌then◌else◌,
}
use mathlib.Core.List.{reverse}
use boardroom_os.Base.All.{any}
use boardroom_os.Base.Result.{Result, ok, ◌>>=◌}
use boardroom_os.Base.Text.{strip}
use boardroom_os.Field.{Field, value, get, text}
use boardroom_os.Event.{DispatchIntent, Payload, Event}
use boardroom_os.Ticket.State.{Ticket}
use boardroom_os.Repository.{
  Repository, count, is_creation, list_all_events, get_latest_ticket_created_payload,
  get_current_ticket_projection,
}

abbrev pub elem : String → List String → Bool
elem x xs = any (λ y. y == x) xs

-- The loop of `_normalized_dependency_gate_refs`; what it has appended is what it has seen.
unfoldable pub normalize_from : (refs : List String) → List (Option String) → List String
unfolding strip any
normalize_from refs [] = refs
normalize_from refs (raw ∷ rest) =
    let ref = strip (text raw) in
    normalize_from (if ref == "" || elem ref refs then refs else refs ++ ref ∷ []) rest

unfoldable pub normalized_dependency_gate_refs : List (Option String) → List String
unfolding normalize_from
normalized_dependency_gate_refs raw = normalize_from [] raw

-- `_resolve_dispatch_intent(created_spec).get("dependency_gate_refs")`
abbrev pub raw_gate_refs : Field DispatchIntent → List (Option String)
raw_gate_refs (value i) = i.dependency_gate_refs
raw_gate_refs _ = []

unfoldable pub resolve_dependency_gate_refs : Payload → List String
unfolding normalized_dependency_gate_refs
resolve_dependency_gate_refs p = normalized_dependency_gate_refs (raw_gate_refs p.dispatch_intent)

unfoldable pub resolve_dependency_ticket_refs : Payload → List String
unfolding resolve_dependency_gate_refs strip any
resolve_dependency_ticket_refs p =
    let refs = resolve_dependency_gate_refs p in
    let parent = strip (text (get p.parent_ticket_id)) in
    if not (parent == "") && not (elem parent refs) then refs ++ parent ∷ [] else refs

unfoldable pub refs_of : Option Payload → List String
unfolding resolve_dependency_ticket_refs
refs_of none = []
refs_of (some p) = resolve_dependency_ticket_refs p

-- The tickets that a ticket waits for. One that was never created waits for none.
unfoldable pub dependencies : Repository → String → List String
unfolding refs_of get_latest_ticket_created_payload
dependencies r ticket = refs_of (get_latest_ticket_created_payload r ticket)

-- The loop of `_dependency_gate_would_create_cycle`. The list of pending tickets is turned around:
-- `pop` takes its first. None stands for a loop that has not ended.
unfoldable pub cycle_search :
    (fuel : ℕ)
    → (String → List String)
    → (ticket : String) → (seen pending : List String) → Option Bool
unfolding any
cycle_search zero next ticket seen pending = none
cycle_search (suc fuel) next ticket seen [] = some false
cycle_search (suc fuel) next ticket seen (x ∷ rest) =
    let again = elem x seen in
    let further =
      cycle_search fuel next ticket (if again then seen else x ∷ seen)
        (if again then rest else reverse (next x) ++ rest) in
    if x == ticket then some true else further

abbrev pub fresh : List String → Option String → Bool
fresh seen none = false
fresh seen (some t) = not (elem t seen)

-- The references that one event makes, if it creates a ticket that has not been seen.
unfoldable pub references : List String → Event → ℕ
unfolding any
references seen e =
    if is_creation e.event_type && fresh seen (get e.payload.ticket_id)
    then count (resolve_dependency_ticket_refs e.payload)
    else 0

unfoldable pub references_left : List String → List Event → ℕ
unfolding references
references_left seen [] = 0
references_left seen (e ∷ es) = references seen e + references_left seen es

-- With a round for every gate, for every reference that a created spec of the log makes, and one.
unfoldable pub dependency_gate_would_create_cycle :
    Repository → (ticket_id : String) → (dependency_gate_refs : List String) → Option Bool
unfolding dependencies cycle_search references_left list_all_events
dependency_gate_would_create_cycle r ticket refs =
    cycle_search (suc (count refs + references_left [] (list_all_events r))) (dependencies r) ticket
      [] (reverse refs)

-- `_validate_ticket_dependency_gates`: the errors that it returns.
pub data GateError : Type 0 where
  includes_itself : (ticket : String) → GateError
  does_not_exist : (ticket : String) → GateError
  outside_workflow : (ticket : String) → (workflow : Option String) → GateError
  creates_cycle : GateError

unfoldable pub gate_error : (workflow gate : String) → Option Ticket → Option GateError
gate_error workflow gate none = some (does_not_exist gate)
gate_error workflow gate (some t) =
    if text t.workflow_id == workflow then none else some (outside_workflow gate t.workflow_id)

-- An error is returned at once.
unfoldable pub or_next : Option GateError → Result (Option GateError) → Result (Option GateError)
or_next (some e) rest = ok (some e)
or_next none rest = rest

unfoldable pub first_gate_error :
    Repository → (workflow ticket : String) → List String → Result (Option GateError)
unfolding gate_error or_next get_current_ticket_projection
first_gate_error r workflow ticket [] = ok none
first_gate_error r workflow ticket (gate ∷ gates) =
    let rest = first_gate_error r workflow ticket gates in
    if gate == ticket
    then ok (some (includes_itself ticket))
    else get_current_ticket_projection r gate >>= λ found.
        or_next (gate_error workflow gate found) rest

unfoldable pub cycle_error : Option Bool → Option GateError
cycle_error (some true) = some creates_cycle
cycle_error _ = none

unfoldable pub validate_ticket_dependency_gates :
    Repository → (workflow ticket : String) → List String → Result (Option GateError)
unfolding first_gate_error dependency_gate_would_create_cycle or_next cycle_error
validate_ticket_dependency_gates r workflow ticket gates =
    first_gate_error r workflow ticket gates >>= λ e.
    or_next e (ok (cycle_error (dependency_gate_would_create_cycle r ticket gates)))
