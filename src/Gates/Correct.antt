-- ===== src/Gates/Correct.antt =====
-- What the test for a cycle and the validation of the gates say.
use boardroom_os.Base.{
  suc, ◌+◌, String, ◌≡◌, refl, Bool, true, false, Option, none, some, List, [], ◌∷◌, text_eq, ◌==◌,
  Bool-cases, inl, inr, eq_iff, ◌↔◌,
}
use boardroom_os.Base.All.{All}
use boardroom_os.Base.Result.{Result, ok, >>=-eq-ok, ok_inj}
use boardroom_os.Field.{text}
use boardroom_os.Ticket.State.{Ticket}
use boardroom_os.Repository.{Repository, count, list_all_events, get_current_ticket_projection}
use boardroom_os.Gates.{
  dependencies, references_left, dependency_gate_would_create_cycle, GateError, includes_itself,
  creates_cycle, gate_error, or_next, first_gate_error, cycle_error,
  validate_ticket_dependency_gates,
}
use boardroom_os.Gates.Terminates.{dependency_gate_would_create_cycle_ends}
use boardroom_os.Gates.Search.{SomeReaches, cycle_search_iff, some_none}

-- `_dependency_gate_would_create_cycle` always answers, and it answers true exactly if one of the
-- gates is the ticket itself or waits for it, directly or through other tickets.
pub dependency_gate_would_create_cycle_iff :
    (r : Repository) (ticket : String) (refs : List String)
    → (b : Bool) × (dependency_gate_would_create_cycle r ticket refs ≡ some b)
      × ((b ≡ true) ↔ SomeReaches (dependencies r) ticket refs)
unfolding dependency_gate_would_create_cycle
dependency_gate_would_create_cycle_iff r ticket refs =
    let (b, answer) = dependency_gate_would_create_cycle_ends r ticket refs in
    (
      b,
      answer,
      cycle_search_iff (dependencies r) ticket
          (suc (count refs + references_left [] (list_all_events r))) refs b answer,
    )

-- A gate that passes: another ticket of the same workflow, which the tables have.
abbrev pub IsGate : Repository → (workflow ticket gate : String) → Type 0
IsGate r workflow ticket gate =
    ((gate == ticket) ≡ false)
    × ((t : Ticket) × (get_current_ticket_projection r gate ≡ ok (some t))
        × (text t.workflow_id ≡ workflow))

or_next-none :
    (e : Option GateError) (rest : Result (Option GateError))
    → or_next e rest ≡ ok none
    → (e ≡ none) × (rest ≡ ok none)
unfolding or_next
or_next-none none rest h = (refl, h)
or_next-none (some e) rest h = some_none (ok_inj (some e) none h)

gate_error-none :
    (workflow gate : String) (o : Option Ticket)
    → gate_error workflow gate o ≡ none
    → (t : Ticket) × (o ≡ some t) × (text t.workflow_id ≡ workflow)
unfolding gate_error
gate_error-none workflow gate none h = some_none h
gate_error-none workflow gate (some t) h = elim (Bool-cases (text t.workflow_id == workflow)) [
  | inl same ↦ (t, refl, (eq_iff (text t.workflow_id) workflow).0 same)
  | inr other ↦ some_none (rw other at h)
]

gates_pass :
    (r : Repository) (workflow ticket : String) (gates : List String)
    → first_gate_error r workflow ticket gates ≡ ok none
    → All (IsGate r workflow ticket) gates
unfolding first_gate_error
gates_pass r workflow ticket [] h = tt
gates_pass r workflow ticket (gate ∷ gates) h = elim (Bool-cases (gate == ticket)) [
  | inl itself ↦ some_none (ok_inj (some (includes_itself ticket)) none (rw itself at h))
  | inr other ↦
      let (o, found, rest) =
        >>=-eq-ok (get_current_ticket_projection r gate)
          (λ o. or_next (gate_error workflow gate o) (first_gate_error r workflow ticket gates))
          (rw other at h) in
      let (passed, others) =
        or_next-none (gate_error workflow gate o) (first_gate_error r workflow ticket gates) rest in
      let (t, there, same) = gate_error-none workflow gate o passed in
      ((other, (t, rw there at found, same)), gates_pass r workflow ticket gates others)
]

-- If `_validate_ticket_dependency_gates` finds no error, every gate is another ticket of the workflow
-- that the tables have, and no gate waits for the ticket, directly or through other tickets.
pub validate_ticket_dependency_gates-IsGate :
    (r : Repository) (workflow ticket : String) (gates : List String)
    → validate_ticket_dependency_gates r workflow ticket gates ≡ ok none
    → All (IsGate r workflow ticket) gates × (SomeReaches (dependencies r) ticket gates → ⊥)
unfolding validate_ticket_dependency_gates cycle_error
validate_ticket_dependency_gates-IsGate r workflow ticket gates h =
    let (e, first, rest) =
      >>=-eq-ok (first_gate_error r workflow ticket gates)
        (λ e. or_next e (ok (cycle_error (dependency_gate_would_create_cycle r ticket gates)))) h in
    let (no_error, no_cycle) =
      or_next-none e (ok (cycle_error (dependency_gate_would_create_cycle r ticket gates))) rest in
    let (b, answer, iff) = dependency_gate_would_create_cycle_iff r ticket gates in
    (
      gates_pass r workflow ticket gates (rw no_error at first),
      λ reaching.
          let yes' = iff.1 reaching in
          some_none (
            ok_inj (some creates_cycle) none (unfold cycle_error in rw (answer, yes') at no_cycle)),
    )
