-- ===== src/Gates/Terminates.antt =====
-- The search for a cycle ends.
use boardroom_os.Base.{
  ℕ, zero, suc, ◌+◌, ◌≤◌, ◌<◌, String, ◌≡◌, refl, Bool, true, false, ◌&&◌, some, List, [], ◌∷◌,
  ◌++◌, arith, text_eq, option_eq, option_beq_iff, ◌==◌, Bool-cases, Option-cases, inl, inr, eq_iff,
}
use mathlib.Core.List.{reverse, reverse-cons}
use boardroom_os.Base.All.{any}
use boardroom_os.Field.{get}
use boardroom_os.Event.{Event}
use boardroom_os.Repository.{
  Repository, count, is_creation, payload_of, last_where, list_all_events,
  get_latest_ticket_created_payload,
}
use boardroom_os.Gates.{
  elem, references, references_left, refs_of, resolve_dependency_ticket_refs, dependencies,
  cycle_search, dependency_gate_would_create_cycle,
}

count-append : (xs ys : List String) → count (xs ++ ys) ≡ count xs + count ys
count-append [] ys = omega arith
count-append (x ∷ xs) ys = omega (arith, count-append xs ys)

count-reverse : (xs : List String) → count (reverse xs) ≡ count xs
count-reverse [] = refl
count-reverse (x ∷ xs) =
    rw (reverse-cons x xs) (omega (arith, count-append (reverse xs) (x ∷ []), count-reverse xs))

-- The events that create a ticket.
abbrev creates : String → Event → Bool
creates x e = is_creation e.event_type && get e.payload.ticket_id == some x

references_le :
    (x : String) (seen : List String) (e : Event) → references (x ∷ seen) e ≤ references seen e
unfolding references any
references_le x seen e = ground arith

references_first :
    (x : String) (seen : List String) (e : Event)
    → elem x seen ≡ false
    → creates x e ≡ true
    → references (x ∷ seen) e + count (resolve_dependency_ticket_refs e.payload) ≤ references seen e
unfolding references any
references_first x seen e new made =
    ground (arith, option_beq_iff (get e.payload.ticket_id) (some x), eq_iff x x)

-- A ticket that is expanded takes its references out of those that are left.
references_left-first :
    (x : String) (seen : List String) (events : List Event)
    → elem x seen ≡ false
    → references_left (x ∷ seen) events
        + count (refs_of (payload_of (last_where (creates x) events)))
      ≤ references_left seen events
unfolding references_left last_where refs_of
references_left-first x seen [] new = omega arith
references_left-first x seen (e ∷ es) new = elim (Option-cases (last_where (creates x) es)) [
  | inr (later, found) ↦
      rw found
        (omega (arith, references_le x seen e, rw found at (references_left-first x seen es new)))
  | inl none' ↦ elim (Bool-cases (creates x e)) [
    | inl made ↦
        rw (none', made)
          (omega (
            arith,
            references_first x seen e new made,
            rw none' at (references_left-first x seen es new),
          ))
    | inr other ↦
        rw (none', other)
          (omega (arith, references_le x seen e, rw none' at (references_left-first x seen es new)))
  ]
]

module _ (next : String → List String) (ticket : String) (left : List String → ℕ)
    (expand : (x : String) (seen : List String)
      → elem x seen ≡ false
      → left (x ∷ seen) + count (next x) ≤ left seen) where
  -- Where what is left to expand is counted, a round for each and one more are enough.
  cycle_search_ends :
      (fuel : ℕ) (seen pending : List String)
      → count pending + left seen < fuel
      → (b : Bool) × (cycle_search fuel next ticket seen pending ≡ some b)
  unfolding cycle_search
  cycle_search_ends zero seen pending h = absurd (omega arith)
  cycle_search_ends (suc fuel) seen [] h = (false, refl)
  cycle_search_ends (suc fuel) seen (x ∷ rest) h = elim (Bool-cases (x == ticket)) [
    | inl hit ↦ (true, rw hit refl)
    | inr miss ↦ elim (Bool-cases (elem x seen)) [
      | inl again ↦ rw (miss, again) (cycle_search_ends fuel seen rest (omega arith))
      | inr first ↦
          rw (miss, first)
            (cycle_search_ends fuel (x ∷ seen) (reverse (next x) ++ rest) (
              omega (
                arith,
                expand x seen first,
                count-append (reverse (next x)) rest,
                count-reverse (next x),
              )))
    ]
  ]

-- The search for a cycle always ends with an answer.
pub dependency_gate_would_create_cycle_ends :
    (r : Repository) (ticket : String) (refs : List String)
    → (b : Bool) × (dependency_gate_would_create_cycle r ticket refs ≡ some b)
unfolding dependency_gate_would_create_cycle dependencies get_latest_ticket_created_payload
dependency_gate_would_create_cycle_ends r ticket refs =
    cycle_search_ends (dependencies r) ticket (λ seen. references_left seen (list_all_events r))
      (λ x seen new. references_left-first x seen (list_all_events r) new)
      (suc (count refs + references_left [] (list_all_events r))) [] (reverse refs)
      (omega (arith, count-reverse refs))
