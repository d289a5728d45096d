-- ===== src/Retry/Chain.antt =====
-- The loops over the parents of a ticket end, and pass each parent once.
use boardroom_os.Base.{
  ℕ, zero, suc, ◌+◌, ◌≤◌, ◌<◌, String, ◌≡◌, refl, ap, Bool, true, false, ◌&&◌, ◌||◌, Option, none,
  some, List, [], ◌∷◌, map, arith, text_eq, option_eq, option_beq_iff, ◌==◌, Bool-cases,
  Option-cases, inl, inr, if◌then◌else◌, eq_iff,
}
use boardroom_os.Base.All.{any}
use boardroom_os.Field.{get}
use boardroom_os.Event.{Payload, Event}
use boardroom_os.Repository.{
  Row, Repository, count, is_creation, payload_of, last_where, list_all_events,
  get_latest_ticket_created_payload, get_latest_ticket_terminal_event,
}
use boardroom_os.Gates.{elem, fresh}
use boardroom_os.Retry.{
  climb, ancestors, streak_of, calculate_timeout_streak, calculate_failure_streak, same_node,
  timed_out_again, failed_again,
}

-- One, if the event creates a ticket that has not been seen.
abbrev creation : List String → Event → ℕ
creation seen e = if is_creation e.event_type && fresh seen (get e.payload.ticket_id) then 1 else 0

abbrev creations_left : List String → List Event → ℕ
creations_left seen [] = 0
creations_left seen (e ∷ es) = creation seen e + creations_left seen es

abbrev creates : String → Event → Bool
creates x e = is_creation e.event_type && get e.payload.ticket_id == some x

creation_le :
    (x : String) (seen : List String) (e : Event) → creation (x ∷ seen) e ≤ creation seen e
unfolding any
creation_le x seen e = ground arith

creation_first :
    (x : String) (seen : List String) (e : Event)
    → elem x seen ≡ false
    → creates x e ≡ true
    → creation (x ∷ seen) e + 1 ≤ creation seen e
unfolding any
creation_first x seen e new made =
    ground (arith, option_beq_iff (get e.payload.ticket_id) (some x), eq_iff x x)

creations_left_le :
    (x : String) (seen : List String) (es : List Event)
    → creations_left (x ∷ seen) es ≤ creations_left seen es
creations_left_le x seen [] = omega arith
creations_left_le x seen (e ∷ es) = omega (arith, creation_le x seen e, creations_left_le x seen es)

unfound {ℓ κ} : {A : Type ℓ} {C : Type κ} {a : A} → ◌≡◌ {A = Option A} none (some a) → C
unfound h = absurd (cc)

creation_le_one : (seen : List String) (e : Event) → creation seen e ≤ 1
creation_le_one seen e = ground arith

unseen : (p : String) (seen : List String) → (p == "" || elem p seen) ≡ false → elem p seen ≡ false
unseen p seen h = ground arith

-- A ticket that the log creates is one of those that are left, until it is seen.
creations_left-first :
    (x : String) (seen : List String) (events : List Event) (spec : Payload)
    → elem x seen ≡ false
    → payload_of (last_where (creates x) events) ≡ some spec
    → creations_left (x ∷ seen) events + 1 ≤ creations_left seen events
unfolding last_where
creations_left-first x seen [] spec new h = absurd (cc)
creations_left-first x seen (e ∷ es) spec new h = elim (Option-cases (last_where (creates x) es)) [
  | inr (later, found) ↦ omega (
    arith,
    creation_le x seen e,
    creations_left-first x seen es later.payload new (ap payload_of found),
  )
  | inl none' ↦ elim (Bool-cases (creates x e)) [
    | inl made ↦ omega (arith, creation_first x seen e new made, creations_left_le x seen es)
    | inr other ↦ unfound (rw (none', other) at h)
  ]
]

creations_le :
    (seen : List String) (rows : List Row)
    → creations_left seen (map (λ row. row.event) rows) ≤ count rows
creations_le seen [] = omega arith
creations_le seen (row ∷ rows) =
    omega (arith, creation_le_one seen row.event, creations_le seen rows)

module _ (lookup : String → Option Payload) (passes : String → Payload → Bool)
    (left : List String → ℕ)
    (pass : (x : String) (seen : List String) (spec : Payload)
      → elem x seen ≡ false
      → lookup x ≡ some spec
      → left (x ∷ seen) + 1 ≤ left seen) where
  -- Where what is left to pass is counted, the loop ends, and passes no more than that.
  climb_ends :
      (fuel : ℕ) (seen : List String) (parent : Option String)
      → left seen < fuel
      → (specs : List Payload) × (climb fuel lookup passes seen parent ≡ some specs)
        × (count specs ≤ left seen)
  unfolding climb
  climb_ends zero seen parent h = absurd (omega arith)
  climb_ends (suc fuel) seen none h = ([], refl, omega arith)
  climb_ends (suc fuel) seen (some p) h = elim (Bool-cases (p == "" || elem p seen)) [
    | inl stop ↦ ([], rw (stop, climb) refl, omega arith)
    | inr first ↦ elim (Option-cases (lookup p)) [
      | inl none' ↦ ([], rw (first, none', climb) refl, omega arith)
      | inr (spec, there) ↦ elim (Bool-cases (passes p spec)) [
        | inr other ↦ ([], rw (first, there, other, climb) refl, omega arith)
        | inl passed ↦
            let fewer = pass p seen spec (unseen p seen first) there in
            let (specs, done, few) =
              climb_ends fuel (p ∷ seen) (get spec.parent_ticket_id) (omega (arith, fewer)) in
            (spec ∷ specs, rw (first, there, passed, done, climb) refl, omega (arith, fewer, few))
      ]
    ]
  ]

ancestors_ends :
    (r : Repository) (passes : String → Payload → Bool) (p : Payload)
    → (specs : List Payload) × (ancestors r passes p ≡ some specs) × (count specs ≤ count r.rows)
unfolding ancestors get_latest_ticket_created_payload list_all_events
ancestors_ends r passes p =
    let bound = creations_le [] r.rows in
    let (specs, done, few) =
      climb_ends (get_latest_ticket_created_payload r) passes
        (λ seen. creations_left seen (map (λ row. row.event) r.rows))
        (λ x seen spec new there.
          creations_left-first x seen (map (λ row. row.event) r.rows) spec new there)
        (suc (count r.rows)) [] (get p.parent_ticket_id) (omega (arith, bound)) in
    (specs, done, omega (arith, few, bound))

-- `_calculate_failure_streak` and `_calculate_timeout_streak` always return, and a streak is at least
-- one and at most one more than the number of events.
pub calculate_streak_ends :
    (r : Repository) (workflow node : String) (p : Payload) (fingerprint : String)
    → ((n : ℕ) × (calculate_failure_streak r workflow node p fingerprint ≡ some n)
        × (1 ≤ n)
        × (n ≤ suc (count r.rows)))
      × ((n : ℕ) × (calculate_timeout_streak r workflow node p ≡ some n)
          × (1 ≤ n)
          × (n ≤ suc (count r.rows)))
unfolding calculate_failure_streak calculate_timeout_streak
calculate_streak_ends r workflow node p fingerprint =
    let (failures, ends, few) =
      ancestors_ends r
        (λ parent spec.
          same_node workflow node spec
          && failed_again fingerprint (get_latest_ticket_terminal_event r parent))
        p in
    let (timeouts, ends', few') =
      ancestors_ends r
        (λ parent spec.
          same_node workflow node spec
          && timed_out_again (get_latest_ticket_terminal_event r parent))
        p in
    (
      (suc (count failures), ap streak_of ends, omega arith, omega (arith, few)),
      (suc (count timeouts), ap streak_of ends', omega arith, omega (arith, few')),
    )
