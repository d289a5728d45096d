-- ===== src/Staffing/Excluded.antt =====
-- Whom the specs that staffing_containment.py writes exclude.
use boardroom_os.Base.{
  String, ◌≡◌, refl, ◌∙◌, Bool, true, not, ◌&&◌, ◌||◌, Option, some, List, [], ◌∷◌, ◌++◌, map,
  arith, ◌==◌, text_eq, eq_iff, Bool-cases, inl, inr, ◌≢◌,
}
use boardroom_os.Base.All.{All, any, keep, keep-All}
use boardroom_os.Base.Text.{strip}
use boardroom_os.Base.Strip.{strip_idem}
use boardroom_os.Field.{text}
use boardroom_os.Staffing.Dedupe.{
  member, dedupe_from, dedupe_string_values, NoRepeats, given, member-dedupe_from,
}
use boardroom_os.Staffing.Log.{CreatedPayload}
use boardroom_os.Staffing.Contain.{
  Request, exclude, requeued_payload, build_staffing_containment_context,
}
use boardroom_os.Staffing.Restore.{
  RestoreRequest, event_employee_frozen, frozen_for, readmitted_payload, readmit,
}

dedupe_from-NoRepeats :
    (seen : List String) (vs : List (Option String)) → NoRepeats (dedupe_from seen vs)
unfolding dedupe_from any member
dedupe_from-NoRepeats seen [] = tt
dedupe_from-NoRepeats seen (v ∷ vs) =
    elim (Bool-cases (strip (text v) == "" || member (strip (text v)) seen)) [
      | inl skipped ↦ rw skipped (dedupe_from-NoRepeats seen vs)
      | inr kept ↦ rw kept (
        ground (
          arith,
          member-dedupe_from (strip (text v)) (strip (text v) ∷ seen) vs,
          eq_iff (strip (text v)) (strip (text v)),
        ),
        dedupe_from-NoRepeats (strip (text v) ∷ seen) vs,
      )
    ]

-- The list that `_dedupe_string_values` returns has no text twice, and its texts are the ones that
-- the values give when they are stripped, without the empty text.
pub dedupe_string_values-NoRepeats :
    (vs : List (Option String))
    → NoRepeats (dedupe_string_values vs)
      × ((x : String) → member x (dedupe_string_values vs) ≡ (not (x == "") && given x vs))
unfolding dedupe_string_values any member
dedupe_string_values-NoRepeats vs =
    (dedupe_from-NoRepeats [] vs, λ x. ground (arith, member-dedupe_from x [] vs))

given-append :
    (x : String) (vs ws : List (Option String)) → given x (vs ++ ws) ≡ (given x vs || given x ws)
unfolding given any
given-append x [] ws = refl
given-append x (v ∷ vs) ws = ground (arith, given-append x vs ws)

given-one : (x y : String) → given x (some y ∷ []) ≡ (strip y == x)
unfolding given any
given-one x y = ground arith

exclude_lem :
    (x y : String) (vs : List (Option String))
    → member x (exclude y vs) ≡ (not (x == "") && (given x vs || strip y == x))
unfolding exclude
exclude_lem x y vs =
    (dedupe_string_values-NoRepeats (vs ++ some y ∷ [])).1 x
    ∙ rw (given-append x vs (some y ∷ []), given-one x y) refl

-- What is read back from a list of stripped texts is the list.
abbrev Stripped : List String → Type 0
Stripped = All (λ x. strip x ≡ x)

given-map : (x : String) (xs : List String) → Stripped xs → given x (map some xs) ≡ member x xs
unfolding given member any
given-map x [] h = refl
given-map x (y ∷ ys) h = rw (h.0, given-map x ys h.1) refl

dedupe_from-Stripped :
    (seen : List String) (vs : List (Option String)) → Stripped (dedupe_from seen vs)
unfolding dedupe_from
dedupe_from-Stripped seen [] = tt
dedupe_from-Stripped seen (v ∷ vs) =
    elim (Bool-cases (strip (text v) == "" || member (strip (text v)) seen)) [
      | inl skipped ↦ rw skipped (dedupe_from-Stripped seen vs)
      | inr kept ↦ rw kept (strip_idem (text v), dedupe_from-Stripped (strip (text v) ∷ seen) vs)
    ]

exclude-Stripped : (y : String) (vs : List (Option String)) → Stripped (exclude y vs)
unfolding exclude dedupe_string_values
exclude-Stripped y vs = dedupe_from-Stripped [] (vs ++ some y ∷ [])

member-keep :
    (x y : String) (xs : List String)
    → member x (keep (λ z. not (z == y)) xs) ≡ (member x xs && not (x == y))
unfolding member any keep
member-keep x y [] = refl
member-keep x y (z ∷ zs) = ground (arith, member-keep x y zs, eq_iff z x, eq_iff z y, eq_iff x y)

-- `x` is one of the employees that the stored payload excludes.
abbrev pub excluded : String → CreatedPayload → Bool
excluded x p = member x (dedupe_string_values p.excluded_employee_ids)

read_back :
    (x : String) (xs : List String)
    → Stripped xs
    → member x (dedupe_string_values (map some xs)) ≡ (not (x == "") && member x xs)
read_back x xs h = (dedupe_string_values-NoRepeats (map some xs)).1 x ∙ rw (given-map x xs h) refl

keep-Stripped :
    (y : String) (xs : List String) → Stripped xs → Stripped (keep (λ z. not (z == y)) xs)
keep-Stripped y xs h = keep-All (λ z. not (z == y)) (λ z. strip z ≡ z) xs h

-- A spec that is requeued for an employee excludes the employee and whom it excluded before, and no
-- one else, where the employee's id is stripped and not empty.
pub requeued_payload-excluded :
    (r : Request) (p : CreatedPayload) (x : String)
    → strip r.employee_id ≡ r.employee_id
    → r.employee_id ≢ ""
    → excluded x (requeued_payload r p) ≡ (excluded x p || r.employee_id == x)
unfolding requeued_payload
requeued_payload-excluded r p x trimmed there =
    let id = r.employee_id in
    let before = p.excluded_employee_ids in
    ground (
      arith,
      read_back x (exclude id before) (exclude-Stripped id before),
      exclude_lem x id before,
      (dedupe_string_values-NoRepeats before).1 x,
      trimmed,
      eq_iff (strip id) x,
      eq_iff id x,
      eq_iff x "",
    )

requeued-frozen_for :
    (r : Request) (q : RestoreRequest) (p : CreatedPayload)
    → r.action_kind ≡ event_employee_frozen
    → q.employee_id ≡ r.employee_id
    → frozen_for q.employee_id (requeued_payload r p).staffing_containment ≡ true
unfolding frozen_for requeued_payload build_staffing_containment_context
requeued-frozen_for r q p frozen same = ground (
  arith,
  eq_iff r.employee_id q.employee_id,
  eq_iff r.action_kind event_employee_frozen,
  frozen,
  same,
)

dedupe_string_values-Stripped : (vs : List (Option String)) → Stripped (dedupe_string_values vs)
unfolding dedupe_string_values
dedupe_string_values-Stripped vs = dedupe_from-Stripped [] vs

-- A spec that a freeze of an employee requeued is created anew when the employee is restored, and
-- then excludes whom it excluded before the freeze, the employee apart, and no one else, where the
-- employee's id is stripped and not empty.
pub readmit-requeued_payload :
    (r : Request) (q : RestoreRequest) (p : CreatedPayload)
    → r.action_kind ≡ event_employee_frozen
    → q.employee_id ≡ r.employee_id
    → strip r.employee_id ≡ r.employee_id
    → r.employee_id ≢ ""
    → (p' : CreatedPayload) × (readmit q (requeued_payload r p) ≡ some p')
      × ((x : String) → excluded x p' ≡ (excluded x p && not (x == r.employee_id)))
unfolding readmit readmitted_payload
readmit-requeued_payload r q p frozen same trimmed there =
    let id = r.employee_id in
    let now = requeued_payload r p in
    let previous = dedupe_string_values now.excluded_employee_ids in
    let listed : member q.employee_id previous ≡ true = ground (
      arith,
      requeued_payload-excluded r p q.employee_id trimmed there,
      eq_iff id q.employee_id,
      same,
    ) in
    (
      readmitted_payload q previous now,
      rw (requeued-frozen_for r q p frozen same, listed) refl,
      λ x. ground (
        arith,
        read_back x (keep (λ z. not (z == q.employee_id)) previous) (
            keep-Stripped q.employee_id previous
              (dedupe_string_values-Stripped now.excluded_employee_ids)),
        member-keep x q.employee_id previous,
        requeued_payload-excluded r p x trimmed there,
        (dedupe_string_values-NoRepeats now.excluded_employee_ids).1 x,
        eq_iff x q.employee_id,
        eq_iff x id,
        eq_iff id x,
        same,
      ),
    )
