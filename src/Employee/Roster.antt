-- ===== src/Employee/Roster.antt =====
-- The list of employees that `rebuild_employee_projections` returns.
use boardroom_os.Base.{
  Bool, ap, String, ◌≡◌, refl, sym, ◌∙◌, false, Option, none, some, List, [], ◌∷◌, ◌++◌, text_eq,
  option_eq,
}
use mathlib.Core.Option.{some_inj}
use boardroom_os.Base.Result.{Result, ok, ◌>>=◌, >>=-eq-ok, ok_inj}
use boardroom_os.Base.All.{All, All-weaken}
use boardroom_os.Base.Dict.{Dict, get, values, Entries, values-All, find_by, find_by-values}
use boardroom_os.Field.{item}
use boardroom_os.Field
use boardroom_os.Event.{
  iso, EventType, employee_hired, employee_replaced, employee_frozen, employee_restored, Event,
}
use boardroom_os.Persona.Profiles.{Persona}
use boardroom_os.Persona.Allowed.{IsAllowed}
use boardroom_os.Persona.Normalize.{NormalizedPersona}
use boardroom_os.Persona.Known.{normalize_persona_profiles-IsAllowed}
use boardroom_os.Projection.{project, trace, touches}
use boardroom_os.Projection.Laws.{
  Was, Writes, Writes-bind, project-Entries, get-project, trace-append, trace-write,
}
use boardroom_os.Employee.{
  Employee, EmployeeWrite, hired_profiles, hire, previous_projection, replace, freeze, restore,
  on_hired, on_changed, plan_of, plan, rebuild_employee_projections, role_of, or_empty, empty_skill,
  empty_personality, empty_aesthetic,
}
use boardroom_os.Employee.Sort.{sort_ids, sort_ids-IsSorted, Ascending, id_ltb}

-- A persona with allowed values, or no persona.
abbrev pub AllowedOrEmpty : Option Persona → Type 0
AllowedOrEmpty none = Unit
AllowedOrEmpty (some p) = IsAllowed p

-- What the entry under an id says of itself.
pub record Sound (k : Option String) (v : Employee) : Type 0 where
  pub own_id : v.employee_id ≡ k
  pub allowed : AllowedOrEmpty v.profiles

hired_profiles-IsAllowed :
    (e : Event) (n : NormalizedPersona) → hired_profiles e.payload ≡ ok n → IsAllowed n.persona
unfolding hired_profiles
hired_profiles-IsAllowed e n h =
    normalize_persona_profiles-IsAllowed (role_of e.payload) none
      (or_empty empty_skill (Field.get e.payload.skill_profile))
      (or_empty empty_personality (Field.get e.payload.personality_profile))
      (or_empty empty_aesthetic (Field.get e.payload.aesthetic_profile)) n h

hire-Sound :
    (e : Event) (k : Option String) (p : Persona) (o : Option Employee)
    → IsAllowed p
    → Sound k (hire e k p o)
unfolding hire
hire-Sound e k p o h = record { own_id = refl; allowed = h }

on_hired-Writes : (e : Event) → Writes Sound (on_hired e)
unfolding on_hired
on_hired-Writes e = Writes-bind Sound (item "employee_id" e.payload.employee_id) _ (λ k _.
    Writes-bind Sound (hired_profiles e.payload) _
      (λ n made o _. hire-Sound e k n.persona o (hired_profiles-IsAllowed e n made)))

-- A change that keeps the id and the profiles of an entry.
abbrev KeepsSound : (Event → Option String → Option Employee → Employee) → Type 0
KeepsSound change =
    (e : Event) (k : Option String) (o : Option Employee) → Was Sound k o → Sound k (change e k o)

replace-KeepsSound : KeepsSound replace
unfolding replace previous_projection
replace-KeepsSound e k none h = record { own_id = refl; allowed = tt }
replace-KeepsSound e k (some v) h = record { own_id = h.own_id; allowed = h.allowed }

freeze-KeepsSound : KeepsSound freeze
unfolding freeze previous_projection
freeze-KeepsSound e k none h = record { own_id = refl; allowed = tt }
freeze-KeepsSound e k (some v) h = record { own_id = h.own_id; allowed = h.allowed }

restore-KeepsSound : KeepsSound restore
unfolding restore previous_projection
restore-KeepsSound e k none h = record { own_id = refl; allowed = tt }
restore-KeepsSound e k (some v) h = record { own_id = h.own_id; allowed = h.allowed }

on_changed-Writes :
    (change : Event → Option String → Option Employee → Employee)
    → KeepsSound change
    → (e : Event) → Writes Sound (on_changed change e)
unfolding on_changed
on_changed-Writes change keeps e =
    Writes-bind Sound (item "employee_id" e.payload.employee_id) _ (λ k _ o h. keeps e k o h)

plan_of-Writes : (t : EventType) (e : Event) → Writes Sound (plan_of t e)
unfolding plan_of
plan_of-Writes employee_hired e = on_hired-Writes e
plan_of-Writes employee_replaced e = on_changed-Writes replace replace-KeepsSound e
plan_of-Writes employee_frozen e = on_changed-Writes freeze freeze-KeepsSound e
plan_of-Writes employee_restored e = on_changed-Writes restore restore-KeepsSound e
plan_of-Writes _ e = search tt

plan-Writes : (e : Event) → Writes Sound (plan e)
unfolding plan
plan-Writes e = plan_of-Writes e.event_type e

-- The list is the values of a sorted dictionary, which agrees with the log.
pub record Listed (events : List Event) (vs : List Employee) : Type 1 where
  pub sorted : Dict (Option String) Employee
  pub listed : vs ≡ values sorted
  pub ascending : Ascending sorted
  pub sound : Entries Sound sorted
  pub entry : (k : Option String) → get k sorted ≡ trace plan k none events

pub rebuild_employee_projections-Listed :
    (events : List Event) (vs : List Employee)
    → rebuild_employee_projections events ≡ ok vs
    → Listed events vs
unfolding rebuild_employee_projections
rebuild_employee_projections-Listed events vs h =
    let (d, projected, rest) =
      >>=-eq-ok (project plan events) (λ d. sort_ids d >>= λ s. ok (values s)) h in
    let (s, made, last) =
      >>=-eq-ok (sort_ids d) (λ (s : Dict (Option String) Employee). ok (values s)) rest in
    let sorting = sort_ids-IsSorted d s made in
    record {
      sorted = s;
      listed = sym (ok_inj (values s) vs last);
      ascending = sorting.ascending;
      sound = sorting.keeps Sound (project-Entries plan Sound plan-Writes events d projected);
      entry = λ k. sorting.same_entry k ∙ get-project plan k events d projected;
    }

Listed-own :
    (events : List Event) (vs : List Employee) (l : Listed events vs)
    → Entries (λ k v. v.employee_id ≡ k) l.sorted
Listed-own events vs l =
    All-weaken (λ (p : Option String × Employee). Sound p.0 p.1)
      (λ (p : Option String × Employee). p.1.employee_id ≡ p.0) (λ p q. q.own_id) l.sorted l.sound

-- Every employee that `rebuild_employee_projections` lists has a persona in which each value is one
-- that its dimension allows, or no persona at all.
pub rebuild_employee_projections-AllowedOrEmpty :
    (events : List Event) (vs : List Employee)
    → rebuild_employee_projections events ≡ ok vs
    → All (λ v. AllowedOrEmpty v.profiles) vs
rebuild_employee_projections-AllowedOrEmpty events vs h =
    let l = rebuild_employee_projections-Listed events vs h in
    rw l.listed
      (values-All Sound (λ v. AllowedOrEmpty v.profiles) (λ k v q. q.allowed) l.sorted l.sound)

-- No employee is listed after one with a greater id.
abbrev pub AscendingIds : List Employee → Type 0
AscendingIds [] = Unit
AscendingIds (v ∷ []) = Unit
AscendingIds (v ∷ w ∷ vs) = (id_ltb w.employee_id v.employee_id ≡ false) × AscendingIds (w ∷ vs)

values-AscendingIds :
    (d : Dict (Option String) Employee)
    → Entries (λ k v. v.employee_id ≡ k) d
    → Ascending d
    → AscendingIds (values d)
values-AscendingIds [] own h = tt
values-AscendingIds ((k, v) ∷ []) own h = tt
values-AscendingIds ((k, v) ∷ (j, w) ∷ d) own h =
    (rw (own.0, own.1.0) h.0, values-AscendingIds ((j, w) ∷ d) own.1 h.1)

-- The employees are listed in the order of their ids.
pub rebuild_employee_projections-AscendingIds :
    (events : List Event) (vs : List Employee)
    → rebuild_employee_projections events ≡ ok vs
    → AscendingIds vs
rebuild_employee_projections-AscendingIds events vs h =
    let l = rebuild_employee_projections-Listed events vs h in
    rw l.listed (values-AscendingIds l.sorted (Listed-own events vs l) l.ascending)

-- `SELECT * FROM employee_projection WHERE employee_id = ?`
abbrev pub employee_of : Option String → List Employee → Option Employee
employee_of = find_by (λ v. v.employee_id)

employee_of-trace :
    (k : Option String) (events : List Event) (vs : List Employee)
    → rebuild_employee_projections events ≡ ok vs
    → employee_of k vs ≡ trace plan k none events
employee_of-trace k events vs h =
    let l = rebuild_employee_projections-Listed events vs h in
    rw l.listed (
      find_by-values (λ (v : Employee). v.employee_id) k l.sorted (Listed-own events vs l)
      ∙ l.entry k)

-- The state that an event other than a hiring gives its employee.
abbrev pub state_after : EventType → Option String
state_after employee_replaced = some "REPLACED"
state_after employee_frozen = some "FROZEN"
state_after employee_restored = some "ACTIVE"
state_after _ = none

-- Whether an employee is approved after such an event: a replacement takes the approval away.
abbrev pub approved_after : EventType → (board_approved : Bool) → Bool
approved_after employee_replaced b = false
approved_after _ b = b

-- What such an event leaves of an employee: the state, the time and the version are its own, a
-- replacement takes the approval away, and the rest is as it was.
abbrev pub IsChanged : String → Event → Employee → Employee → Type 0
IsChanged s e u v =
    (v.state ≡ s)
    × (v.profiles ≡ u.profiles)
    × (v.role_type ≡ u.role_type)
    × (v.provider_id ≡ u.provider_id)
    × (v.role_profile_refs ≡ u.role_profile_refs)
    × (v.board_approved ≡ approved_after e.event_type u.board_approved)
    × (v.updated_at ≡ iso e.occurred_at)
    × (v.version ≡ e.sequence_no)

abbrev ChangesTo : String → String → Event → Result (Option EmployeeWrite) → Type 0
ChangesTo id s e p =
    (change : Option Employee → Employee) × (p
      ≡ ok (some (record { key = some id; update = change })))
    × ((u : Employee) → IsChanged s e u (change (some u)))

no_state {ℓ} : {C : Type ℓ} (s : String) → ◌≡◌ {A = Option String} none (some s) → C
no_state s h = absurd (cc)

plan_of-changes :
    (t : EventType) (e : Event) (id s : String)
    → e.event_type ≡ t
    → state_after t ≡ some s
    → item "employee_id" e.payload.employee_id ≡ ok (some id)
    → ChangesTo id s e (plan_of t e)
unfolding plan_of on_changed replace freeze restore previous_projection
plan_of-changes employee_replaced e id s type h k = (
  replace e (some id),
  rw k refl,
  λ u. (
    some_inj.0 h,
    refl,
    refl,
    refl,
    refl,
    ap (λ x. approved_after x u.board_approved) (sym type),
    refl,
    refl,
  ),
)
plan_of-changes employee_frozen e id s type h k = (
  freeze e (some id),
  rw k refl,
  λ u. (
    some_inj.0 h,
    refl,
    refl,
    refl,
    refl,
    ap (λ x. approved_after x u.board_approved) (sym type),
    refl,
    refl,
  ),
)
plan_of-changes employee_restored e id s type h k = (
  restore e (some id),
  rw k refl,
  λ u. (
    some_inj.0 h,
    refl,
    refl,
    refl,
    refl,
    ap (λ x. approved_after x u.board_approved) (sym type),
    refl,
    refl,
  ),
)
plan_of-changes _ e id s type h k = no_state s h

-- An employee that the log before an event lists is, after the event and until the next one that
-- writes it, in the state REPLACED, FROZEN or ACTIVE that the event's type names, with the event's
-- time and sequence number, not approved by the board after a replacement and as approved as before
-- after a freeze or a restore, and with the persona, the role, the provider and the role profiles
-- that it had.
pub rebuild_employee_projections_last :
    (xs ys : List Event) (e : Event) (id s : String) (u : Employee) (us vs : List Employee)
    → state_after e.event_type ≡ some s
    → item "employee_id" e.payload.employee_id ≡ ok (some id)
    → All (λ y. touches plan (some id) y ≡ false) ys
    → rebuild_employee_projections xs ≡ ok us
    → employee_of (some id) us ≡ some u
    → rebuild_employee_projections (xs ++ e ∷ ys) ≡ ok vs
    → (v : Employee) × (employee_of (some id) vs ≡ some v) × IsChanged s e u v
rebuild_employee_projections_last xs ys e id s u us vs t k miss before found after =
    let (change, planned, changed) = plan_of-changes e.event_type e id s refl t k in
    let was : trace plan (some id) none xs ≡ some u =
      sym (employee_of-trace (some id) xs us before) ∙ found in
    (
      change (some u),
      employee_of-trace (some id) (xs ++ e ∷ ys) vs after
          ∙ (trace-append plan (some id) none xs (e ∷ ys)
              ∙ (trace-write plan (trace plan (some id) none xs) e
                    (record { key = some id; update = change }) ys (unfold plan in planned) miss
                  ∙ rw was refl)),
      changed u,
    )
