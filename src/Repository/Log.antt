-- ===== src/Repository/Log.antt =====
-- The table of events under `insert_event`, and what `refresh_projections` makes of it.
use boardroom_os.Base.{
  ℕ, String, ◌≡◌, refl, ap, Bool, true, false, Option, none, some, List, [], ◌∷◌, ◌++◌, map, arith,
  ◌==◌, text_eq, Bool-cases, inl, inr, ◌∙◌, sym,
}
use mathlib.Core.Option.{some_inj}
use boardroom_os.Base.Result.{Result, Error, ok, raise, >>=-eq-ok, ok_inj}
use boardroom_os.Base.All.{All, any, All-append}
use boardroom_os.Base.Dict.{find_by, DistinctIds}
use boardroom_os.Repository.{
  Row, Tables, Repository, NewEvent, row_of, known_key, insert_event, list_all_events,
}
use boardroom_os.Repository.Refresh.{tables_of, refresh_projections, replace_rows, replace_all}

none_some {ℓ κ} : {A : Type ℓ} {C : Type κ} {a : A} → ◌≡◌ {A = Option A} none (some a) → C
none_some h = absurd (cc)

raise_ok {ℓ κ} : {A : Type ℓ} {C : Type κ} {x : Error} {a : A} → raise x ≡ ok a → C
raise_ok h = absurd (cc)

-- A key that the query does not find is not known.
pub known_key_of_unseen :
    (k : String) (rows : List Row)
    → find_by (λ row. row.idempotency_key) k rows ≡ none
    → known_key k rows ≡ false
unfolding find_by known_key any
known_key_of_unseen k [] h = refl
known_key_of_unseen k (row ∷ rows) h = ground (arith, known_key_of_unseen k rows)

pub seen_of_known_key :
    (k : String) (rows : List Row)
    → known_key k rows ≡ true
    → (row : Row) × (find_by (λ row. row.idempotency_key) k rows ≡ some row)
unfolding find_by known_key any
seen_of_known_key k [] h = absurd (cc)
seen_of_known_key k (row ∷ rows) h = elim (Bool-cases (row.idempotency_key == k)) [
  | inl hit ↦ (row, rw hit refl)
  | inr miss ↦ rw miss (seen_of_known_key k rows (rw miss at h))
]

-- No two rows have one key.
abbrev pub UniqueKeys : List Row → Type 0
UniqueKeys = DistinctIds (λ row. row.idempotency_key)

known_key-All :
    (k : String) (rows : List Row)
    → known_key k rows ≡ false
    → All (λ row. (k == row.idempotency_key) ≡ false) rows
unfolding known_key any
known_key-All k [] h = tt
known_key-All k (row ∷ rows) h = (
  ground (arith, text_eq.beq_iff k row.idempotency_key, text_eq.beq_iff row.idempotency_key k),
  known_key-All k rows (ground arith),
)

snoc-UniqueKeys :
    (new : Row) (rows : List Row)
    → All (λ row. (new.idempotency_key == row.idempotency_key) ≡ false) rows
    → UniqueKeys rows
    → UniqueKeys (rows ++ new ∷ [])
snoc-UniqueKeys new [] d u = (tt, tt)
snoc-UniqueKeys new (row ∷ rows) d u = (
  All-append (λ (w : Row). (w.idempotency_key == row.idempotency_key) ≡ false) rows (new ∷ []) u.0
      (d.0, tt),
  snoc-UniqueKeys new rows d.1 u.1,
)

known_key-snoc :
    (k : String) (new : Row) (rows : List Row)
    → known_key k rows ≡ true
    → known_key k (rows ++ new ∷ []) ≡ true
unfolding known_key any
known_key-snoc k new [] h = absurd (cc)
known_key-snoc k new (row ∷ rows) h = ground (arith, known_key-snoc k new rows)

known_key-snoc_new :
    (new : Row) (rows : List Row) → known_key new.idempotency_key (rows ++ new ∷ []) ≡ true
unfolding known_key any
known_key-snoc_new new [] = ground (arith, text_eq.beq_iff new.idempotency_key new.idempotency_key)
known_key-snoc_new new (row ∷ rows) = ground (arith, known_key-snoc_new new rows)

-- An insertion that succeeds adds one row, whose key was not there.
pub insert_event-eq_some :
    (e : NewEvent) (r s : Repository)
    → insert_event e r ≡ some s
    → (known_key e.idempotency_key r.rows ≡ false)
      × (s ≡ record r { rows = r.rows ++ row_of e r.rows ∷ [] })
unfolding insert_event
insert_event-eq_some e r s h = elim (Bool-cases (known_key e.idempotency_key r.rows)) [
  | inl known ↦ absurd (none_some (rw known at h))
  | inr new ↦ (new, sym (some_inj.0 (rw new at h)))
]

-- What every insertion keeps: the keys are unique, and no key is forgotten.
pub record IsExtended (r s : Repository) : Type 0 where
  pub unique : UniqueKeys r.rows → UniqueKeys s.rows
  pub known : (k : String) → known_key k r.rows ≡ true → known_key k s.rows ≡ true

pub IsExtended-refl : (r : Repository) → IsExtended r r
IsExtended-refl r = record { unique = λ u. u; known = λ k h. h }

pub IsExtended-trans : (r s t : Repository) → IsExtended r s → IsExtended s t → IsExtended r t
IsExtended-trans r s t a b = record {
  unique = λ u. b.unique (a.unique u);
  known = λ k h. b.known k (a.known k h);
}

pub insert_event-IsExtended :
    (e : NewEvent) (r s : Repository) → insert_event e r ≡ some s → IsExtended r s
insert_event-IsExtended e r s h =
    let (new, made) = insert_event-eq_some e r s h in
    rw made (record {
      unique = λ u.
          snoc-UniqueKeys (row_of e r.rows) r.rows (known_key-All e.idempotency_key r.rows new) u;
      known = λ k known. known_key-snoc k (row_of e r.rows) r.rows known;
    })

pub insert_event-known :
    (e : NewEvent) (r s : Repository)
    → insert_event e r ≡ some s
    → known_key e.idempotency_key s.rows ≡ true
insert_event-known e r s h =
    rw (insert_event-eq_some e r s h).1 (known_key-snoc_new (row_of e r.rows) r.rows)

-- The tables are what `refresh_projections` writes.
abbrev pub IsFresh : ℕ → Repository → Type 0
IsFresh depth r = tables_of depth (list_all_events r) ≡ ok r.tables

pub refresh_projections-eq-ok :
    (depth : ℕ) (r s : Repository)
    → refresh_projections depth r ≡ ok s
    → (s.rows ≡ r.rows) × IsFresh depth s
unfolding refresh_projections list_all_events
refresh_projections-eq-ok depth r s h =
    let (t, made, stored) =
      >>=-eq-ok (tables_of depth (map (λ row. row.event) r.rows))
        (λ (t : Tables). ok (record r { tables = t })) h in
    let e : s ≡ record r { tables = t } = sym (ok_inj (record r { tables = t }) s stored) in
    (ap (λ (x : Repository). x.rows) e, rw e made)

-- Writing rows that have every column that they need gives the rows back.
pub replace_rows-eq-ok {ℓ} :
    {A : Type ℓ} (p : A → Bool) (as' bs : List A) → replace_rows p as' ≡ ok bs → bs ≡ as'
unfolding replace_rows
replace_rows-eq-ok p [] bs h = sym (ok_inj [] bs h)
replace_rows-eq-ok p (a ∷ rest) bs h = elim (Bool-cases (p a)) [
  | inl filled ↦
      let (done, others, made) =
        >>=-eq-ok (replace_rows p rest) (λ done. ok (a ∷ done)) (rw filled at h) in
      sym (ok_inj (a ∷ done) bs made) ∙ ap (λ t. a ∷ t) (replace_rows-eq-ok p rest done others)
  | inr missing ↦ raise_ok (rw missing at h)
]

pub replace_all-eq-ok {ℓ} :
    {A : Type ℓ} (p : A → Bool) (m : Result (List A)) (as' : List A)
    → replace_all p m ≡ ok as'
    → m ≡ ok as'
unfolding replace_all
replace_all-eq-ok p (ok bs) as' h = ap (λ l. ok l) (sym (replace_rows-eq-ok p bs as' h))
replace_all-eq-ok p (raise x) as' h = raise_ok h
