-- ===== src/Handlers/Outcome.antt =====
-- What a command that returns has done: nothing, where it is refused or seen before; or it has
-- inserted its event and refreshed the projections.
use boardroom_os.Base.{
  ℕ, String, ◌≡◌, ◌≢◌, refl, ap, sym, ◌∙◌, ◌⊎◌, inl, inr, Option, none, some, option_eq, text_eq,
  true, false, Bool, subst,
}
use boardroom_os.Base.Result.{Result, Error, ok, raise, ◌>>=◌, >>=-eq-ok, ok_inj}
use boardroom_os.Repository.{
  Row, Repository, NewEvent, get_event_by_idempotency_key, insert_event, known_key,
}
use boardroom_os.Repository.Refresh.{refresh_projections}
use boardroom_os.Repository.Log.{
  IsExtended, IsExtended-refl, IsExtended-trans, insert_event-IsExtended, insert_event-known,
  IsFresh, refresh_projections-eq-ok, seen_of_known_key,
}
use boardroom_os.Handlers.Transaction.{
  AckStatus, accepted, Ack, Call, Conflict, acknowledge, fail_with, Verdict, reject, write, ack_of,
  duplicate_ack, rejected_ack, on_conflict, finish, after_insert, apply_verdict, unless_seen,
  run_command, hint_of, nothing_more, Reason,
}

abbrev pub After : Type 0
After = Repository → Result (Repository × Option String)

-- The command has been accepted.
pub record IsAccepted (depth : ℕ) (c : Call) (decide : Repository → Result Verdict) (r : Repository)
    (ack : Ack) (s : Repository) : Type 0 where
  pub event : NewEvent
  pub conflict : Conflict
  pub after : After
  pub inserted : Repository
  pub written : Repository
  pub next : Option String
  pub decided : decide r ≡ ok (write event conflict after)
  pub insertion : insert_event event r ≡ some inserted
  pub rest : after inserted ≡ ok (written, next)
  pub refreshed : refresh_projections depth written ≡ ok s
  pub status : ack.status ≡ accepted

-- It has been refused, or seen before, and nothing has changed.
abbrev pub IsRefused : Repository → Ack → Repository → Type 0
IsRefused r ack s = (s ≡ r) × (ack.status ≢ accepted)

abbrev pub Outcome :
    ℕ → Call → (Repository → Result Verdict) → Repository → Ack → Repository → Type 0
Outcome depth c decide r ack s = IsRefused r ack s ⊎ IsAccepted depth c decide r ack s

pair_of : {m n : Ack × Repository} → ok m ≡ ok n → (n.0 ≡ m.0) × (n.1 ≡ m.1)
pair_of {m} {n} h =
    let e : m ≡ n = ok_inj m n h in
    (ap (λ (p : Ack × Repository). p.0) (sym e), ap (λ (p : Ack × Repository). p.1) (sym e))

abbrev is_accepted : AckStatus → Bool
is_accepted accepted = true
is_accepted _ = false

refused :
    (given : Ack) (r : Repository) (ack : Ack) (s : Repository)
    → is_accepted given.status ≡ false
    → ◌≡◌ {A = Result (Ack × Repository)} (ok (given, r)) (ok (ack, s))
    → IsRefused r ack s
refused given r ack s closed h =
    let (a, t) = pair_of h in
    (
      t,
      λ taken.
          let differ : false ≡ true =
            sym closed ∙ (sym (ap (λ (x : Ack). is_accepted x.status) a) ∙ ap is_accepted taken) in
          absurd (cc),
    )

raised {ℓ κ} : {A : Type ℓ} {C : Type κ} {x : Error} {a : A} → raise x ≡ ok a → C
raised h = absurd (cc)

module _ (depth : ℕ) (c : Call) (action : String) (decide : Repository → Result Verdict)
    (r : Repository) (ack : Ack) (s : Repository) where
  finish-Outcome :
      (e : NewEvent) (conflict : Conflict) (after : After) (inserted : Repository)
      → decide r ≡ ok (write e conflict after)
      → insert_event e r ≡ some inserted
      → finish depth c after inserted ≡ ok (ack, s)
      → Outcome depth c decide r ack s
  unfolding finish ack_of
  finish-Outcome e conflict after inserted decided insertion h =
      let (p, rest, h') =
        >>=-eq-ok (after inserted)
          (λ (p : Repository × Option String). refresh_projections depth p.0 >>= λ done.
            ok (ack_of c accepted none (hint_of c.ticket_id p.1), done))
          h in
      let (done, refreshed, h'') =
        >>=-eq-ok (refresh_projections depth p.0)
          (λ (done : Repository). ok (ack_of c accepted none (hint_of c.ticket_id p.1), done)) h' in
      let (a, t) = pair_of h'' in
      inr (record {
        event = e;
        conflict = conflict;
        after = after;
        inserted = inserted;
        written = p.0;
        next = p.1;
        decided = decided;
        insertion = insertion;
        rest = rest;
        refreshed = rw t refreshed;
        status = ap (λ (x : Ack). x.status) a;
      })

  after_insert-Outcome :
      (e : NewEvent) (conflict : Conflict) (after : After) (o : Option Repository)
      → decide r ≡ ok (write e conflict after)
      → insert_event e r ≡ o
      → after_insert depth c action conflict after r o ≡ ok (ack, s)
      → Outcome depth c decide r ack s
  unfolding after_insert on_conflict duplicate_ack ack_of
  after_insert-Outcome e acknowledge after none decided insertion h =
      inl (refused (duplicate_ack c action) r ack s refl h)
  after_insert-Outcome e (fail_with text) after none decided insertion h = raised h
  after_insert-Outcome e conflict after (some inserted) decided insertion h =
      finish-Outcome e conflict after inserted decided insertion h

  apply_verdict-Outcome :
      (v : Verdict)
      → decide r ≡ ok v
      → apply_verdict depth c action r v ≡ ok (ack, s)
      → Outcome depth c decide r ack s
  unfolding apply_verdict rejected_ack ack_of
  apply_verdict-Outcome (reject reason) decided h =
      inl (refused (rejected_ack c reason) r ack s refl h)
  apply_verdict-Outcome (write e conflict after) decided h =
      after_insert-Outcome e conflict after (insert_event e r) decided refl h

  unless_seen-Outcome :
      (o : Option Row)
      → unless_seen o c action r (decide r >>= apply_verdict depth c action r) ≡ ok (ack, s)
      → Outcome depth c decide r ack s
  unfolding unless_seen duplicate_ack ack_of
  unless_seen-Outcome (some row) h = inl (refused (duplicate_ack c action) r ack s refl h)
  unless_seen-Outcome none h =
      let (v, decided, h') = >>=-eq-ok (decide r) (apply_verdict depth c action r) h in
      apply_verdict-Outcome v decided h'

  -- What a command that returns has done.
  pub run_command-Outcome :
      run_command depth c action decide r ≡ ok (ack, s) → Outcome depth c decide r ack s
  unfolding run_command
  run_command-Outcome h = unless_seen-Outcome (get_event_by_idempotency_key r c.idempotency_key) h

-- A command whose key is known is answered, and changes nothing.
pub run_command-seen :
    (depth : ℕ) (c : Call) (action : String) (decide : Repository → Result Verdict) (r : Repository)
    → known_key c.idempotency_key r.rows ≡ true
    → run_command depth c action decide r ≡ ok (duplicate_ack c action, r)
unfolding run_command unless_seen get_event_by_idempotency_key
run_command-seen depth c action decide r known =
    let (row, found) = seen_of_known_key c.idempotency_key r.rows known in rw found refl

-- What follows an insertion keeps the log.
abbrev pub KeepsLog : After → Type 0
KeepsLog after = (r s : Repository) (next : Option String) → after r ≡ ok (s, next) → IsExtended r s

-- The event of a verdict has the key of the command, and what follows keeps the log.
pub data IsWrite (c : Call) : Verdict → Type 0 where
  refuses : {reason : Reason} → IsWrite c (reject reason)
  writes :
      {e : NewEvent} {conflict : Conflict} {after : After}
      → e.idempotency_key ≡ c.idempotency_key
      → KeepsLog after
      → IsWrite c (write e conflict after)

abbrev Content : Call → Verdict → Type 0
Content c (reject reason) = Unit
Content c (write e conflict after) = (e.idempotency_key ≡ c.idempotency_key) × KeepsLog after

content : (c : Call) (v : Verdict) → IsWrite c v → Content c v
content c _ refuses = tt
content c _ (writes k keeps) = (k, keeps)

-- A predicate on what is returned.
pub data Answers {ℓ} {A : Type ℓ} (P : A → Type 0) : Result A → Type ℓ where
  answers : {a : A} → P a → Answers P (ok a)
  raises : {x : Error} → Answers P (raise x)

pub Answers-bind {ℓ κ} :
    {A : Type ℓ} {B : Type κ} (P : B → Type 0) (m : Result A) (f : A → Result B)
    → ((a : A) → m ≡ ok a → Answers P (f a))
    → Answers P (m >>= f)
Answers-bind P (ok a) f h = h a refl
Answers-bind P (raise x) f h = raises

pub Answers-map {ℓ κ} :
    {A : Type ℓ} {B : Type κ} (P : B → Type 0) (m : Result A) (g : A → B)
    → ((a : A) → P (g a))
    → Answers P (m >>= λ a. ok (g a))
Answers-map P (ok a) g h = answers (h a)
Answers-map P (raise x) g h = raises

pub Answers-ok {ℓ} :
    {A : Type ℓ} (P : A → Type 0) (m : Result A) (a : A) → Answers P m → m ≡ ok a → P a
Answers-ok P _ a (answers {a = b} p) h = subst P (ok_inj b a h) p
Answers-ok P _ a raises h = raised h

pub nothing_more-IsExtended :
    (r s : Repository) (next : Option String) → nothing_more r ≡ ok (s, next) → IsExtended r s
nothing_more-IsExtended r s next h =
    rw (← ap (λ (p : Repository × Option String). p.0) (ok_inj (r, none) (s, next) h))
      (IsExtended-refl r)

-- What every command keeps: the keys are unique, no key is forgotten, and the tables are fresh.
pub record Keeps (depth : ℕ) (r s : Repository) : Type 0 where
  pub extended : IsExtended r s
  pub fresh : IsFresh depth r → IsFresh depth s

module _ (depth : ℕ) (c : Call) (action : String) (decide : Repository → Result Verdict)
    (sound : (r : Repository) → Answers (IsWrite c) (decide r)) where
  written-IsExtended :
      (r : Repository) (ack : Ack) (s : Repository) (a : IsAccepted depth c decide r ack s)
      → IsExtended r a.written
  written-IsExtended r ack s a =
      let v = write a.event a.conflict a.after in
      let w = content c v (Answers-ok (IsWrite c) (decide r) v (sound r) a.decided) in
      IsExtended-trans r a.inserted a.written
        (insert_event-IsExtended a.event r a.inserted a.insertion)
        (w.1 a.inserted a.written a.next a.rest)

  rows-IsExtended : (r s t : Repository) → t.rows ≡ s.rows → IsExtended r s → IsExtended r t
  rows-IsExtended r s t e x = record {
    unique = λ u. rw e (x.unique u);
    known = λ k known. rw e (x.known k known);
  }

  pub run_command-Keeps :
      (r : Repository) (ack : Ack) (s : Repository)
      → run_command depth c action decide r ≡ ok (ack, s)
      → Keeps depth r s
  run_command-Keeps r ack s h = elim (run_command-Outcome depth c action decide r ack s h) [
    | inl none' ↦ rw none'.0 (record { extended = IsExtended-refl r; fresh = λ f. f })
    | inr a ↦
        let (rows, fresh) = refresh_projections-eq-ok depth a.written s a.refreshed in
        record {
          extended = rows-IsExtended r a.written s rows (written-IsExtended r ack s a);
          fresh = λ _. fresh;
        }
  ]

  -- After an acceptance the key of the command is known.
  pub run_command-known :
      (r : Repository) (ack : Ack) (s : Repository)
      → run_command depth c action decide r ≡ ok (ack, s)
      → ack.status ≡ accepted
      → known_key c.idempotency_key s.rows ≡ true
  run_command-known r ack s h yes' = elim (run_command-Outcome depth c action decide r ack s h) [
    | inl none' ↦ absurd (none'.1 yes')
    | inr a ↦
        let (rows, _) = refresh_projections-eq-ok depth a.written s a.refreshed in
        let v = write a.event a.conflict a.after in
        let w = content c v (Answers-ok (IsWrite c) (decide r) v (sound r) a.decided) in
        rw rows (
          (w.1 a.inserted a.written a.next a.rest).known c.idempotency_key
            (rw w.0 at (insert_event-known a.event r a.inserted a.insertion)))
  ]
