-- ===== src/Staffing/Written.antt =====
-- Which rows the containment of an employee adds to the log.
use mathlib.Core.Option.{some_inj}
use mathlib.Core.List.{Memᴰ, append_assoc}
use boardroom_os.Base.{
  ℕ, ◌+◌, ◌∙◌, String, ◌≡◌, refl, sym, ap, true, Option, none, some, List, [], ◌∷◌, ◌++◌, ◌==◌,
  text_eq, eq_iff, option_eq, option_beq_iff, ◌⊎◌, false, if◌then◌else◌, Bool-cases, inl, inr,
}
use boardroom_os.Base.All.{All, All-append, All-weaken, keep}
use boardroom_os.Event.{
  EventType, ticket_created, ticket_cancel_requested, incident_opened, circuit_breaker_opened,
}
use boardroom_os.Field.{text, str, get}
use boardroom_os.Ticket.State.{Ticket}
use boardroom_os.Staffing.Log.{
  StaffingPayload, created, cancel_request, incident, breaker, CreatedPayload, StoredEvent, Store,
  known_key, insert_event, created_for, creation_of, latest_created,
  get_latest_ticket_created_payload,
}
use boardroom_os.Staffing.Contain.{
  Request, requeued_payload, requeue_with, request_stop, requeue_leased_ticket, record_incident,
  contain_inflight_ticket, is_leased, is_executing, router_event, contain_ticket, contain_all,
  is_held, contain_employee_active_tickets, staffing_router,
}

-- The rows of `later` are rows of `earlier`, with rows that satisfy `P` written after them.
pub record Extends (P : StoredEvent → Type 0) (earlier later : List StoredEvent) : Type 0 where
  pub written : List StoredEvent
  pub all : All P written
  pub log : later ≡ written ++ earlier

-- The row is about this ticket: a new creation of it if it is leased, a request to stop it if it is
-- executing, or an incident with its breaker if it is not leased.
abbrev pub IsAbout : Ticket → EventType → StaffingPayload → Type 0
IsAbout t ticket_created (created p) =
    (get p.others.ticket_id ≡ some (str t.ticket_id)) × (is_leased t.status ≡ true)
IsAbout t ticket_cancel_requested (cancel_request p) =
    (p.ticket_id ≡ str t.ticket_id) × (p.node_id ≡ str t.node_id) × (is_executing t.status ≡ true)
IsAbout t incident_opened (incident p) =
    (p.ticket_id ≡ str t.ticket_id) × (p.node_id ≡ str t.node_id) × (is_leased t.status ≡ false)
IsAbout t circuit_breaker_opened (breaker p) =
    (p.ticket_id ≡ str t.ticket_id) × (p.node_id ≡ str t.node_id) × (is_leased t.status ≡ false)
IsAbout t _ _ = ⊥

-- The router wrote the row on behalf of the request, for a ticket that the employee held.
pub record OnBehalf (r : Request) (tickets : List Ticket) (e : StoredEvent) : Type 0 where
  pub ticket : Ticket
  pub known : Memᴰ ticket tickets
  pub held : is_held ticket.status ≡ true
  pub owned : text ticket.lease_owner ≡ r.employee_id
  pub actor : e.actor_id ≡ staffing_router
  pub cause : e.causation_id ≡ some r.command_id
  pub about : IsAbout ticket e.event_type e.payload
  pub workflow : e.workflow_id ≡ some (str ticket.workflow_id)
  pub time : e.occurred_at ≡ r.occurred_at

module _ (P : StoredEvent → Type 0) where
  Extends-refl : (es : List StoredEvent) → Extends P es es
  Extends-refl es = record { written = []; all = tt; log = refl }

  Extends-trans :
      (xs ys zs : List StoredEvent) → Extends P xs ys → Extends P ys zs → Extends P xs zs
  Extends-trans xs ys zs h k = record {
    written = k.written ++ h.written;
    all = All-append P k.written h.written k.all h.all;
    log = k.log ∙ ap (λ l. k.written ++ l) h.log ∙ sym (append_assoc k.written h.written xs);
  }

  insert_event-Extends :
      (e : StoredEvent) (s : Store) → P e → Extends P s.events (insert_event e s).events
  unfolding insert_event
  insert_event-Extends e s p = elim (Bool-cases (known_key e.idempotency_key s.events)) [
    | inl known ↦ rw known (Extends-refl s.events)
    | inr new ↦ rw new (record { written = e ∷ []; all = (p, tt); log = refl })
  ]

first_none {ℓ} :
    {C : Type ℓ} {p : CreatedPayload} → ◌≡◌ {A = Option CreatedPayload} none (some p) → C
first_none h = absurd (cc)

created_for_names :
    (ticket : String) (q : StaffingPayload) (p : CreatedPayload)
    → created_for ticket q ≡ some p
    → get p.others.ticket_id ≡ some ticket
created_for_names ticket (created q) p h =
    elim (Bool-cases (get q.others.ticket_id == some ticket)) [
      | inr other ↦ first_none (rw other at h)
      | inl same ↦
          rw (← some_inj.0 (rw same at h))
            ((option_beq_iff (get q.others.ticket_id) (some ticket)).0 same)
    ]
created_for_names ticket _ p h = absurd (cc)

creation_of_names :
    (ticket : String) (type : EventType) (q : StaffingPayload) (p : CreatedPayload)
    → creation_of ticket type q ≡ some p
    → get p.others.ticket_id ≡ some ticket
creation_of_names ticket ticket_created q p h = created_for_names ticket q p h
creation_of_names ticket _ q p h = absurd (cc)

first_or :
    (o rest : Option CreatedPayload) (p : CreatedPayload)
    → (elim o [ some q ↦ some q | none ↦ rest ]) ≡ some p
    → (o ≡ some p) ⊎ (rest ≡ some p)
first_or none rest p h = inr h
first_or (some q) rest p h = inl h

-- The payload that is found is one of the ticket.
latest_created_names :
    (ticket : String) (es : List StoredEvent) (p : CreatedPayload)
    → latest_created ticket es ≡ some p
    → get p.others.ticket_id ≡ some ticket
unfolding latest_created
latest_created_names ticket [] p h = absurd (cc)
latest_created_names ticket (e ∷ es) p h =
    elim (first_or (creation_of ticket e.event_type e.payload) (latest_created ticket es) p h) [
      | inl first ↦ creation_of_names ticket e.event_type e.payload p first
      | inr earlier ↦ latest_created_names ticket es p earlier
    ]

module _ (new_prefixed_id : (prefix : String) (n : ℕ) → String) (r : Request)
    (tickets : List Ticket) (t : Ticket) (known : Memᴰ t tickets) (held : is_held t.status ≡ true)
    (owned : text t.lease_owner ≡ r.employee_id) where
  by_router :
      (key : String) (type : EventType) (p : StaffingPayload)
      → IsAbout t type p
      → OnBehalf r tickets (router_event r.command_id r.occurred_at key type t p)
  unfolding router_event
  by_router key type p about = record {
    about = about;
    ticket = t;
    known = known;
    held = held;
    owned = owned;
    actor = refl;
    cause = refl;
    workflow = refl;
    time = refl;
  }

  write-Extends :
      (key : String) (type : EventType) (p : StaffingPayload) (s : Store)
      → IsAbout t type p
      → Extends
          (OnBehalf r tickets)
          s.events
          (insert_event (router_event r.command_id r.occurred_at key type t p) s).events
  write-Extends key type p s about =
      insert_event-Extends (OnBehalf r tickets) _ s (by_router key type p about)

  requeue_with-Extends :
      (o : Option CreatedPayload) (s : Store)
      → is_leased t.status ≡ true
      → ((p : CreatedPayload) → o ≡ some p → get p.others.ticket_id ≡ some (str t.ticket_id))
      → Extends (OnBehalf r tickets) s.events (requeue_with r t o s).events
  unfolding requeue_with requeued_payload
  requeue_with-Extends none s waiting names = Extends-refl (OnBehalf r tickets) s.events
  requeue_with-Extends (some p) s waiting names =
      write-Extends _ ticket_created (created (requeued_payload r p)) s (names p refl, waiting)

  requeue-Extends :
      (s : Store)
      → is_leased t.status ≡ true
      → Extends (OnBehalf r tickets) s.events (requeue_leased_ticket r t s).events
  unfolding requeue_leased_ticket get_latest_ticket_created_payload
  requeue-Extends s waiting =
      requeue_with-Extends _ s waiting (latest_created_names (str t.ticket_id) s.events)

  request_stop-Extends :
      (s : Store) → Extends (OnBehalf r tickets) s.events (request_stop r t s).events
  unfolding request_stop
  request_stop-Extends s = elim (Bool-cases (is_executing t.status)) [
    | inl running ↦ rw running (write-Extends _ ticket_cancel_requested _ s (refl, refl, running))
    | inr other ↦ rw other (Extends-refl (OnBehalf r tickets) s.events)
  ]

  record_incident-Extends :
      (s : Store)
      → is_leased t.status ≡ false
      → Extends (OnBehalf r tickets) s.events (record_incident new_prefixed_id r t s).events
  unfolding record_incident
  record_incident-Extends s running =
      Extends-trans (OnBehalf r tickets) s.events _ _
        (write-Extends _ incident_opened _ (record s { drawn = s.drawn + 1 }) (refl, refl, running))
        (write-Extends _ circuit_breaker_opened _ _ (refl, refl, running))

  contain_held-Extends :
      (s : Store)
      → Extends
          (OnBehalf r tickets)
          s.events
          (if is_leased t.status
            then requeue_leased_ticket r t s
            else contain_inflight_ticket new_prefixed_id r t s).events
  unfolding contain_inflight_ticket
  contain_held-Extends s = elim (Bool-cases (is_leased t.status)) [
    | inl waiting ↦ rw waiting (requeue-Extends s waiting)
    | inr running ↦ rw running (
        Extends-trans (OnBehalf r tickets) s.events _ _ (request_stop-Extends s)
          (record_incident-Extends (request_stop r t s) running))
  ]

module _ (new_prefixed_id : (prefix : String) (n : ℕ) → String) (r : Request)
    (tickets : List Ticket) where
  contain_ticket-Extends :
      (t : Ticket)
      → Memᴰ t tickets
      → is_held t.status ≡ true
      → (s : Store)
      → Extends (OnBehalf r tickets) s.events (contain_ticket new_prefixed_id r t s).events
  unfolding contain_ticket
  contain_ticket-Extends t known held s = elim (Bool-cases (text t.lease_owner == r.employee_id)) [
    | inl own ↦
        rw own (contain_held-Extends new_prefixed_id r tickets t known held ((eq_iff _ _).0 own) s)
    | inr other ↦ rw other (Extends-refl (OnBehalf r tickets) s.events)
  ]

  contain_all-Extends :
      (ts : List Ticket)
      → All (λ t. Memᴰ t tickets × (is_held t.status ≡ true)) ts
      → (s : Store)
      → Extends (OnBehalf r tickets) s.events (contain_all new_prefixed_id r ts s).events
  unfolding contain_all
  contain_all-Extends [] h s = Extends-refl (OnBehalf r tickets) s.events
  contain_all-Extends (t ∷ ts) h s =
      Extends-trans (OnBehalf r tickets) s.events _ _ (contain_ticket-Extends t h.0.0 h.0.1 s)
        (contain_all-Extends ts h.1 (contain_ticket new_prefixed_id r t s))

kept-Memᴰ :
    (ts : List Ticket)
    → All (λ t. Memᴰ t ts × (is_held t.status ≡ true)) (keep (λ t. is_held t.status) ts)
unfolding keep
kept-Memᴰ [] = tt
kept-Memᴰ (t ∷ ts) =
    let rest =
      All-weaken (λ u. Memᴰ u ts × (is_held u.status ≡ true))
        (λ u. Memᴰ u (t ∷ ts) × (is_held u.status ≡ true)) (λ u h. (Memᴰ.tail h.0, h.1))
        (keep (λ u. is_held u.status) ts) (kept-Memᴰ ts) in
    elim (Bool-cases (is_held t.status)) [
      | inl held ↦ rw held ((Memᴰ.head refl, held), rest)
      | inr free ↦ rw free rest
    ]

-- Containing an employee keeps every row of the log and adds only rows by the staffing router,
-- caused by the command and at its time, each about a leased or running ticket of the table whose
-- lease the employee holds, and in its workflow: a new creation of the ticket if it is leased, a
-- request to stop it if it is executing, or an incident or its breaker if it is not leased.
pub contain_employee_active_tickets-Extends :
    (new_prefixed_id : (prefix : String) (n : ℕ) → String) (r : Request) (tickets : List Ticket)
    (s : Store)
    → Extends
        (OnBehalf r tickets)
        s.events
        (contain_employee_active_tickets new_prefixed_id r tickets s).events
unfolding contain_employee_active_tickets
contain_employee_active_tickets-Extends new_prefixed_id r tickets s =
    contain_all-Extends new_prefixed_id r tickets (keep (λ t. is_held t.status) tickets)
      (kept-Memᴰ tickets) s
