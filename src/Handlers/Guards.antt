-- ===== src/Handlers/Guards.antt =====
-- What the guards of the handlers have checked when an event is inserted.
use boardroom_os.Base.{
  String, ◌≡◌, refl, sym, ap, ◌∙◌, Bool, true, false, ◌&&◌, Option, none, some, List, arith,
  option_eq, text_eq, option_beq_iff, ◌==◌, Bool-cases, inl, inr, ◌≢◌,
}
use boardroom_os.Base.Result.{Result, ok, >>=-eq-ok, ok_inj}
use boardroom_os.Ticket.State.{Ticket}
use boardroom_os.Node.{Node}
use boardroom_os.Repository.{
  Repository, NewEvent, get_current_ticket_projection, get_current_node_projection,
}
use boardroom_os.Handlers.Workers.{
  Provider, resolve_provider_id_for_ticket, employee_is_active, is_provider_paused,
  allow_paused_provider_start,
}
use boardroom_os.Handlers.Transaction.{
  Call, Conflict, Verdict, reject, write, matching, with_current, nothing_more, still_open,
}
use boardroom_os.Handlers.Outcome.{After}
use boardroom_os.Handlers.Lease.{
  TicketLease, may_be_leased, is_leased, lease_event, held_by_other, lease_to_worker, lease_if,
  lease_current, decide_lease,
}
use boardroom_os.Handlers.Start.{
  is_pending_node, start_event, start_by_worker, start_if, start_current, decide_start,
}

-- The verdict is a write of this event, and nothing more.
abbrev pub OnlyWrites : NewEvent → Verdict → Type 0
OnlyWrites e (reject reason) = Unit
OnlyWrites e (write d conflict after) = (d ≡ e) × (after ≡ nothing_more)

-- The ticket and the node that the command names, as the tables have them.
pub record IsCurrent (c : Call) (r : Repository) (t : Ticket) (n : Node) : Type 0 where
  pub ticket : get_current_ticket_projection r c.ticket_id ≡ ok (some t)
  pub node : get_current_node_projection r c.workflow_id c.node_id ≡ some n
  pub workflow : t.workflow_id ≡ some c.workflow_id
  pub node_id : t.node_id ≡ some c.node_id
  pub latest : n.latest_ticket_id ≡ some c.ticket_id

-- The verdict of guards that have not refused.
abbrev pub Writes : Result Verdict → NewEvent → Conflict → After → Type 0
Writes m e conflict after = m ≡ ok (write e conflict after)

abbrev written : Result Verdict → Bool
written (ok (write e conflict after)) = true
written _ = false

pub refused_written {ℓ} :
    {C : Type ℓ} (m : Result Verdict) (e : NewEvent) (conflict : Conflict) (after : After)
    → written m ≡ false
    → Writes m e conflict after
    → C
refused_written m e conflict after closed h =
    let differ : false ≡ true = sym closed ∙ ap written h in absurd (cc)

pub both : (a b : Bool) → (a && b) ≡ true → (a ≡ true) × (b ≡ true)
both true true h = (refl, refl)
both true false h = absurd (cc)
both false b h = absurd (cc)

module _ (c : Call) (missing : String) (own : Ticket → Node → Result Verdict) (r : Repository)
    (e : NewEvent) (conflict : Conflict) (after : After) where
  matching-eq-write :
      (t : Option Ticket) (n : Option Node)
      → get_current_ticket_projection r c.ticket_id ≡ ok t
      → get_current_node_projection r c.workflow_id c.node_id ≡ n
      → Writes (matching c missing own t n) e conflict after
      → (u : Ticket) × (m : Node) × IsCurrent c r u m × Writes (own u m) e conflict after
  unfolding matching
  matching-eq-write none n p q h = absurd (refused_written _ e conflict after refl h)
  matching-eq-write (some t) none p q h = absurd (refused_written _ e conflict after refl h)
  matching-eq-write (some t) (some n) p q h =
      elim (Bool-cases (t.workflow_id == some c.workflow_id && t.node_id == some c.node_id)) [
        | inr other ↦ absurd (refused_written _ e conflict after refl (rw other at h))
        | inl same ↦ elim (Bool-cases (n.latest_ticket_id == some c.ticket_id)) [
          | inr moved ↦ absurd (refused_written _ e conflict after refl (rw (same, moved) at h))
          | inl latest ↦
              let (w, i) =
                both (t.workflow_id == some c.workflow_id) (t.node_id == some c.node_id) same in
              (
                t,
                n,
                record {
                  ticket = p;
                  node = q;
                  workflow = (option_beq_iff t.workflow_id (some c.workflow_id)).0 w;
                  node_id = (option_beq_iff t.node_id (some c.node_id)).0 i;
                  latest = (option_beq_iff n.latest_ticket_id (some c.ticket_id)).0 latest;
                },
                rw (same, latest) at h,
              )
        ]
      ]

  pub with_current-eq-write :
      Writes (with_current c missing own r) e conflict after
      → (u : Ticket) × (m : Node) × IsCurrent c r u m × Writes (own u m) e conflict after
  unfolding with_current
  with_current-eq-write h =
      let n = get_current_node_projection r c.workflow_id c.node_id in
      let (t, found, h') =
        >>=-eq-ok (get_current_ticket_projection r c.ticket_id) (λ t. matching c missing own t n)
          h in
      matching-eq-write t n found refl h'

still_open-there :
    (t : Ticket) (c : Call)
    → still_open t.lease_expires_at c.received_at ≡ ok true
    → t.lease_expires_at ≢ none
unfolding still_open
still_open-there t c h = ground arith

module _ (c : Call) (l : TicketLease) (r : Repository) (e : NewEvent) (conflict : Conflict)
    (after : After) where
  pub record MayLease (t : Ticket) : Type 0 where
    pub event : e ≡ lease_event c l
    pub nothing : after ≡ nothing_more
    pub status : may_be_leased t.status ≡ true
    pub free :
        is_leased t.status ≡ true
        → still_open t.lease_expires_at c.received_at ≡ ok true
        → t.lease_owner ≡ some l.leased_by
    pub active : employee_is_active r l.leased_by ≡ true
    pub running :
        is_provider_paused r (resolve_provider_id_for_ticket r none (some l.leased_by) none) ≡ false

  lease_to_worker-eq-write :
      lease_to_worker c l r ≡ write e conflict after
      → (e ≡ lease_event c l)
        × (after ≡ nothing_more)
        × (employee_is_active r l.leased_by ≡ true)
        × (is_provider_paused r (resolve_provider_id_for_ticket r none (some l.leased_by) none)
            ≡ false)
  unfolding lease_to_worker
  lease_to_worker-eq-write h = ground arith

  lease_if-eq-write :
      (t : Ticket) (active : Bool)
      → lease_if c l r t active ≡ write e conflict after
      → (lease_to_worker c l r ≡ write e conflict after)
        × (is_leased t.status ≡ true
            → active ≡ true
            → t.lease_expires_at ≢ none
            → t.lease_owner ≡ some l.leased_by)
  unfolding lease_if held_by_other
  lease_if-eq-write t active h = ground (arith, option_beq_iff t.lease_owner (some l.leased_by))

  lease_current-MayLease :
      (t : Ticket) (n : Node) → Writes (lease_current c l r t n) e conflict after → MayLease t
  unfolding lease_current
  lease_current-MayLease t n h = elim (Bool-cases (may_be_leased t.status)) [
    | inr closed ↦ absurd (refused_written _ e conflict after refl (rw closed at h))
    | inl allowed ↦
        let (active, opened, made) =
          >>=-eq-ok (still_open t.lease_expires_at c.received_at)
            (λ active. ok (lease_if c l r t active)) (rw allowed at h) in
        let (leasing, free) =
          lease_if-eq-write t active
            (ok_inj (lease_if c l r t active) (write e conflict after) made) in
        let (event, nothing, works, running) = lease_to_worker-eq-write leasing in
        record {
          event = event;
          nothing = nothing;
          status = allowed;
          free = λ held unexpired.
              free held (sym (ok_inj true active (sym unexpired ∙ opened)))
                (still_open-there t c unexpired);
          active = works;
          running = running;
        }
  ]

  -- A lease is written only for the ticket and the node that the tables have, and only if the guards
  -- hold.
  pub decide_lease-MayLease :
      Writes (decide_lease c l r) e conflict after
      → (t : Ticket) × (n : Node) × IsCurrent c r t n × MayLease t
  unfolding decide_lease
  decide_lease-MayLease h =
      let (t, n, current, own) =
        with_current-eq-write c "Ticket must be created before it can be leased."
          (lease_current c l r) r e conflict after h in
      (t, n, current, lease_current-MayLease t n own)

module _ (c : Call) (w : String) (providers : List Provider) (r : Repository) (e : NewEvent)
    (conflict : Conflict) (after : After) where
  pub record MayStart (t : Ticket) (n : Node) : Type 0 where
    pub event : e ≡ start_event c w
    pub nothing : after ≡ nothing_more
    pub status : is_leased t.status ≡ true
    pub node_status : is_pending_node n.status ≡ true
    pub owner : t.lease_owner ≡ some w
    pub unexpired : still_open t.lease_expires_at c.received_at ≡ ok true
    pub active : employee_is_active r w ≡ true
    pub running :
        is_provider_paused r (resolve_provider_id_for_ticket r t.lease_owner (some w) none) ≡ true
        → allow_paused_provider_start providers
            (resolve_provider_id_for_ticket r t.lease_owner (some w) none)
          ≡ true

  start_if-eq-write :
      (t : Ticket) (unexpired : Bool)
      → start_if c w providers r t unexpired ≡ write e conflict after
      → (unexpired ≡ true)
        × (e ≡ start_event c w)
        × (after ≡ nothing_more)
        × (employee_is_active r w ≡ true)
        × (is_provider_paused r (resolve_provider_id_for_ticket r t.lease_owner (some w) none)
              ≡ true
            → allow_paused_provider_start providers
                (resolve_provider_id_for_ticket r t.lease_owner (some w) none)
              ≡ true)
  unfolding start_if start_by_worker
  start_if-eq-write t unexpired h = ground arith

  start_current-MayStart :
      (t : Ticket) (n : Node)
      → Writes (start_current c w providers r t n) e conflict after
      → MayStart t n
  unfolding start_current
  start_current-MayStart t n h = elim (Bool-cases (is_pending_node n.status)) [
    | inr busy ↦ absurd (refused_written _ e conflict after refl (rw busy at h))
    | inl waits ↦ elim (Bool-cases (is_leased t.status)) [
      | inr other ↦ absurd (refused_written _ e conflict after refl (rw (waits, other) at h))
      | inl held ↦ elim (Bool-cases (t.lease_owner == some w)) [
        | inr stranger ↦
            absurd (refused_written _ e conflict after refl (rw (waits, held, stranger) at h))
        | inl owner ↦
            let (b, opened, made) =
              >>=-eq-ok (still_open t.lease_expires_at c.received_at)
                (λ b. ok (start_if c w providers r t b)) (rw (waits, held, owner) at h) in
            let (unexpired, event, nothing, active, running) =
              start_if-eq-write t b
                (ok_inj (start_if c w providers r t b) (write e conflict after) made) in
            record {
              event = event;
              nothing = nothing;
              status = held;
              node_status = waits;
              owner = (option_beq_iff t.lease_owner (some w)).0 owner;
              unexpired = rw (← unexpired) opened;
              active = active;
              running = running;
            }
      ]
    ]
  ]

  -- A start is written only if the worker holds a lease that has not expired, and the other guards
  -- hold.
  pub decide_start-MayStart :
      Writes (decide_start c w providers r) e conflict after
      → (t : Ticket) × (n : Node) × IsCurrent c r t n × MayStart t n
  unfolding decide_start
  decide_start-MayStart h =
      let (t, n, current, own) =
        with_current-eq-write c "Ticket must be created before it can be started."
          (start_current c w providers r) r e conflict after h in
      (t, n, current, start_current-MayStart t n own)
