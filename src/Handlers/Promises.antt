-- ===== src/Handlers/Promises.antt =====
-- What an accepted lease, start or cancellation promises: what held of the ticket before, and what
-- holds of it after.
use boardroom_os.Base.{
  ℕ, ◌+◌, ◌*◌, String, ◌≡◌, refl, ap, Bool, true, false, Option, none, some, List, option_eq,
  text_eq, inl, inr, arith,
}
use boardroom_os.Base.Result.{ok, ok_inj}
use boardroom_os.Event.{EventType, Event, ticket_cancelled, ticket_cancel_requested, iso, seconds}
use boardroom_os.Projection.{trace}
use boardroom_os.Ticket.State.{
  TicketStatus, leased, executing, cancel_requested, cancelled, completed, failed, timed_out,
  Ticket, TicketBase, scope, scope_previous,
}
use boardroom_os.Ticket.Changes
use boardroom_os.Ticket.{on_ticket, plan, plan_of}
use boardroom_os.Ticket.History.{ticket_of}
use boardroom_os.Repository.{
  Repository, NewEvent, row_of, list_all_events, get_current_ticket_projection,
}
use boardroom_os.Handlers.Workers.{Provider, employee_is_active}
use boardroom_os.Handlers.Transaction.{
  accepted, Ack, Call, Verdict, Reason, Conflict, reject, write, nothing_more, still_open,
}
use boardroom_os.Handlers.Lease.{TicketLease, lease_event, may_be_leased, is_leased}
use boardroom_os.Handlers.Start.{start_event}
use boardroom_os.Handlers.Cancel.{
  TicketCancel, cancel_event, cancel_from, cancel_current, decide_cancel,
}
use boardroom_os.Handlers.Outcome.{After, IsAccepted}
use boardroom_os.Handlers.Serve.{Command, lease, start, cancel, handle, decide}
use boardroom_os.Handlers.Kept.{handle-Outcome}
use boardroom_os.Handlers.Guards.{
  decide_lease-MayLease, decide_start-MayStart, with_current-eq-write,
}
use boardroom_os.Handlers.Effect.{changed, base_of}

module _ (depth : ℕ) (providers : List Provider) (c : Call) (r s : Repository) (ack : Ack) where
  pub acceptance :
      (x : Command)
      → handle depth providers c x r ≡ ok (ack, s)
      → ack.status ≡ accepted
      → IsAccepted depth c (decide providers c x) r ack s
  acceptance x h taken = elim (handle-Outcome depth providers c x r s ack h) [
    | inl refused ↦ absurd (refused.1 taken)
    | inr a ↦ a
  ]

  -- The ticket before and after a lease to a worker.
  pub record IsLeaseTaken (l : TicketLease) (t u : Ticket) : Type 0 where
    pub before : get_current_ticket_projection r c.ticket_id ≡ ok (some t)
    pub status : may_be_leased t.status ≡ true
    pub free :
        is_leased t.status ≡ true
        → still_open t.lease_expires_at c.received_at ≡ ok true
        → t.lease_owner ≡ some l.leased_by
    pub active : employee_is_active r l.leased_by ≡ true
    pub after : ticket_of (some c.ticket_id) s.tickets ≡ some u
    pub leased_now : u.status ≡ leased
    pub owner : u.lease_owner ≡ some l.leased_by
    pub expiry : u.lease_expires_at ≡ some (iso (c.received_at + l.lease_timeout_sec * seconds))

  lease-planned :
      (l : TicketLease)
      → plan (row_of (lease_event c l) r.rows).event
        ≡ on_ticket Changes.lease (row_of (lease_event c l) r.rows).event
  unfolding plan plan_of lease_event
  lease-planned l = refl

  -- If `handle_ticket_lease` accepts, the ticket was PENDING or LEASED before, an unexpired lease on
  -- it was the same worker's own, and the worker is an active employee; and in the projection after
  -- it the ticket is LEASED by that worker, until the timeout after the time of the command.
  pub handle-lease_accepted :
      (l : TicketLease)
      → handle depth providers c (lease l) r ≡ ok (ack, s)
      → ack.status ≡ accepted
      → (t u : Ticket) × IsLeaseTaken l t u
  unfolding decide Changes.lease scope lease_event
  handle-lease_accepted l h taken =
      let a = acceptance (lease l) h taken in
      let (t, n, current, may) = decide_lease-MayLease c l r a.event a.conflict a.after a.decided in
      let e = (row_of (lease_event c l) r.rows).event in
      let u =
        Changes.lease e (some c.node_id) (base_of e c.ticket_id c.node_id)
          (trace plan (some c.ticket_id) none (list_all_events r)) in
      (
        t,
        u,
        record {
          before = current.ticket;
          status = may.status;
          free = may.free;
          active = may.active;
          after =
              changed depth providers c r s ack (lease l) a (lease_event c l) Changes.lease
                may.event may.nothing refl refl (lease-planned l);
          leased_now = refl;
          owner = refl;
          expiry = refl;
        },
      )

  -- The ticket before and after a start by its worker.
  pub record IsStarted (worker : String) (t u : Ticket) : Type 0 where
    pub before : get_current_ticket_projection r c.ticket_id ≡ ok (some t)
    pub status : is_leased t.status ≡ true
    pub owner : t.lease_owner ≡ some worker
    pub unexpired : still_open t.lease_expires_at c.received_at ≡ ok true
    pub active : employee_is_active r worker ≡ true
    pub after : ticket_of (some c.ticket_id) s.tickets ≡ some u
    pub executing_now : u.status ≡ executing
    pub started_at : u.started_at ≡ some (iso c.received_at)

  start-planned :
      (w : String)
      → plan (row_of (start_event c w) r.rows).event
        ≡ on_ticket Changes.start (row_of (start_event c w) r.rows).event
  unfolding plan plan_of start_event
  start-planned w = refl

  -- If `handle_ticket_start` accepts, the ticket was LEASED before by the worker that starts it, the
  -- lease had not expired at the time of the command, and the worker is an active employee; and in
  -- the projection after it the ticket is EXECUTING, started at that time.
  pub handle-start_accepted :
      (w : String)
      → handle depth providers c (start w) r ≡ ok (ack, s)
      → ack.status ≡ accepted
      → (t u : Ticket) × IsStarted w t u
  unfolding decide Changes.start scope_previous start_event
  handle-start_accepted w h taken =
      let a = acceptance (start w) h taken in
      let (t, n, current, may) =
        decide_start-MayStart c w providers r a.event a.conflict a.after a.decided in
      let e = (row_of (start_event c w) r.rows).event in
      let u =
        Changes.start e (some c.node_id) (base_of e c.ticket_id c.node_id)
          (trace plan (some c.ticket_id) none (list_all_events r)) in
      (
        t,
        u,
        record {
          before = current.ticket;
          status = may.status;
          owner = may.owner;
          unexpired = may.unexpired;
          active = may.active;
          after =
              changed depth providers c r s ack (start w) a (start_event c w) Changes.start
                may.event may.nothing refl refl (start-planned w);
          executing_now = refl;
          started_at = refl;
        },
      )

-- The status that a cancellation leads to, if it is not refused.
abbrev pub cancelled_from : TicketStatus → Option TicketStatus
cancelled_from executing = some cancel_requested
cancelled_from completed = none
cancelled_from cancelled = none
cancelled_from failed = none
cancelled_from timed_out = none
cancelled_from _ = some cancelled

-- The type of the event, and the change of the ticket.
abbrev cancel_type : TicketStatus → EventType
cancel_type executing = ticket_cancel_requested
cancel_type _ = ticket_cancelled

abbrev cancel_change : TicketStatus → Event → Option String → TicketBase → Option Ticket → Ticket
cancel_change executing = Changes.request_cancel
cancel_change _ = Changes.cancel

-- The event of a cancellation, the change that it plans, and the status that this gives.
record MayCancel (c : Call) (x : TicketCancel) (r : Repository) (e : NewEvent) (after : After)
    (t : TicketStatus) : Type 0 where
  event : e ≡ cancel_event (cancel_type t) c x
  nothing : after ≡ nothing_more
  planned :
      plan (row_of (cancel_event (cancel_type t) c x) r.rows).event
      ≡ on_ticket (cancel_change t) (row_of (cancel_event (cancel_type t) c x) r.rows).event
  leads :
      (d : Event) (n : Option String) (b : TicketBase) (o : Option Ticket)
      → cancelled_from t ≡ some (cancel_change t d n b o).status

abbrev is_write : Verdict → Bool
is_write (reject reason) = false
is_write (write e conflict after) = true

unwritten {ℓ} :
    {C : Type ℓ} {reason : Reason} {e : NewEvent} {conflict : Conflict} {after : After}
    → reject reason ≡ write e conflict after
    → C
unwritten h = let differ : false ≡ true = ap is_write h in absurd (cc)

pub write_inj :
    {d e : NewEvent} {k l : Conflict} {f g : After} → write d k f ≡ write e l g → (e ≡ d) × (g ≡ f)
write_inj h = (ground arith, ground arith)

cancel_from-MayCancel :
    (c : Call) (x : TicketCancel) (r : Repository) (e : NewEvent) (conflict : Conflict)
    (after : After) (t : TicketStatus)
    → cancel_from c x t ≡ write e conflict after
    → MayCancel c x r e after t
unfolding cancel_from plan plan_of cancel_event Changes.cancel Changes.request_cancel
cancel_from-MayCancel c x r e conflict after cancelled h = unwritten h
cancel_from-MayCancel c x r e conflict after completed h = unwritten h
cancel_from-MayCancel c x r e conflict after failed h = unwritten h
cancel_from-MayCancel c x r e conflict after timed_out h = unwritten h
cancel_from-MayCancel c x r e conflict after executing h =
    let (event, nothing) = write_inj h in
    record { event = event; nothing = nothing; planned = refl; leads = λ d n b o. refl }
cancel_from-MayCancel c x r e conflict after _ h =
    let (event, nothing) = write_inj h in
    record { event = event; nothing = nothing; planned = refl; leads = λ d n b o. refl }

module _ (depth : ℕ) (providers : List Provider) (c : Call) (r s : Repository) (ack : Ack) where
  -- If `handle_ticket_cancel` accepts, the ticket was not COMPLETED, CANCELLED, FAILED or TIMED_OUT
  -- before; and in the projection after it the ticket is CANCEL_REQUESTED if it was EXECUTING, and
  -- CANCELLED if not.
  pub handle-cancel_accepted :
      (x : TicketCancel)
      → handle depth providers c (cancel x) r ≡ ok (ack, s)
      → ack.status ≡ accepted
      → (t u : Ticket) × (get_current_ticket_projection r c.ticket_id ≡ ok (some t))
        × (ticket_of (some c.ticket_id) s.tickets ≡ some u)
        × (cancelled_from t.status ≡ some u.status)
  unfolding decide decide_cancel cancel_current cancel_event
  handle-cancel_accepted x h taken =
      let a = acceptance depth providers c r s ack (cancel x) h taken in
      let (t, n, current, own) =
        with_current-eq-write c "Ticket must exist before it can be cancelled." (cancel_current c x)
          r a.event a.conflict a.after a.decided in
      let may =
        cancel_from-MayCancel c x r a.event a.conflict a.after t.status
          (ok_inj (cancel_from c x t.status) (write a.event a.conflict a.after) own) in
      let e = (row_of (cancel_event (cancel_type t.status) c x) r.rows).event in
      let base = base_of e c.ticket_id c.node_id in
      let found = trace plan (some c.ticket_id) none (list_all_events r) in
      (
        t,
        cancel_change t.status e (some c.node_id) base found,
        current.ticket,
        changed depth providers c r s ack (cancel x) a (cancel_event (cancel_type t.status) c x)
            (cancel_change t.status) may.event may.nothing refl refl may.planned,
        may.leads e (some c.node_id) base found,
      )
