-- ===== src/Ticket/Consistent.antt =====
-- What holds of every ticket projection, after any log.
use boardroom_os.Base.{
  String, ◌≡◌, refl, subst, ◌⊎◌, Bool, true, false, Option, none, some, List, arith, option_eq,
  text_eq,
}
use boardroom_os.Base.Result.{ok, ok_inj}
use boardroom_os.Base.All.{All}
use boardroom_os.Field.{item, get, item-get}
use boardroom_os.Event.{
  EventType, ticket_created, ticket_leased, ticket_started, ticket_heartbeat_recorded,
  ticket_cancel_requested, ticket_cancelled, ticket_completed, ticket_failed, ticket_timed_out,
  board_review_required, board_review_approved, board_review_rejected, Event,
}
use boardroom_os.Ticket.Clock.{rebuild_ticket_projections-plain}
use boardroom_os.Ticket.State.{
  TicketStatus, leased, executing, cancel_requested, completed, failed, timed_out,
  blocked_for_board_review, rework_required, BlockingReason, board_review_needed, board_rejected,
  modify_constraints, TicketBase, Ticket, base_ticket_projection, base_or,
}
use boardroom_os.Ticket.Changes.{
  create, lease, start, record_heartbeat, request_cancel, cancel, settle, fail, rejection_reason,
}
use boardroom_os.Ticket.{
  on_ticket, review_write, on_review, plan_of, plan, rebuild_ticket_projections,
}
use boardroom_os.Projection.Rebuild.{rebuild-All}
use boardroom_os.Projection.Laws.{Was, Writes, Writes-bind}

-- The statuses in which a worker may hold the ticket.
abbrev pub holds_lease : TicketStatus → Bool
holds_lease leased = true
holds_lease executing = true
holds_lease cancel_requested = true
holds_lease _ = false

-- The statuses that a delivered result, or a board's decision on it, gives.
abbrev pub is_settled : TicketStatus → Bool
is_settled completed = true
is_settled blocked_for_board_review = true
is_settled rework_required = true
is_settled _ = false

-- Why a ticket of a given status is blocked.
abbrev pub FitsReason : TicketStatus → Option BlockingReason → Type 0
FitsReason blocked_for_board_review r = r ≡ some board_review_needed
FitsReason rework_required r = (r ≡ some board_rejected) ⊎ (r ≡ some modify_constraints)
FitsReason _ r = r ≡ none

abbrev pub HasNoLease : TicketBase → Type 0
HasNoLease b =
    (b.lease_owner ≡ none)
    × (b.lease_expires_at ≡ none)
    × (b.started_at ≡ none)
    × (b.last_heartbeat_at ≡ none)
    × (b.heartbeat_expires_at ≡ none)

abbrev pub HasNoFailure : TicketBase → Type 0
HasNoFailure b =
    (b.last_failure_kind ≡ none)
    × (b.last_failure_message ≡ none)
    × (b.last_failure_fingerprint ≡ none)

pub record IsConsistent (t : Ticket) : Type 0 where
  pub unleased : holds_lease t.status ≡ false → HasNoLease t.base
  pub reason : FitsReason t.status t.blocking_reason_code
  pub clean : is_settled t.status ≡ true → HasNoFailure t.base

-- The entry of a key: consistent, and the projection of the ticket with that id.
pub record IsEntry (key : Option String) (t : Ticket) : Type 0 where
  pub own_id : t.ticket_id ≡ key
  pub consistent : IsConsistent t

record IsFresh (key : Option String) (b : TicketBase) : Type 0 where
  own_id : b.ticket_id ≡ key
  unleased : HasNoLease b
  clean : HasNoFailure b
  unblocked : b.blocking_reason_code ≡ none

module _ (key : Option String) (e : Event) (node : Option String) (b : TicketBase)
    (fresh : IsFresh key b) where
  base_or-own_id : (o : Option Ticket) → Was IsEntry key o → (base_or b o).ticket_id ≡ key
  base_or-own_id o h = ground arith

  create-IsEntry : (o : Option Ticket) → Was IsEntry key o → IsEntry key (create e node b o)
  unfolding create
  create-IsEntry o h = ground arith

  lease-IsEntry : (o : Option Ticket) → Was IsEntry key o → IsEntry key (lease e node b o)
  unfolding lease
  lease-IsEntry o h = ground arith

  start-IsEntry : (o : Option Ticket) → Was IsEntry key o → IsEntry key (start e node b o)
  unfolding start
  start-IsEntry o h = ground arith

  record_heartbeat-IsEntry :
      (o : Option Ticket) → Was IsEntry key o → IsEntry key (record_heartbeat e node b o)
  unfolding record_heartbeat
  record_heartbeat-IsEntry o h = ground arith

  request_cancel-IsEntry :
      (o : Option Ticket) → Was IsEntry key o → IsEntry key (request_cancel e node b o)
  unfolding request_cancel
  request_cancel-IsEntry o h = ground arith

  cancel-IsEntry : (o : Option Ticket) → Was IsEntry key o → IsEntry key (cancel e node b o)
  unfolding cancel
  cancel-IsEntry o h = ground arith

  settle-IsEntry :
      (s : TicketStatus) (r : Option BlockingReason)
      → FitsReason s r
      → holds_lease s ≡ false
      → (o : Option Ticket) → Was IsEntry key o
      → IsEntry key (settle s r e node b o)
  unfolding settle
  settle-IsEntry s r fits free o h = record {
    own_id = base_or-own_id o h;
    consistent = record {
      unleased = λ _. (refl, refl, refl, refl, refl);
      reason = fits;
      clean = λ _. (refl, refl, refl);
    };
  }

  fail-IsEntry :
      (s : TicketStatus)
      → is_settled s ≡ false
      → FitsReason s none
      → (o : Option Ticket) → Was IsEntry key o
      → IsEntry key (fail s e node b o)
  unfolding fail
  fail-IsEntry s unsettled fits o h = record {
    own_id = base_or-own_id o h;
    consistent = record {
      unleased = λ _. (refl, refl, refl, refl, refl);
      reason = fits;
      clean = λ settled. absurd (cc);
    };
  }

-- A change that makes an entry of an entry, or of the base projection.
abbrev Keeps : Event → (Event → Option String → TicketBase → Option Ticket → Ticket) → Type 0
Keeps e change =
    (key node : Option String) (b : TicketBase)
    → IsFresh key b
    → (o : Option Ticket) → Was IsEntry key o
    → IsEntry key (change e node b o)

base_ticket_projection-IsFresh :
    (e : Event) (b : TicketBase)
    → base_ticket_projection e ≡ ok b
    → item "ticket_id" e.payload.ticket_id ≡ ok b.ticket_id × IsFresh b.ticket_id b
unfolding base_ticket_projection
base_ticket_projection-IsFresh e b h = ground arith

on_ticket-Writes :
    (change : Event → Option String → TicketBase → Option Ticket → Ticket) (e : Event)
    → Keeps e change
    → Writes IsEntry (on_ticket change e)
unfolding on_ticket
on_ticket-Writes change e keeps =
    Writes-bind IsEntry (item "ticket_id" e.payload.ticket_id) _ λ ticket got.
      Writes-bind IsEntry (base_ticket_projection e) _ λ b made o was.
        let (same, fresh) = base_ticket_projection-IsFresh e b made in
        keeps ticket b.node_id b (rw (ok_inj ticket b.ticket_id (cc)) fresh) o was

review_write-Writes :
    (change : Event → Option String → TicketBase → Option Ticket → Ticket) (e : Event)
    → Keeps e change
    → (ticket node : Option String) → get e.payload.ticket_id ≡ ticket
    → Writes IsEntry (review_write change e ticket node)
unfolding review_write
review_write-Writes change e keeps (some ticket) (some node) got =
    Writes-bind IsEntry (base_ticket_projection e) _ λ b made o was.
      let (same, fresh) = base_ticket_projection-IsFresh e b made in
      keeps (some ticket) (some node) b
        (subst (λ k. IsFresh k b)
          (item-get "ticket_id" e.payload.ticket_id b.ticket_id ticket same got) fresh)
        o was
review_write-Writes change e keeps none _ got = tt
review_write-Writes change e keeps (some ticket) none got = tt

on_review-Writes :
    (change : Event → Option String → TicketBase → Option Ticket → Ticket) (e : Event)
    → Keeps e change
    → Writes IsEntry (on_review change e)
unfolding on_review
on_review-Writes change e keeps = review_write-Writes change e keeps _ _ refl

rejection_reason-FitsReason :
    (e : Event) → FitsReason rework_required (some (rejection_reason e.payload))
unfolding rejection_reason
rejection_reason-FitsReason e = ground arith

plan_of-Writes : (t : EventType) (e : Event) → Writes IsEntry (plan_of t e)
unfolding plan_of
plan_of-Writes ticket_created e =
    on_ticket-Writes create e (λ k n b f o was. create-IsEntry k e n b f o was)
plan_of-Writes ticket_leased e =
    on_ticket-Writes lease e (λ k n b f o was. lease-IsEntry k e n b f o was)
plan_of-Writes ticket_started e =
    on_ticket-Writes start e (λ k n b f o was. start-IsEntry k e n b f o was)
plan_of-Writes ticket_heartbeat_recorded e =
    on_ticket-Writes record_heartbeat e (λ k n b f o was. record_heartbeat-IsEntry k e n b f o was)
plan_of-Writes ticket_cancel_requested e =
    on_ticket-Writes request_cancel e (λ k n b f o was. request_cancel-IsEntry k e n b f o was)
plan_of-Writes ticket_cancelled e =
    on_ticket-Writes cancel e (λ k n b f o was. cancel-IsEntry k e n b f o was)
plan_of-Writes ticket_completed e =
    on_ticket-Writes (settle completed none) e
      (λ k n b f. settle-IsEntry k e n b f completed none refl refl)
plan_of-Writes ticket_failed e =
    on_ticket-Writes (fail failed) e (λ k n b f. fail-IsEntry k e n b f failed refl refl)
plan_of-Writes ticket_timed_out e =
    on_ticket-Writes (fail timed_out) e (λ k n b f. fail-IsEntry k e n b f timed_out refl refl)
plan_of-Writes board_review_required e =
    on_review-Writes (settle blocked_for_board_review (some board_review_needed)) e
      (λ k n b f. settle-IsEntry k e n b f blocked_for_board_review _ refl refl)
plan_of-Writes board_review_approved e =
    on_review-Writes (settle completed none) e
      (λ k n b f. settle-IsEntry k e n b f completed none refl refl)
plan_of-Writes board_review_rejected e =
    on_review-Writes (settle rework_required (some (rejection_reason e.payload))) e
      (λ k n b f. settle-IsEntry k e n b f rework_required _ (rejection_reason-FitsReason e) refl)
plan_of-Writes _ e = tt

pub plan-IsEntry : (e : Event) → Writes IsEntry (plan e)
unfolding plan
plan-IsEntry e = plan_of-Writes e.event_type e

-- After any log that can be read, every ticket projection is consistent: there is no lease outside
-- the statuses that hold one, the blocking reason fits the status, and a settled ticket shows no
-- failure.
pub rebuild_ticket_projections-IsConsistent :
    (events : List Event) (tickets : List Ticket)
    → rebuild_ticket_projections events ≡ ok tickets
    → All IsConsistent tickets
rebuild_ticket_projections-IsConsistent events tickets h =
    rebuild-All plan IsEntry IsConsistent (λ k t entry. entry.consistent) plan-IsEntry events
      tickets (rebuild_ticket_projections-plain events tickets h)
