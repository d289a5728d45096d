-- ===== src/Ticket/Stamps.antt =====
-- The stamp that an event leaves at its ticket: the status, the time and the number of the event.
use boardroom_os.Base.{String, ◌≡◌, refl, sym, ◌∙◌, Option, none, some, arith, option_eq, text_eq}
use boardroom_os.Base.Result.{Result, ok, raise, ◌>>=◌}
use boardroom_os.Field.{item, get, item-eq-get}
use boardroom_os.Event.{
  EventType, ticket_created, ticket_leased, ticket_started, ticket_heartbeat_recorded,
  ticket_cancel_requested, ticket_cancelled, ticket_completed, ticket_failed, ticket_timed_out,
  board_review_required, board_review_approved, board_review_rejected, Event, iso,
}
use boardroom_os.Ticket.State.{
  TicketStatus, BlockingReason, pending, leased, executing, cancel_requested, cancelled, completed,
  failed, timed_out, blocked_for_board_review, rework_required, board_review_needed, Ticket,
  TicketBase, base_ticket_projection,
}
use boardroom_os.Ticket.Changes.{
  create, lease, start, record_heartbeat, request_cancel, cancel, settle, fail, rejection_reason,
}
use boardroom_os.Ticket.{TicketWrite, on_ticket, review_write, on_review, plan_of}

-- The status that an event of a type gives its ticket.
abbrev pub status_given : EventType → Option TicketStatus
status_given ticket_created = some pending
status_given ticket_leased = some leased
status_given ticket_started = some executing
status_given ticket_heartbeat_recorded = some executing
status_given ticket_cancel_requested = some cancel_requested
status_given ticket_cancelled = some cancelled
status_given ticket_completed = some completed
status_given ticket_failed = some failed
status_given ticket_timed_out = some timed_out
status_given board_review_required = some blocked_for_board_review
status_given board_review_approved = some completed
status_given board_review_rejected = some rework_required
status_given _ = none

-- What an event with a status leaves at its ticket.
pub record IsStamped (e : Event) (s : TicketStatus) (t : Ticket) : Type 0 where
  pub status : t.status ≡ s
  pub updated_at : t.updated_at ≡ iso e.occurred_at
  pub version : t.version ≡ e.sequence_no
  pub workflow_id : t.workflow_id ≡ e.workflow_id
  pub node_id : t.node_id ≡ get e.payload.node_id

abbrev pub Stamps : Event → TicketStatus → Result (Option TicketWrite) → Type 0
Stamps e s (ok (some w)) =
    (w.key ≡ get e.payload.ticket_id) × ((o : Option Ticket) → IsStamped e s (w.update o))
Stamps e s (ok none) = ⊥
Stamps e s (raise x) = Unit

-- A change that leaves the stamp of the event.
abbrev pub StampsAt :
    Event → TicketStatus → (Event → Option String → TicketBase → Option Ticket → Ticket) → Type 0
StampsAt e s change =
    (node : Option String) (b : TicketBase) (o : Option Ticket)
    → (node ≡ get e.payload.node_id)
    → b.node_id ≡ node
    → b.workflow_id ≡ e.workflow_id
    → IsStamped e s (change e node b o)

Stamps-bind :
    {A : Type 0} (e : Event) (s : TicketStatus) (m : Result A) (f : A → Result (Option TicketWrite))
    → ((a : A) → m ≡ ok a → Stamps e s (f a))
    → Stamps e s (m >>= f)
Stamps-bind e s (ok a) f h = h a refl
Stamps-bind e s (raise x) f h = tt

base_ticket_projection_ids :
    (e : Event) (b : TicketBase)
    → base_ticket_projection e ≡ ok b
    → (b.node_id ≡ get e.payload.node_id) × (b.workflow_id ≡ e.workflow_id)
unfolding base_ticket_projection
base_ticket_projection_ids e b h = ground arith

on_ticket-Stamps :
    (change : Event → Option String → TicketBase → Option Ticket → Ticket) (e : Event)
    (s : TicketStatus)
    → StampsAt e s change
    → Stamps e s (on_ticket change e)
unfolding on_ticket
on_ticket-Stamps change e s h =
    Stamps-bind e s (item "ticket_id" e.payload.ticket_id) _ λ ticket got.
      Stamps-bind e s (base_ticket_projection e) _ λ b made.
        let (at, from) = base_ticket_projection_ids e b made in
        (item-eq-get "ticket_id" e.payload.ticket_id ticket got, λ o. h b.node_id b o at refl from)

on_review-Stamps :
    (change : Event → Option String → TicketBase → Option Ticket → Ticket) (e : Event)
    (s : TicketStatus) (k n : String)
    → get e.payload.ticket_id ≡ some k
    → get e.payload.node_id ≡ some n
    → StampsAt e s change
    → Stamps e s (on_review change e)
unfolding on_review review_write
on_review-Stamps change e s k n hk hn h =
    rw (hk, hn)
      (Stamps-bind e s (base_ticket_projection e) _ λ b made.
        let (at, from) = base_ticket_projection_ids e b made in
        (sym hk, λ o. h (some n) b o (sym hn) (at ∙ hn) from))

create-Stamps : (e : Event) → StampsAt e pending create
unfolding create
create-Stamps e n b o at own from = ground arith

lease-Stamps : (e : Event) → StampsAt e leased lease
unfolding lease
lease-Stamps e n b o at own from = ground arith

start-Stamps : (e : Event) → StampsAt e executing start
unfolding start
start-Stamps e n b o at own from = ground arith

record_heartbeat-Stamps : (e : Event) → StampsAt e executing record_heartbeat
unfolding record_heartbeat
record_heartbeat-Stamps e n b o at own from = ground arith

request_cancel-Stamps : (e : Event) → StampsAt e cancel_requested request_cancel
unfolding request_cancel
request_cancel-Stamps e n b o at own from = ground arith

cancel-Stamps : (e : Event) → StampsAt e cancelled cancel
unfolding cancel
cancel-Stamps e n b o at own from = ground arith

settle-Stamps :
    (e : Event) (s : TicketStatus) (r : Option BlockingReason) → StampsAt e s (settle s r)
unfolding settle
settle-Stamps e s r n b o at own from = ground arith

fail-Stamps : (e : Event) (s : TicketStatus) → StampsAt e s (fail s)
unfolding fail
fail-Stamps e s n b o at own from = ground arith

abbrev pub StampsGiven : Event → Option TicketStatus → Result (Option TicketWrite) → Type 0
StampsGiven e none r = Unit
StampsGiven e (some s) r = Stamps e s r

module _ (e : Event) (k n : String) (hk : get e.payload.ticket_id ≡ some k)
    (hn : get e.payload.node_id ≡ some n) where
  pub plan_of-Stamps : (t : EventType) → StampsGiven e (status_given t) (plan_of t e)
  unfolding plan_of
  plan_of-Stamps ticket_created = on_ticket-Stamps create e _ (create-Stamps e)
  plan_of-Stamps ticket_leased = on_ticket-Stamps lease e _ (lease-Stamps e)
  plan_of-Stamps ticket_started = on_ticket-Stamps start e _ (start-Stamps e)
  plan_of-Stamps ticket_heartbeat_recorded =
      on_ticket-Stamps record_heartbeat e _ (record_heartbeat-Stamps e)
  plan_of-Stamps ticket_cancel_requested =
      on_ticket-Stamps request_cancel e _ (request_cancel-Stamps e)
  plan_of-Stamps ticket_cancelled = on_ticket-Stamps cancel e _ (cancel-Stamps e)
  plan_of-Stamps ticket_completed =
      on_ticket-Stamps (settle completed none) e _ (settle-Stamps e completed none)
  plan_of-Stamps ticket_failed = on_ticket-Stamps (fail failed) e _ (fail-Stamps e failed)
  plan_of-Stamps ticket_timed_out = on_ticket-Stamps (fail timed_out) e _ (fail-Stamps e timed_out)
  plan_of-Stamps board_review_required =
      on_review-Stamps (settle blocked_for_board_review (some board_review_needed)) e _ k n hk hn
        (settle-Stamps e blocked_for_board_review (some board_review_needed))
  plan_of-Stamps board_review_approved =
      on_review-Stamps (settle completed none) e _ k n hk hn (settle-Stamps e completed none)
  plan_of-Stamps board_review_rejected =
      on_review-Stamps (settle rework_required (some (rejection_reason e.payload))) e _ k n hk hn
        (settle-Stamps e rework_required (some (rejection_reason e.payload)))
  plan_of-Stamps _ = tt
