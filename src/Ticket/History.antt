-- ===== src/Ticket/History.antt =====
-- How the ticket projections follow from the log: which logs can be read, what a ticket owes to its
-- own events, and to the last of them.
use boardroom_os.Base.{
  String, ◌≡◌, refl, ◌∙◌, ◌≢◌, ◌↔◌, Bool, true, false, Option, none, some, List, [], ◌∷◌, ◌++◌,
  arith, option_beq_iff, option_eq, text_eq, ◌==◌,
}
use boardroom_os.Base.Result.{ok, IsOk, IsOk-value, IsOk-of_eq}
use boardroom_os.Base.All.{All, All-weaken, keep}
use boardroom_os.Base.Dict.{find_by, DistinctIds}
use boardroom_os.Field.{absent, get}
use boardroom_os.Event.{
  EventType, ticket_created, ticket_leased, ticket_started, ticket_heartbeat_recorded,
  ticket_cancel_requested, ticket_cancelled, ticket_completed, ticket_failed, ticket_timed_out,
  board_review_required, board_review_approved, board_review_rejected, Event,
}
use boardroom_os.Projection.{rebuild, trace, touches, Succeeds, hits}
use boardroom_os.Projection.Rebuild.{
  rebuild-ok_iff, rebuild-DistinctIds, rebuild-keep, rebuild_last, rebuild-Succeeds,
}
use boardroom_os.Ticket.State.{
  TicketStatus, completed, failed, timed_out, blocked_for_board_review, rework_required,
  board_review_needed, Ticket, TicketBase, base_ticket_projection,
}
use boardroom_os.Ticket.Changes.{
  create, lease, start, record_heartbeat, request_cancel, cancel, settle, fail, rejection_reason,
}
use boardroom_os.Ticket.{
  TicketWrite, on_ticket, review_write, on_review, plan_of, plan, rebuild_ticket_projections,
}
use boardroom_os.Ticket.Stamps.{status_given, IsStamped, Stamps, plan_of-Stamps}
use boardroom_os.Ticket.Clock.{
  LogIsInTime, rebuild_ticket_projections_iff, rebuild_ticket_projections-plain,
}
use boardroom_os.Ticket.Cut.{LogIsInTime-keep}
use boardroom_os.Ticket.Consistent.{IsEntry, plan-IsEntry}

-- The types for which the reducer takes `payload["ticket_id"]` and `payload["node_id"]`.
abbrev pub needs_ids : EventType → Bool
needs_ids ticket_created = true
needs_ids ticket_leased = true
needs_ids ticket_started = true
needs_ids ticket_heartbeat_recorded = true
needs_ids ticket_cancel_requested = true
needs_ids ticket_cancelled = true
needs_ids ticket_completed = true
needs_ids ticket_failed = true
needs_ids ticket_timed_out = true
needs_ids _ = false

abbrev pub HasKeys : Event → Type 0
HasKeys e = (e.payload.ticket_id ≢ absent) × (e.payload.node_id ≢ absent)

abbrev pub HasIds : Event → Type 0
HasIds e = needs_ids e.event_type ≡ true → HasKeys e

on_ticket-IsOk :
    (change : Event → Option String → TicketBase → Option Ticket → Ticket) (e : Event)
    → HasKeys e
    → IsOk (on_ticket change e)
unfolding on_ticket base_ticket_projection
on_ticket-IsOk change e h = ground arith

on_review-IsOk :
    (change : Event → Option String → TicketBase → Option Ticket → Ticket) (e : Event)
    → IsOk (on_review change e)
unfolding on_review review_write base_ticket_projection
on_review-IsOk change e = ground arith

on_ticket-ids :
    (change : Event → Option String → TicketBase → Option Ticket → Ticket) (e : Event)
    → IsOk (on_ticket change e)
    → HasKeys e
unfolding on_ticket base_ticket_projection
on_ticket-ids change e h = ground arith

-- Events that do not name the ticket do not touch it.
on_ticket-misses :
    (change : Event → Option String → TicketBase → Option Ticket → Ticket) (e : Event)
    (k : Option String)
    → (get e.payload.ticket_id == k) ≡ false
    → hits k (on_ticket change e) ≡ false
unfolding on_ticket base_ticket_projection hits
on_ticket-misses change e k h = ground arith

on_review-misses :
    (change : Event → Option String → TicketBase → Option Ticket → Ticket) (e : Event)
    (k : Option String)
    → (get e.payload.ticket_id == k) ≡ false
    → hits k (on_review change e) ≡ false
unfolding on_review review_write base_ticket_projection hits
on_review-misses change e k h = ground arith

plan_of-misses :
    (t : EventType) (e : Event) (k : Option String)
    → (get e.payload.ticket_id == k) ≡ false
    → hits k (plan_of t e) ≡ false
unfolding plan_of hits
plan_of-misses ticket_created e k h = search (on_ticket-misses, on_review-misses)
plan_of-misses _ e k h = search (on_ticket-misses, on_review-misses)

plan_of-IsOk : (t : EventType) (e : Event) → (needs_ids t ≡ true → HasKeys e) → IsOk (plan_of t e)
unfolding plan_of
plan_of-IsOk board_review_required e h =
    on_review-IsOk (settle blocked_for_board_review (some board_review_needed)) e
plan_of-IsOk board_review_approved e h = on_review-IsOk (settle completed none) e
plan_of-IsOk board_review_rejected e h =
    on_review-IsOk (settle rework_required (some (rejection_reason e.payload))) e
plan_of-IsOk ticket_created e h = on_ticket-IsOk create e (h refl)
plan_of-IsOk ticket_leased e h = on_ticket-IsOk lease e (h refl)
plan_of-IsOk ticket_started e h = on_ticket-IsOk start e (h refl)
plan_of-IsOk ticket_heartbeat_recorded e h = on_ticket-IsOk record_heartbeat e (h refl)
plan_of-IsOk ticket_cancel_requested e h = on_ticket-IsOk request_cancel e (h refl)
plan_of-IsOk ticket_cancelled e h = on_ticket-IsOk cancel e (h refl)
plan_of-IsOk ticket_completed e h = on_ticket-IsOk (settle completed none) e (h refl)
plan_of-IsOk ticket_failed e h = on_ticket-IsOk (fail failed) e (h refl)
plan_of-IsOk ticket_timed_out e h = on_ticket-IsOk (fail timed_out) e (h refl)
plan_of-IsOk _ e h = tt

plan_of-ids : (t : EventType) (e : Event) → IsOk (plan_of t e) → needs_ids t ≡ true → HasKeys e
unfolding plan_of
plan_of-ids ticket_created e h need = search on_ticket-ids
plan_of-ids _ e h need = first_of (search on_ticket-ids, cc)

-- A log can be read exactly if each of its ticket events has the keys `ticket_id` and `node_id`, and
-- no heartbeat time that the reducer computes, from the timeout that the events before give the
-- ticket, is past the end of the year 9999.
pub rebuild_ticket_projections-ok_iff :
    (events : List Event)
    → ((tickets : List Ticket) × (rebuild_ticket_projections events ≡ ok tickets))
      ↔ (All HasIds events × LogIsInTime [] events)
unfolding plan
rebuild_ticket_projections-ok_iff events = (
  λ h.
      let (plain, in_time) = (rebuild_ticket_projections_iff events h.0).0 h.1 in
      (
        All-weaken (Succeeds plan) HasIds
            (λ e p. plan_of-ids e.event_type e (IsOk-of_eq (plan e) p.0 p.1)) events
            ((rebuild-ok_iff plan events).0 (h.0, plain)),
        in_time,
      ),
  λ h.
      let (tickets, plain) = (rebuild-ok_iff plan events).1 (
        All-weaken HasIds (Succeeds plan)
          (λ e p. IsOk-value (plan e) (plan_of-IsOk e.event_type e p)) events h.0) in
      (tickets, (rebuild_ticket_projections_iff events tickets).1 (plain, h.1)),
)

-- `next(t for t in tickets if t["ticket_id"] == k)`
abbrev pub ticket_of : Option String → List Ticket → Option Ticket
ticket_of = find_by (λ t. t.ticket_id)

-- After any log that can be read, no ticket is listed twice.
pub rebuild_ticket_projections-DistinctIds :
    (events : List Event) (tickets : List Ticket)
    → rebuild_ticket_projections events ≡ ok tickets
    → DistinctIds (λ t. t.ticket_id) tickets
rebuild_ticket_projections-DistinctIds events tickets h =
    rebuild-DistinctIds plan (λ t. t.ticket_id) IsEntry (λ k t entry. entry.own_id) plan-IsEntry
      events tickets (rebuild_ticket_projections-plain events tickets h)

-- `event["payload"].get("ticket_id") == k`
abbrev pub names_ticket : Option String → Event → Bool
names_ticket k e = get e.payload.ticket_id == k

misses_unnamed :
    (k : Option String) (e : Event) → names_ticket k e ≡ false → touches plan k e ≡ false
unfolding touches plan
misses_unnamed k e h = plan_of-misses e.event_type e k h

-- In a log that can be read, the projection of a ticket is the one that the events which name it
-- give on their own.
pub rebuild_ticket_projections-keep :
    (k : Option String) (events : List Event) (tickets : List Ticket)
    → rebuild_ticket_projections events ≡ ok tickets
    → (own : List Ticket) × (rebuild_ticket_projections (keep (names_ticket k) events) ≡ ok own)
      × (ticket_of k own ≡ ticket_of k tickets)
rebuild_ticket_projections-keep k events tickets h =
    let p = names_ticket k in
    let (plain, in_time) = (rebuild_ticket_projections_iff events tickets).0 h in
    let (own, read, same) =
      rebuild-keep plan (λ t. t.ticket_id) IsEntry (λ k t entry. entry.own_id) plan-IsEntry k p
        (misses_unnamed k) events tickets plain in
    let own_in_time : LogIsInTime [] (keep p events) =
      unfold keep in
      LogIsInTime-keep k p (λ e named. (option_beq_iff (get e.payload.ticket_id) k).0 named)
        (misses_unnamed k) [] events in_time in
    (own, (rebuild_ticket_projections_iff (keep p events) own).1 (read, own_in_time), same)

last_write :
    (before after : List Event) (e : Event) (k : String) (s : TicketStatus) (tickets : List Ticket)
    → (w : Option TicketWrite) → plan e ≡ ok w
    → get e.payload.ticket_id ≡ some k
    → Stamps e s (ok w)
    → All (λ y. names_ticket (some k) y ≡ false) after
    → rebuild plan (before ++ e ∷ after) ≡ ok tickets
    → (t : Ticket) × (ticket_of (some k) tickets ≡ some t) × IsStamped e s t
last_write before after e k s tickets none p hk stamps others h = absurd stamps
last_write before after e k s tickets (some w) p hk stamps others h =
    let at : w.key ≡ some k = stamps.0 ∙ hk in
    let misses : All (λ y. touches plan w.key y ≡ false) after =
      rw at (All-weaken _ _ (λ y q. misses_unnamed (some k) y q) after others) in
    (
      w.update (trace plan w.key none before),
      rw (← at) (
          rebuild_last plan (λ t. t.ticket_id) IsEntry (λ k t entry. entry.own_id) plan-IsEntry
            before after e w tickets p misses h),
      stamps.1 _,
    )

-- In a log that can be read, if the last event that names a ticket gives a status and names a node,
-- the ticket has that status and node, and the event's time and version.
pub rebuild_ticket_projections_last :
    (before after : List Event) (e : Event) (k n : String) (s : TicketStatus)
    (tickets : List Ticket)
    → get e.payload.ticket_id ≡ some k
    → get e.payload.node_id ≡ some n
    → status_given e.event_type ≡ some s
    → All (λ y. names_ticket (some k) y ≡ false) after
    → rebuild_ticket_projections (before ++ e ∷ after) ≡ ok tickets
    → (t : Ticket) × (ticket_of (some k) tickets ≡ some t) × IsStamped e s t
unfolding plan
rebuild_ticket_projections_last before after e k n s tickets hk hn hs others h =
    let plain = rebuild_ticket_projections-plain (before ++ e ∷ after) tickets h in
    let (w, p) = rebuild-Succeeds plan before after e tickets plain in
    let given : Stamps e s (plan e) = rw hs at (plan_of-Stamps e k n hk hn e.event_type) in
    last_write before after e k s tickets w p hk (rw p at given) others plain
