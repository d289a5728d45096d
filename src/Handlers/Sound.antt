-- ===== src/Handlers/Sound.antt =====
-- What the guards of each handler decide: to refuse, or to insert one event with the command's key.
use boardroom_os.Base.{
  String, refl, Option, none, some, List, inl, inr, Bool, true, false, option_eq, text_eq,
  Bool-cases, ◌==◌, ◌&&◌, not,
}
use boardroom_os.Base.Result.{Result}
use boardroom_os.Ticket.State.{
  TicketStatus, executing, cancelled, completed, failed, timed_out, Ticket,
}
use boardroom_os.Node.{Node}
use boardroom_os.Event.{Timestamp, plus_seconds}
use boardroom_os.Repository.{Repository, get_current_ticket_projection, get_current_node_projection}
use boardroom_os.Handlers.Workers.{
  Provider, resolve_provider_id_for_ticket, employee_is_active, is_provider_paused,
  allow_paused_provider_start,
}
use boardroom_os.Handlers.Transaction.{
  write, acknowledge, nothing_more, Call, Verdict, matching, with_current, still_open,
}
use boardroom_os.Handlers.Lease.{
  TicketLease, may_be_leased, is_leased, lease_event, lease_if, lease_to_worker, held_by_other,
  lease_current, decide_lease,
}
use boardroom_os.Handlers.Start.{
  is_pending_node, start_event, start_if, start_by_worker, start_current, decide_start,
}
use boardroom_os.Handlers.Heartbeat.{
  is_executing, is_executing_node, heartbeat_event, heartbeat_current, decide_heartbeat,
  heartbeat_if, heartbeat_window_open, resolve_heartbeat_timeout_sec,
}
use boardroom_os.Handlers.Cancel.{
  TicketCancel, cancel_event, cancel_from, cancel_current, decide_cancel,
}
use boardroom_os.Handlers.Outcome.{
  IsWrite, refuses, writes, Answers, answers, Answers-bind, Answers-map, nothing_more-IsExtended,
}
use boardroom_os.Handlers.Serve.{Command, lease, start, heartbeat, cancel, decide}

matching-Answers :
    (c : Call) (missing : String) (own : Ticket → Node → Result Verdict)
    → ((t : Ticket) (n : Node) → Answers (IsWrite c) (own t n))
    → (t : Option Ticket) (n : Option Node) → Answers (IsWrite c) (matching c missing own t n)
unfolding matching
matching-Answers c missing own h none n = answers refuses
matching-Answers c missing own h (some t) none = answers refuses
matching-Answers c missing own h (some t) (some n) =
    elim (Bool-cases (t.workflow_id == some c.workflow_id && t.node_id == some c.node_id)) [
      | inr other ↦ rw other (answers refuses)
      | inl same ↦ rw same (elim (Bool-cases (n.latest_ticket_id == some c.ticket_id)) [
        | inr moved ↦ rw moved (answers refuses)
        | inl latest ↦ rw latest (h t n)
      ])
    ]

with_current-Answers :
    (c : Call) (missing : String) (own : Ticket → Node → Result Verdict) (r : Repository)
    → ((t : Ticket) (n : Node) → Answers (IsWrite c) (own t n))
    → Answers (IsWrite c) (with_current c missing own r)
unfolding with_current
with_current-Answers c missing own r h =
    let n = get_current_node_projection r c.workflow_id c.node_id in
    Answers-bind (IsWrite c) (get_current_ticket_projection r c.ticket_id)
      (λ t. matching c missing own t n) (λ t _. matching-Answers c missing own h t n)

lease_to_worker-IsWrite :
    (c : Call) (l : TicketLease) (r : Repository) → IsWrite c (lease_to_worker c l r)
unfolding lease_to_worker lease_event
lease_to_worker-IsWrite c l r = elim (Bool-cases (employee_is_active r l.leased_by)) [
  | inr idle ↦ rw idle refuses
  | inl active ↦
      let provider = resolve_provider_id_for_ticket r none (some l.leased_by) none in
      rw active (elim (Bool-cases (is_provider_paused r provider)) [
        | inl paused ↦ rw paused refuses
        | inr running ↦ rw running (writes refl nothing_more-IsExtended)
      ])
]

held_by_other-IsWrite :
    (c : Call) (t : Ticket) (o : Option Timestamp) (v : Verdict)
    → IsWrite c v
    → IsWrite c (held_by_other c t o v)
unfolding held_by_other
held_by_other-IsWrite c t none v h = h
held_by_other-IsWrite c t (some x) v h = refuses

lease_if-IsWrite :
    (c : Call) (l : TicketLease) (r : Repository) (t : Ticket) (active : Bool)
    → IsWrite c (lease_if c l r t active)
unfolding lease_if
lease_if-IsWrite c l r t active =
    let given = lease_to_worker-IsWrite c l r in
    let held = is_leased t.status && active && not (t.lease_owner == some l.leased_by) in
    elim (Bool-cases held) [
      | inl other ↦
          rw other (held_by_other-IsWrite c t t.lease_expires_at (lease_to_worker c l r) given)
      | inr free ↦ rw free given
    ]

lease_current-Answers :
    (c : Call) (l : TicketLease) (r : Repository) (t : Ticket) (n : Node)
    → Answers (IsWrite c) (lease_current c l r t n)
unfolding lease_current
lease_current-Answers c l r t n = elim (Bool-cases (may_be_leased t.status)) [
  | inr closed ↦ rw closed (answers refuses)
  | inl allowed ↦ rw allowed (
      Answers-map (IsWrite c) (still_open t.lease_expires_at c.received_at) (lease_if c l r t)
        (lease_if-IsWrite c l r t))
]

start_by_worker-IsWrite :
    (c : Call) (w : String) (providers : List Provider) (r : Repository) (t : Ticket)
    → IsWrite c (start_by_worker c w providers r t)
unfolding start_by_worker start_event
start_by_worker-IsWrite c w providers r t = elim (Bool-cases (employee_is_active r w)) [
  | inr idle ↦ rw idle refuses
  | inl active ↦
      let provider = resolve_provider_id_for_ticket r t.lease_owner (some w) none in
      let paused =
        is_provider_paused r provider && not (allow_paused_provider_start providers provider) in
      rw active (elim (Bool-cases paused) [
        | inl stopped ↦ rw stopped refuses
        | inr running ↦ rw running (writes refl nothing_more-IsExtended)
      ])
]

start_if-IsWrite :
    (c : Call) (w : String) (providers : List Provider) (r : Repository) (t : Ticket) (b : Bool)
    → IsWrite c (start_if c w providers r t b)
unfolding start_if
start_if-IsWrite c w providers r t true = start_by_worker-IsWrite c w providers r t
start_if-IsWrite c w providers r t false = refuses

start_current-Answers :
    (c : Call) (w : String) (providers : List Provider) (r : Repository) (t : Ticket) (n : Node)
    → Answers (IsWrite c) (start_current c w providers r t n)
unfolding start_current
start_current-Answers c w providers r t n = elim (Bool-cases (is_pending_node n.status)) [
  | inr busy ↦ rw busy (answers refuses)
  | inl waits ↦ rw waits (elim (Bool-cases (is_leased t.status)) [
    | inr other ↦ rw other (answers refuses)
    | inl held ↦ rw held (elim (Bool-cases (t.lease_owner == some w)) [
      | inr stranger ↦ rw stranger (answers refuses)
      | inl owner ↦ rw owner (
          Answers-map (IsWrite c) (still_open t.lease_expires_at c.received_at)
            (start_if c w providers r t) (start_if-IsWrite c w providers r t))
    ])
  ])
]

heartbeat_if-Answers :
    (c : Call) (w : String) (t : Ticket) (b : Bool) → Answers (IsWrite c) (heartbeat_if c w t b)
unfolding heartbeat_if heartbeat_event
heartbeat_if-Answers c w t true =
    Answers-map (IsWrite c) (plus_seconds c.received_at (resolve_heartbeat_timeout_sec t))
      (λ expires. write (heartbeat_event c w expires) acknowledge nothing_more)
      (λ expires. writes refl nothing_more-IsExtended)
heartbeat_if-Answers c w t false = answers refuses

heartbeat_current-Answers :
    (c : Call) (w : String) (t : Ticket) (n : Node)
    → Answers (IsWrite c) (heartbeat_current c w t n)
unfolding heartbeat_current
heartbeat_current-Answers c w t n =
    elim (Bool-cases (is_executing t.status && is_executing_node n.status)) [
      | inr other ↦ rw other (answers refuses)
      | inl busy ↦ rw busy (elim (Bool-cases (t.lease_owner == some w)) [
        | inr stranger ↦ rw stranger (answers refuses)
        | inl owner ↦ rw owner (
            Answers-bind (IsWrite c) (heartbeat_window_open t c.received_at) (heartbeat_if c w t)
              (λ b _. heartbeat_if-Answers c w t b))
      ])
    ]

cancel_from-IsWrite :
    (c : Call) (x : TicketCancel) (s : TicketStatus) → IsWrite c (cancel_from c x s)
unfolding cancel_from cancel_event
cancel_from-IsWrite c x cancelled = refuses
cancel_from-IsWrite c x completed = refuses
cancel_from-IsWrite c x failed = refuses
cancel_from-IsWrite c x timed_out = refuses
cancel_from-IsWrite c x executing = writes refl nothing_more-IsExtended
cancel_from-IsWrite c x _ = writes refl nothing_more-IsExtended

pub decide-Answers :
    (providers : List Provider) (c : Call) (x : Command) (r : Repository)
    → Answers (IsWrite c) (decide providers c x r)
unfolding decide decide_lease decide_start decide_heartbeat decide_cancel cancel_current
decide-Answers providers c (lease l) r =
    with_current-Answers c _ (lease_current c l r) r (lease_current-Answers c l r)
decide-Answers providers c (start w) r =
    with_current-Answers c _ (start_current c w providers r) r
      (start_current-Answers c w providers r)
decide-Answers providers c (heartbeat w) r =
    with_current-Answers c _ (heartbeat_current c w) r (heartbeat_current-Answers c w)
decide-Answers providers c (cancel x) r =
    with_current-Answers c _ (cancel_current c x) r
      (λ t n. answers (cancel_from-IsWrite c x t.status))
