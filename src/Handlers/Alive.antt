-- ===== src/Handlers/Alive.antt =====
-- What an accepted heartbeat promises: what held of the ticket and of its node before, and what holds
-- of the ticket after.
use boardroom_os.Base.{
  ℕ, ◌+◌, ◌*◌, String, ◌≡◌, refl, Bool, true, ◌&&◌, none, some, List, option_eq, text_eq,
  option_beq_iff, ◌==◌, false, Bool-cases, inl, inr,
}
use boardroom_os.Base.Result.{ok, >>=-eq-ok, ok_inj}
use boardroom_os.Event.{Timestamp, iso, seconds, plus_seconds, plus_seconds_iff}
use boardroom_os.Projection.{trace}
use boardroom_os.Ticket.State.{executing, Ticket, scope_previous}
use boardroom_os.Ticket.Changes
use boardroom_os.Ticket.{on_ticket, plan, plan_of}
use boardroom_os.Ticket.History.{ticket_of}
use boardroom_os.Node.{Node}
use boardroom_os.Repository.{
  Repository, NewEvent, row_of, list_all_events, get_current_ticket_projection,
  get_current_node_projection,
}
use boardroom_os.Handlers.Workers.{Provider}
use boardroom_os.Handlers.Transaction.{
  accepted, Ack, Call, Conflict, write, acknowledge, nothing_more,
}
use boardroom_os.Handlers.Heartbeat.{
  is_executing, is_executing_node, resolve_heartbeat_timeout_sec, heartbeat_event, heartbeat_if,
  heartbeat_window_open, heartbeat_current, decide_heartbeat,
}
use boardroom_os.Handlers.Outcome.{After}
use boardroom_os.Handlers.Serve.{heartbeat, handle, decide}
use boardroom_os.Handlers.Guards.{Writes, refused_written, both, with_current-eq-write}
use boardroom_os.Handlers.Effect.{changed, base_of}
use boardroom_os.Handlers.Promises.{acceptance, write_inj}

-- When the time for the next heartbeat ends.
abbrev next_expiry : Call → Ticket → Timestamp
next_expiry c t = iso (c.received_at + resolve_heartbeat_timeout_sec t * seconds)

module _ (c : Call) (w : String) (e : NewEvent) (conflict : Conflict) (after : After) where
  record MayBeat (t : Ticket) (n : Node) : Type 0 where
    event : e ≡ heartbeat_event c w (next_expiry c t)
    nothing : after ≡ nothing_more
    status : is_executing t.status ≡ true
    node_status : is_executing_node n.status ≡ true
    owner : t.lease_owner ≡ some w
    unexpired : heartbeat_window_open t c.received_at ≡ ok true

  heartbeat_if-eq-write :
      (t : Ticket) (unexpired : Bool)
      → Writes (heartbeat_if c w t unexpired) e conflict after
      → (unexpired ≡ true) × (e ≡ heartbeat_event c w (next_expiry c t)) × (after ≡ nothing_more)
  unfolding heartbeat_if
  heartbeat_if-eq-write t false h = absurd (refused_written _ e conflict after refl h)
  heartbeat_if-eq-write t true h =
      let (expires, summed, made) =
        >>=-eq-ok (plus_seconds c.received_at (resolve_heartbeat_timeout_sec t))
          (λ expires. ok (write (heartbeat_event c w expires) acknowledge nothing_more)) h in
      let (event, nothing) = write_inj (ok_inj _ (write e conflict after) made) in
      let (_, sum) =
        (plus_seconds_iff c.received_at (resolve_heartbeat_timeout_sec t) expires).0 summed in
      (refl, rw (← sum) event, nothing)

  heartbeat_current-MayBeat :
      (t : Ticket) (n : Node) → Writes (heartbeat_current c w t n) e conflict after → MayBeat t n
  unfolding heartbeat_current
  heartbeat_current-MayBeat t n h =
      elim (Bool-cases (is_executing t.status && is_executing_node n.status)) [
        | inr idle ↦ absurd (refused_written _ e conflict after refl (rw idle at h))
        | inl busy ↦ elim (Bool-cases (t.lease_owner == some w)) [
          | inr stranger ↦
              absurd (refused_written _ e conflict after refl (rw (busy, stranger) at h))
          | inl owner ↦
              let (b, opened, made) =
                >>=-eq-ok (heartbeat_window_open t c.received_at) (λ b. heartbeat_if c w t b)
                  (rw (busy, owner) at h) in
              let (unexpired, event, nothing) = heartbeat_if-eq-write t b made in
              let (at_work, node_at_work) =
                both (is_executing t.status) (is_executing_node n.status) busy in
              record {
                event = event;
                nothing = nothing;
                status = at_work;
                node_status = node_at_work;
                owner = (option_beq_iff t.lease_owner (some w)).0 owner;
                unexpired = rw (← unexpired) opened;
              }
        ]
      ]

module _ (depth : ℕ) (providers : List Provider) (c : Call) (r s : Repository) (ack : Ack) where
  -- The ticket and its node before a heartbeat of its worker, and the ticket after.
  pub record IsAlive (worker : String) (t : Ticket) (n : Node) (u : Ticket) : Type 0 where
    pub before : get_current_ticket_projection r c.ticket_id ≡ ok (some t)
    pub node : get_current_node_projection r c.workflow_id c.node_id ≡ some n
    pub latest : n.latest_ticket_id ≡ some c.ticket_id
    pub status : is_executing t.status ≡ true
    pub node_status : is_executing_node n.status ≡ true
    pub owner : t.lease_owner ≡ some worker
    pub unexpired : heartbeat_window_open t c.received_at ≡ ok true
    pub after : ticket_of (some c.ticket_id) s.tickets ≡ some u
    pub executing_now : u.status ≡ executing
    pub last_heartbeat_at : u.last_heartbeat_at ≡ some (iso c.received_at)
    pub expiry :
        u.heartbeat_expires_at
        ≡ some (iso (c.received_at + resolve_heartbeat_timeout_sec t * seconds))

  heartbeat-planned :
      (w : String) (t : Ticket)
      → plan (row_of (heartbeat_event c w (next_expiry c t)) r.rows).event
        ≡ on_ticket Changes.record_heartbeat
            (row_of (heartbeat_event c w (next_expiry c t)) r.rows).event
  unfolding plan plan_of heartbeat_event
  heartbeat-planned w t = refl

  -- If `handle_ticket_heartbeat` accepts, the ticket and its node were EXECUTING before, the ticket
  -- was the node's latest, the worker owned the lease, and the time for its heartbeat was not over;
  -- and in the projection after it the ticket is EXECUTING, its last heartbeat is the time of the
  -- command, and the next one is due after the ticket's heartbeat timeout.
  pub handle-heartbeat_accepted :
      (w : String)
      → handle depth providers c (heartbeat w) r ≡ ok (ack, s)
      → ack.status ≡ accepted
      → (t : Ticket) × (n : Node) × (u : Ticket) × IsAlive w t n u
  unfolding decide decide_heartbeat Changes.record_heartbeat scope_previous heartbeat_event
  handle-heartbeat_accepted w h taken =
      let a = acceptance depth providers c r s ack (heartbeat w) h taken in
      let (t, n, current, own) =
        with_current-eq-write c "Ticket must be created and started before it can report heartbeat."
          (heartbeat_current c w) r a.event a.conflict a.after a.decided in
      let may = heartbeat_current-MayBeat c w a.event a.conflict a.after t n own in
      let e = (row_of (heartbeat_event c w (next_expiry c t)) r.rows).event in
      let u =
        Changes.record_heartbeat e (some c.node_id) (base_of e c.ticket_id c.node_id)
          (trace plan (some c.ticket_id) none (list_all_events r)) in
      (
        t,
        n,
        u,
        record {
          before = current.ticket;
          node = current.node;
          latest = current.latest;
          status = may.status;
          node_status = may.node_status;
          owner = may.owner;
          unexpired = may.unexpired;
          after =
              changed depth providers c r s ack (heartbeat w) a
                (heartbeat_event c w (next_expiry c t)) Changes.record_heartbeat may.event
                may.nothing refl refl (heartbeat-planned w t);
          executing_now = refl;
          last_heartbeat_at = refl;
          expiry = refl;
        },
      )
