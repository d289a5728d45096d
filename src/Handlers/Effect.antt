-- ===== src/Handlers/Effect.antt =====
-- What an accepted command does to the projection of its ticket.
use boardroom_os.Base.{
  ℕ, String, ◌≡◌, arith, refl, sym, ap, ◌∙◌, Option, none, some, List, [], ◌∷◌, ◌++◌, map,
  option_eq, text_eq, subst,
}
use boardroom_os.Base.Result.{Result, ok, ok_inj}
use boardroom_os.Field.{value, get, get_or}
use boardroom_os.Event.{Event}
use boardroom_os.Projection.{trace}
use boardroom_os.Projection.Rebuild.{rebuild_last}
use boardroom_os.Ticket.State.{
  Ticket, TicketBase, base_ticket_projection, default_tenant_id, default_workspace_id,
}
use boardroom_os.Ticket.{TicketWrite, on_ticket, plan, rebuild_ticket_projections}
use boardroom_os.Ticket.Consistent.{IsEntry, plan-IsEntry}
use boardroom_os.Ticket.Clock.{rebuild_ticket_projections-plain}
use boardroom_os.Ticket.History.{ticket_of}
use boardroom_os.Repository.{Row, Tables, Repository, NewEvent, row_of, list_all_events}
use boardroom_os.Repository.Refresh.{tables_of, ticket_row}
use boardroom_os.Repository.Log.{insert_event-eq_some, refresh_projections-eq-ok, replace_all-eq-ok}
use boardroom_os.Handlers.Workers.{Provider}
use boardroom_os.Handlers.Transaction.{Ack, Call, Verdict, nothing_more}
use boardroom_os.Handlers.Outcome.{IsAccepted}
use boardroom_os.Handlers.Serve.{Command, decide}

tables_of-tickets :
    (depth : ℕ) (events : List Event) (t : Tables)
    → tables_of depth events ≡ ok t
    → rebuild_ticket_projections events ≡ ok t.tickets
unfolding tables_of
tables_of-tickets depth events t h =
    replace_all-eq-ok ticket_row (rebuild_ticket_projections events) t.tickets (ground arith)

map-append :
    (row : Row) (rows : List Row)
    → map (λ (x : Row). x.event) (rows ++ row ∷ [])
      ≡ (map (λ (x : Row). x.event) rows ++ row.event ∷ [])
map-append row [] = refl
map-append row (x ∷ rows) = ap (λ l. x.event ∷ l) (map-append row rows)

module _ (depth : ℕ) (c : Call) (dec : Repository → Result Verdict) (r s : Repository)
    (ack : Ack) where
  -- Where nothing more follows, the log grows by the event, and the tickets are rebuilt from that.
  accepted-tickets :
      (a : IsAccepted depth c dec r ack s)
      → a.after ≡ nothing_more
      → rebuild_ticket_projections (list_all_events r ++ (row_of a.event r.rows).event ∷ [])
        ≡ ok s.tickets
  unfolding list_all_events
  accepted-tickets a nothing =
      let (_, inserted) = insert_event-eq_some a.event r a.inserted a.insertion in
      let same : a.inserted ≡ a.written =
        ap (λ (p : Repository × Option String). p.0)
          (ok_inj (a.inserted, none) (a.written, a.next) (rw nothing at a.rest)) in
      let (rows, fresh) = refresh_projections-eq-ok depth a.written s a.refreshed in
      let log : s.rows ≡ (r.rows ++ row_of a.event r.rows ∷ []) =
        rows
        ∙ (ap (λ (x : Repository). x.rows) (sym same) ∙ ap (λ (x : Repository). x.rows) inserted) in
      subst (λ l. rebuild_ticket_projections l ≡ ok s.tickets)
        (ap (map (λ (x : Row). x.event)) log ∙ map-append (row_of a.event r.rows) r.rows)
        (tables_of-tickets depth (list_all_events s) s.tables fresh)

-- `_base_ticket_projection` of an event that names its ticket and its node.
abbrev pub base_of : Event → (ticket node : String) → TicketBase
base_of e k n = record {
  ticket_id = some k;
  workflow_id = e.workflow_id;
  node_id = some n;
  tenant_id = get_or e.payload.tenant_id (some default_tenant_id);
  workspace_id = get_or e.payload.workspace_id (some default_workspace_id);
  lease_owner = none;
  lease_expires_at = none;
  started_at = none;
  last_heartbeat_at = none;
  heartbeat_expires_at = none;
  heartbeat_timeout_sec = none;
  retry_count = get_or e.payload.retry_count (some 0);
  retry_budget = get e.payload.retry_budget;
  timeout_sla_sec = get e.payload.timeout_sla_sec;
  priority = get e.payload.priority;
  last_failure_kind = none;
  last_failure_message = none;
  last_failure_fingerprint = none;
  blocking_reason_code = none;
}

on_ticket-writes :
    (change : Event → Option String → TicketBase → Option Ticket → Ticket) (e : Event)
    (k n : String)
    → e.payload.ticket_id ≡ value k
    → e.payload.node_id ≡ value n
    → on_ticket change e
      ≡ ok (some (record { key = some k; update = change e (some n) (base_of e k n) }))
unfolding on_ticket base_ticket_projection
on_ticket-writes change e k n p q = rw (p, q) refl

module _ (depth : ℕ) (providers : List Provider) (c : Call) (r s : Repository) (ack : Ack) where
  -- The ticket after an accepted command, by the change that its event makes.
  pub changed :
      (x : Command) (a : IsAccepted depth c (decide providers c x) r ack s) (e : NewEvent)
      (change : Event → Option String → TicketBase → Option Ticket → Ticket)
      → a.event ≡ e
      → a.after ≡ nothing_more
      → e.payload.ticket_id ≡ value c.ticket_id
      → e.payload.node_id ≡ value c.node_id
      → plan (row_of e r.rows).event ≡ on_ticket change (row_of e r.rows).event
      → ticket_of (some c.ticket_id) s.tickets
        ≡ some (
            change
              (row_of e r.rows).event
              (some c.node_id)
              (base_of (row_of e r.rows).event c.ticket_id c.node_id)
              (trace plan (some c.ticket_id) none (list_all_events r)))
  changed x a e change same nothing p q planned =
      let event = (row_of e r.rows).event in
      let w : TicketWrite = record {
        key = some c.ticket_id;
        update = change event (some c.node_id) (base_of event c.ticket_id c.node_id);
      } in
      rebuild_last plan (λ t. t.ticket_id) IsEntry (λ k t entry. entry.own_id) plan-IsEntry
        (list_all_events r) [] event w s.tickets
        (planned ∙ on_ticket-writes change event c.ticket_id c.node_id p q) tt
        (rebuild_ticket_projections-plain (list_all_events r ++ event ∷ []) s.tickets (
          subst
            (λ d.
              rebuild_ticket_projections (list_all_events r ++ (row_of d r.rows).event ∷ [])
              ≡ ok s.tickets)
            same (accepted-tickets depth c (decide providers c x) r s ack a nothing)))
