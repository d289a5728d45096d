-- ===== src/Ticket/Clock.antt =====
-- Which logs `rebuild_ticket_projections` (backend/app/core/reducer.py) can read, as to the times that
-- it computes. Where it reads a log, it is the loop of Projection.antt.
use boardroom_os.Base.{
  ℕ, ◌+◌, ◌*◌, ◌≤◌, String, ◌≡◌, refl, sym, ap, ◌∙◌, ◌↔◌, Bool, true, false, Option, none, some,
  List, [], ◌∷◌, ◌++◌, arith, option_eq, text_eq,
}
use boardroom_os.Base.Result.{
  Result, ok, ◌>>=◌, >>=-eq-ok, ok_inj, replay, IsOk, IsOk-value, IsOk-of_eq,
}
use boardroom_os.Base.Dict
use boardroom_os.Base.Dict.{Dict, values}
use boardroom_os.Field.{get}
use boardroom_os.Event.{
  EventType, ticket_started, ticket_heartbeat_recorded, Timestamp, seconds, last_instant,
  plus_seconds, plus_seconds_iff, Event,
}
use boardroom_os.Projection.{step, project, rebuild, trace}
use boardroom_os.Projection.Laws.{project-append, get-project}
use boardroom_os.Ticket.State.{Ticket, found_key}
use boardroom_os.Ticket.Changes.{expiry, computed_expiry, computed_heartbeat_expiry}
use boardroom_os.Ticket.{plan, computed_end, ticket_step, rebuild_ticket_projections}

-- A start, and a heartbeat that names no time, have the reducer compute one.
abbrev pub computes_end : EventType → Option Timestamp → Bool
computes_end ticket_started named = true
computes_end ticket_heartbeat_recorded none = true
computes_end _ named = false

-- What the reducer computes for an event on this projection is not past the last instant.
abbrev pub IsInTime : Event → Option Ticket → Type 0
IsInTime e found =
    (timeout : ℕ)
    → computes_end e.event_type (get e.payload.heartbeat_expires_at) ≡ true
    → found_key (λ t. t.heartbeat_timeout_sec) found ≡ some timeout
    → e.occurred_at + timeout * seconds ≤ last_instant

-- So it is for each of these events, on what the events before it give its ticket.
abbrev pub LogIsInTime : (before : List Event) → List Event → Type 0
LogIsInTime before [] = Unit
LogIsInTime before (e ∷ es) =
    IsInTime e (trace plan (get e.payload.ticket_id) none before)
    × LogIsInTime (before ++ e ∷ []) es

-- The value that is written is the one that is computed.
computed_expiry-eq-ok :
    (now : ℕ) (o : Option ℕ) (x : Option Timestamp)
    → computed_expiry now o ≡ ok x
    → x ≡ expiry now o
unfolding computed_expiry
computed_expiry-eq-ok now none x h = ok_inj x none (sym h)
computed_expiry-eq-ok now (some n) x h =
    let (t, summed, last) = >>=-eq-ok (plus_seconds now n) (λ t. ok (some t)) h in
    ok_inj x (some t) (sym last) ∙ ap some ((plus_seconds_iff now n t).0 summed).1

computed_expiry_iff :
    (now : ℕ) (o : Option ℕ)
    → IsOk (computed_expiry now o) ↔ ((n : ℕ) → o ≡ some n → now + n * seconds ≤ last_instant)
unfolding computed_expiry plus_seconds
computed_expiry_iff now none = (λ _. λ n p. absurd (cc), λ _. tt)
computed_expiry_iff now (some n) = (λ h. λ m p. ground arith, λ h. let q = h n refl in ground arith)

computed_heartbeat_expiry_iff :
    (named : Option Timestamp) (now : ℕ) (o : Option ℕ)
    → IsOk (computed_heartbeat_expiry named now o) ↔ (
        (n : ℕ)
        → computes_end ticket_heartbeat_recorded named ≡ true
        → o ≡ some n
        → now + n * seconds ≤ last_instant)
unfolding computed_heartbeat_expiry
computed_heartbeat_expiry_iff (some t) now o = (λ _. λ n differ _. absurd (cc), λ _. tt)
computed_heartbeat_expiry_iff none now o =
    let iff = computed_expiry_iff now o in
    (λ h. λ n _ p. iff.0 h n p, λ h. iff.1 (λ n p. h n refl p))

computed_end_iff :
    (t : EventType) (e : Event) (found : Option Ticket)
    → IsOk (computed_end t e found) ↔ (
        (n : ℕ)
        → computes_end t (get e.payload.heartbeat_expires_at) ≡ true
        → found_key (λ t. t.heartbeat_timeout_sec) found ≡ some n
        → e.occurred_at + n * seconds ≤ last_instant)
unfolding computed_end
computed_end_iff ticket_started e found =
    let iff = computed_expiry_iff e.occurred_at (found_key (λ t. t.heartbeat_timeout_sec) found) in
    (λ h. λ n _ p. iff.0 h n p, λ h. iff.1 (λ n p. h n refl p))
computed_end_iff ticket_heartbeat_recorded e found =
    computed_heartbeat_expiry_iff (get e.payload.heartbeat_expires_at) e.occurred_at
      (found_key (λ t. t.heartbeat_timeout_sec) found)
computed_end_iff _ e found = (λ _. λ n differ _. absurd (cc), λ _. tt)

abbrev Tickets : Type 0
Tickets = Dict (Option String) Ticket

-- What the round computes, on what the projections hold of the event's ticket.
abbrev end_at : Tickets → Event → Result (Option Timestamp)
end_at d e = computed_end e.event_type e (Dict.get (get e.payload.ticket_id) d)

ticket_step-eq-ok :
    (d : Tickets) (e : Event) (s : Tickets)
    → ticket_step d e ≡ ok s
    → (step plan d e ≡ ok s) × IsOk (end_at d e)
unfolding ticket_step
ticket_step-eq-ok d e s h =
    let (next, stepped, h') =
      >>=-eq-ok (step plan d e) (λ (next : Tickets). end_at d e >>= λ end. ok next) h in
    let (end, computed, last) = >>=-eq-ok (end_at d e) (λ end. ok next) h' in
    (rw (← ok_inj next s last) stepped, IsOk-of_eq (end_at d e) end computed)

eq-ok-ticket_step :
    (d : Tickets) (e : Event) (s : Tickets)
    → step plan d e ≡ ok s
    → IsOk (end_at d e)
    → ticket_step d e ≡ ok s
unfolding ticket_step
eq-ok-ticket_step d e s stepped in_time =
    let (end, computed) = IsOk-value (end_at d e) in_time in rw (stepped, computed) refl

project-snoc :
    (read : List Event) (e : Event) (d s : Tickets)
    → project plan read ≡ ok d
    → step plan d e ≡ ok s
    → project plan (read ++ e ∷ []) ≡ ok s
project-snoc read e d s p q =
    project-append plan read (e ∷ []) ∙ (rw p (unfold replay in rw q refl))

-- The projections hold of a ticket what the events that have been read give it.
end_at_iff :
    (read : List Event) (e : Event) (d : Tickets)
    → project plan read ≡ ok d
    → IsOk (end_at d e) ↔ IsInTime e (trace plan (get e.payload.ticket_id) none read)
end_at_iff read e d p =
    rw (← get-project plan (get e.payload.ticket_id) read d p)
      (computed_end_iff e.event_type e (Dict.get (get e.payload.ticket_id) d))

replay-LogIsInTime :
    (read es : List Event) (d s : Tickets)
    → project plan read ≡ ok d
    → replay ticket_step d es ≡ ok s
    → (replay (step plan) d es ≡ ok s) × LogIsInTime read es
unfolding replay
replay-LogIsInTime read [] d s p h = (h, tt)
replay-LogIsInTime read (e ∷ es) d s p h =
    let (next, stepped, h') = >>=-eq-ok (ticket_step d e) (λ t. replay ticket_step t es) h in
    let (plain, computed) = ticket_step-eq-ok d e next stepped in
    let (others, in_time) =
      replay-LogIsInTime (read ++ e ∷ []) es next s (project-snoc read e d next p plain) h' in
    (rw plain others, ((end_at_iff read e d p).0 computed, in_time))

LogIsInTime-replay :
    (read es : List Event) (d s : Tickets)
    → project plan read ≡ ok d
    → replay (step plan) d es ≡ ok s
    → LogIsInTime read es
    → replay ticket_step d es ≡ ok s
unfolding replay
LogIsInTime-replay read [] d s p h in_time = h
LogIsInTime-replay read (e ∷ es) d s p h in_time =
    let (next, stepped, h') = >>=-eq-ok (step plan d e) (λ t. replay (step plan) t es) h in
    rw (eq-ok-ticket_step d e next stepped ((end_at_iff read e d p).1 in_time.0)) (
      LogIsInTime-replay (read ++ e ∷ []) es next s (project-snoc read e d next p stepped) h'
        in_time.1)

none_read : project plan [] ≡ ok []
unfolding project replay
none_read = refl

-- A log is read exactly if the loop of Projection.antt reads it and its times are in time, and the
-- result is the same.
pub rebuild_ticket_projections_iff :
    (events : List Event) (tickets : List Ticket)
    → (rebuild_ticket_projections events ≡ ok tickets)
      ↔ ((rebuild plan events ≡ ok tickets) × LogIsInTime [] events)
unfolding rebuild_ticket_projections rebuild project
rebuild_ticket_projections_iff events tickets = (
  λ h.
      let (d, read, last) =
        >>=-eq-ok (replay ticket_step [] events) (λ (d : Tickets). ok (values d)) h in
      let (plain, in_time) = replay-LogIsInTime [] events [] d none_read read in
      (rw plain last, in_time),
  λ h.
      let (d, read, last) =
        >>=-eq-ok (replay (step plan) [] events) (λ (d : Tickets). ok (values d)) h.0 in
      rw (LogIsInTime-replay [] events [] d none_read read h.1) last,
)

-- Where a log can be read for tickets, it is read as Projection.antt does.
pub rebuild_ticket_projections-plain :
    (events : List Event) (tickets : List Ticket)
    → rebuild_ticket_projections events ≡ ok tickets
    → rebuild plan events ≡ ok tickets
rebuild_ticket_projections-plain events tickets h =
    ((rebuild_ticket_projections_iff events tickets).0 h).0
