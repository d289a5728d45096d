-- ===== src/Handlers/Kept.antt =====
-- What every command keeps, and what it leaves alone.
use boardroom_os.Base.{
  ℕ, ◌+◌, ◌*◌, ◌≤◌, ◌≡◌, ◌≢◌, refl, List, [], ◌∷◌, inl, inr, true, option_eq, text_eq, sym, ◌∙◌,
  subst,
}
use boardroom_os.Base.Result.{Result, ok, raise, >>=-eq-ok}
use boardroom_os.Event.{seconds, last_instant, plus_seconds, plus_seconds_iff}
use boardroom_os.Repository.{known_key, Repository}
use boardroom_os.Repository.Log.{IsFresh, UniqueKeys, IsExtended-refl, IsExtended-trans}
use boardroom_os.Handlers.Workers.{Provider}
use boardroom_os.Handlers.Transaction.{accepted, Ack, Call, duplicate_ack, run_command}
use boardroom_os.Handlers.Lease.{decide_lease, handle_ticket_lease}
use boardroom_os.Handlers.Start.{handle_ticket_start}
use boardroom_os.Handlers.Heartbeat.{handle_ticket_heartbeat}
use boardroom_os.Handlers.Cancel.{handle_ticket_cancel}
use boardroom_os.Handlers.Outcome.{
  Keeps, run_command-Keeps, run_command-known, run_command-seen, run_command-Outcome, Outcome,
}
use boardroom_os.Handlers.Serve.{
  Command, lease, start, heartbeat, cancel, action_of, decide, handle, after_transaction, serve,
}
use boardroom_os.Handlers.Sound.{decide-Answers}

-- If the command is a lease, it ends by the last instant.
abbrev pub EndsInTime : Call → Command → Type 0
EndsInTime c (lease l) = c.received_at + l.lease_timeout_sec * seconds ≤ last_instant
EndsInTime c _ = Unit

-- Every handler is a transaction around its guards, once the end of a lease has been computed.
handle-run_command :
    (depth : ℕ) (providers : List Provider) (c : Call) (x : Command) (r : Repository)
    → EndsInTime c x
    → handle depth providers c x r ≡ run_command depth c (action_of x) (decide providers c x) r
unfolding handle handle_ticket_lease handle_ticket_start handle_ticket_heartbeat
    handle_ticket_cancel decide
handle-run_command depth providers c (lease l) r end =
    rw ((plus_seconds_iff c.received_at l.lease_timeout_sec _).1 (end, refl)) refl
handle-run_command depth providers c (start w) r end = refl
handle-run_command depth providers c (heartbeat w) r end = refl
handle-run_command depth providers c (cancel x) r end = refl

handle-eq-ok :
    (depth : ℕ) (providers : List Provider) (c : Call) (x : Command) (r : Repository)
    (p : Ack × Repository)
    → handle depth providers c x r ≡ ok p
    → run_command depth c (action_of x) (decide providers c x) r ≡ ok p
unfolding handle handle_ticket_lease handle_ticket_start handle_ticket_heartbeat
    handle_ticket_cancel decide
handle-eq-ok depth providers c (lease l) r p h =
    let (end, computed, run) =
      >>=-eq-ok (plus_seconds c.received_at l.lease_timeout_sec)
        (λ end. run_command depth c "ticket-lease" (decide_lease c l) r) h in
    run
handle-eq-ok depth providers c (start w) r p h = h
handle-eq-ok depth providers c (heartbeat w) r p h = h
handle-eq-ok depth providers c (cancel x) r p h = h

module _ (depth : ℕ) (providers : List Provider) where
  pub handle-Outcome :
      (c : Call) (x : Command) (r s : Repository) (ack : Ack)
      → handle depth providers c x r ≡ ok (ack, s)
      → Outcome depth c (decide providers c x) r ack s
  handle-Outcome c x r s ack h =
      run_command-Outcome depth c (action_of x) (decide providers c x) r ack s
        (handle-eq-ok depth providers c x r (ack, s) h)

  -- A command that returns with another answer than ACCEPTED has changed nothing: neither the events
  -- nor the projections.
  pub handle_refused :
      (c : Call) (x : Command) (r s : Repository) (ack : Ack)
      → handle depth providers c x r ≡ ok (ack, s)
      → ack.status ≢ accepted
      → s ≡ r
  handle_refused c x r s ack h other = elim (handle-Outcome c x r s ack h) [
    | inl none' ↦ none'.0
    | inr a ↦ absurd (other a.status)
  ]

  handle-Keeps :
      (c : Call) (x : Command) (r s : Repository) (ack : Ack)
      → handle depth providers c x r ≡ ok (ack, s)
      → Keeps depth r s
  handle-Keeps c x r s ack h =
      run_command-Keeps depth c (action_of x) (decide providers c x) (decide-Answers providers c x)
        r ack s (handle-eq-ok depth providers c x r (ack, s) h)

  after_transaction-Keeps :
      (r : Repository) (m : Result (Ack × Repository))
      → ((ack : Ack) (s : Repository) → m ≡ ok (ack, s) → Keeps depth r s)
      → Keeps depth r (after_transaction r m)
  unfolding after_transaction
  after_transaction-Keeps r (ok (ack, s)) h = h ack s refl
  after_transaction-Keeps r (raise x) h = record { extended = IsExtended-refl r; fresh = λ f. f }

  serve-Keeps :
      (qs : List (Call × Command)) (r : Repository) → Keeps depth r (serve depth providers r qs)
  unfolding serve
  serve-Keeps [] r = record { extended = IsExtended-refl r; fresh = λ f. f }
  serve-Keeps ((c, x) ∷ qs) r =
      let s = after_transaction r (handle depth providers c x r) in
      let first =
        after_transaction-Keeps r (handle depth providers c x r)
          (λ ack t h. handle-Keeps c x r t ack h) in
      let others = serve-Keeps qs s in
      record {
        extended = IsExtended-trans r s (serve depth providers s qs) first.extended others.extended;
        fresh = λ f. others.fresh (first.fresh f);
      }

  -- However many commands are served, and whichever of them are refused or raise: if the projection
  -- tables are what the log gives, and no two events have one idempotency key, both still hold after
  -- them.
  pub serve_consistent :
      (r : Repository) (qs : List (Call × Command))
      → IsFresh depth r
      → UniqueKeys r.rows
      → IsFresh depth (serve depth providers r qs) × UniqueKeys (serve depth providers r qs).rows
  serve_consistent r qs fresh unique =
      let k = serve-Keeps qs r in (k.fresh fresh, k.extended.unique unique)

  -- After a command has been accepted, and after whatever commands come then, any command with its
  -- idempotency key is answered as a duplicate and changes nothing, if it is not a lease that ends
  -- past the end of the year 9999.
  pub serve_again :
      (c d : Call) (x y : Command) (r s : Repository) (ack : Ack) (qs : List (Call × Command))
      → handle depth providers c x r ≡ ok (ack, s)
      → ack.status ≡ accepted
      → d.idempotency_key ≡ c.idempotency_key
      → EndsInTime d y
      → handle depth providers d y (serve depth providers s qs)
        ≡ ok (duplicate_ack d (action_of y), serve depth providers s qs)
  serve_again c d x y r s ack qs h taken same end =
      handle-run_command depth providers d y (serve depth providers s qs) end
      ∙ run_command-seen depth d (action_of y) (decide providers d y) (serve depth providers s qs) (
          subst (λ k. known_key k (serve depth providers s qs).rows ≡ true) (sym same)
            ((serve-Keeps qs s).extended.known c.idempotency_key (
              run_command-known depth c (action_of x) (decide providers c x)
                (decide-Answers providers c x) r ack s
                (handle-eq-ok depth providers c x r (ack, s) h) taken)))
