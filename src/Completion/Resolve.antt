-- ===== src/Completion/Resolve.antt =====
-- `resolve_workflow_closeout_completion` finds a completion exactly where the workflow is delivered.
use mathlib.Core.List.{Memᴰ}
use mathlib.Core.Option.{some_inj}
use boardroom_os.Base.{
  ℕ, ◌≡◌, refl, ap, ◌||◌, ◌∙◌, ◌≢◌, inl, inr, Bool, true, false, not, Option, none, some, List, [],
  ◌∷◌, arith, Bool-cases, text_eq, nat_eq, if◌then◌else◌,
}
use boardroom_os.Base.Result.{Result, ok, >>=-eq-ok, ok_inj}
use boardroom_os.Base.All.{All, All-weaken, All-Memᴰ, any, any-false→All, All→any-false}
use boardroom_os.Base.Max.{max_by, max_by-Memᴰ, max_by-ge}
use boardroom_os.Completion.Rows.{TicketRow, NodeRow}
use boardroom_os.Completion.Stage.{Specs, workflow_has_evidence}
use boardroom_os.Completion.Delivered.{
  IsCloseout, IsLeftOver, IsDelivered, Sound, closeout_candidates-Sound, closeout_candidates-latest,
  keeps_open-IsLeftOver, IsCloseout-candidate, earlier-le, earlier-ge,
}
use boardroom_os.Completion.Closeout.{
  CloseoutCompletion, Candidate, Terminals, is_active, is_completed, candidate_of, push,
  closeout_candidates, earlier, keeps_open, close_with, close_if, nodes_incomplete,
  resolve_workflow_closeout_completion,
}

nodes_incomplete-false :
    (nodes : List NodeRow)
    → nodes_incomplete nodes ≡ false
    → (nodes ≢ []) × All (λ n. is_completed n.projection.status ≡ true) nodes
unfolding nodes_incomplete
nodes_incomplete-false [] h = cc
nodes_incomplete-false (n ∷ ns) h = (
  λ e. cc,
  All-weaken (λ (m : NodeRow). not (is_completed m.projection.status) ≡ false)
      (λ (m : NodeRow). is_completed m.projection.status ≡ true) (λ m q. ground arith) (n ∷ ns)
      (any-false→All _ (n ∷ ns) h),
)

nodes_incomplete_of_done :
    (nodes : List NodeRow)
    → nodes ≢ []
    → All (λ n. is_completed n.projection.status ≡ true) nodes
    → nodes_incomplete nodes ≡ false
unfolding nodes_incomplete
nodes_incomplete_of_done [] there h = absurd (there refl)
nodes_incomplete_of_done (n ∷ ns) there h = All→any-false _ (n ∷ ns) (
    All-weaken (λ (m : NodeRow). is_completed m.projection.status ≡ true)
      (λ (m : NodeRow). not (is_completed m.projection.status) ≡ false) (λ m q. rw q) (n ∷ ns) h)

module _ (specs : Specs) (terminals : Terminals) (tickets : List TicketRow) (nodes : List NodeRow)
    (there : nodes ≢ []) (done : All (λ n. is_completed n.projection.status ≡ true) nodes) where
  -- The latest candidate, where no ticket keeps the workflow open, is the delivery.
  best-IsDelivered :
      (d : Candidate) (ds : List Candidate)
      → closeout_candidates specs terminals tickets ≡ d ∷ ds
      → any (keeps_open specs (max_by earlier d ds)) tickets ≡ false
      → IsDelivered specs terminals tickets nodes (record {
        closeout_ticket = (max_by earlier d ds).ticket;
        closeout_terminal_event = (max_by earlier d ds).terminal_event;
      })
  best-IsDelivered d ds e quiet =
      let best = max_by earlier d ds in
      let sound =
        All-Memᴰ (Sound specs terminals tickets) best (d ∷ ds)
          (rw e at (closeout_candidates-Sound specs terminals tickets))
          (max_by-Memᴰ earlier d ds) in
      record {
        nodes_there = there;
        nodes_done = done;
        at = best.occurred_at;
        own_ticket = sound.0;
        closeout = sound.1;
        latest =
            closeout_candidates-latest specs terminals best.occurred_at tickets
              (rw e (max_by-ge earlier (λ c. c.occurred_at) earlier-le earlier-ge d ds));
        settled =
            All-weaken (λ t. keeps_open specs best t ≡ false)
              (λ t.
                is_active t.projection.status ≡ true
                → IsLeftOver specs t best.ticket best.occurred_at)
              (keeps_open-IsLeftOver specs best) tickets (any-false→All _ tickets quiet);
      }

  close_with-IsDelivered :
      (cs : List Candidate)
      → closeout_candidates specs terminals tickets ≡ cs
      → (c : CloseoutCompletion) → close_with specs tickets cs ≡ some c
      → IsDelivered specs terminals tickets nodes c
  unfolding close_with
  close_with-IsDelivered [] e c h = absurd (cc)
  close_with-IsDelivered (d ∷ ds) e c h =
      elim (Bool-cases (any (keeps_open specs (max_by earlier d ds)) tickets)) [
        | inl held ↦ absurd (cc (rw held at h))
        | inr quiet ↦ rw (← some_inj.0 (rw quiet at h)) (best-IsDelivered d ds e quiet)
      ]

close_if-some :
    (specs : Specs) (terminals : Terminals) (tickets : List TicketRow) (evidence : Bool)
    (c : CloseoutCompletion)
    → close_if specs terminals tickets evidence ≡ some c
    → (evidence ≡ true)
      × (close_with specs tickets (closeout_candidates specs terminals tickets) ≡ some c)
unfolding close_if
close_if-some specs terminals tickets true c h = (refl, h)
close_if-some specs terminals tickets false c h = absurd (cc)

guards :
    (incomplete approval incident : Bool) (rest : Result (Option CloseoutCompletion))
    (c : CloseoutCompletion)
    → (if incomplete then ok none else if approval || incident then ok none else rest) ≡ ok (some c)
    → (incomplete ≡ false) × (approval ≡ false) × (incident ≡ false) × (rest ≡ ok (some c))
guards false false false rest c h = (refl, refl, refl, h)
guards false false true rest c h = absurd (cc)
guards false true incident rest c h = absurd (cc)
guards true approval incident rest c h = absurd (cc)

-- Where `resolve_workflow_closeout_completion` returns a completion, the workflow has no open
-- approval and no open incident, one of its specs shows a stage of the delivery mainline, it has
-- nodes and all are completed, the completion's ticket is one of its tickets, with a closeout package
-- and a completion event that no other closeout's is later than, and every active ticket is an older
-- copy of it on the same node.
pub resolve_workflow_closeout_completion-IsDelivered :
    (depth : ℕ) (tickets : List TicketRow) (nodes : List NodeRow) (approval incident : Bool)
    (specs : Specs) (terminals : Terminals) (c : CloseoutCompletion)
    → resolve_workflow_closeout_completion depth tickets nodes approval incident specs terminals
      ≡ ok (some c)
    → (approval ≡ false)
      × (incident ≡ false)
      × (workflow_has_evidence depth specs ≡ ok true)
      × IsDelivered specs terminals tickets nodes c
unfolding resolve_workflow_closeout_completion close_if
resolve_workflow_closeout_completion-IsDelivered depth tickets nodes approval incident specs
      terminals c h =
    let (complete, no_approval, no_incident, found) =
      guards (nodes_incomplete nodes) approval incident _ c h in
    let (evidence, shown, closed) = >>=-eq-ok (workflow_has_evidence depth specs) _ found in
    let (shows, chosen) = close_if-some specs terminals tickets evidence c (ok_inj _ _ closed) in
    let (there, done) = nodes_incomplete-false nodes complete in
    (
      no_approval,
      no_incident,
      shown ∙ ap ok shows,
      close_with-IsDelivered specs terminals tickets nodes there done _ refl c chosen,
    )

push-some : (o : Option Candidate) (cs : List Candidate) → cs ≢ [] → push o cs ≢ []
push-some none cs h = h
push-some (some c) cs h = λ e. cc

candidates_there :
    (specs : Specs) (terminals : Terminals) (t : TicketRow) (u : ℕ) (tickets : List TicketRow)
    → Memᴰ t tickets
    → IsCloseout specs terminals t u
    → closeout_candidates specs terminals tickets ≢ []
unfolding closeout_candidates
candidates_there specs terminals t u [] m closeout = elim m [ ]
candidates_there specs terminals t u (s ∷ ss) (Memᴰ.head e) closeout =
    let (c, made, _) = IsCloseout-candidate specs terminals t u closeout in
    λ empty. cc (rw (← e, made) at empty)
candidates_there specs terminals t u (s ∷ ss) (Memᴰ.tail m) closeout =
    push-some (candidate_of specs terminals s) _
      (candidates_there specs terminals t u ss m closeout)

inactive-settled :
    (specs : Specs) (best : Candidate) (s : TicketRow)
    → is_active s.projection.status ≡ false
    → keeps_open specs best s ≡ false
unfolding keeps_open
inactive-settled specs best s h = rw h refl

close_with-some :
    (specs : Specs) (tickets : List TicketRow) (cs : List Candidate)
    → cs ≢ []
    → All (λ s. is_active s.projection.status ≡ false) tickets
    → (c : CloseoutCompletion) × (close_with specs tickets cs ≡ some c)
unfolding close_with
close_with-some specs tickets [] there quiet = absurd (there refl)
close_with-some specs tickets (d ∷ ds) there quiet =
    let best = max_by earlier d ds in
    let settled = All→any-false (keeps_open specs best) tickets (
      All-weaken (λ s. is_active s.projection.status ≡ false) (λ s. keeps_open specs best s ≡ false)
        (inactive-settled specs best) tickets quiet) in
    (
      record { closeout_ticket = best.ticket; closeout_terminal_event = best.terminal_event },
      rw settled refl,
    )

-- A workflow whose nodes are all completed, with no approval and no incident open, the stage of
-- the delivery mainline shown, a ticket that closes it out and no active ticket, has a completion.
pub resolve_workflow_closeout_completion-some :
    (depth : ℕ) (tickets : List TicketRow) (nodes : List NodeRow) (specs : Specs)
    (terminals : Terminals) (t : TicketRow) (u : ℕ)
    → nodes ≢ []
    → All (λ n. is_completed n.projection.status ≡ true) nodes
    → workflow_has_evidence depth specs ≡ ok true
    → Memᴰ t tickets
    → IsCloseout specs terminals t u
    → All (λ s. is_active s.projection.status ≡ false) tickets
    → (c : CloseoutCompletion) × (resolve_workflow_closeout_completion depth tickets nodes false
          false specs terminals
        ≡ ok (some c))
unfolding resolve_workflow_closeout_completion close_if
resolve_workflow_closeout_completion-some depth tickets nodes specs terminals t u there done shown
      member closeout quiet =
    let (c, chosen) =
      close_with-some specs tickets (closeout_candidates specs terminals tickets)
        (candidates_there specs terminals t u tickets member closeout) quiet in
    (c, rw (nodes_incomplete_of_done nodes there done, shown, chosen) refl)
