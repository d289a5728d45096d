-- ===== src/Completion/Delivered.antt =====
-- What it means for a workflow to be delivered, apart from how the code decides it.
use mathlib.Core.List.{Memᴰ}
use mathlib.Core.Option.{some_inj}
use boardroom_os.Base.{
  ℕ, ◌≤◌, ◌≡◌, refl, sym, ◌∙◌, ◌≢◌, inl, inr, true, false, Option, none, some, List, [], ◌∷◌, arith,
  Bool-cases, ◌==◌, text_eq, eq_iff, nat_eq,
}
use boardroom_os.Base.All.{All, All-weaken}
use boardroom_os.Base.Dict.{get}
use boardroom_os.Field.{text}
use boardroom_os.Event.{ticket_completed}
use boardroom_os.Completion.Rows.{TicketRow, NodeRow, TerminalEvent, datetime}
use boardroom_os.Completion.Stage.{Specs, schema_ref}
use boardroom_os.Completion.Closeout.{
  CloseoutCompletion, Candidate, Terminals, delivery_closeout_package, is_active, is_completed,
  id_of, is_redundant, candidate_of, completion_candidate, push, closeout_candidates, earlier,
  keeps_open,
}

-- A ticket with a closeout package as its output, completed at that time.
pub record IsCloseout (specs : Specs) (terminals : Terminals) (t : TicketRow) (at : ℕ)
    : Type 0 where
  pub output : schema_ref (get (id_of t) specs) ≡ delivery_closeout_package
  pub completed :
      get (id_of t) terminals
      ≡ some (some (record { event_type = ticket_completed; occurred_at = at }))

-- An active ticket that may be left behind: an older copy of the closeout ticket, on its node.
pub record IsLeftOver (specs : Specs) (t closeout : TicketRow) (at : ℕ) : Type 0 where
  pub other : id_of t ≢ id_of closeout
  pub same_node : text t.projection.node_id ≡ text closeout.projection.node_id
  pub output : schema_ref (get (id_of t) specs) ≡ delivery_closeout_package
  pub since : (u : ℕ) × (t.updated_at ≡ datetime u) × (u ≤ at)

completion_candidate-completed :
    (t : TicketRow) (o : Option (Option TerminalEvent)) (c : Candidate)
    → completion_candidate t o ≡ some c
    → (c.ticket ≡ t)
      × (o ≡ some (some (record { event_type = ticket_completed; occurred_at = c.occurred_at })))
unfolding completion_candidate
completion_candidate-completed t (some (some event)) c h = ground arith
completion_candidate-completed t _ c h = absurd (cc)

candidate_of-IsCloseout :
    (specs : Specs) (terminals : Terminals) (t : TicketRow) (c : Candidate)
    → candidate_of specs terminals t ≡ some c
    → (c.ticket ≡ t) × IsCloseout specs terminals t c.occurred_at
unfolding candidate_of
candidate_of-IsCloseout specs terminals t c h =
    elim (Bool-cases (schema_ref (get (id_of t) specs) == delivery_closeout_package)) [
      | inl closeout ↦
          let (same, done) =
            completion_candidate-completed t (get (id_of t) terminals) c (rw closeout at h) in
          (same, record { output = (eq_iff _ _).0 closeout; completed = done })
      | inr other ↦ absurd (cc (rw other at h))
    ]

pub keeps_open-IsLeftOver :
    (specs : Specs) (best : Candidate) (t : TicketRow)
    → keeps_open specs best t ≡ false
    → is_active t.projection.status ≡ true
    → IsLeftOver specs t best.ticket best.occurred_at
unfolding keeps_open is_redundant
keeps_open-IsLeftOver specs best t h active = ground (
  arith,
  eq_iff (id_of t) (id_of best.ticket),
  eq_iff (text t.projection.node_id) (text best.ticket.projection.node_id),
  eq_iff (schema_ref (get (id_of t) specs)) delivery_closeout_package,
)

pub record IsDelivered (specs : Specs) (terminals : Terminals) (tickets : List TicketRow)
    (nodes : List NodeRow) (c : CloseoutCompletion) : Type 0 where
  pub nodes_there : nodes ≢ []
  pub nodes_done : All (λ n. is_completed n.projection.status ≡ true) nodes
  pub at : ℕ
  pub own_ticket : Memᴰ c.closeout_ticket tickets
  pub closeout : IsCloseout specs terminals c.closeout_ticket at
  pub latest : All (λ t. (u : ℕ) → IsCloseout specs terminals t u → u ≤ at) tickets
  pub settled :
      All
        (λ t. is_active t.projection.status ≡ true → IsLeftOver specs t c.closeout_ticket at)
        tickets

pub IsCloseout-candidate :
    (specs : Specs) (terminals : Terminals) (t : TicketRow) (u : ℕ)
    → IsCloseout specs terminals t u
    → (c : Candidate) × (candidate_of specs terminals t ≡ some c) × (c.occurred_at ≡ u)
unfolding candidate_of completion_candidate
IsCloseout-candidate specs terminals t u h = (
  record {
    occurred_at = u;
    ticket_id = id_of t;
    ticket = t;
    terminal_event = record { event_type = ticket_completed; occurred_at = u };
  },
  rw ((eq_iff _ _).1 h.output, h.completed) refl,
  refl,
)

module _ (specs : Specs) (terminals : Terminals) where
  -- A candidate is a closeout of one of the tickets.
  abbrev pub Sound : List TicketRow → Candidate → Type 0
  Sound tickets c = Memᴰ c.ticket tickets × IsCloseout specs terminals c.ticket c.occurred_at

  Sound-cons : (t : TicketRow) (ts : List TicketRow) (c : Candidate) → Sound ts c → Sound (t ∷ ts) c
  Sound-cons t ts c h = (Memᴰ.tail h.0, h.1)

  push-Sound :
      (t : TicketRow) (ts : List TicketRow) (o : Option Candidate) (cs : List Candidate)
      → candidate_of specs terminals t ≡ o
      → All (Sound ts) cs
      → All (Sound (t ∷ ts)) (push o cs)
  push-Sound t ts none cs e h = All-weaken (Sound ts) (Sound (t ∷ ts)) (Sound-cons t ts) cs h
  push-Sound t ts (some c) cs e h =
      let (same, closeout) = candidate_of-IsCloseout specs terminals t c e in
      (
        (Memᴰ.head same, rw same closeout),
        All-weaken (Sound ts) (Sound (t ∷ ts)) (Sound-cons t ts) cs h,
      )

  pub closeout_candidates-Sound :
      (tickets : List TicketRow) → All (Sound tickets) (closeout_candidates specs terminals tickets)
  unfolding closeout_candidates
  closeout_candidates-Sound [] = tt
  closeout_candidates-Sound (t ∷ ts) = push-Sound t ts _ _ refl (closeout_candidates-Sound ts)

  -- A number that bounds the times of the candidates bounds the times of the closeouts.
  push-latest :
      (limit : ℕ) (t : TicketRow) (o : Option Candidate) (cs : List Candidate)
      → candidate_of specs terminals t ≡ o
      → All (λ c. c.occurred_at ≤ limit) (push o cs)
      → All (λ c. c.occurred_at ≤ limit) cs × ((u : ℕ) → IsCloseout specs terminals t u → u ≤ limit)
  push-latest limit t none cs e h = (
    h,
    λ u closeout.
        let (c, made, _) = IsCloseout-candidate specs terminals t u closeout in
        absurd (cc (e, made)),
  )
  push-latest limit t (some c) cs e h = (
    h.1,
    λ u closeout.
        let (d, made, time) = IsCloseout-candidate specs terminals t u closeout in
        let same : c ≡ d = some_inj.0 (sym e ∙ made) in rw (← time, ← same) h.0,
  )

  pub closeout_candidates-latest :
      (limit : ℕ) (tickets : List TicketRow)
      → All (λ c. c.occurred_at ≤ limit) (closeout_candidates specs terminals tickets)
      → All (λ t. (u : ℕ) → IsCloseout specs terminals t u → u ≤ limit) tickets
  unfolding closeout_candidates
  closeout_candidates-latest limit [] h = tt
  closeout_candidates-latest limit (t ∷ ts) h =
      let (rest, here) = push-latest limit t _ _ refl h in
      (here, closeout_candidates-latest limit ts rest)

pub earlier-le : (a b : Candidate) → earlier a b ≡ true → a.occurred_at ≤ b.occurred_at
unfolding earlier
earlier-le a b h = ground arith

pub earlier-ge : (a b : Candidate) → earlier a b ≡ false → b.occurred_at ≤ a.occurred_at
unfolding earlier
earlier-ge a b h = ground arith
