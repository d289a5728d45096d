-- ===== src/Gates/Ready.antt =====
-- What the answer of `_evaluate_dispatch_dependency_gates` (backend/app/core/ticket_handlers.py) says
-- of the gates.
use boardroom_os.Base.{
  String, ◌≡◌, refl, ap, sym, ◌↔◌, ◌⊎◌, inl, inr, arith, Bool, true, false, not, Option, none, some,
  List, [], ◌∷◌, if◌then◌else◌,
}
use mathlib.Core.List.{Memᴰ}
use boardroom_os.Base.All.{All}
use boardroom_os.Base.Result.{Result, ok, >>=-eq-ok, ok_inj}
use boardroom_os.Event.{Payload}
use boardroom_os.Ticket.State.{TicketStatus, completed, failed, timed_out, cancelled, Ticket}
use boardroom_os.Repository.{Repository, get_current_ticket_projection}
use boardroom_os.Gates.Dispatch.{
  GateFailure, gate_missing, gate_unhealthy, is_terminal_failure, is_completed, gate_round,
  evaluate_gates, evaluate_dispatch_dependency_gates,
}
use boardroom_os.Gates.{resolve_dependency_gate_refs}

-- The tables have the gate's ticket, and it is COMPLETED.
abbrev pub IsCompletedGate : Repository → (gate : String) → Type 0
IsCompletedGate r gate =
    (t : Ticket) × (get_current_ticket_projection r gate ≡ ok (some t)) × (t.status ≡ completed)

abbrev Opens : Result (Bool × Option GateFailure) → Type 0
Opens m = m ≡ ok (true, none)

closed {ℓ} : {C : Type ℓ} (f : Option GateFailure) → Opens (ok (false, f)) → C
closed f h =
    let differ : false ≡ true =
      ap (λ (p : Bool × Option GateFailure). p.0) (ok_inj (false, f) (true, none) h) in
    absurd (cc)

-- A round on a ticket with this status.
abbrev status_round :
    TicketStatus
    → (gate : String) → Result (Bool × Option GateFailure)
    → Result (Bool × Option GateFailure)
status_round s gate rest =
    if is_terminal_failure s
    then ok (false, some (gate_unhealthy gate s))
    else if not (is_completed s)
    then ok (false, none)
    else rest

gate_round-completed :
    (s : TicketStatus) (gate : String) (rest : Result (Bool × Option GateFailure))
    → Opens (status_round s gate rest)
    → (s ≡ completed) × Opens rest
gate_round-completed completed gate rest h = (refl, h)
gate_round-completed failed gate rest h = closed _ h
gate_round-completed timed_out gate rest h = closed _ h
gate_round-completed cancelled gate rest h = closed _ h
gate_round-completed _ gate rest h = closed none h

gate_round-Opens :
    (r : Repository) (gate : String) (o : Option Ticket) (rest : Result (Bool × Option GateFailure))
    → get_current_ticket_projection r gate ≡ ok o
    → Opens (gate_round gate o rest)
    → IsCompletedGate r gate × Opens rest
unfolding gate_round
gate_round-Opens r gate none rest found h = closed _ h
gate_round-Opens r gate (some t) rest found h =
    let (done, further) = gate_round-completed t.status gate rest h in ((t, found, done), further)

evaluate_gates-All :
    (r : Repository) (gates : List String)
    → Opens (evaluate_gates r gates)
    → All (IsCompletedGate r) gates
unfolding evaluate_gates
evaluate_gates-All r [] h = tt
evaluate_gates-All r (gate ∷ gates) h =
    let (o, found, opens) =
      >>=-eq-ok (get_current_ticket_projection r gate)
        (λ o. gate_round gate o (evaluate_gates r gates)) h in
    let (done, further) = gate_round-Opens r gate o (evaluate_gates r gates) found opens in
    (done, evaluate_gates-All r gates further)

All-evaluate_gates :
    (r : Repository) (gates : List String)
    → All (IsCompletedGate r) gates
    → Opens (evaluate_gates r gates)
unfolding evaluate_gates gate_round
All-evaluate_gates r [] h = refl
All-evaluate_gates r (gate ∷ gates) ((t, found, done), further) =
    rw (found, done) (All-evaluate_gates r gates further)

-- `_evaluate_dispatch_dependency_gates` answers that the gates are ready, with no failure, exactly if
-- the tables have the ticket of every gate of the spec, and each is COMPLETED.
pub evaluate_dispatch_dependency_gates_iff :
    (r : Repository) (spec : Payload)
    → (evaluate_dispatch_dependency_gates r spec ≡ ok (true, none))
      ↔ All (IsCompletedGate r) (resolve_dependency_gate_refs spec)
unfolding evaluate_dispatch_dependency_gates
evaluate_dispatch_dependency_gates_iff r spec =
    let gates = resolve_dependency_gate_refs spec in
    (evaluate_gates-All r gates, All-evaluate_gates r gates)

abbrev pub gate_of : GateFailure → String
gate_of (gate_missing gate) = gate
gate_of (gate_unhealthy gate s) = gate

-- What the failure says of the gate's ticket is so.
abbrev pub IsBroken : Repository → GateFailure → Type 0
IsBroken r (gate_missing gate) = get_current_ticket_projection r gate ≡ ok none
IsBroken r (gate_unhealthy gate s) =
    (t : Ticket) × (get_current_ticket_projection r gate ≡ ok (some t))
    × (t.status ≡ s)
    × (is_terminal_failure s ≡ true)

abbrev Fails : Result (Bool × Option GateFailure) → Bool → GateFailure → Type 0
Fails m b f = m ≡ ok (b, some f)

Fails-inj : (b : Bool) (f g : GateFailure) → Fails (ok (false, some g)) b f → (b ≡ false) × (g ≡ f)
Fails-inj b f g h = (ground arith, ground arith)

module _ (r : Repository) (b : Bool) (f : GateFailure) where
  -- The failure is about this gate.
  abbrev IsAbout : String → Type 0
  IsAbout gate = (b ≡ false) × (gate_of f ≡ gate) × IsBroken r f

  IsAbout-unhealthy :
      (gate : String) (t : Ticket) (s : TicketStatus)
      → get_current_ticket_projection r gate ≡ ok (some t)
      → t.status ≡ s
      → is_terminal_failure s ≡ true
      → Fails (ok (false, some (gate_unhealthy gate s))) b f
      → IsAbout gate
  IsAbout-unhealthy gate t s found status terminal h =
      let (shut, same) = Fails-inj b f (gate_unhealthy gate s) h in
      (shut, ap gate_of (sym same), rw (← same) (t, found, status, terminal))

  status_round-Fails :
      (gate : String) (t : Ticket) (rest : Result (Bool × Option GateFailure)) (s : TicketStatus)
      → get_current_ticket_projection r gate ≡ ok (some t)
      → t.status ≡ s
      → Fails (status_round s gate rest) b f
      → IsAbout gate ⊎ Fails rest b f
  status_round-Fails gate t rest completed found status h = inr h
  status_round-Fails gate t rest failed found status h =
      inl (IsAbout-unhealthy gate t failed found status refl h)
  status_round-Fails gate t rest timed_out found status h =
      inl (IsAbout-unhealthy gate t timed_out found status refl h)
  status_round-Fails gate t rest cancelled found status h =
      inl (IsAbout-unhealthy gate t cancelled found status refl h)
  status_round-Fails gate t rest _ found status h = ground arith

  gate_round-Fails :
      (gate : String) (o : Option Ticket) (rest : Result (Bool × Option GateFailure))
      → get_current_ticket_projection r gate ≡ ok o
      → Fails (gate_round gate o rest) b f
      → IsAbout gate ⊎ Fails rest b f
  unfolding gate_round
  gate_round-Fails gate none rest found h =
      let (shut, same) = Fails-inj b f (gate_missing gate) h in
      inl (shut, ap gate_of (sym same), rw (← same) found)
  gate_round-Fails gate (some t) rest found h = status_round-Fails gate t rest t.status found refl h

  evaluate_gates-Fails :
      (gates : List String)
      → Fails (evaluate_gates r gates) b f
      → (b ≡ false) × Memᴰ (gate_of f) gates × IsBroken r f
  unfolding evaluate_gates
  evaluate_gates-Fails [] h = ground arith
  evaluate_gates-Fails (gate ∷ gates) h =
      let (o, found, fails) =
        >>=-eq-ok (get_current_ticket_projection r gate)
          (λ o. gate_round gate o (evaluate_gates r gates)) h in
      elim (gate_round-Fails gate o (evaluate_gates r gates) found fails) [
        | inl (shut, same, broken) ↦ (shut, Memᴰ.head same, broken)
        | inr later ↦
            let (shut, there, broken) = evaluate_gates-Fails gates later in
            (shut, Memᴰ.tail there, broken)
      ]

  -- If `_evaluate_dispatch_dependency_gates` gives a failure, the gates are not ready, and the
  -- failure names a gate of the spec whose ticket the tables do not have, or have with the status
  -- that the failure names, which is FAILED, TIMED_OUT or CANCELLED.
  pub evaluate_dispatch_dependency_gates-IsBroken :
      (spec : Payload)
      → evaluate_dispatch_dependency_gates r spec ≡ ok (b, some f)
      → (b ≡ false) × Memᴰ (gate_of f) (resolve_dependency_gate_refs spec) × IsBroken r f
  unfolding evaluate_dispatch_dependency_gates
  evaluate_dispatch_dependency_gates-IsBroken spec h =
      evaluate_gates-Fails (resolve_dependency_gate_refs spec) h
