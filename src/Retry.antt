-- ===== src/Retry.antt =====
-- backend/app/core/ticket_handlers.py: whether a ticket that failed or timed out is tried again, with
-- which timeouts, and after how many failures in a row it is escalated.
pub mod Bounds
pub mod Chain
use boardroom_os.Base.{
  ℕ, zero, suc, ◌+◌, String, Bool, true, false, ◌&&◌, ◌||◌, not, Option, none, some, List, [], ◌∷◌,
  text_eq, option_eq, nat_eq, ◌==◌, ltb, leb, if◌then◌else◌,
}
use boardroom_os.Base.Float.{Float, int_times}
use boardroom_os.Field.{Field, value, get, text}
use boardroom_os.Event.{
  EventType, ticket_failed, ticket_timed_out, EscalationPolicy, Payload, Event,
}
use boardroom_os.Ticket.State.{Ticket}
use boardroom_os.Gates.{elem}
use boardroom_os.Repository.{
  Repository, count, get_latest_ticket_created_payload, get_latest_ticket_terminal_event,
}

-- `created_spec.get("escalation_policy") or {}`
abbrev pub policy_key {ℓ} :
    {A : Type ℓ} → (EscalationPolicy → Option A) → Field EscalationPolicy → Option A
policy_key f (value p) = f p
policy_key f _ = none

-- `int(x or d)`
unfoldable pub nat_or : Option ℕ → ℕ → ℕ
nat_or none d = d
nat_or (some n) d = if n == 0 then d else n

-- `float(x or d)`: zero is replaced.
unfoldable pub float_or : Option Float → Float → Float
float_or none d = d
float_or (some x) d = if x.mantissa == 0 then d else x

-- `_resolve_timeout_repeat_threshold`, `_resolve_repeat_failure_threshold`
unfoldable pub resolve_timeout_repeat_threshold : Payload → ℕ
unfolding nat_or
resolve_timeout_repeat_threshold p =
    nat_or (policy_key (λ e. e.timeout_repeat_threshold) p.escalation_policy) 2

unfoldable pub resolve_repeat_failure_threshold : Payload → ℕ
unfolding nat_or
resolve_repeat_failure_threshold p =
    nat_or (policy_key (λ e. e.repeat_failure_threshold) p.escalation_policy) 2

-- 1.5 and 2.0
unfoldable pub resolve_timeout_backoff_multiplier : Payload → Float
unfolding float_or
resolve_timeout_backoff_multiplier p =
    float_or (policy_key (λ e. e.timeout_backoff_multiplier) p.escalation_policy)
      (record { mantissa = 3; scale = 1 })

unfoldable pub resolve_timeout_backoff_cap_multiplier : Payload → Float
unfolding float_or
resolve_timeout_backoff_cap_multiplier p =
    float_or (policy_key (λ e. e.timeout_backoff_cap_multiplier) p.escalation_policy)
      (record { mantissa = 2; scale = 0 })

unfoldable pub resolve_ticket_lease_timeout_sec : Payload → ℕ
unfolding nat_or
resolve_ticket_lease_timeout_sec p = nat_or (get p.lease_timeout_sec) 600

abbrev pub min : ℕ → ℕ → ℕ
min a b = if ltb b a then b else a

abbrev pub max : ℕ → ℕ → ℕ
max a b = if ltb a b then b else a

unfoldable pub apply_timeout_backoff :
    (current_value root_value : ℕ) (multiplier cap_multiplier : Float) → ℕ
unfolding int_times
apply_timeout_backoff current root multiplier cap =
    max current (min (int_times current multiplier) (int_times root cap))

-- `int(created_spec.get("retry_budget") or current_ticket.get("retry_budget") or 0)`
unfoldable pub retry_budget : Ticket → Payload → ℕ
unfolding nat_or
retry_budget t p = nat_or (get p.retry_budget) (nat_or t.retry_budget 0)

unfoldable pub retry_count : Ticket → Payload → ℕ
unfolding nat_or
retry_count t p = nat_or t.retry_count (nat_or (get p.retry_count) 0)

unfoldable pub should_retry_failure : Ticket → Payload → (failure_kind : String) → Bool
unfolding retry_budget retry_count
should_retry_failure t p kind =
    if leb (retry_budget t p) (retry_count t p)
    then false
    else if kind == "SCHEMA_ERROR"
    then policy_key (λ e. e.on_schema_error) p.escalation_policy == some "retry"
    else ltb (retry_count t p) (retry_budget t p)

unfoldable pub should_retry_timeout : Ticket → Payload → Bool
unfolding retry_budget retry_count
should_retry_timeout t p =
    if leb (retry_budget t p) (retry_count t p)
    then false
    else policy_key (λ e. e.on_timeout) p.escalation_policy == some "retry"

unfoldable pub is_provider_pause_failure : String → Bool
is_provider_pause_failure kind =
    kind == "PROVIDER_RATE_LIMITED"
    || kind == "UPSTREAM_UNAVAILABLE"
    || kind == "FIRST_TOKEN_TIMEOUT"
    || kind == "STREAM_IDLE_TIMEOUT"

unfoldable pub should_escalate_repeat_failure :
    Payload → (failure_kind : String) → (failure_streak_count : ℕ) → Bool
unfolding is_provider_pause_failure resolve_repeat_failure_threshold
should_escalate_repeat_failure p kind streak =
    if is_provider_pause_failure kind
    then false
    else policy_key (λ e. e.on_repeat_failure) p.escalation_policy == some "escalate_ceo"
      && leb (resolve_repeat_failure_threshold p) streak

-- The loop over the parents of a ticket that three functions have: the created specs of the parents,
-- nearest first, as long as `passes` holds of a parent and its spec. None stands for a loop that has
-- not ended.
unfoldable pub climb :
    (fuel : ℕ)
    → (String → Option Payload)
    → (String → Payload → Bool)
    → (seen : List String) → (parent_ticket_id : Option String) → Option (List Payload)
unfolding elem
climb zero lookup passes seen parent = none
climb (suc fuel) lookup passes seen none = some []
climb (suc fuel) lookup passes seen (some p) = elim (p == "" || elem p seen) [
  | true ↦ some []
  | false ↦ elim (lookup p) [
    | none ↦ some []
    | some spec ↦ elim (passes p spec) [
      | false ↦ some []
      | true ↦ elim (climb fuel lookup passes (p ∷ seen) (get spec.parent_ticket_id)) [
        | none ↦ none
        | some specs ↦ some (spec ∷ specs)
      ]
    ]
  ]
]

-- A parent is passed once, so a round for each event of the log and one more are enough.
unfoldable pub ancestors :
    Repository → (String → Payload → Bool) → (created_spec : Payload) → Option (List Payload)
unfolding climb get_latest_ticket_created_payload
ancestors r passes p =
    climb (suc (count r.rows)) (get_latest_ticket_created_payload r) passes []
      (get p.parent_ticket_id)

abbrev pub last_of : Payload → List Payload → Payload
last_of p [] = p
last_of p (q ∷ qs) = last_of q qs

abbrev pub root_of : Payload → Option (List Payload) → Option Payload
root_of p none = none
root_of p (some specs) = some (last_of p specs)

unfoldable pub resolve_timeout_root_created_spec : Repository → Payload → Option Payload
unfolding ancestors
resolve_timeout_root_created_spec r p = root_of p (ancestors r (λ _ _. true) p)

abbrev pub same_node : (workflow node : String) → Payload → Bool
same_node workflow node p = get p.workflow_id == some workflow && get p.node_id == some node

unfoldable pub is_timeout_kind : Option String → Bool
is_timeout_kind kind = kind == some "TIMEOUT_SLA_EXCEEDED" || kind == some "HEARTBEAT_TIMEOUT"

abbrev pub is_timed_out : EventType → Bool
is_timed_out ticket_timed_out = true
is_timed_out _ = false

abbrev pub is_failed : EventType → Bool
is_failed ticket_failed = true
is_failed _ = false

unfoldable pub timed_out_again : Option Event → Bool
unfolding is_timeout_kind
timed_out_again none = false
timed_out_again (some e) = is_timed_out e.event_type && is_timeout_kind (get e.payload.failure_kind)

unfoldable pub failed_again : (failure_fingerprint : String) → Option Event → Bool
unfolding is_provider_pause_failure
failed_again fingerprint none = false
failed_again fingerprint (some e) =
    is_failed e.event_type
    && not (is_provider_pause_failure (text (get e.payload.failure_kind)))
    && get e.payload.failure_fingerprint == some fingerprint

abbrev pub streak_of : Option (List Payload) → Option ℕ
streak_of none = none
streak_of (some specs) = some (suc (count specs))

unfoldable pub calculate_timeout_streak :
    Repository → (workflow_id node_id : String) → Payload → Option ℕ
unfolding ancestors timed_out_again get_latest_ticket_terminal_event
calculate_timeout_streak r workflow node p = streak_of (
    ancestors r
      (λ parent spec.
        same_node workflow node spec && timed_out_again (get_latest_ticket_terminal_event r parent))
      p)

unfoldable pub calculate_failure_streak :
    Repository
    → (workflow_id node_id : String) → Payload
    → (failure_fingerprint : String) → Option ℕ
unfolding ancestors failed_again get_latest_ticket_terminal_event
calculate_failure_streak r workflow node p fingerprint = streak_of (
    ancestors r
      (λ parent spec.
        same_node workflow node spec
        && failed_again fingerprint (get_latest_ticket_terminal_event r parent))
      p)
