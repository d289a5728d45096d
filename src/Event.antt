-- ===== src/Event.antt =====
-- backend/app/core/constants.py and the event records of backend/app/db/repository.py, as
-- backend/app/core/reducer.py reads them: the event types, and the keys of a payload.
use boardroom_os.Base.{
  ℕ, ◌+◌, ◌*◌, ◌≤◌, String, Option, Bool, List, leb, if◌then◌else◌, ◌≡◌, ◌↔◌, arith,
}
use boardroom_os.Base.Result.{Result, ok, raise, overflow_error}
use boardroom_os.Persona.Profiles.{RawSkill, RawPersonality, RawAesthetic}
use boardroom_os.Base.Float.{Float}
use boardroom_os.Spec.{CreatedSpec, created_spec, MakerCheckerContext, no_context}
use boardroom_os.Field.{Field, absent, value, merge_field, get}

-- `EVENT_*`
pub data EventType : Type 0 where
  system_initialized board_directive_received workflow_created : EventType
  ticket_created ticket_leased ticket_started ticket_heartbeat_recorded : EventType
  ticket_cancel_requested ticket_cancelled ticket_completed ticket_failed : EventType
  ticket_timed_out ticket_retry_scheduled : EventType
  artifact_imported artifact_deleted artifact_expired artifact_cleanup_completed : EventType
  scheduler_orchestration_recorded : EventType
  incident_opened incident_recovery_started incident_closed : EventType
  circuit_breaker_opened circuit_breaker_closed : EventType
  board_review_required board_review_approved board_review_rejected : EventType
  meeting_requested meeting_started meeting_round_completed meeting_concluded : EventType
  employee_hired employee_replaced employee_frozen employee_restored : EventType

-- A time as text: what `isoformat` writes for an instant (in microseconds from the start of the
-- year 1, the least time that Python has), or any other text, which
-- `datetime.fromisoformat` rejects.
pub data Timestamp : Type 0 where
  iso : ℕ → Timestamp
  other_text : String → Timestamp

-- `timedelta(seconds=n)`, in microseconds
abbrev pub seconds : ℕ
seconds = 1_000_000

-- `datetime.max`, the end of the year 9999
abbrev pub last_instant : ℕ
last_instant = 315_537_897_599_999_999

-- `t + timedelta(seconds=n)`, and `OverflowError` past the last instant
unfoldable pub plus_seconds : (t n : ℕ) → Result Timestamp
plus_seconds t n =
    let end = t + n * seconds in if leb end last_instant then ok (iso end) else raise overflow_error

pub plus_seconds_iff :
    (t n : ℕ) (x : Timestamp)
    → (plus_seconds t n ≡ ok x) ↔ ((t + n * seconds ≤ last_instant) × (x ≡ iso (t + n * seconds)))
unfolding plus_seconds
plus_seconds_iff t n x = ground arith

-- The key `dispatch_intent` of a created spec.
pub record DispatchIntent : Type 0 where
  pub assignee_employee_id : Field String
  pub dependency_gate_refs : List (Option String)

-- The key `escalation_policy` of a created spec.
pub record EscalationPolicy : Type 0 where
  pub on_timeout : Option String
  pub on_schema_error : Option String
  pub on_repeat_failure : Option String
  pub repeat_failure_threshold : Option ℕ
  pub timeout_repeat_threshold : Option ℕ
  pub timeout_backoff_multiplier : Option Float
  pub timeout_backoff_cap_multiplier : Option Float

-- The key `failure_detail` of a failure, of which `provider_id` is read.
pub record FailureDetail : Type 0 where
  pub provider_id : Option String

-- The keys of a payload that the reducer or the ticket handlers read or write. Each holds a value of its contract's type or null,
-- or is absent.
pub record Payload : Type 0 where
  pub ticket_id : Field String
  pub node_id : Field String
  pub tenant_id : Field String
  pub workspace_id : Field String
  pub retry_count : Field ℕ
  pub retry_budget : Field ℕ
  pub timeout_sla_sec : Field ℕ
  pub priority : Field String
  pub leased_by : Field String
  pub lease_expires_at : Field Timestamp
  pub lease_timeout_sec : Field ℕ
  pub heartbeat_expires_at : Field Timestamp
  pub failure_kind : Field String
  pub failure_message : Field String
  pub failure_fingerprint : Field String
  pub board_review_requested : Field Bool
  pub decision_action : Field String
  pub title : Field String
  pub north_star_goal : Field String
  pub workflow_profile : Field String
  pub budget_cap : Field ℕ
  pub deadline_at : Field Timestamp
  pub incident_id : Field String
  pub provider_id : Field String
  pub incident_type : Field String
  pub status : Field String
  pub severity : Field String
  pub fingerprint : Field String
  pub circuit_breaker_state : Field String
  pub workflow_id : Field String
  pub output_schema_ref : Field String
  pub delivery_stage : Field String
  pub maker_checker_context : Field MakerCheckerContext
  pub parent_ticket_id : Field String
  pub dispatch_intent : Field DispatchIntent
  pub attempt_no : Field ℕ
  pub failure_detail : Field FailureDetail
  pub escalation_policy : Field EscalationPolicy
  pub started_by : Field String
  pub reported_by : Field String
  pub cancelled_by : Field String
  pub failed_by : Field String
  pub reason : Field String
  pub employee_id : Field String
  pub role_type : Field String
  pub state : Field String
  pub board_approved : Field Bool
  pub role_profile_refs : Field (List String)
  pub skill_profile : Field RawSkill
  pub personality_profile : Field RawPersonality
  pub aesthetic_profile : Field RawAesthetic

pub record Event : Type 0 where
  pub event_type : EventType
  pub workflow_id : Option String
  pub occurred_at : ℕ
  pub sequence_no : ℕ
  pub payload : Payload

-- `{}`
abbrev pub empty_payload : Payload
empty_payload = record {
  ticket_id = absent;
  node_id = absent;
  tenant_id = absent;
  workspace_id = absent;
  retry_count = absent;
  retry_budget = absent;
  timeout_sla_sec = absent;
  priority = absent;
  leased_by = absent;
  lease_expires_at = absent;
  lease_timeout_sec = absent;
  heartbeat_expires_at = absent;
  failure_kind = absent;
  failure_message = absent;
  failure_fingerprint = absent;
  board_review_requested = absent;
  decision_action = absent;
  title = absent;
  north_star_goal = absent;
  workflow_profile = absent;
  budget_cap = absent;
  deadline_at = absent;
  incident_id = absent;
  provider_id = absent;
  incident_type = absent;
  status = absent;
  severity = absent;
  fingerprint = absent;
  circuit_breaker_state = absent;
  workflow_id = absent;
  output_schema_ref = absent;
  delivery_stage = absent;
  maker_checker_context = absent;
  parent_ticket_id = absent;
  dispatch_intent = absent;
  attempt_no = absent;
  failure_detail = absent;
  escalation_policy = absent;
  started_by = absent;
  reported_by = absent;
  cancelled_by = absent;
  failed_by = absent;
  reason = absent;
  employee_id = absent;
  role_type = absent;
  state = absent;
  board_approved = absent;
  role_profile_refs = absent;
  skill_profile = absent;
  personality_profile = absent;
  aesthetic_profile = absent;
}

-- `{**old, **new}`
abbrev pub merge : Payload → Payload → Payload
merge old new = record {
  ticket_id = merge_field old.ticket_id new.ticket_id;
  node_id = merge_field old.node_id new.node_id;
  tenant_id = merge_field old.tenant_id new.tenant_id;
  workspace_id = merge_field old.workspace_id new.workspace_id;
  retry_count = merge_field old.retry_count new.retry_count;
  retry_budget = merge_field old.retry_budget new.retry_budget;
  timeout_sla_sec = merge_field old.timeout_sla_sec new.timeout_sla_sec;
  priority = merge_field old.priority new.priority;
  leased_by = merge_field old.leased_by new.leased_by;
  lease_expires_at = merge_field old.lease_expires_at new.lease_expires_at;
  lease_timeout_sec = merge_field old.lease_timeout_sec new.lease_timeout_sec;
  heartbeat_expires_at = merge_field old.heartbeat_expires_at new.heartbeat_expires_at;
  failure_kind = merge_field old.failure_kind new.failure_kind;
  failure_message = merge_field old.failure_message new.failure_message;
  failure_fingerprint = merge_field old.failure_fingerprint new.failure_fingerprint;
  board_review_requested = merge_field old.board_review_requested new.board_review_requested;
  decision_action = merge_field old.decision_action new.decision_action;
  title = merge_field old.title new.title;
  north_star_goal = merge_field old.north_star_goal new.north_star_goal;
  workflow_profile = merge_field old.workflow_profile new.workflow_profile;
  budget_cap = merge_field old.budget_cap new.budget_cap;
  deadline_at = merge_field old.deadline_at new.deadline_at;
  incident_id = merge_field old.incident_id new.incident_id;
  provider_id = merge_field old.provider_id new.provider_id;
  incident_type = merge_field old.incident_type new.incident_type;
  status = merge_field old.status new.status;
  severity = merge_field old.severity new.severity;
  fingerprint = merge_field old.fingerprint new.fingerprint;
  circuit_breaker_state = merge_field old.circuit_breaker_state new.circuit_breaker_state;
  workflow_id = merge_field old.workflow_id new.workflow_id;
  output_schema_ref = merge_field old.output_schema_ref new.output_schema_ref;
  delivery_stage = merge_field old.delivery_stage new.delivery_stage;
  maker_checker_context = merge_field old.maker_checker_context new.maker_checker_context;
  parent_ticket_id = merge_field old.parent_ticket_id new.parent_ticket_id;
  dispatch_intent = merge_field old.dispatch_intent new.dispatch_intent;
  attempt_no = merge_field old.attempt_no new.attempt_no;
  failure_detail = merge_field old.failure_detail new.failure_detail;
  escalation_policy = merge_field old.escalation_policy new.escalation_policy;
  started_by = merge_field old.started_by new.started_by;
  reported_by = merge_field old.reported_by new.reported_by;
  cancelled_by = merge_field old.cancelled_by new.cancelled_by;
  failed_by = merge_field old.failed_by new.failed_by;
  reason = merge_field old.reason new.reason;
  employee_id = merge_field old.employee_id new.employee_id;
  role_type = merge_field old.role_type new.role_type;
  state = merge_field old.state new.state;
  board_approved = merge_field old.board_approved new.board_approved;
  role_profile_refs = merge_field old.role_profile_refs new.role_profile_refs;
  skill_profile = merge_field old.skill_profile new.skill_profile;
  personality_profile = merge_field old.personality_profile new.personality_profile;
  aesthetic_profile = merge_field old.aesthetic_profile new.aesthetic_profile;
}

abbrev pub context_of : Field MakerCheckerContext → MakerCheckerContext
context_of (value c) = c
context_of _ = no_context

-- The payload of a TICKET_CREATED event, as the spec of the ticket.
abbrev pub spec_of : Payload → CreatedSpec
spec_of p =
    created_spec (get p.output_schema_ref) (get p.delivery_stage) (get p.workflow_id)
      (context_of p.maker_checker_context)
