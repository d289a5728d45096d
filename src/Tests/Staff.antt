-- ===== src/Tests/Staff.antt =====
-- An employee that holds a leased and an executing ticket is frozen, and restored.
use boardroom_os.Base.{
  ℕ, String, ◌≡◌, refl, not, ◌&&◌, ◌||◌, none, some, List, [], ◌∷◌, ◌==◌, text_eq,
}
use boardroom_os.Base.Text.{strip}
use boardroom_os.Field.{value}
use boardroom_os.Event.{iso, ticket_created, empty_payload}
use boardroom_os.Ticket.State.{Ticket, TicketStatus}
use boardroom_os.Staffing.Dedupe.{dedupe_string_values, NoRepeats, member, given}
use boardroom_os.Staffing.Log.{CreatedPayload, no_containment, created, Store, StoredEvent}
use boardroom_os.Staffing.Contain.{Request, requeued_payload, contain_employee_active_tickets}
use boardroom_os.Staffing.Restore.{RestoreRequest, readmit}
use boardroom_os.Staffing.Excluded.{
  excluded, dedupe_string_values-NoRepeats, requeued_payload-excluded, readmit-requeued_payload,
}
use boardroom_os.Staffing.Written.{Extends, OnBehalf, contain_employee_active_tickets-Extends}

abbrev freeze : Request
freeze = record {
  employee_id = "emp_1";
  action_kind = "EMPLOYEE_FROZEN";
  reason = "incident";
  replacement_employee_id = none;
  occurred_at = 9000;
  command_id = "cmd_1";
  idempotency_key_base = "freeze_1";
}

abbrev restore : RestoreRequest
restore = record {
  employee_id = "emp_1";
  occurred_at = 12000;
  command_id = "cmd_2";
  idempotency_key_base = "restore_1";
}

abbrev spec : CreatedPayload
spec = record {
  excluded_employee_ids = some "emp_2" ∷ none ∷ some " emp_2 " ∷ [];
  staffing_containment = no_containment;
  staffing_recovery = none;
  others = record empty_payload { ticket_id = value "tkt_1"; node_id = value "node_1" };
}

abbrev pub ticket : String → TicketStatus → Ticket
ticket id s = record {
  base = record {
    ticket_id = some id;
    workflow_id = some "wf_1";
    node_id = some "node_1";
    tenant_id = none;
    workspace_id = none;
    lease_owner = some "emp_1";
    lease_expires_at = none;
    started_at = none;
    last_heartbeat_at = none;
    heartbeat_expires_at = none;
    heartbeat_timeout_sec = none;
    retry_count = some 0;
    retry_budget = none;
    timeout_sla_sec = none;
    priority = none;
    last_failure_kind = none;
    last_failure_message = none;
    last_failure_fingerprint = none;
    blocking_reason_code = none;
  };
  status = s;
  updated_at = iso 8000;
  version = 3;
}

abbrev table : List Ticket
table = ticket "tkt_1" TicketStatus.leased ∷ ticket "tkt_2" TicketStatus.executing ∷ []

abbrev store : Store
store = record {
  events =
      record {
        event_type = ticket_created;
        actor_type = "system";
        actor_id = "workflow";
        workflow_id = some "wf_1";
        idempotency_key = "create_1";
        causation_id = none;
        correlation_id = none;
        payload = created spec;
        occurred_at = 1000;
      }
      ∷ [];
  drawn = 0;
}

abbrev new_prefixed_id : String → ℕ → String
new_prefixed_id prefix n = prefix

trimmed : strip "emp_1" ≡ "emp_1"
unfolding strip
trimmed = refl

excluded_before : dedupe_string_values spec.excluded_employee_ids ≡ "emp_2" ∷ []
unfolding dedupe_string_values
excluded_before = refl

abbrev written : List StoredEvent → List String
written [] = []
written (e ∷ es) = e.idempotency_key ∷ written es

-- The rows after the freeze, the last first.
contained_rows :
    written (contain_employee_active_tickets new_prefixed_id freeze table store).events
    ≡ "freeze_1:breaker-opened:tkt_2" ∷ "freeze_1:incident-opened:tkt_2"
      ∷ "freeze_1:cancel-requested:tkt_2" ∷ "freeze_1:requeue:tkt_1" ∷ "create_1" ∷ []
unfolding contain_employee_active_tickets
contained_rows = refl

dedupe_string_values-NoRepeats_example :
    NoRepeats (dedupe_string_values spec.excluded_employee_ids)
    × ((x : String)
        → member x (dedupe_string_values spec.excluded_employee_ids)
          ≡ (not (x == "") && given x spec.excluded_employee_ids))
dedupe_string_values-NoRepeats_example = dedupe_string_values-NoRepeats spec.excluded_employee_ids

requeued_payload-excluded_example :
    excluded "emp_2" (requeued_payload freeze spec)
    ≡ (excluded "emp_2" spec || freeze.employee_id == "emp_2")
requeued_payload-excluded_example = requeued_payload-excluded freeze spec "emp_2" trimmed (λ e. cc)

readmit-requeued_payload_example :
    (p' : CreatedPayload) × (readmit restore (requeued_payload freeze spec) ≡ some p')
    × ((x : String) → excluded x p' ≡ (excluded x spec && not (x == "emp_1")))
readmit-requeued_payload_example =
    readmit-requeued_payload freeze restore spec refl refl trimmed (λ e. cc)

contain_employee_active_tickets-Extends_example :
    Extends
      (OnBehalf freeze table)
      store.events
      (contain_employee_active_tickets new_prefixed_id freeze table store).events
contain_employee_active_tickets-Extends_example =
    contain_employee_active_tickets-Extends new_prefixed_id freeze table store
