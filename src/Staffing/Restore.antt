-- ===== src/Staffing/Restore.antt =====
-- backend/app/core/staffing_containment.py, `restore_employee_requeued_tickets`: the pending tickets
-- that a freeze of the employee requeued are created anew, and may go to the employee again.
use Prim.Native.String.{◌++◌}
use boardroom_os.Base.{
  ℕ, String, Bool, true, false, not, Option, none, some, List, [], ◌∷◌, ◌==◌, text_eq, map,
  if◌then◌else◌,
}
use boardroom_os.Base.All.{keep}
use boardroom_os.Event.{ticket_created, iso}
use boardroom_os.Field.{text, str}
use boardroom_os.Ticket.State.{TicketStatus, Ticket, pending}
use boardroom_os.Staffing.Dedupe.{dedupe_string_values, member}
use boardroom_os.Staffing.Log.{
  Containment, no_containment, contained, not_a_dict, CreatedPayload, created, Store, insert_event,
  get_latest_ticket_created_payload,
}
use boardroom_os.Staffing.Contain.{router_event}

pub record RestoreRequest : Type 0 where
  pub employee_id : String
  pub occurred_at : ℕ
  pub command_id : String
  pub idempotency_key_base : String

abbrev pub event_employee_frozen : String
event_employee_frozen = "EMPLOYEE_FROZEN"

-- The spec was requeued by a freeze of the employee.
unfoldable pub frozen_for : String → Containment → Bool
frozen_for employee (contained c) =
    if not (text c.employee_id == employee)
    then false
    else text c.action_kind == event_employee_frozen
frozen_for employee no_containment = false
frozen_for employee not_a_dict = false

unfoldable pub readmitted_payload :
    RestoreRequest → (previous : List String) → CreatedPayload → CreatedPayload
unfolding keep
readmitted_payload r previous p = record p {
  excluded_employee_ids = map some (keep (λ x. not (x == r.employee_id)) previous);
  staffing_recovery =
      some (record { employee_id = r.employee_id; restored_at = iso r.occurred_at });
}

-- What a pending ticket with this spec is created anew with, if it is.
unfoldable pub readmit : RestoreRequest → CreatedPayload → Option CreatedPayload
unfolding frozen_for dedupe_string_values member readmitted_payload
readmit r p =
    let previous = dedupe_string_values p.excluded_employee_ids in
    if not (frozen_for r.employee_id p.staffing_containment)
    then none
    else if not (member r.employee_id previous)
    then none
    else some (readmitted_payload r previous p)

abbrev pub write_readmission : RestoreRequest → Ticket → Option CreatedPayload → Store → Store
unfolding insert_event router_event
write_readmission r ticket none s = s
write_readmission r ticket (some p) s =
    insert_event
      (router_event r.command_id r.occurred_at
        (r.idempotency_key_base ++ ":restore-requeue:" ++ str ticket.ticket_id) ticket_created
        ticket (created p))
      s

-- One pass of the loop.
unfoldable pub restore_ticket : RestoreRequest → Ticket → Store → Store
unfolding get_latest_ticket_created_payload readmit
restore_ticket r ticket s = elim (get_latest_ticket_created_payload s (str ticket.ticket_id)) [
  | none ↦ s
  | some p ↦ write_readmission r ticket (readmit r p) s
]

unfoldable pub restore_all : RestoreRequest → List Ticket → Store → Store
unfolding restore_ticket
restore_all r [] s = s
restore_all r (t ∷ ts) s = restore_all r ts (restore_ticket r t s)

abbrev pub is_pending : TicketStatus → Bool
is_pending pending = true
is_pending _ = false

unfoldable pub restore_employee_requeued_tickets :
    RestoreRequest → (tickets : List Ticket) → Store → Store
unfolding restore_all keep
restore_employee_requeued_tickets r tickets s =
    restore_all r (keep (λ t. is_pending t.status) tickets) s
