-- ===== src/Tests/Closeout.antt =====
-- A workflow with a source delivery and a closeout package, both completed.
use mathlib.Core.List.{Memᴰ}
use boardroom_os.Base.{
  option_eq, text_eq, ltb, String, ◌≡◌, refl, true, false, none, some, List, [], ◌∷◌,
}
use boardroom_os.Base.Result.{ok}
use boardroom_os.Base.Dict.{get, get_or, put}
use boardroom_os.Spec.{created_spec, no_context}
use boardroom_os.Event.{iso, ticket_completed}
use boardroom_os.Ticket.State.{TicketStatus}
use boardroom_os.Base.All.{All, keep}
use boardroom_os.Field.{str}
use boardroom_os.Node.{Node, NodeStatus}
use boardroom_os.Completion.CurrentStage.{infer_workflow_current_stage}
use boardroom_os.Workflow.{Context, finish}
use boardroom_os.Workflow.Loop.{Workflow}
use boardroom_os.Workflow.Rows.{nodes_by_workflow}
use boardroom_os.Workflow.Completed.{finish-completed}
use boardroom_os.Completion.Rows.{TicketRow, NodeRow, datetime}
use boardroom_os.Completion.Stage.{Specs, workflow_has_evidence}
use boardroom_os.Completion.Closeout.{
  CloseoutCompletion, Terminals, resolve_workflow_closeout_completion,
}
use boardroom_os.Completion.Delivered.{IsCloseout, IsDelivered}
use boardroom_os.Completion.Resolve.{
  resolve_workflow_closeout_completion-IsDelivered, resolve_workflow_closeout_completion-some,
}
use boardroom_os.Tests.Staff.{ticket}

abbrev row : String → TicketRow
row id = record {
  projection = ticket id TicketStatus.completed;
  lease_expires_at = none;
  started_at = none;
  last_heartbeat_at = none;
  heartbeat_expires_at = none;
  updated_at = datetime 5000;
}

abbrev tickets : List TicketRow
tickets = row "tkt_1" ∷ row "tkt_2" ∷ []

abbrev done_node : Node
done_node = record {
  base = record {
    workflow_id = some "wf_1";
    node_id = some "node_1";
    latest_ticket_id = some "tkt_2";
    blocking_reason_code = none;
  };
  status = NodeStatus.completed;
  updated_at = iso 5000;
  version = 7;
}

abbrev nodes : List NodeRow
nodes = record { projection = done_node; updated_at = datetime 5000 } ∷ []

abbrev specs : Specs
specs =
    ("tkt_1", created_spec (some "source_code_delivery") none none no_context)
    ∷ ("tkt_2", created_spec (some "delivery_closeout_package") none none no_context)
    ∷ []

abbrev terminals : Terminals
terminals =
    ("tkt_1", some (record { event_type = ticket_completed; occurred_at = 3000 }))
    ∷ ("tkt_2", some (record { event_type = ticket_completed; occurred_at = 4000 }))
    ∷ []

abbrev completion : CloseoutCompletion
completion = record {
  closeout_ticket = row "tkt_2";
  closeout_terminal_event = record { event_type = ticket_completed; occurred_at = 4000 };
}

completed_by :
    resolve_workflow_closeout_completion 2 tickets nodes false false specs terminals
    ≡ ok (some completion)
unfolding resolve_workflow_closeout_completion get
completed_by = refl

-- With an approval open there is no completion.
held_by_approval :
    resolve_workflow_closeout_completion 2 tickets nodes true false specs terminals ≡ ok none
unfolding resolve_workflow_closeout_completion get
held_by_approval = refl

shown : workflow_has_evidence 2 specs ≡ ok true
unfolding workflow_has_evidence
shown = refl

resolve_workflow_closeout_completion-IsDelivered_example :
    (false ≡ false)
    × (false ≡ false)
    × (workflow_has_evidence 2 specs ≡ ok true)
    × IsDelivered specs terminals tickets nodes completion
resolve_workflow_closeout_completion-IsDelivered_example =
    resolve_workflow_closeout_completion-IsDelivered 2 tickets nodes false false specs terminals
      completion completed_by

second-IsCloseout : IsCloseout specs terminals (row "tkt_2") 4000
unfolding get
second-IsCloseout = record { output = refl; completed = refl }

resolve_workflow_closeout_completion-some_example :
    (c : CloseoutCompletion) × (resolve_workflow_closeout_completion 2 tickets nodes false false
        specs terminals
      ≡ ok (some c))
resolve_workflow_closeout_completion-some_example =
    resolve_workflow_closeout_completion-some 2 tickets nodes specs terminals (row "tkt_2") 4000
      (λ e. cc) (refl, tt) shown (Memᴰ.tail (Memᴰ.head refl)) second-IsCloseout (refl, (refl, tt))

abbrev node_table : List Node
node_table = done_node ∷ []

abbrev context : Context
context = record {
  tickets = ("wf_1", tickets) ∷ [];
  nodes = nodes_by_workflow node_table;
  specs = specs;
  open_approvals = (some "wf_1", 0) ∷ [];
  open_incidents = [];
  terminals =
      ("tkt_1", record { event_type = ticket_completed; occurred_at = 3000 })
      ∷ ("tkt_2", record { event_type = ticket_completed; occurred_at = 4000 })
      ∷ [];
}

abbrev workflow : (status stage : String) → Workflow
workflow status stage = record {
  workflow_id = some "wf_1";
  title = some "ship";
  north_star_goal = some "ship";
  workflow_profile = some "STANDARD";
  tenant_id = none;
  workspace_id = none;
  current_stage = stage;
  status = status;
  budget_total = some 10;
  budget_used = 0;
  board_gate_state = "UNREQUESTED";
  deadline_at = none;
  started_at = iso 1000;
  updated_at = iso 5000;
  version = 7;
}

closed_out :
    finish 2 context (some "wf_1") (workflow "EXECUTING" "project_init")
    ≡ ok (workflow "COMPLETED" "closeout")
unfolding finish nodes_by_workflow get resolve_workflow_closeout_completion put keep
    infer_workflow_current_stage
closed_out = refl

finish-completed_example :
    (ltb 0 (get_or (some "wf_1") 0 context.open_approvals) ≡ false)
    × All (λ n. str n.workflow_id ≡ "wf_1" → n.status ≡ NodeStatus.completed) node_table
finish-completed_example =
    finish-completed 2 context node_table "wf_1" (workflow "EXECUTING" "project_init")
      (workflow "COMPLETED" "closeout") refl closed_out refl
