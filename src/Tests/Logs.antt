-- ===== src/Tests/Logs.antt =====
-- The projections of a small log.

use boardroom_os.Base.{
  ℕ, ◌*◌, ◌≡◌, refl, some, List, [], ◌∷◌, ◌++◌, ◌↔◌, inr, option_eq, text_eq, pair_eq,
}
use boardroom_os.Base.Result.{ok, ok_or, replay}
use boardroom_os.Base.All.{All, keep}
use boardroom_os.Base.Dict
use boardroom_os.Base.Dict.{DistinctIds, put}
use boardroom_os.Projection.{rebuild, project}
use boardroom_os.Ticket
use boardroom_os.Node
use boardroom_os.Incident
use boardroom_os.Workflow.Rows.{nodes_by_workflow}
use boardroom_os.Completion.Closeout.{resolve_workflow_closeout_completion}
use boardroom_os.Completion.CurrentStage.{infer_workflow_current_stage}
use boardroom_os.Field.{value}
use boardroom_os.Event.{
  EventType, ticket_created, ticket_leased, ticket_started, ticket_completed, incident_opened,
  circuit_breaker_closed, workflow_created, Event, Payload, empty_payload,
}
use boardroom_os.Ticket.{rebuild_ticket_projections}
use boardroom_os.Ticket.State.{TicketStatus, Ticket}
use boardroom_os.Ticket.Consistent.{IsConsistent, rebuild_ticket_projections-IsConsistent}
use boardroom_os.Ticket.Stamps.{IsStamped}
use boardroom_os.Ticket.Clock.{LogIsInTime}
use boardroom_os.Ticket.History.{
  HasIds, rebuild_ticket_projections-ok_iff, ticket_of, names_ticket,
  rebuild_ticket_projections-DistinctIds, rebuild_ticket_projections-keep,
  rebuild_ticket_projections_last,
}
use boardroom_os.Node.{Node, NodeStatus, key_of, rebuild_node_projections}
use boardroom_os.Node.Consistent.{FitsReason, rebuild_node_projections-FitsReason}
use boardroom_os.Node.Stamps.{IsStamped as IsNodeStamped}
use boardroom_os.Node.History.{
  node_of, names_node, rebuild_node_projections-DistinctIds, rebuild_node_projections-keep,
  rebuild_node_projections_last,
}
use boardroom_os.Node.Agreement.{shown, node-ticket_agree}
use boardroom_os.Incident.{Incident, rebuild_incident_projections}
use boardroom_os.Incident.History.{rebuild_incident_projections-IsOk}
use boardroom_os.Incident.Status.{incident_of, rebuild_incident_projections_last}
use boardroom_os.Workflow.{rebuild_workflow_projections}
use boardroom_os.Workflow.Loop.{Workflow}
use boardroom_os.Workflow.Outcome.{IsSettled, rebuild_workflow_projections-IsSettled}

abbrev about_ticket : Payload
about_ticket = record empty_payload { ticket_id = value "tkt_1"; node_id = value "node_1" }

abbrev event : EventType → ℕ → Payload → Event
event t n p = record {
  event_type = t;
  workflow_id = some "wf_1";
  occurred_at = n * 1000;
  sequence_no = n;
  payload = p;
}

abbrev before : List Event
before =
    event workflow_created 1
      (record empty_payload { north_star_goal = value "ship"; budget_cap = value 10 })
    ∷ event ticket_created 2 about_ticket
    ∷ event ticket_leased 3 (record about_ticket { leased_by = value "emp_1" })
    ∷ event ticket_started 4 about_ticket
    ∷ []

abbrev done : Event
done = event ticket_completed 5 about_ticket

-- An event about another ticket.
abbrev after : List Event
after =
    event ticket_created 6
      (record empty_payload { ticket_id = value "tkt_2"; node_id = value "node_2" })
    ∷ []

abbrev log : List Event
log = before ++ done ∷ after

abbrev tickets : List Ticket
tickets = ok_or [] (rebuild_ticket_projections log)

abbrev nodes : List Node
nodes = ok_or [] (rebuild_node_projections log)

abbrev workflows : List Workflow
workflows = ok_or [] (rebuild_workflow_projections 10 log)

tickets_read : rebuild_ticket_projections log ≡ ok tickets
unfolding rebuild_ticket_projections rebuild project replay Ticket.plan put
tickets_read = refl

nodes_read : rebuild_node_projections log ≡ ok nodes
unfolding rebuild_node_projections rebuild project replay Node.plan
nodes_read = refl

workflows_read : rebuild_workflow_projections 10 log ≡ ok workflows
unfolding rebuild_workflow_projections Dict.get put rebuild_ticket_projections rebuild project
    Ticket.plan rebuild_node_projections Node.plan rebuild_incident_projections Incident.plan
    resolve_workflow_closeout_completion nodes_by_workflow infer_workflow_current_stage keep
workflows_read = refl

rebuild_ticket_projections-IsConsistent_example : All IsConsistent tickets
rebuild_ticket_projections-IsConsistent_example =
    rebuild_ticket_projections-IsConsistent log tickets tickets_read

rebuild_ticket_projections-ok_iff_example :
    ((ts : List Ticket) × (rebuild_ticket_projections log ≡ ok ts))
    ↔ (All HasIds log × LogIsInTime [] log)
rebuild_ticket_projections-ok_iff_example = rebuild_ticket_projections-ok_iff log

rebuild_ticket_projections-DistinctIds_example : DistinctIds (λ t. t.ticket_id) tickets
rebuild_ticket_projections-DistinctIds_example =
    rebuild_ticket_projections-DistinctIds log tickets tickets_read

rebuild_ticket_projections-keep_example :
    (own : List Ticket) × (rebuild_ticket_projections (keep (names_ticket (some "tkt_1")) log)
      ≡ ok own)
    × (ticket_of (some "tkt_1") own ≡ ticket_of (some "tkt_1") tickets)
rebuild_ticket_projections-keep_example =
    rebuild_ticket_projections-keep (some "tkt_1") log tickets tickets_read

rebuild_ticket_projections_last_example :
    (t : Ticket) × (ticket_of (some "tkt_1") tickets ≡ some t)
    × IsStamped done TicketStatus.completed t
rebuild_ticket_projections_last_example =
    rebuild_ticket_projections_last before after done "tkt_1" "node_1" TicketStatus.completed
      tickets refl refl refl (refl, tt) tickets_read

rebuild_node_projections-FitsReason_example :
    All (λ n. FitsReason n.status n.blocking_reason_code) nodes
rebuild_node_projections-FitsReason_example =
    rebuild_node_projections-FitsReason log nodes nodes_read

rebuild_node_projections-DistinctIds_example : DistinctIds key_of nodes
rebuild_node_projections-DistinctIds_example =
    rebuild_node_projections-DistinctIds log nodes nodes_read

rebuild_node_projections-keep_example :
    (own : List Node) × (rebuild_node_projections
        (keep (names_node (some "wf_1", some "node_1")) log)
      ≡ ok own)
    × (node_of (some "wf_1", some "node_1") own ≡ node_of (some "wf_1", some "node_1") nodes)
rebuild_node_projections-keep_example =
    rebuild_node_projections-keep (some "wf_1", some "node_1") log nodes nodes_read

rebuild_node_projections_last_example :
    (m : Node) × (node_of (some "wf_1", some "node_1") nodes ≡ some m)
    × IsNodeStamped done NodeStatus.completed m
rebuild_node_projections_last_example =
    rebuild_node_projections_last before after done "wf_1" "tkt_1" "node_1" NodeStatus.completed
      nodes refl refl refl refl (refl, tt) nodes_read

node-ticket_agree_example :
    (t : Ticket) × (m : Node) × (ticket_of (some "tkt_1") tickets ≡ some t)
    × (node_of (some "wf_1", some "node_1") nodes ≡ some m)
    × (m.status ≡ shown t.status)
    × (m.latest_ticket_id ≡ some "tkt_1")
    × (t.node_id ≡ some "node_1")
    × (m.version ≡ t.version)
    × (m.updated_at ≡ t.updated_at)
node-ticket_agree_example =
    node-ticket_agree before after done "wf_1" "tkt_1" "node_1" NodeStatus.completed tickets nodes
      refl refl refl refl (refl, tt) (refl, tt) tickets_read nodes_read

abbrev opened : Event
opened = event incident_opened 7 (record empty_payload { incident_id = value "inc_1" })

-- The breaker of the incident is closed, and the incident stays open.
abbrev breaker_closed : List Event
breaker_closed =
    event circuit_breaker_closed 8 (record empty_payload { incident_id = value "inc_1" }) ∷ []

abbrev incident_log : List Event
incident_log = log ++ opened ∷ breaker_closed

abbrev incidents : List Incident
incidents = ok_or [] (rebuild_incident_projections incident_log)

incidents_read : rebuild_incident_projections incident_log ≡ ok incidents
unfolding rebuild_incident_projections rebuild project replay Incident.plan
incidents_read = refl

rebuild_incident_projections-IsOk_example :
    (is : List Incident) × (rebuild_incident_projections incident_log ≡ ok is)
rebuild_incident_projections-IsOk_example = rebuild_incident_projections-IsOk incident_log

rebuild_incident_projections_last_example :
    (n : Incident) × (incident_of "inc_1" incidents ≡ some n) × (n.status ≡ some "OPEN")
rebuild_incident_projections_last_example =
    rebuild_incident_projections_last log breaker_closed opened "inc_1" "OPEN" incidents refl refl
      (inr refl, tt) incidents_read

rebuild_workflow_projections-IsSettled_example : All IsSettled workflows
rebuild_workflow_projections-IsSettled_example =
    rebuild_workflow_projections-IsSettled 10 log workflows workflows_read
