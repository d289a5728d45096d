-- ===== src/Workflow.antt =====
-- backend/app/core/reducer.py, `rebuild_workflow_projections`: the workflows, with the status and the
-- stage that follow from the other projections of the same log.
pub mod Loop
pub mod Rows
pub mod Outcome
pub mod Completed
use boardroom_os.Base.{
  ℕ, String, Bool, Option, none, some, List, [], ◌∷◌, map, ◌==◌, text_eq, option_eq, if◌then◌else◌,
  ltb,
}
use boardroom_os.Base.Result.{Result, ok, ◌>>=◌}
use boardroom_os.Base.All.{keep}
use boardroom_os.Base.Dict.{Dict, get, put, get_or}
use boardroom_os.Field.{or_else, str, text}
use boardroom_os.Spec.{CreatedSpec, spec_workflow_id}
use boardroom_os.Event.{Event}
use boardroom_os.Ticket.{rebuild_ticket_projections}
use boardroom_os.Node.{rebuild_node_projections}
use boardroom_os.Incident.{rebuild_incident_projections}
use boardroom_os.Completion.Rows.{TicketRow, NodeRow, TerminalEvent}
use boardroom_os.Completion.Stage.{Specs}
use boardroom_os.Completion.Closeout.{
  CloseoutCompletion, Terminals, resolve_workflow_closeout_completion,
}
use boardroom_os.Completion.CurrentStage.{infer_workflow_current_stage}
use Loop.{Workflow, Loop as LoopState, run_loop, default_workflow_status}
use Rows.{tickets_by_workflow, nodes_by_workflow, count_open_from, terminal_events_from}

-- What the loop over the workflows reads.
pub record Context : Type 0 where
  pub tickets : Dict String (List TicketRow)
  pub nodes : Dict String (List NodeRow)
  pub specs : Specs
  pub open_approvals : Dict (Option String) ℕ
  pub open_incidents : Dict String ℕ
  pub terminals : Dict String TerminalEvent

-- `groups.get(workflow_id, ...)`, where the keys are texts.
abbrev pub of_workflow {ℓ} : {A : Type ℓ} → Option String → A → Dict String A → A
of_workflow none a d = a
of_workflow (some w) a d = get_or w a d

-- `str(created_spec.get("workflow_id") or workflow_id) == workflow_id`
unfoldable pub belongs : Option String → String × CreatedSpec → Bool
belongs w (ticket, spec) = some (str (or_else (spec_workflow_id spec) w)) == w

-- `{str(ticket["ticket_id"]): terminals.get(str(ticket["ticket_id"])) for ticket in tickets}`
unfoldable pub terminals_from : Terminals → Dict String TerminalEvent → List TicketRow → Terminals
terminals_from found terminals [] = found
terminals_from found terminals (t ∷ ts) =
    let id = str t.projection.ticket_id in
    terminals_from (put id (get id terminals) found) terminals ts

abbrev pub status_of : Option CloseoutCompletion → String
status_of none = default_workflow_status
status_of (some c) = "COMPLETED"

unfoldable pub closeout_of :
    (depth : ℕ) → Context → Option String → Result (Option CloseoutCompletion)
unfolding belongs terminals_from
closeout_of depth c w =
    let tickets = of_workflow w [] c.tickets in
    resolve_workflow_closeout_completion depth tickets (of_workflow w [] c.nodes)
      (ltb 0 (get_or w 0 c.open_approvals)) (ltb 0 (of_workflow w 0 c.open_incidents))
      (keep (belongs w) c.specs) (terminals_from [] c.terminals tickets)

unfoldable pub finish : (depth : ℕ) → Context → Option String → Workflow → Result Workflow
unfolding closeout_of
finish depth c w p = do
  completion ← closeout_of depth c w
  stage ←
      infer_workflow_current_stage depth (of_workflow w [] c.nodes) (keep (belongs w) c.specs)
        completion
  ok (record p { status = status_of completion; current_stage = stage })

unfoldable pub finish_all :
    (depth : ℕ) → Context → Dict (Option String) Workflow → Result (List Workflow)
unfolding finish
finish_all depth c [] = ok []
finish_all depth c ((w, p) ∷ rest) = do
  done ← finish depth c w p
  others ← finish_all depth c rest
  ok (done ∷ others)

unfoldable pub rebuild_workflow_projections : (depth : ℕ) → List Event → Result (List Workflow)
unfolding run_loop finish_all
rebuild_workflow_projections depth events = do
  s ← run_loop events
  tickets ← rebuild_ticket_projections events
  nodes ← rebuild_node_projections events
  incidents ← rebuild_incident_projections events
  finish_all depth
      (record {
        tickets = tickets_by_workflow tickets;
        nodes = nodes_by_workflow nodes;
        specs = s.created_specs;
        open_approvals = s.open_approvals;
        open_incidents = count_open_from [] incidents;
        terminals = terminal_events_from [] events;
      })
      s.projections
