-- ===== src/Workflow/Outcome.antt =====
-- What the status and the stage of a workflow say, of all that `rebuild_workflow_projections` returns.
use boardroom_os.Base.{
  ℕ, String, ◌≡◌, refl, sym, Bool, true, false, Option, none, some, List, [], ◌∷◌, ◌==◌, text_eq,
  eq_iff, if◌then◌else◌, ◌≢◌,
}
use boardroom_os.Base.Result.{ok, >>=-eq-ok, ok_inj}
use boardroom_os.Base.All.{All, keep}
use boardroom_os.Base.Dict.{Dict}
use boardroom_os.Spec.{CreatedSpec}
use boardroom_os.Event.{Event}
use boardroom_os.Ticket.{rebuild_ticket_projections}
use boardroom_os.Node.{rebuild_node_projections}
use boardroom_os.Incident.{rebuild_incident_projections}
use boardroom_os.Completion.Rows.{NodeRow}
use boardroom_os.Completion.Stage.{
  DeliveryStage, build, check, review, Specs, schema_ref, delivery_mainline_stage,
}
use boardroom_os.Completion.Closeout.{CloseoutCompletion}
use boardroom_os.Completion.CurrentStage.{
  lower, is_plan_document, stage_of_spec, infer_from_nodes, infer_workflow_current_stage,
}
use boardroom_os.Workflow.{
  Context, of_workflow, belongs, status_of, closeout_of, finish, finish_all,
  rebuild_workflow_projections,
}
use boardroom_os.Workflow.Loop.{Workflow, run_loop}

-- A stage that a workflow shows before it is closed out.
abbrev IsOpenStage : String → Type 0
IsOpenStage s = (s == "closeout") ≡ false

lower-IsOpenStage : (s : DeliveryStage) → IsOpenStage (lower s)
lower-IsOpenStage build = refl
lower-IsOpenStage check = refl
lower-IsOpenStage review = refl

shown_stage-IsOpenStage :
    (o : Option DeliveryStage) (plan : Bool)
    → IsOpenStage (elim o [ some s ↦ lower s | none ↦ if plan then "plan" else "project_init" ])
shown_stage-IsOpenStage (some s) plan = lower-IsOpenStage s
shown_stage-IsOpenStage none true = refl
shown_stage-IsOpenStage none false = refl

stage_of_spec-IsOpenStage :
    (depth : ℕ) (spec : Option CreatedSpec) (specs : Specs) (s : String)
    → stage_of_spec depth spec specs ≡ ok s
    → IsOpenStage s
unfolding stage_of_spec
stage_of_spec-IsOpenStage depth none specs s h = rw (← ok_inj _ _ h) refl
stage_of_spec-IsOpenStage depth (some spec) specs s h =
    let (o, _, found) = >>=-eq-ok (delivery_mainline_stage depth (some spec) specs) _ h in
    rw (← ok_inj _ _ found) (shown_stage-IsOpenStage o (is_plan_document (schema_ref (some spec))))

infer_from_nodes-IsOpenStage :
    (depth : ℕ) (nodes : List NodeRow) (specs : Specs) (s : String)
    → infer_from_nodes depth nodes specs ≡ ok s
    → IsOpenStage s
unfolding infer_from_nodes
infer_from_nodes-IsOpenStage depth [] specs s h = rw (← ok_inj _ _ h) refl
infer_from_nodes-IsOpenStage depth (n ∷ ns) specs s h = stage_of_spec-IsOpenStage depth _ specs s h

-- A workflow is completed, or is executing.
pub data IsSettled (p : Workflow) : Type 0 where
  closed_out : p.status ≡ "COMPLETED" → p.current_stage ≡ "closeout" → IsSettled p
  still_open : p.status ≡ "EXECUTING" → p.current_stage ≢ "closeout" → IsSettled p

open_stage : (s : String) → IsOpenStage s → s ≢ "closeout"
open_stage s h e = cc (h, (eq_iff s "closeout").1 e)

infer-IsSettled :
    (depth : ℕ) (nodes : List NodeRow) (specs : Specs) (c : Option CloseoutCompletion) (s : String)
    (p : Workflow)
    → infer_workflow_current_stage depth nodes specs c ≡ ok s
    → IsSettled (record p { status = status_of c; current_stage = s })
unfolding infer_workflow_current_stage
infer-IsSettled depth nodes specs (some c) s p h = closed_out refl (sym (ok_inj _ _ h))
infer-IsSettled depth nodes specs none s p h =
    still_open refl (open_stage s (infer_from_nodes-IsOpenStage depth nodes specs s h))

finish-IsSettled :
    (depth : ℕ) (c : Context) (w : Option String) (p q : Workflow)
    → finish depth c w p ≡ ok q
    → IsSettled q
unfolding finish
finish-IsSettled depth c w p q h =
    let (done, _, rest) = >>=-eq-ok (closeout_of depth c w) _ h in
    let (stage, shown, made) =
      >>=-eq-ok
        (infer_workflow_current_stage depth (of_workflow w [] c.nodes) (keep (belongs w) c.specs)
          done)
        _ rest in
    rw (← ok_inj _ _ made) (infer-IsSettled depth _ _ done stage p shown)

finish_all-IsSettled :
    (depth : ℕ) (c : Context) (ws : Dict (Option String) Workflow) (qs : List Workflow)
    → finish_all depth c ws ≡ ok qs
    → All IsSettled qs
unfolding finish_all
finish_all-IsSettled depth c [] qs h = rw (← ok_inj _ _ h) tt
finish_all-IsSettled depth c ((w, p) ∷ ws) qs h =
    let (q, done, rest) = >>=-eq-ok (finish depth c w p) _ h in
    let (others, finished, made) = >>=-eq-ok (finish_all depth c ws) _ rest in
    rw (← ok_inj _ _ made)
      (finish-IsSettled depth c w p q done, finish_all-IsSettled depth c ws others finished)

-- Every workflow that `rebuild_workflow_projections` returns either has the status COMPLETED and the
-- stage "closeout", or the status EXECUTING and another stage.
pub rebuild_workflow_projections-IsSettled :
    (depth : ℕ) (events : List Event) (ps : List Workflow)
    → rebuild_workflow_projections depth events ≡ ok ps
    → All IsSettled ps
unfolding rebuild_workflow_projections
rebuild_workflow_projections-IsSettled depth events ps h =
    let (s, _, h1) = >>=-eq-ok (run_loop events) _ h in
    let (tickets, _, h2) = >>=-eq-ok (rebuild_ticket_projections events) _ h1 in
    let (nodes, _, h3) = >>=-eq-ok (rebuild_node_projections events) _ h2 in
    let (incidents, _, h4) = >>=-eq-ok (rebuild_incident_projections events) _ h3 in
    finish_all-IsSettled depth _ s.projections ps h4
