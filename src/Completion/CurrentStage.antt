-- ===== src/Completion/CurrentStage.antt =====
-- backend/app/core/workflow_completion.py, `infer_workflow_current_stage`: the stage that a workflow
-- shows.
use Prim.Native.String.{compare as compare_text}
use package.text.Mathlib.Text.{is_lt}
use boardroom_os.Base.{
  ℕ, String, Bool, ◌||◌, Option, none, some, List, [], ◌∷◌, ◌==◌, text_eq, nat_eq, if◌then◌else◌,
  ltb,
}
use boardroom_os.Base.Max.{max_by}
use boardroom_os.Base.Result.{Result, ok, ◌>>=◌}
use boardroom_os.Base.Dict.{get}
use boardroom_os.Field.{text}
use boardroom_os.Spec.{CreatedSpec}
use boardroom_os.Completion.Rows.{Moment, datetime, other_text, NodeRow}
use boardroom_os.Completion.Stage.{
  DeliveryStage, build, check, review, Specs, schema_ref, delivery_mainline_stage,
}
use boardroom_os.Completion.Closeout.{CloseoutCompletion}

-- `GOVERNANCE_DOCUMENT_SCHEMA_REFS`, and the consensus document
unfoldable pub is_plan_document : String → Bool
is_plan_document ref =
    ref == "consensus_document"
    || ref == "architecture_brief"
    || ref == "technology_decision"
    || ref == "milestone_plan"
    || ref == "detailed_design"
    || ref == "backlog_recommendation"

-- `delivery_stage.lower()`
abbrev pub lower : DeliveryStage → String
lower build = "build"
lower check = "check"
lower review = "review"

-- `item.get("updated_at") or datetime.min`. Instants are counted from `datetime.min`. A text that is
-- no time is placed there too; the node projections hold none (Workflow/Rows.antt).
abbrev pub since : Moment → ℕ
since (datetime t) = t
since (other_text s) = 0

-- `(updated_at, node_id)` of `a` is less than that of `b`.
unfoldable pub older : NodeRow → NodeRow → Bool
older a b =
    if since a.updated_at == since b.updated_at
    then is_lt (compare_text (text a.projection.node_id) (text b.projection.node_id))
    else ltb (since a.updated_at) (since b.updated_at)

unfoldable pub stage_of_spec : (depth : ℕ) → Option CreatedSpec → Specs → Result String
unfolding is_plan_document delivery_mainline_stage
stage_of_spec depth none specs = ok "project_init"
stage_of_spec depth (some spec) specs = do
  stage ← delivery_mainline_stage depth (some spec) specs
  ok (elim stage [
    | some s ↦ lower s
    | none ↦ if is_plan_document (schema_ref (some spec)) then "plan" else "project_init"
  ])

unfoldable pub infer_from_nodes : (depth : ℕ) → List NodeRow → Specs → Result String
unfolding stage_of_spec older max_by
infer_from_nodes depth [] specs = ok "project_init"
infer_from_nodes depth (n ∷ ns) specs =
    let latest = max_by older n ns in
    stage_of_spec depth (get (text latest.projection.latest_ticket_id) specs) specs

unfoldable pub infer_workflow_current_stage :
    (depth : ℕ) → List NodeRow → Specs → Option CloseoutCompletion → Result String
unfolding infer_from_nodes
infer_workflow_current_stage depth nodes specs (some c) = ok "closeout"
infer_workflow_current_stage depth nodes specs none = infer_from_nodes depth nodes specs
