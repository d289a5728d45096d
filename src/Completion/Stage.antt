-- ===== src/Completion/Stage.antt =====
-- backend/app/core/workflow_completion.py: the delivery stage that a ticket's creation spec shows,
-- followed through a checker's ticket to the maker's. Python's recursion is bounded by the frames
-- that the interpreter has left, here `depth`; past them it raises.
use boardroom_os.Base.{
  ℕ, zero, suc, String, Bool, true, false, Option, none, some, List, [], ◌∷◌, ◌==◌, text_eq,
  if◌then◌else◌,
}
use boardroom_os.Base.Result.{Result, ok, raise, recursion_error, ◌>>=◌}
use boardroom_os.Base.Dict.{Dict, get, values}
use boardroom_os.Base.Text.{codes, codes_beq, strip, upper}
use boardroom_os.Field.{text}
use boardroom_os.Spec.{
  CreatedSpec, MakerCheckerContext, no_context, context, no_spec, maker_ticket_spec,
  output_schema_ref, delivery_stage, maker_checker_context,
}

-- `DELIVERY_MAINLINE_STAGES`
pub data DeliveryStage : Type 0 where
  build check review : DeliveryStage

abbrev pub source_code_delivery : String
source_code_delivery = "source_code_delivery"

abbrev pub ui_milestone_review : String
ui_milestone_review = "ui_milestone_review"

abbrev pub maker_checker_verdict : String
maker_checker_verdict = "maker_checker_verdict"

abbrev pub Specs : Type 0
Specs = Dict String CreatedSpec

-- `_normalized_delivery_stage`, as code points
unfoldable pub normalized_delivery_stage : Option CreatedSpec → List ℕ
unfolding strip upper
normalized_delivery_stage none = []
normalized_delivery_stage (some spec) = upper (strip (text (delivery_stage spec)))

-- `delivery_stage in DELIVERY_MAINLINE_STAGES`
unfoldable pub named_stage : List ℕ → Option DeliveryStage
named_stage s =
    if codes_beq s (codes "BUILD")
    then some build
    else if codes_beq s (codes "CHECK")
    then some check
    else if codes_beq s (codes "REVIEW")
    then some review
    else none

-- `str((created_spec or {}).get("output_schema_ref") or "")`
abbrev pub schema_ref : Option CreatedSpec → String
schema_ref none = ""
schema_ref (some spec) = text (output_schema_ref spec)

-- `DELIVERY_MAINLINE_OUTPUT_SCHEMA_STAGE.get(output_schema_ref)`
unfoldable pub inferred_stage : String → Option DeliveryStage
inferred_stage ref =
    if ref == source_code_delivery
    then some build
    else if ref == ui_milestone_review
    then some review
    else none

-- `maker_ticket_id`, stripped, looked up if it is not empty
unfoldable pub maker_by_id : Option String → Specs → Option CreatedSpec
unfolding strip
maker_by_id ticket specs =
    let maker = strip (text ticket) in if maker == "" then none else get maker specs

-- `_resolved_maker_ticket_spec`
unfoldable pub resolved_maker : MakerCheckerContext → Specs → Option CreatedSpec
unfolding maker_by_id
resolved_maker no_context specs = none
resolved_maker (context (maker_ticket_spec spec) ticket) specs = some spec
resolved_maker (context no_spec ticket) specs = maker_by_id ticket specs

unfoldable pub resolved_maker_ticket_spec : Option CreatedSpec → Specs → Option CreatedSpec
unfolding resolved_maker
resolved_maker_ticket_spec none specs = none
resolved_maker_ticket_spec (some spec) specs = resolved_maker (maker_checker_context spec) specs

-- The stage that the spec shows on its own: the one that it names, or that its schema gives.
unfoldable pub own_stage : Option CreatedSpec → Option DeliveryStage
unfolding normalized_delivery_stage named_stage inferred_stage
own_stage spec = elim (named_stage (normalized_delivery_stage spec)) [
  | some stage ↦ some stage
  | none ↦ inferred_stage (schema_ref spec)
]

-- `isinstance(created_spec, dict) and output_schema_ref == MAKER_CHECKER_VERDICT_SCHEMA_REF`
unfoldable pub is_verdict : Option CreatedSpec → Bool
is_verdict none = false
is_verdict (some spec) = text (output_schema_ref spec) == maker_checker_verdict

unfoldable pub delivery_mainline_stage :
    (depth : ℕ) → Option CreatedSpec → Specs → Result (Option DeliveryStage)
unfolding own_stage is_verdict resolved_maker_ticket_spec
delivery_mainline_stage zero spec specs = raise recursion_error
delivery_mainline_stage (suc depth) spec specs =
    let maker = delivery_mainline_stage depth (resolved_maker_ticket_spec spec specs) specs in
    elim (own_stage spec) [
      | some stage ↦ ok (some stage)
      | none ↦ if is_verdict spec then maker else ok none
    ]

-- `any(ticket_has_delivery_mainline_evidence(...) for created_spec in created_specs.values())`
unfoldable pub any_evidence : (depth : ℕ) → List CreatedSpec → Specs → Result Bool
unfolding delivery_mainline_stage
any_evidence depth [] specs = ok false
any_evidence depth (spec ∷ rest) specs =
    let later = any_evidence depth rest specs in
    delivery_mainline_stage depth (some spec) specs >>= λ stage. elim stage [
      | some _ ↦ ok true
      | none ↦ later
    ]

unfoldable pub workflow_has_evidence : (depth : ℕ) → Specs → Result Bool
unfolding any_evidence
workflow_has_evidence depth specs = any_evidence depth (values specs) specs
