-- ===== src/Spec.antt =====
-- The creation payload of a ticket ("created spec"), as backend/app/core/workflow_completion.py
-- reads it. A checker's ticket names the maker's ticket that it checks, by its whole spec or by id.
use boardroom_os.Base.{String, Option}

mutual
  pub data CreatedSpec : Type 0 where
    created_spec :
        (output_schema_ref delivery_stage workflow_id : Option String)
        → MakerCheckerContext
        → CreatedSpec

  -- `created_spec.get("maker_checker_context") or {}`
  pub data MakerCheckerContext : Type 0 where
    no_context : MakerCheckerContext
    context : MakerTicketSpec → (maker_ticket_id : Option String) → MakerCheckerContext

  -- `maker_ticket_spec`, if it is a dictionary and not empty
  pub data MakerTicketSpec : Type 0 where
    no_spec : MakerTicketSpec
    maker_ticket_spec : CreatedSpec → MakerTicketSpec

abbrev pub output_schema_ref : CreatedSpec → Option String
output_schema_ref (created_spec r s w c) = r

abbrev pub delivery_stage : CreatedSpec → Option String
delivery_stage (created_spec r s w c) = s

abbrev pub spec_workflow_id : CreatedSpec → Option String
spec_workflow_id (created_spec r s w c) = w

abbrev pub maker_checker_context : CreatedSpec → MakerCheckerContext
maker_checker_context (created_spec r s w c) = c
