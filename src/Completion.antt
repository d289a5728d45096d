-- ===== src/Completion.antt =====
-- backend/app/core/workflow_completion.py: when a workflow counts as delivered, and at which stage it
-- stands.
pub mod Stage
pub mod Depth
pub mod Rows
pub mod Closeout
pub mod CurrentStage
pub mod Delivered
pub mod Resolve
