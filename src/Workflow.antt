-- ===== src/Workflow.antt =====
-- platform/workflow-core/src: what a workflow revision is made of.
pub mod Metadata
