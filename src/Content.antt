-- ===== src/Content.antt =====
-- internal/content: entries, their revisions and the review workflow.
pub mod Types
pub mod Repository
pub mod Env
pub mod Workflow
pub mod Invariant
pub mod Ending
pub mod Review
pub mod References
pub mod Drafting
pub mod Valid
pub mod Drafts
pub mod Unique
