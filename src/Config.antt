-- ===== src/Config.antt =====
-- internal/configuration: namespaces, their items, and the drafts and the review of an item's value.
pub mod Types
pub mod Repository
pub mod Service
pub mod Workflow
pub mod Calls
pub mod Valid
pub mod Kept
pub mod Transactions
pub mod Reviewed
pub mod Runs
pub mod Approved
