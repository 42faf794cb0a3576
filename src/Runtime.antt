-- ===== src/Runtime.antt =====
-- homestar-runtime: receipts as they are stored, the scheduler of a workflow, and its progress.
pub mod Receipt
pub mod Resources
pub mod Info
pub mod Store
pub mod Scheduler
pub mod Graph
pub mod Retrieve
pub mod Record
pub mod Worker
pub mod Pubsub
pub mod Handler
pub mod Runner
