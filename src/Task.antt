-- ===== src/Task.antt =====
-- Discord tasks.
pub mod State
pub mod Failure
pub mod Record
pub mod Transition
pub mod Ids
pub mod Graph
pub mod Retention
pub mod Store
pub mod Forget
pub mod Reconcile
pub mod Invariant
pub mod History
pub mod Access
pub mod Claims
pub mod Document
pub mod Request
pub mod Queries
pub mod Service
pub mod Actions
pub mod Ending
pub mod Runtime
pub mod RuntimeFailures
pub mod Facade
pub mod Tests
pub mod ServiceTests
pub mod EndingTests
