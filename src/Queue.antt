-- ===== src/Queue.antt =====
-- eyle/runtime/queue.py: the persistent job queue. `Rows` has the tables, `Statements` the single
-- updates, and the other modules the operations that the web process and the worker call.
pub mod Rows
pub mod Statements
pub mod Reserve
pub mod Control
pub mod Messages
pub mod Statistics
pub mod Recovery
pub mod Row
pub mod Step
pub mod History
pub mod Programs
pub mod Calls
pub mod Fifo
pub mod Cancel
pub mod Taken
pub mod Race
pub mod Tests
mod ReadTests
mod CancelTests
