-- ===== src/Snapshot.antt =====
-- eyle/contracts/observation.py: the Coverage contract, and snapshots that are read page by page
-- through handles.
pub mod Coverage
pub mod Handles
pub mod Materialize
pub mod Result
pub mod Paging
pub mod Walk
pub mod Release
pub mod Resolves
pub mod Reachable
mod Tests
