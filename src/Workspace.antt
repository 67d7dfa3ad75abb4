-- ===== src/Workspace.antt =====
-- eyle/providers/standard: how the program reads and rewrites the files of a project. Text_hash, the
-- ranges of lines, the paths that it may touch, and the transaction that changes several files.
pub mod Newlines
pub mod Ranges
pub mod Parts
pub mod Splice
pub mod Rewritten
pub mod Paths
pub mod Policy
pub mod Patch
pub mod DryRun
pub mod Apply
pub mod Confirm
pub mod Originals
pub mod Undone
pub mod Atomic
pub mod Reverted
pub mod Written
pub mod Whole
pub mod Fresh
pub mod Reading
pub mod ReadEdit
mod Tests
mod ReadTests
