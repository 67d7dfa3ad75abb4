-- ===== src/Progress.antt =====
-- eyle/runtime/execution_progress.py: the detector of fixed points of one execution.
pub mod Stable
pub mod Detector
pub mod Blocking
pub mod FixedPoint
pub mod Saved
pub mod RoundTrip
mod Tests
