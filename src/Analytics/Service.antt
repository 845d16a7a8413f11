-- ===== src/Analytics/Service.antt =====
-- app/analytics/service: the writes (`Writes`), the reads (`Reads`) and, in the other children, what
-- they do.
pub mod Writes
pub mod Refinement
pub mod Frames
pub mod Reads
pub mod Correct
pub mod Failures
pub mod Progress
