-- ===== src/Workflow.antt =====
-- The workflow engine (src/browser/workflow.ts): what it accepts, how it runs the steps, when it
-- stops, what it remembers and how it bounds its result.
pub mod Json
pub mod Types
pub mod Checks
pub mod Limits
pub mod Fields
pub mod Choices
pub mod Steps
pub mod Normalize
pub mod Accepted
pub mod Within
pub mod Bounded
pub mod Status
pub mod Failures
pub mod Summary
pub mod Run
pub mod Loop
pub mod Result
pub mod Shrink
pub mod Fits
pub mod Stops
pub mod Rounds
pub mod Quiet
pub mod Writes
pub mod Guarded
pub mod StableJson
pub mod Fingerprint
pub mod Execute
pub mod Cache
pub mod Kept
pub mod Remembered
pub mod Runs
mod Examples
pub mod Runner
