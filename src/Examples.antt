-- ===== src/Examples.antt =====
-- Concrete inputs: one deployment with a prospect whose first touch is drafted, and the theorems of the
-- development applied to it.
mod Demo
mod Gates
mod Controls
mod Jobs
mod Replies
mod Texts
mod Proposed
mod People
