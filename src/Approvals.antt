-- ===== src/Approvals.antt =====
-- Effectful calls of tools and the user's approval of them: packages/core/src/tools and
-- packages/api/src/proposals.
pub mod Tools
pub mod Store
pub mod Gate
pub mod Confirm
pub mod Registry
pub mod Gating
pub mod Race
pub mod Counts
pub mod Once
pub mod Examples
