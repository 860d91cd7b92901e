-- ===== src/Missions.antt =====
-- packages/core/src/mission: the missions of a companion, from the start tool to the wakes.
pub mod Store
pub mod Service
pub mod Start
pub mod OneActive
pub mod Reconcile
pub mod Compensating
pub mod Starting
pub mod Examples
