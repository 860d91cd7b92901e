-- ===== src/Motivation.antt =====
-- The motivation of the companion (core/src/motivation) and its greeting: presence, and the gates of a move.
pub mod Presence
pub mod Arbitration
pub mod Restraint
mod Examples
