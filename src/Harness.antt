-- ===== src/Harness.antt =====
-- packages/core/src/harness: the turn loop of harness.ts, with the types of hooks.ts, llm/gateway.ts
-- and usage.ts that it uses.
pub mod Messages
pub mod Effects
pub mod Turn
pub mod Loop
pub mod Entry
pub mod Rules
pub mod Frames
pub mod Finale
pub mod Plans
pub mod Running
pub mod Billing
pub mod Endings
pub mod Limits
pub mod Examples
