-- ===== src/Growth.antt =====
-- The growth mirror (core/src/growth): the high-water mark, the recomputes that advance it, and what they post.
pub mod Mark
pub mod Service
pub mod Racing
pub mod Linear
pub mod Once
mod Examples
