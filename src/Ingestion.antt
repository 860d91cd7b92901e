-- ===== src/Ingestion.antt =====
-- packages/core/src/ingestion/segmenter.ts, with the fence of packages/core/src/text/untrusted.ts: how a
-- source is cut into sections.
pub mod Untrusted
pub mod Sentinels
pub mod Segmenter
pub mod Covering
mod Examples
