-- ===== src/UrlGuard.antt =====
-- packages/core/src/ingestion/url-guard.ts: which addresses the server refuses to fetch from. The
-- parsed URL and what the base lookup answers are given.
pub mod Text
pub mod Addresses
pub mod Ranges
pub mod Groups
pub mod Lookup
pub mod Examples
