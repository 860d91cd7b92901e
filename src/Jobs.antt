-- ===== src/Jobs.antt =====
-- packages/core/src/jobs: the durable job queue, and the processor that drains it.
pub mod Tables
pub mod Queue
pub mod Processor
pub mod Pool
pub mod Requests
pub mod Examples
