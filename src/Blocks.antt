-- ===== src/Blocks.antt =====
-- indexer/jobs/export_blocks_job.py and indexer/specification/specification.py: which blocks and
-- transactions a run takes up, and the first block of each hour.
pub mod Specification
pub mod Filters
pub mod Selection
pub mod Timestamps
