-- ===== src/Utils.antt =====
-- indexer/utils/utils.py; Sorting and Groups are the sorts and the groups of the jobs.
pub mod Ranges
pub mod Batches
pub mod Merge
pub mod Rpc
pub mod Distinct
pub mod Sorting
pub mod Groups
