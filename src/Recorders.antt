-- ===== src/Recorders.antt =====
-- indexer/utils/sync_recorder.py and indexer/utils/exception_recorder.py: how far a mission has got, in
-- a table or in a file, and the buffer of the exception records.
pub mod Decimal
pub mod Sync
pub mod Exceptions
