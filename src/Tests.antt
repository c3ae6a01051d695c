-- ===== src/Tests.antt =====
-- The theorems at concrete inputs, and small runs of the definitions.
mod Utils
mod Execution
mod Streaming
mod Scheduling
mod Transferring
mod Tracing
mod Exporting
mod Recording
mod Dispatching
mod Fixing
mod Querying
mod Receiving
mod Reading
mod Answering
mod Bridging
mod Withdrawing
