-- ===== src/Bridges/Bedrock.antt =====
-- indexer/modules/bridge/bedrock/parser/: the events of the OP Stack bridge. What the ABI codec reads from
-- logs and calls is a parameter, and so are the selectors of functions and the hashes of events.
pub mod Calls
pub mod Events
pub mod Parsed
pub mod Recorded
