-- ===== src/Bridges/Arbitrum.antt =====
-- indexer/modules/bridge/arbitrum/: the messages, the events and the jobs of the Arbitrum bridge.
pub mod Messages
pub mod Retryables
pub mod Addresses
pub mod Events
pub mod Rollup
pub mod Ids
pub mod Job
pub mod Tickets
pub mod Deposited
