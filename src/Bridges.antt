-- ===== src/Bridges.antt =====
-- indexer/modules/bridge/ and common/utils/bridge_utils.py: what is read from the messages between the
-- chains, and what the API shows of them.
pub mod Bytes
pub mod Hex
pub mod Deposits
pub mod DepositTx
pub mod SourceHash
pub mod Agreement
pub mod Arbitrum
pub mod Rows
pub mod Formats
pub mod Status
pub mod Parser
pub mod Bedrock
