-- ===== src/TokenIds.antt =====
-- indexer/jobs/export_token_id_infos_job.py: which token ids are asked for, what is made of the answers
-- and which of the details are stored. Python's `hash` and the ABI codec are parameters.
pub mod Infos
pub mod Requests
pub mod Answered
pub mod Latest
use hemera_indexer.Prelude.{ℕ, Bool}
use hemera_indexer.Prelude.Int.{ℤ}
use hemera_indexer.Transfers.{TokenType, Address}

pub record TokenIdInfo : Type 0 where
  pub address : Address
  pub token_id : ℕ
  pub token_type : TokenType
  pub block_number : ℕ
  pub block_timestamp : ℕ
  pub is_get_token_uri : Bool
  pub request_id : ℤ
