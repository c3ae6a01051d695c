-- ===== src/Transfers.antt =====
-- indexer/domain/token_transfer.py: the token transfers that a log stands for. The ABI codec, the
-- event signatures and their hashes are not code of the repository: a `Codec` has what it answers.
pub mod Events
pub mod Amounts
pub mod Origins
pub mod Specific
pub mod Tokens
use hemera_indexer.Prelude.{ℕ, String, Option, none, some, List}
use hemera_indexer.Errors.{Message, Outcome, returns, raises, value_error}

-- `TokenType`
pub data TokenType : Type 0 where
  erc20 erc721 erc1155 erc404 : TokenType

abbrev pub Address : Type 0
Address = Message

-- The fields of `Log` that the handlers read; its data and topics go to the codec as they are.
pub record Log : Type 0 where
  pub log_index : ℕ
  pub address : Address
  pub data_hex : String
  pub transaction_hash : String
  pub block_number : ℕ
  pub block_hash : String
  pub block_timestamp : ℕ
  pub topic0 : Option String
  pub topic1 : Option String
  pub topic2 : Option String
  pub topic3 : Option String

-- The fields that all of the transfer classes share, `common_fields`.
pub record CommonFields : Type 0 where
  pub transaction_hash : String
  pub log_index : ℕ
  pub from_address : Address
  pub to_address : Address
  pub token_address : Address
  pub block_number : ℕ
  pub block_hash : String
  pub block_timestamp : ℕ

pub record TokenTransfer : Type 0 where
  pub common : CommonFields
  pub token_id : Option ℕ
  pub value : ℕ
  pub token_type : TokenType

-- `ERC20TokenTransfer`, `ERC721TokenTransfer` and `ERC1155TokenTransfer`.
pub data SpecificTransfer : Type 0 where
  erc20_transfer : CommonFields → (value : ℕ) → SpecificTransfer
  erc721_transfer : CommonFields → (token_id : ℕ) → SpecificTransfer
  erc1155_transfer : CommonFields → (token_id value : ℕ) → SpecificTransfer

specific : CommonFields → Option ℕ → ℕ → TokenType → Outcome SpecificTransfer
specific common token_id value erc20 = returns (erc20_transfer common value)
specific common token_id value erc721 = returns (erc721_transfer common value)
specific common (some token_id) value erc1155 = returns (erc1155_transfer common token_id value)
specific common none value erc1155 = returns (erc20_transfer common value)
specific common token_id value erc404 = raises value_error

-- `to_specific_transfer`
unfoldable pub to_specific_transfer : TokenTransfer → Outcome SpecificTransfer
unfolding specific
to_specific_transfer self = specific self.common self.token_id self.value self.token_type
