-- ===== src/Domain/Receipts.antt =====
-- indexer/domain/receipt.py and indexer/domain/transaction.py: `Receipt` and `Transaction`, their reading
-- from answers, and how a receipt is put into its transaction.
use hemera_indexer.Prelude.{ℕ, Bool, Option, none, some, List, [], ◌∷◌, is_some}
use hemera_indexer.Errors.{Message, Outcome, returns, ◌>>=◌}
use hemera_indexer.Transfers.{Address}
use hemera_indexer.Domain.{
  Text, Fields, field, get, EthUtils, int_field, int_or_zero, address_field, int_if, address_if,
}
use hemera_indexer.Domain.Logs.{Log, InBlock, LogDict, log_from_rpc}

-- `Float` stands for Python's floats.
pub record Receipt (Float : Type 0) : Type 0 where
  pub transaction_hash : Text
  pub transaction_index : ℕ
  pub contract_address : Option Address
  pub status : ℕ
  pub logs : List Log
  pub root : Text
  pub cumulative_gas_used : Option ℕ
  pub gas_used : Option ℕ
  pub effective_gas_price : Option ℕ
  pub l1_fee : Option ℕ
  pub l1_fee_scalar : Option Float
  pub l1_gas_used : Option ℕ
  pub l1_gas_price : Option ℕ
  pub blob_gas_used : Option ℕ
  pub blob_gas_price : Option ℕ

-- `receipt_dict`; logs that are missing are none, `receipt_dict.get("logs", [])`.
pub record ReceiptDict : Type 0 where
  pub fields : Fields
  pub logs : List LogDict

module _ (eth : EthUtils) where
  abbrev pub logs_from_rpc : InBlock → List LogDict → Outcome (List Log)
  logs_from_rpc block [] = returns []
  logs_from_rpc block (d ∷ dicts) = do
    log ← log_from_rpc eth block d
    logs ← logs_from_rpc block dicts
    returns (log ∷ logs)

module _ {Float : Type 0} (to_float : Message → Outcome Float) where
  -- `float(text) if text else None`
  abbrev pub float_if : Text → Outcome (Option Float)
  float_if none = returns none
  float_if (some []) = returns none
  float_if (some (c ∷ text)) = to_float (c ∷ text) >>= λ x. returns (some x)

  -- The arguments of the receipt, its logs aside.
  abbrev pub receipt_of : EthUtils → Fields → Outcome (Receipt Float)
  receipt_of eth d = do
    transaction_hash ← field "transactionHash" d
    transaction_index ← int_field eth "transactionIndex" d
    contract_address ← address_if eth (get "contractAddress" d)
    status ← int_field eth "status" d
    cumulative_gas_used ← int_if eth (get "cumulativeGasUsed" d)
    gas_used ← int_if eth (get "gasUsed" d)
    effective_gas_price ← int_if eth (get "effectiveGasPrice" d)
    l1_fee ← int_if eth (get "l1Fee" d)
    l1_fee_scalar ← float_if (get "l1FeeScalar" d)
    l1_gas_used ← int_if eth (get "l1GasUsed" d)
    l1_gas_price ← int_if eth (get "l1GasPrice" d)
    blob_gas_used ← int_if eth (get "blobGasUsed" d)
    blob_gas_price ← int_if eth (get "blobGasPrice" d)
    returns (record {
      transaction_hash = transaction_hash;
      transaction_index = transaction_index;
      contract_address = contract_address;
      status = status;
      logs = [];
      root = get "root" d;
      cumulative_gas_used = cumulative_gas_used;
      gas_used = gas_used;
      effective_gas_price = effective_gas_price;
      l1_fee = l1_fee;
      l1_fee_scalar = l1_fee_scalar;
      l1_gas_used = l1_gas_used;
      l1_gas_price = l1_gas_price;
      blob_gas_used = blob_gas_used;
      blob_gas_price = blob_gas_price;
    })

  -- `Receipt.from_rpc(receipt_dict, block_timestamp, block_hash, block_number)`
  unfoldable pub receipt_from_rpc : EthUtils → InBlock → ReceiptDict → Outcome (Receipt Float)
  receipt_from_rpc eth block d = logs_from_rpc eth block d.logs >>= λ logs.
      receipt_of eth d.fields >>= λ receipt. returns (record receipt { logs = logs })

pub record Transaction (Float : Type 0) : Type 0 where
  pub hash : Text
  pub nonce : ℕ
  pub transaction_index : ℕ
  pub from_address : Address
  pub to_address : Option Address
  pub value : ℕ
  pub gas_price : ℕ
  pub gas : ℕ
  pub transaction_type : ℕ
  pub input : Text
  pub block : InBlock
  pub blob_versioned_hashes : List Message
  pub max_fee_per_gas : Option ℕ
  pub max_priority_fee_per_gas : Option ℕ
  pub receipt : Option (Receipt Float)
  pub exist_error : Bool
  pub error : Text
  pub revert_reason : Text

-- `transaction_dict`; hashes that are missing are none.
pub record TransactionDict : Type 0 where
  pub fields : Fields
  pub blob_versioned_hashes : List Message

abbrev pub no_block : InBlock
no_block = record { timestamp = 0; hash = none; number = 0 }

module _ (Float : Type 0) (eth : EthUtils) where
  -- The arguments of the transaction, its block aside.
  abbrev pub transaction_of : TransactionDict → Outcome (Transaction Float)
  transaction_of d = do
    hash ← field "hash" d.fields
    transaction_index ← int_field eth "transactionIndex" d.fields
    from_address ← address_field eth "from" d.fields
    to_address ← address_if eth (get "to" d.fields)
    value ← int_field eth "value" d.fields
    transaction_type ← int_or_zero eth "type" d.fields
    input ← field "input" d.fields
    nonce ← int_field eth "nonce" d.fields
    gas ← int_field eth "gas" d.fields
    gas_price ← int_field eth "gasPrice" d.fields
    max_fee_per_gas ← int_if eth (get "maxFeePerGas" d.fields)
    max_priority_fee_per_gas ← int_if eth (get "maxPriorityFeePerGas" d.fields)
    returns (record {
      hash = hash;
      nonce = nonce;
      transaction_index = transaction_index;
      from_address = from_address;
      to_address = to_address;
      value = value;
      gas_price = gas_price;
      gas = gas;
      transaction_type = transaction_type;
      input = input;
      block = no_block;
      blob_versioned_hashes = d.blob_versioned_hashes;
      max_fee_per_gas = max_fee_per_gas;
      max_priority_fee_per_gas = max_priority_fee_per_gas;
      receipt = none;
      exist_error = is_some (get "error" d.fields);
      error = get "error" d.fields;
      revert_reason = get "revertReason" d.fields;
    })

  -- `Transaction.from_rpc(transaction_dict, block_timestamp, block_hash, block_number)`
  unfoldable pub transaction_from_rpc : InBlock → TransactionDict → Outcome (Transaction Float)
  transaction_from_rpc block d =
      transaction_of d >>= λ transaction. returns (record transaction { block = block })

module _ {Float : Type 0} where
  -- The contract that the transaction created stands in for an address that is missing.
  abbrev pub address_or : Option Address → Receipt Float → Option Address
  address_or (some address) receipt = some address
  address_or none receipt = receipt.contract_address

  -- `fill_with_receipt(receipt)`
  unfoldable pub fill_with_receipt : Receipt Float → Transaction Float → Transaction Float
  fill_with_receipt receipt self = record self {
    receipt = some receipt;
    to_address = address_or self.to_address receipt;
  }
