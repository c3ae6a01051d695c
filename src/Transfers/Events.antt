-- ===== src/Transfers/Events.antt =====
-- The handlers of the five events, and the choice between them by the first topic of the log.
use hemera_indexer.Prelude.{
  ℕ, ◌+◌, String, Bool, false, not, ◌&&◌, ◌||◌, Option, none, some, List, [], ◌∷◌, ◌++◌, map,
  if◌then◌else◌, ◌==◌, nat_eq, string_eq, is_some, length, Dict, update,
}
use hemera_indexer.Errors.{codes, lower, other, Outcome, returns, raises, ◌>>=◌}
use hemera_indexer.Transfers.{
  TokenType, erc20, erc721, erc1155, Address, Log, CommonFields, TokenTransfer,
}

-- What the codec reads from a log: `Event.get_signature` for each of the five events, and the
-- decoded arguments, which it may refuse by an exception.
pub record Codec : Type 0 where
  pub transfer_signature : String
  pub deposit_signature : String
  pub withdraw_signature : String
  pub single_signature : String
  pub batch_signature : String
  -- dst, wad
  pub deposit : Log → Outcome (Address × ℕ)
  -- src, wad
  pub withdrawal : Log → Outcome (Address × ℕ)
  -- from, to, value
  pub transfer : Log → Outcome (Address × Address × ℕ)
  -- from, to, id, value
  pub transfer_single : Log → Outcome (Address × Address × ℕ × ℕ)
  -- from, to, ids, values
  pub transfer_batch : Log → Outcome (Address × Address × List ℕ × List ℕ)

-- `decode_log` of indexer/utils/abi.py: an exception of the codec is logged, and the result `None`.
unfoldable pub decode_log {ℓ} : {A : Type ℓ} → Outcome A → Option A
decode_log (returns fields) = some fields
decode_log (raises e) = none

-- `ZERO_ADDRESS`
abbrev pub zero_address : Address
zero_address = codes "0x0000000000000000000000000000000000000000"

-- The constructor call that all of the handlers share.
abbrev pub common_of : Log → Address → Address → CommonFields
common_of log from_address to_address = record {
  transaction_hash = log.transaction_hash;
  log_index = log.log_index;
  from_address = from_address;
  to_address = to_address;
  token_address = log.address;
  block_number = log.block_number;
  block_hash = log.block_hash;
  block_timestamp = log.block_timestamp;
}

abbrev pub transfer_of : Log → Address → Address → Option ℕ → ℕ → TokenType → TokenTransfer
transfer_of log from_address to_address token_id value token_type = record {
  common = common_of log from_address to_address;
  token_id = token_id;
  value = value;
  token_type = token_type;
}

-- A topic that is an empty text counts as absent.
abbrev is_present : Option String → Bool
is_present none = false
is_present (some topic) = not (topic == "")

unfoldable pub transfer_token_type : Log → TokenType
transfer_token_type log =
    if is_present log.topic3
      || not (is_some log.topic1) && not (is_some log.topic2) && not (is_some log.topic3)
    then erc721
    else erc20

-- `token_amounts[token_id] += value`
abbrev pub add_amount : ℕ → Option ℕ → ℕ
add_amount value none = value
add_amount value (some amount) = amount + value

unfoldable pub amounts : List ℕ → List ℕ → Dict ℕ ℕ → Dict ℕ ℕ
amounts (token_id ∷ ids) (value ∷ values) token_amounts =
    amounts ids values (update (add_amount value) token_id token_amounts)
amounts _ _ token_amounts = token_amounts

abbrev pub batch_transfer : Log → Address → Address → ℕ × ℕ → TokenTransfer
batch_transfer log from_address to_address (token_id, total_value) =
    transfer_of log (lower from_address) (lower to_address) (some token_id) total_value erc1155

abbrev is_signature : Option String → String → Bool
is_signature none signature = false
is_signature (some topic) signature = topic == signature

module _ (codec : Codec) where
  unfoldable pub handle_deposit_event : Log → Outcome (List TokenTransfer)
  unfolding decode_log
  handle_deposit_event log = elim (decode_log (codec.deposit log)) [
    | none ↦ returns []
    | some (dst, wad) ↦ returns (transfer_of log zero_address (lower dst) none wad erc20 ∷ [])
  ]

  -- With no decoded data the read of a field of `None` raises.
  unfoldable pub handle_withdraw_event : Log → Outcome (List TokenTransfer)
  unfolding decode_log
  handle_withdraw_event log = elim (decode_log (codec.withdrawal log)) [
    | none ↦ raises other
    | some (src, wad) ↦ returns (transfer_of log (lower src) zero_address none wad erc20 ∷ [])
  ]

  unfoldable pub handle_transfer_event : Log → Outcome (List TokenTransfer)
  unfolding transfer_token_type
  handle_transfer_event log = do
    (from_address, to_address, value) ← codec.transfer log
    returns (
        transfer_of log (lower from_address) (lower to_address) none value (transfer_token_type log)
        ∷ [])

  unfoldable pub handle_transfer_single_event : Log → Outcome (List TokenTransfer)
  unfolding decode_log
  handle_transfer_single_event log = elim (decode_log (codec.transfer_single log)) [
    | none ↦ raises other
    | some (from_address, to_address, token_id, value) ↦
        returns (
          transfer_of log (lower from_address) (lower to_address) (some token_id) value erc1155
          ∷ [])
  ]

  unfoldable pub handle_transfer_batch_event : Log → Outcome (List TokenTransfer)
  unfolding decode_log amounts
  handle_transfer_batch_event log = elim (decode_log (codec.transfer_batch log)) [
    | none ↦ raises other
    | some (from_address, to_address, ids, values) ↦
        if length ids == length values
        then returns (map (batch_transfer log from_address to_address) (amounts ids values []))
        else returns []
  ]

  -- `extract_transfer_from_log(log)`
  unfoldable pub extract_transfer_from_log : Log → Outcome (List TokenTransfer)
  extract_transfer_from_log log =
      if is_signature log.topic0 codec.transfer_signature
      then handle_transfer_event log
      else if is_signature log.topic0 codec.deposit_signature
      then handle_deposit_event log
      else if is_signature log.topic0 codec.withdraw_signature
      then handle_withdraw_event log
      else if is_signature log.topic0 codec.single_signature
      then handle_transfer_single_event log
      else if is_signature log.topic0 codec.batch_signature
      then handle_transfer_batch_event log
      else returns []

  -- `extract_tokens_and_token_transfers(logs)`
  unfoldable pub extract_tokens_and_token_transfers : List Log → Outcome (List TokenTransfer)
  extract_tokens_and_token_transfers [] = returns []
  extract_tokens_and_token_transfers (log ∷ logs) = do
    transfers ← extract_transfer_from_log log
    others ← extract_tokens_and_token_transfers logs
    returns (transfers ++ others)
