-- ===== src/Bridges/Parser.antt =====
-- common/utils/bridge_utils.py: `BridgeTransactionParser`, which makes of a row what the API shows of a
-- message. The functions change the row that they are given, so that the row and the result are one dict;
-- for a message of Taiko to the first layer the result is a new dict.
use hemera_indexer.Prelude.{
  ℕ, String, Bool, true, false, Option, List, [], ◌∷◌, ◌==◌, string_eq, insert, if◌then◌else◌,
}
use hemera_indexer.Errors.{Outcome, returns, raises, other, ◌>>=◌}
use hemera_indexer.Bridges.Rows.{
  null, num, str, flag, texts, TokenDict, Value, scalar, tokens, extra, Row, item, get_or, is_str,
}
use hemera_indexer.Bridges.Formats.{
  Printing, format_bedrock_token_info, format_linea_token_info, format_mantle_token_info,
  format_taiko_token_info,
}
use hemera_indexer.Bridges.Status.{Time, determine_op_bedrock_withdrawal_state}

pub record BridgeTransactionParser : Type 0 where
  pub chain : String
  pub rollup_type : String
  pub withdrawal_expired_day : ℕ
  pub bridge_compatible : Bool
  pub native_token : String

-- `transaction[key] = value`
abbrev put : String → Value → Row → Row
put key value row = insert key value row

unfoldable pub copied : String → Row → Row → Outcome Row
copied key transaction info = item key transaction >>= λ value. returns (put key value info)

-- `int(transaction["amount"]) if transaction["amount"] else 0`
amount_or_zero : Value → Outcome Value
amount_or_zero (scalar null) = returns (scalar (num 0))
amount_or_zero (scalar (num n)) = returns (scalar (num n))
amount_or_zero (scalar (str s)) = raises other
amount_or_zero (scalar (flag b)) = raises other
amount_or_zero (scalar (texts t)) = raises other
amount_or_zero (tokens t) = raises other
amount_or_zero (extra e) = raises other

abbrev scalar_item : String → TokenDict → Outcome Value
scalar_item key token_info = item key token_info >>= λ s. returns (scalar s)

first_token : Row → TokenDict → Row → Outcome Row
unfolding copied
first_token transaction token_info info = do
  type ← item "token_type" token_info
  named ←
      (if is_str "COIN" type
        then returns (
            put "l1_token_address" (scalar (str "0x0000000000000000000000000000000000000000")) (
              put "l2_token_address" (scalar (str "0xdeaddeaddeaddeaddeaddeaddeaddeaddead1111"))
                (put "token_name" (scalar (str "ETH")) info)))
        else (scalar_item "token_name" token_info >>= λ name.
            copied "l2_token_address" transaction (put "token_name" name info)
            >>= copied "l1_token_address" transaction))
  symbol ← scalar_item "token_symbol" token_info
  value ← scalar_item "value" token_info
  returns (
      put "is_erc20" (scalar (flag (is_str "ERC20" (get_or "token_type" null token_info)))) (
        put "token_address" (scalar (get_or "token_address" null token_info)) (
          put "token_logo_url" (scalar (get_or "token_logo_url" null token_info))
            (put "value" value (put "token_symbol" symbol named)))))

with_tokens : Row → Value → Row → Outcome Row
unfolding first_token
with_tokens transaction (scalar null) info = returns info
with_tokens transaction (scalar (num n)) info = raises other
with_tokens transaction (scalar (str s)) info = raises other
with_tokens transaction (scalar (flag b)) info = raises other
with_tokens transaction (scalar (texts t)) info = raises other
with_tokens transaction (extra e) info = raises other
with_tokens transaction (tokens []) info = returns info
with_tokens transaction (tokens (token ∷ others)) info = first_token transaction token info

-- The fields of the first version of the API. None of the keys that are read of the transaction has been
-- written by then with another value, so that it makes no difference whether the two are one dict.
unfoldable pub handle_transaction_info_for_v1 : Row → Row → Outcome Row
unfolding with_tokens amount_or_zero copied
handle_transaction_info_for_v1 transaction transaction_info = do
  indexed ← copied "index" transaction transaction_info
  token_list ← item "token_list" indexed
  named ← with_tokens transaction token_list indexed
  amount ← item "amount" transaction >>= amount_or_zero
  from_l2 ← copied "l2_from_address" transaction (put "amount" amount named)
  from_l1 ← copied "l1_from_address" transaction from_l2
  on_l1 ← copied "l1_block_hash" transaction from_l1
  copied "l2_block_hash" transaction on_l1

-- The proof and the finalization under the names of the API.
unfoldable pub with_finalization : Row → Outcome Row
with_finalization transaction = do
  proven ← item "l1_proven_transaction_hash" transaction
  number ← item "l1_block_number" transaction
  time ← item "l1_block_timestamp" transaction
  hash ← item "l1_transaction_hash" transaction
  returns (
      put "l1_finalized_txn_hash" hash (
        put "l1_finalized_transaction_hash" hash (
          put "l1_finalized_block_timestamp" time (
            put "l1_finalized_block_number" number (put "l1_proven_txn_hash" proven transaction)))))

abbrev with_list : List TokenDict → Row → Row
with_list token_list row = put "token_list" (tokens token_list) row

module _ (p : Printing) where
  unfoldable pub parse_taiko_bridge_l2_to_l1_transaction : Row → Option TokenDict → Outcome Row
  unfolding copied
  parse_taiko_bridge_l2_to_l1_transaction transaction token_info = do
    hash ← copied "l2_transaction_hash" transaction []
    from ← copied "from_address" transaction hash
    to ← copied "to_address" transaction from
    l2_number ← copied "l2_block_number" transaction to
    l2_time ← copied "l2_block_timestamp" transaction l2_number
    l1_number ← copied "l1_block_number" transaction l2_time
    l1_time ← copied "l1_block_timestamp" transaction l1_number
    l1_hash ← copied "l1_transaction_hash" transaction l1_time
    token_list ← format_taiko_token_info p transaction token_info
    returns (with_list token_list l1_hash)

  -- The other functions differ in the formats, and in whether they add the finalization.
  unfoldable pub parse_taiko_bridge_l1_to_l2_transaction : Row → Option TokenDict → Outcome Row
  parse_taiko_bridge_l1_to_l2_transaction transaction token_info =
      format_taiko_token_info p transaction token_info >>= λ l. returns (with_list l transaction)

  unfoldable pub parse_zk_bridge_transaction : Row → Option TokenDict → Outcome Row
  parse_zk_bridge_transaction transaction token_info =
      format_linea_token_info p transaction token_info >>= λ l. returns (with_list l transaction)

  unfoldable pub parse_mantle_bridge_l1_to_l2_transaction : Row → Option TokenDict → Outcome Row
  parse_mantle_bridge_l1_to_l2_transaction transaction token_info =
      format_mantle_token_info p transaction token_info true >>= λ l.
      returns (with_list l transaction)

  unfoldable pub parse_mantle_bridge_l2_to_l1_transaction : Row → Option TokenDict → Outcome Row
  parse_mantle_bridge_l2_to_l1_transaction transaction token_info = do
    finalized ← with_finalization transaction
    token_list ← format_mantle_token_info p finalized token_info false
    returns (with_list token_list finalized)

  unfoldable pub parse_bedrock_bridge_l1_to_l2_transaction :
      Row → Option TokenDict → String → Outcome Row
  parse_bedrock_bridge_l1_to_l2_transaction transaction token_info native_token =
      format_bedrock_token_info p transaction token_info native_token >>= λ l.
      returns (with_list l transaction)

  unfoldable pub parse_bedrock_bridge_l2_to_l1_transaction :
      Row → Option TokenDict → String → Outcome Row
  parse_bedrock_bridge_l2_to_l1_transaction transaction token_info native_token = do
    finalized ← with_finalization transaction
    token_list ← format_bedrock_token_info p finalized token_info native_token
    returns (with_list token_list finalized)

  module _ (self : BridgeTransactionParser) where
    -- A message of Mantle to the second layer is returned without the fields of the first version.
    unfoldable pub parse_bridge_l1_to_l2_transaction : Row → Option TokenDict → Outcome Row
    parse_bridge_l1_to_l2_transaction transaction token_info =
        let compatible = λ (made : Outcome Row).
          if self.bridge_compatible
          then (made >>= λ r. handle_transaction_info_for_v1 r r)
          else made in
        if self.rollup_type == "op"
        then (if self.chain == "mantle"
            then parse_mantle_bridge_l1_to_l2_transaction transaction token_info
            else compatible (
                parse_bedrock_bridge_l1_to_l2_transaction transaction token_info self.native_token))
        else if self.rollup_type == "zk"
        then compatible (
            if self.chain == "taiko"
            then parse_taiko_bridge_l1_to_l2_transaction transaction token_info
            else parse_zk_bridge_transaction transaction token_info)
        else if self.rollup_type == "arbitrum"
        then compatible
            (parse_bedrock_bridge_l1_to_l2_transaction transaction token_info self.native_token)
        else raises other

    -- `self.bridge_compatible is not None` holds of either truth value.
    unfoldable pub parse_bridge_l2_to_l1_transaction :
        (String → Outcome Time)
        → (current_time : ℕ) → Row
        → Option TokenDict
        → (finalized_block_number : Option ℕ) → Outcome Row
    parse_bridge_l2_to_l1_transaction fromisoformat current_time transaction token_info finalized =
        if self.rollup_type == "op"
        then ((if self.chain == "mantle"
              then parse_mantle_bridge_l2_to_l1_transaction transaction token_info
              else parse_bedrock_bridge_l2_to_l1_transaction transaction token_info
                  self.native_token)
            >>= λ r.
                determine_op_bedrock_withdrawal_state fromisoformat current_time r finalized
                  self.withdrawal_expired_day
                >>= λ status.
                    let shown = put "status" (scalar (num status)) r in
                    handle_transaction_info_for_v1 shown shown)
        else if self.rollup_type == "zk"
        then if self.chain == "taiko"
          then (parse_taiko_bridge_l2_to_l1_transaction transaction token_info
              >>= handle_transaction_info_for_v1 transaction)
          else (parse_zk_bridge_transaction transaction token_info >>= λ r.
              handle_transaction_info_for_v1 r r)
        else if self.rollup_type == "arbitrum"
        then (parse_bedrock_bridge_l2_to_l1_transaction transaction token_info self.native_token
            >>= λ r. handle_transaction_info_for_v1 r r)
        else raises other
