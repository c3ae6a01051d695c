-- ===== src/Bridges/Bedrock/Calls.antt =====
-- indexer/modules/bridge/bedrock/parser/function_parser/: the call that a message makes on the other side.
use hemera_indexer.Prelude.{
  ℕ, Option, none, some, List, [], ◌∷◌, take, length, ltb, if◌then◌else◌, ◌==◌,
}
use hemera_indexer.Errors.{Message, message_eq, Outcome, returns, raises, value_error, ◌>>=◌}
use hemera_indexer.Transfers.{Address}
use hemera_indexer.Bridges.Bytes.{Bytes}
use hemera_indexer.Bridges.Arbitrum.Messages.{to_hex}

-- `BedRockFunctionCallType`
pub data BedRockFunctionCallType : Type 0 where
  native_bridge_eth bridge_eth bridge_erc20 bridge_erc721 normal_cross_chain_call :
      BedRockFunctionCallType

unfoldable pub value_of : BedRockFunctionCallType → ℕ
value_of native_bridge_eth = 0
value_of bridge_eth = 1
value_of bridge_erc20 = 2
value_of bridge_erc721 = 3
value_of normal_cross_chain_call = 7

-- What is kept of the token, in `extra_info`.
pub data TokenInfo : Type 0 where
  no_token : TokenInfo
  erc20_amount : ℕ → TokenInfo
  erc721_ids : List ℕ → List ℕ → TokenInfo

pub record BridgeRemoteFunctionCallInfo : Type 0 where
  pub bridge_from_address : Address
  pub bridge_to_address : Address
  pub local_token_address : Option Address
  pub remote_token_address : Option Address
  pub amount : ℕ
  pub extra_info : TokenInfo
  pub remote_function_call_type : ℕ

-- The arguments of the three calls. The one without tokens has no token addresses.
pub record FinalizeArgs : Type 0 where
  pub local_token : Address
  pub remote_token : Address
  pub from : Address
  pub to : Address
  pub amount_or_id : ℕ

pub record CallCodec : Type 0 where
  pub eth_selector : Message
  pub erc20_selector : Message
  pub erc721_selector : Message
  pub finalize_eth : Bytes → Outcome FinalizeArgs
  pub finalize_erc20 : Bytes → Outcome FinalizeArgs
  pub finalize_erc721 : Bytes → Outcome FinalizeArgs

-- `"0x" + input[:4].hex().lower()`
abbrev pub selector_of : Bytes → Message
selector_of input = to_hex (take 4 input)

module _ (codec : CallCodec) where
  decode_eth : Bytes → Outcome BridgeRemoteFunctionCallInfo
  unfolding value_of
  decode_eth input_data = do
    info ← codec.finalize_eth input_data
    returns (record {
      bridge_from_address = info.from;
      bridge_to_address = info.to;
      local_token_address = none;
      remote_token_address = none;
      amount = info.amount_or_id;
      extra_info = no_token;
      remote_function_call_type = value_of bridge_eth;
    })

  decode_erc20 : Bytes → Outcome BridgeRemoteFunctionCallInfo
  unfolding value_of
  decode_erc20 input_data = do
    info ← codec.finalize_erc20 input_data
    returns (record {
      bridge_from_address = info.from;
      bridge_to_address = info.to;
      local_token_address = some (info.local_token);
      remote_token_address = some (info.remote_token);
      amount = info.amount_or_id;
      extra_info = erc20_amount info.amount_or_id;
      remote_function_call_type = value_of bridge_erc20;
    })

  decode_erc721 : Bytes → Outcome BridgeRemoteFunctionCallInfo
  unfolding value_of
  decode_erc721 input_data = do
    info ← codec.finalize_erc721 input_data
    returns (record {
      bridge_from_address = info.from;
      bridge_to_address = info.to;
      local_token_address = some (info.local_token);
      remote_token_address = some (info.remote_token);
      amount = 1;
      extra_info = erc721_ids (info.amount_or_id ∷ []) (1 ∷ []);
      remote_function_call_type = value_of bridge_erc721;
    })

  -- The first decoder with the selector of the call decides. The decoders assert that selector again, and
  -- the decoding of a call never gives `None`.
  unfoldable pub get_remote_function_call_info : Bytes → Outcome BridgeRemoteFunctionCallInfo
  unfolding decode_eth decode_erc20 decode_erc721
  get_remote_function_call_info transaction_input =
      if ltb (length transaction_input) 4
      then raises value_error
      else let selector = selector_of transaction_input in
        if codec.eth_selector == selector
        then decode_eth transaction_input
        else if codec.erc20_selector == selector
        then decode_erc20 transaction_input
        else if codec.erc721_selector == selector
        then decode_erc721 transaction_input
        else raises value_error
