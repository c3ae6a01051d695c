-- ===== src/TokenIds/Requests.antt =====
-- `token_ids_info_rpc_requests` of indexer/jobs/export_token_id_infos_job.py: the calls of a batch of
-- token ids, and the details that are read from the answers. The provider and the codec of web3 are
-- parameters.
use hemera_indexer.Prelude.{
  ℕ, zero, suc, ◌/◌, ◌%◌, Bool, true, false, Option, none, some, List, [], ◌∷◌, ◌++◌, map,
  if◌then◌else◌, ltb, ◌==◌, nat_eq, drop,
}
use hemera_indexer.Prelude.Int.{ℤ}
use hemera_indexer.Errors.{Message, codes, Outcome, returns, raises, other, ◌>>=◌}
use hemera_indexer.Transfers.{TokenType, erc721, erc1155, Address}
use hemera_indexer.Utils.Rpc.{Response, rpc_response_to_result}
use hemera_indexer.Bridges.Bytes.{Bytes}
use hemera_indexer.Bridges.Hex.{from_hex, hex_digit}
use hemera_indexer.TokenIds.{TokenIdInfo}

-- The four functions of the token contracts.
pub data Function : Type 0 where
  erc721_token_uri erc721_owner_of erc1155_token_uri erc1155_total_supply : Function

hex_digits : ℕ → ℕ → Message
hex_digits zero n = hex_digit (n % 16) ∷ []
hex_digits (suc fuel) n =
    let rest = hex_digits fuel (n / 16) in
    if ltb n 16 then hex_digit (n % 16) ∷ [] else rest ++ hex_digit (n % 16) ∷ []

-- `hex(n)`, on fuel: a number has no more digits than it counts.
unfoldable pub hex : ℕ → Message
unfolding hex_digits
hex n = codes "0x" ++ hex_digits n n

-- A call as `generate_eth_call_json_rpc` prints it.
pub record EthCall : Type 0 where
  pub request_id : ℤ
  pub param_to : Address
  pub param_data : Option Message
  pub param_number : Message

-- `encode_abi` with the prefix of the function.
module _ (encode_abi : Function → ℕ → Message) where
  unfoldable pub abi_selector_encode_and_decode_type : TokenIdInfo → Option Message
  abi_selector_encode_and_decode_type i = elim i.token_type [
    | erc721 ↦
        some
          (encode_abi (if i.is_get_token_uri then erc721_token_uri else erc721_owner_of) i.token_id)
    | erc1155 ↦ some (
        encode_abi (if i.is_get_token_uri then erc1155_token_uri else erc1155_total_supply)
          i.token_id)
    | _ ↦ none
  ]

  abbrev pub call_of : TokenIdInfo → EthCall
  call_of i = record {
    request_id = i.request_id;
    param_to = i.address;
    param_data = abi_selector_encode_and_decode_type i;
    param_number = hex i.block_number;
  }

-- The fields that the five classes share.
pub record Place : Type 0 where
  pub token_address : Address
  pub token_id : ℕ
  pub block_number : ℕ
  pub block_timestamp : ℕ

-- `ERC721TokenIdDetail`, `UpdateERC721TokenIdDetail`, `ERC721TokenIdChange`, `ERC1155TokenIdDetail`
-- and `UpdateERC1155TokenIdDetail`.
pub data Detail : Type 0 where
  erc721_detail erc1155_detail : Place → (token_uri : Message) → Detail
  erc721_update erc721_change : Place → (token_owner : Address) → Detail
  erc1155_update : Place → (token_supply : ℕ) → Detail

abbrev pub place_of : TokenIdInfo → Place
place_of i = record {
  token_address = i.address;
  token_id = i.token_id;
  block_number = i.block_number;
  block_timestamp = i.block_timestamp;
}

-- `text.replace("\u0000", "")`
unfoldable pub without_nulls : Message → Message
without_nulls [] = []
without_nulls (c ∷ text) = let rest = without_nulls text in if c == 0 then rest else c ∷ rest

-- The rounds of the loop: the details, unless a response raises, and the token ids whose answers could
-- not be decoded, which go to the exception recorder.
abbrev pub Collected : Type 0
Collected = Outcome (List Detail) × List TokenIdInfo

abbrev pub with_details : List Detail → Outcome (List Detail) → Outcome (List Detail)
with_details items others = others >>= λ xs. returns (items ++ xs)

abbrev pub add_decoded : Outcome (List Detail) → TokenIdInfo → Collected → Collected
add_decoded (returns items) i (others, failed) = (with_details items others, failed)
add_decoded (raises e) i (others, failed) = (others, i ∷ failed)

abbrev pub zip {ℓ κ} : {A : Type ℓ} {B : Type κ} → List A → List B → List (A × B)
zip (x ∷ xs) (y ∷ ys) = (x, y) ∷ zip xs ys
zip _ _ = []

-- `abi.decode` of one value.
pub record Codec : Type 0 where
  pub string : Bytes → Outcome Message
  pub address : Bytes → Outcome Address
  pub uint256 : Bytes → Outcome ℕ

module _ (abi : Codec) where
  -- The answer to an ERC721 call, and to any other.
  abbrev decoded_721 : TokenIdInfo → Bytes → Outcome (List Detail)
  decoded_721 i bytes =
      if i.is_get_token_uri
      then (abi.string bytes >>= λ uri.
          returns (erc721_detail (place_of i) (without_nulls uri) ∷ []))
      else (abi.address bytes >>= λ owner.
          returns (erc721_update (place_of i) owner ∷ erc721_change (place_of i) owner ∷ []))

  abbrev decoded_1155 : TokenIdInfo → Bytes → Outcome (List Detail)
  decoded_1155 i bytes =
      if i.is_get_token_uri
      then (abi.string bytes >>= λ uri.
          returns (erc1155_detail (place_of i) (without_nulls uri) ∷ []))
      else (abi.uint256 bytes >>= λ supply. returns (erc1155_update (place_of i) supply ∷ []))

  abbrev is_721 : TokenType → Bool
  is_721 erc721 = true
  is_721 _ = false

  -- The `try` block.
  unfoldable pub decoded : TokenIdInfo → Message → Outcome (List Detail)
  decoded i value = from_hex value >>= λ bytes.
      if is_721 i.token_type then decoded_721 i bytes else decoded_1155 i bytes

  -- One round, with what the later rounds collect.
  unfoldable pub collect_answer : Outcome (Option Message) → TokenIdInfo → Collected → Collected
  unfolding decoded
  collect_answer (raises e) i later = (raises e, [])
  collect_answer (returns none) i later = later
  collect_answer (returns (some result)) i later = add_decoded (decoded i (drop 2 result)) i later

  unfoldable pub collect_answers : List (TokenIdInfo × Response Message) → Collected
  unfolding collect_answer
  collect_answers [] = (returns [], [])
  collect_answers ((i, response) ∷ rest) =
      collect_answer (rpc_response_to_result response) i (collect_answers rest)

  abbrev pub collect_from : List TokenIdInfo → Outcome (List (Response Message)) → Collected
  collect_from infos (returns responses) = collect_answers (zip infos responses)
  collect_from infos (raises e) = (raises e, [])

-- The provider, for a batch and for a single call.
pub record Provider : Type 0 where
  pub batch : List EthCall → Outcome (List (Response Message))
  pub single : EthCall → Outcome (Response Message)

module _ (make_requests : Provider) where
  -- Without batches the first call alone is made; of no calls there is none, an `IndexError`.
  unfoldable pub answers_to : List EthCall → Bool → Outcome (List (Response Message))
  answers_to eth_calls true = make_requests.batch eth_calls
  answers_to [] false = raises other
  answers_to (eth_call ∷ rest) false =
      make_requests.single eth_call >>= λ response. returns (response ∷ [])

module _ (encode_abi : Function → ℕ → Message) (abi : Codec) (make_requests : Provider) where
  -- `token_ids_info_rpc_requests(make_requests, token_info_items, is_batch)`
  unfoldable pub token_ids_info_rpc_requests : List TokenIdInfo → Bool → Collected
  token_ids_info_rpc_requests infos is_batch =
      collect_from abi infos (answers_to make_requests (map (call_of encode_abi) infos) is_batch)
