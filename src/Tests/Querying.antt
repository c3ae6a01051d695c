-- ===== src/Tests/Querying.antt =====
-- Token ids, balances and contracts that are asked for, and answers to them.
use hemera_indexer.Prelude.{
  has, ℕ, ◌≡◌, refl, String, true, false, ◌||◌, Option, none, some, List, [], ◌∷◌, ◌++◌, Distinct,
  nat_eq,
}
use hemera_indexer.Prelude.Int.{ℤ, pos}
use hemera_indexer.Errors.{Message, codes, returns, raises, other}
use hemera_indexer.Transfers.{erc721}
use hemera_indexer.Utils.Rpc.{Response, rpc_response_to_result}
use hemera_indexer.Utils.Sorting.{sort_by, insert_by}
use hemera_indexer.Bridges.Bytes.{from_bytes}
use hemera_indexer.Bridges.Hex.{from_hex}
use hemera_indexer.Utils.Groups.{latest_of_each, group_by}
use hemera_indexer.TokenIds.{TokenIdInfo}
use hemera_indexer.TokenIds.Infos.{
  IdTransfer, info_eq, generate_token_id_info, any_needs, generate_token_id_info-exact,
}
use hemera_indexer.TokenIds.Requests.{
  Function, Codec, Provider, token_ids_info_rpc_requests, answers_to, collect_answers, Place,
  erc721_update, erc721_change,
}
use hemera_indexer.TokenIds.Latest.{DataBuff, process, IsLatest, process-IsLatest}

abbrev hash : Message → ℤ
hash text = pos 7

abbrev transfer : ℕ → String → IdTransfer
transfer id from = record {
  token_address = codes "0xaa";
  token_id = id;
  token_type = erc721;
  from_address = codes from;
  block_number = 20;
  block_timestamp = 9;
}

generate_token_id_info-exact_example :
    let asked = generate_token_id_info hash (transfer 1 "0x01" ∷ transfer 1 "0x02" ∷ []) [] in
    Distinct asked
    × ((i : TokenIdInfo)
        → has i asked
          ≡ (any_needs hash i (transfer 1 "0x01" ∷ transfer 1 "0x02" ∷ []) || any_needs hash i []))
generate_token_id_info-exact_example =
    generate_token_id_info-exact hash (transfer 1 "0x01" ∷ transfer 1 "0x02" ∷ []) []

abbrev encode_abi : Function → ℕ → Message
encode_abi f id = codes "0x" ++ id ∷ []

abbrev codec : Codec
codec = record {
  string = λ bytes. returns bytes;
  address = λ bytes. returns bytes;
  uint256 = λ bytes. returns (from_bytes bytes);
}

abbrev owner_asked : ℕ → TokenIdInfo
owner_asked id = record {
  address = codes "0xaa";
  token_id = id;
  token_type = erc721;
  block_number = 20;
  block_timestamp = 9;
  is_get_token_uri = false;
  request_id = pos id;
}

abbrev answer : ℕ → String → Response Message
answer id text = record { id = id; result = some (codes text); error = none }

abbrev says : List (Response Message) → Provider
says responses = record { batch = λ calls. returns responses; single = λ c. raises other }

abbrev place : ℕ → ℕ → Place
place id block = record {
  token_address = codes "0xaa";
  token_id = id;
  block_number = block;
  block_timestamp = 9;
}

abbrev two : List TokenIdInfo
two = owner_asked 0 ∷ owner_asked 1 ∷ []

-- The answers come in the other order, with the ids of their requests: the owners are exchanged.
swapped_owners :
    (token_ids_info_rpc_requests encode_abi codec
      (says (answer 1 "0xbb" ∷ answer 0 "0xcc" ∷ []))
      two
      true).0
    ≡ returns (
        erc721_update (place 0 20) (187 ∷ [])
        ∷ erc721_change (place 0 20) (187 ∷ [])
        ∷ erc721_update (place 1 20) (204 ∷ [])
        ∷ erc721_change (place 1 20) (204 ∷ [])
        ∷ [])
unfolding token_ids_info_rpc_requests rpc_response_to_result answers_to collect_answers from_hex
swapped_owners = refl

abbrev results : List (Option Message)
results = some (codes "0xbb") ∷ some (codes "0x0") ∷ []

abbrev collected : DataBuff
collected = record {
  erc721_details = [];
  erc721_updates = (place 1 21, 5 ∷ []) ∷ (place 2 20, 6 ∷ []) ∷ (place 1 20, 7 ∷ []) ∷ [];
  erc721_changes = (place 1 21, 5 ∷ []) ∷ [];
  erc1155_details = [];
  erc1155_updates = (place 3 20, 8) ∷ (place 3 20, 8) ∷ [];
}

latest_owners :
    (process collected).erc721_updates ≡ (place 1 21, 5 ∷ []) ∷ (place 2 20, 6 ∷ []) ∷ []
unfolding process latest_of_each group_by sort_by insert_by
latest_owners = refl

process-IsLatest_example :
    IsLatest collected.erc721_updates (process collected).erc721_updates
    × IsLatest collected.erc1155_updates (process collected).erc1155_updates
    × ((process collected).erc721_changes ≡ (place 1 21, 5 ∷ []) ∷ [])
    × ((process collected).erc721_details ≡ [])
    × ((process collected).erc1155_details ≡ [])
process-IsLatest_example = process-IsLatest collected
