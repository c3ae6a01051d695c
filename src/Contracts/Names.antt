-- ===== src/Contracts/Names.antt =====
-- `contract_info_rpc_requests` of indexer/jobs/export_contracts_job.py: the names in the answers.
use hemera_indexer.Prelude.{
  ℕ, ◌≡◌, ap, ◌∙◌, sym, true, Bool, Option, none, some, List, [], ◌∷◌, map, drop, Dict, lookup,
  insert, nat_eq,
}
use hemera_indexer.Errors.{Message, Outcome, returns, raises, other, ◌>>=◌}
use hemera_indexer.Utils.Rpc.{Response, rpc_response_to_result, zip_rpc_response}
use hemera_indexer.Bridges.Bytes.{Bytes}
use hemera_indexer.Bridges.Hex.{from_hex}
use hemera_indexer.TokenIds.Requests.{without_nulls}
use hemera_indexer.Balances.Answers.{
  numbered, request_id, Provider, answers_to, SameAnswers, zip_rpc_response-eq,
}
use hemera_indexer.Contracts.{Contract, Asked}

-- The names by the ids of the requests, unless a response raises, and the contracts whose names could
-- not be decoded.
abbrev pub Names : Type 0
Names = Dict ℕ (Option Message)

abbrev pub Read : Type 0
Read = Outcome Names × List Contract

module _ (string : Bytes → Outcome Message) where
  -- `abi.decode(["string"], bytes.fromhex(info))`; of `None` it is a `TypeError`.
  abbrev pub decoded_name : Option Message → Outcome Message
  decoded_name none = raises other
  decoded_name (some result) =
      from_hex (drop 2 result) >>= string >>= λ text. returns (without_nulls text)

  abbrev with_name : ℕ × Asked → Outcome Message → Names → Names
  with_name (idx, asked) (returns text) names = insert idx (some text) names
  with_name (idx, asked) (raises e) names = insert idx none names

  abbrev failed_name : ℕ × Asked → Outcome Message → List Contract → List Contract
  failed_name (idx, asked) (returns text) failed = failed
  failed_name (idx, asked) (raises e) failed = asked.contract ∷ failed

  -- The loop, on the names that are set so far.
  abbrev read_names : List ((ℕ × Asked) × Response Message) → Names → Read
  read_names [] names = (returns names, [])
  read_names ((request, response) ∷ rest) names = elim (rpc_response_to_result response) [
    | raises e ↦ (raises e, [])
    | returns result ↦
        let (done, failed) = read_names rest (with_name request (decoded_name result) names) in
        (done, failed_name request (decoded_name result) failed)
  ]

  abbrev named : Names → ℕ × Asked → Contract
  named names (idx, asked) = record asked.contract { name = lookup idx names }

  abbrev contracts_from :
      List (ℕ × Asked) → Outcome (List (Response Message)) → Outcome (List Contract) × List Contract
  contracts_from requests (raises e) = (raises e, [])
  contracts_from requests (returns responses) =
      let (done, failed) = read_names (zip_rpc_response request_id requests responses) [] in
      (done >>= λ names. returns (map (named names) requests), failed)

  -- `contract_info_rpc_requests(make_requests, contracts, is_batch)`: the contracts are changed where
  -- they stand, so those without a response come back as well, with no name set.
  unfoldable pub contract_info_rpc_requests :
      Provider Asked → List Asked → Bool → Outcome (List Contract) × List Contract
  contract_info_rpc_requests make_requests contracts is_batch =
      contracts_from (numbered 0 contracts)
        (answers_to make_requests (numbered 0 contracts) is_batch)

  -- The order of the responses of a batch is of no account: two providers that answer each request id
  -- with the same last response give the same names.
  pub contract_info_rpc_requests-eq :
      (first second : Provider Asked) (contracts : List Asked)
      (one another : List (Response Message))
      → first.batch (numbered 0 contracts) ≡ returns one
      → second.batch (numbered 0 contracts) ≡ returns another
      → SameAnswers one another
      → contract_info_rpc_requests first contracts true
        ≡ contract_info_rpc_requests second contracts true
  unfolding contract_info_rpc_requests
  contract_info_rpc_requests-eq first second contracts one another says_one says_another same =
      let requests = numbered 0 contracts in
      let from_pairs : List ((ℕ × Asked) × Response Message)
          → Outcome (List Contract) × List Contract =
        λ pairs.
          let (done, failed) = read_names pairs [] in
          (done >>= λ names. returns (map (named names) requests), failed) in
      ap (contracts_from requests) says_one
      ∙ ap from_pairs (zip_rpc_response-eq one another requests same)
      ∙ sym (ap (contracts_from requests) says_another)
