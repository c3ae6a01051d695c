-- ===== src/Utils/Rpc.antt =====
-- The reading of JSON-RPC responses, `rpc_response_to_result`, `rpc_response_batch_to_results` and
-- `zip_rpc_response` of indexer/utils/utils.py. A result is opaque, of any type.
use hemera_indexer.Prelude.{
  ℕ, ◌≡◌, refl, Option, none, some, List, [], ◌∷◌, map, arith, ◌↔◌, nat_eq, Dict, lookup, insert,
  lookup-insert, if◌then◌else◌, ◌==◌,
}
use hemera_indexer.Errors.{
  Outcome, returns, raises, hemera, retriable_error, Message, codes, ◌>>=◌, >>=-eq-returns,
}
use hemera_indexer.Errors.Decoding.{RpcError, decode_response_error}

-- A response object; a field that is missing reads as `None`.
pub record Response {ℓ} (R : Type ℓ) : Type ℓ where
  pub id : ℕ
  pub result : Option R
  pub error : Option RpcError

-- The text of the exception, less the print of the response.
abbrev not_synced : Message
not_synced = codes "result is None in response. Make sure Ethereum node is synced."

module _ {ℓ} {R : Type ℓ} where
  abbrev none_for : Outcome (Unit {0}) → Outcome (Option R)
  none_for (returns _) = returns none
  none_for (raises e) = raises e

  -- `rpc_response_to_result(response)`
  unfoldable pub rpc_response_to_result : Response R → Outcome (Option R)
  rpc_response_to_result response = elim response.result [
    | some result ↦ returns (some result)
    | none ↦ elim response.error [
      | none ↦ raises (hemera (retriable_error not_synced))
      | some error ↦ none_for (decode_response_error error)
    ]
  ]

  -- `rpc_response_batch_to_results(response)`, run to its end: the first exception ends it.
  unfoldable pub rpc_response_batch_to_results : List (Response R) → Outcome (List (Option R))
  rpc_response_batch_to_results [] = returns []
  rpc_response_batch_to_results (item ∷ rest) = do
    result ← rpc_response_to_result item
    results ← rpc_response_batch_to_results rest
    returns (result ∷ results)

  results-map :
      (batch : List (Response R)) (results : List (Option R))
      → rpc_response_batch_to_results batch ≡ returns results
      → map rpc_response_to_result batch ≡ map returns results
  unfolding rpc_response_batch_to_results
  results-map [] results h = ground arith
  results-map (item ∷ rest) results h =
      let (r, first, after) = >>=-eq-returns (rpc_response_to_result item) _ h in
      let (rs, others, last) = >>=-eq-returns (rpc_response_batch_to_results rest) _ after in
      let same : r ∷ rs ≡ results = cc in rw (← same) (cc (first, results-map rest rs others))

  map-results :
      (batch : List (Response R)) (results : List (Option R))
      → map rpc_response_to_result batch ≡ map returns results
      → rpc_response_batch_to_results batch ≡ returns results
  unfolding rpc_response_batch_to_results
  map-results [] [] h = refl
  map-results [] (r ∷ results) h = cc
  map-results (item ∷ rest) [] h = cc
  map-results (item ∷ rest) (r ∷ results) h =
      let first : rpc_response_to_result item ≡ returns r = cc in
      let others : map rpc_response_to_result rest ≡ map returns results = cc in
      rw (first, map-results rest results others)

  -- A batch has results exactly when every response of it has one, and then they stand in the
  -- places of their responses.
  pub rpc_response_batch_to_results-eq-map :
      (batch : List (Response R)) (results : List (Option R))
      → (rpc_response_batch_to_results batch ≡ returns results)
        ↔ (map rpc_response_to_result batch ≡ map returns results)
  rpc_response_batch_to_results-eq-map batch results =
      (results-map batch results, map-results batch results)

  response_dict : List (Response R) → Dict ℕ (Response R) → Dict ℕ (Response R)
  response_dict [] found = found
  response_dict (response ∷ rest) found = response_dict rest (insert response.id response found)

  module _ {κ} {Q : Type κ} (request_id : Q → ℕ) where
    with_response : Dict ℕ (Response R) → List Q → List (Q × Response R)
    with_response found [] = []
    with_response found (request ∷ rest) =
        let others = with_response found rest in
        elim (lookup (request_id request) found) [
          | some response ↦ (request, response) ∷ others
          | none ↦ others
        ]

    -- `zip_rpc_response(requests, responses, index)`
    unfoldable pub zip_rpc_response : List Q → List (Response R) → List (Q × Response R)
    unfolding with_response response_dict
    zip_rpc_response requests responses = with_response (response_dict responses []) requests

  -- The last response with an id.
  abbrev pub last_with : ℕ → List (Response R) → Option (Response R)
  last_with k [] = none
  last_with k (r ∷ rest) = elim (last_with k rest) [
    | some later ↦ some later
    | none ↦ if k == r.id then some r else none
  ]

  abbrev or_else : Option (Response R) → Option (Response R) → Option (Response R)
  or_else (some r) other = some r
  or_else none other = other

  lookup-response_dict :
      (k : ℕ) (responses : List (Response R)) (found : Dict ℕ (Response R))
      → lookup k (response_dict responses found) ≡ or_else (last_with k responses) (lookup k found)
  unfolding response_dict
  lookup-response_dict k [] found = refl
  lookup-response_dict k (r ∷ rest) found =
      rw (lookup-response_dict k rest (insert r.id r found))
        (ground (arith, lookup-insert r.id k r found))

  module _ {κ} {Q : Type κ} (request_id : Q → ℕ) where
    abbrev pub with_last : List (Response R) → List Q → List (Q × Response R)
    with_last responses [] = []
    with_last responses (request ∷ rest) =
        let others = with_last responses rest in
        elim (last_with (request_id request) responses) [
          | some response ↦ (request, response) ∷ others
          | none ↦ others
        ]

    with_response-eq-with_last :
        (responses : List (Response R)) (requests : List Q)
        → with_response request_id (response_dict responses []) requests
          ≡ with_last responses requests
    unfolding with_response lookup
    with_response-eq-with_last responses [] = refl
    with_response-eq-with_last responses (request ∷ rest) = ground (
      arith,
      lookup-response_dict (request_id request) responses [],
      with_response-eq-with_last responses rest,
    )

    -- The pairs are the requests that were answered, in their order, each with the last response
    -- that has its id.
    pub zip_rpc_response-eq-with_last :
        (requests : List Q) (responses : List (Response R))
        → zip_rpc_response request_id requests responses ≡ with_last responses requests
    unfolding zip_rpc_response
    zip_rpc_response-eq-with_last requests responses = with_response-eq-with_last responses requests
