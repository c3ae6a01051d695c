-- ===== src/TokenIds/Answered.antt =====
-- What the answers to a batch of token ids are made into.
use hemera_indexer.Prelude.{
  ℕ, ◌≡◌, refl, ap, ◌∙◌, sym, true, Option, none, some, List, [], ◌∷◌, ◌++◌, map, drop,
}
use hemera_indexer.Errors.{Message, Outcome, returns, raises}
use hemera_indexer.Utils.Rpc.{Response, rpc_response_to_result}
use hemera_indexer.TokenIds.{TokenIdInfo}
use hemera_indexer.TokenIds.Requests.{
  Function, Codec, Provider, call_of, Detail, Collected, zip, decoded, collect_answer,
  collect_answers, collect_from, answers_to, token_ids_info_rpc_requests,
}

-- The result of a response, without its id.
abbrev pub results_of :
    Outcome (List (Response Message)) → Outcome (List (Outcome (Option Message)))
results_of (returns responses) = returns (map rpc_response_to_result responses)
results_of (raises e) = raises e

module _ (abi : Codec) where
  -- The rounds, from the results alone.
  abbrev collect_results : List TokenIdInfo → List (Outcome (Option Message)) → Collected
  collect_results (i ∷ infos) (result ∷ results) =
      collect_answer abi result i (collect_results infos results)
  collect_results _ _ = (returns [], [])

  abbrev collect_all : List TokenIdInfo → Outcome (List (Outcome (Option Message))) → Collected
  collect_all infos (returns results) = collect_results infos results
  collect_all infos (raises e) = (raises e, [])

  collect_answers-zip :
      (infos : List TokenIdInfo) (responses : List (Response Message))
      → collect_answers abi (zip infos responses)
        ≡ collect_results infos (map rpc_response_to_result responses)
  unfolding collect_answers
  collect_answers-zip [] responses = refl
  collect_answers-zip (i ∷ infos) [] = refl
  collect_answers-zip (i ∷ infos) (response ∷ responses) =
      ap (collect_answer abi (rpc_response_to_result response) i)
        (collect_answers-zip infos responses)

  collect_from-results :
      (infos : List TokenIdInfo) (answer : Outcome (List (Response Message)))
      → collect_from abi infos answer ≡ collect_all infos (results_of answer)
  collect_from-results infos (returns responses) = collect_answers-zip infos responses
  collect_from-results infos (raises e) = refl

  -- What a token id is made into, if its answer has this result.
  abbrev pub details_of : TokenIdInfo → Option Message → List Detail
  details_of i none = []
  details_of i (some result) = elim (decoded abi i (drop 2 result)) [
    | returns items ↦ items
    | raises e ↦ []
  ]

  abbrev pub failed_of : TokenIdInfo → Option Message → List TokenIdInfo
  failed_of i none = []
  failed_of i (some result) = elim (decoded abi i (drop 2 result)) [
    | returns items ↦ []
    | raises e ↦ i ∷ []
  ]

  abbrev pub all_details : List (TokenIdInfo × Option Message) → List Detail
  all_details [] = []
  all_details ((i, result) ∷ rest) = details_of i result ++ all_details rest

  abbrev pub all_failed : List (TokenIdInfo × Option Message) → List TokenIdInfo
  all_failed [] = []
  all_failed ((i, result) ∷ rest) = failed_of i result ++ all_failed rest

module _ (encode_abi : Function → ℕ → Message) (abi : Codec) where
  -- The answers are paired with the token ids by their places in the batch: two providers whose
  -- responses have the same results or errors, in the same places, give the same details, whatever
  -- ids the responses have.
  pub token_ids_info_rpc_requests-eq :
      (one another : Provider) (infos : List TokenIdInfo)
      → let calls = map (call_of encode_abi) infos in
        results_of (one.batch calls) ≡ results_of (another.batch calls)
        → token_ids_info_rpc_requests encode_abi abi one infos true
          ≡ token_ids_info_rpc_requests encode_abi abi another infos true
  unfolding token_ids_info_rpc_requests answers_to
  token_ids_info_rpc_requests-eq one another infos same =
      let calls = map (call_of encode_abi) infos in
      collect_from-results abi infos (one.batch calls)
      ∙ ap (collect_all abi infos) same
      ∙ sym (collect_from-results abi infos (another.batch calls))
