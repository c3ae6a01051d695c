-- ===== src/Tests/Utils.antt =====
-- indexer/utils/utils.py at small inputs.
use hemera_indexer.Prelude.{
  concat, arith, ◌↔◌, ℕ, ◌≡◌, refl, none, some, List, [], ◌∷◌, nat_eq, lookup, insert, ◌==◌,
  if◌then◌else◌,
}
use hemera_indexer.Prelude.Int.{neg}
use hemera_indexer.Errors.{raises, hemera, rpc_not_reachable, codes, has_text, lower, same_text}
use hemera_indexer.Errors.Decoding.{
  RpcError, decode_response_error, decode_response_error-RaisedFor, RaisedFor, is_invalid_opcode,
  is_execution_failure, is_history_missing,
}
use hemera_indexer.Utils.Batches.{dynamic_batch_iterator, Sized, dynamic_batch_iterator-Batches}
use hemera_indexer.Utils.Ranges.{Tiles, split_to_batches, split_to_batches-Tiles}
use hemera_indexer.Utils.Rpc.{Response}
use hemera_indexer.Utils.Distinct.{distinct_collections_by_group, keep_item}

-- The size falls from three to two after the first batch.
abbrev sizes : ℕ → ℕ
sizes n = if n == 0 then 3 else 2

abbrev items : List ℕ
items = 1 ∷ 2 ∷ 3 ∷ 4 ∷ 5 ∷ 6 ∷ []

dynamic_batch_iterator-Batches_example :
    (concat (dynamic_batch_iterator sizes items) ≡ items)
    × Sized sizes 0 (dynamic_batch_iterator sizes items)
dynamic_batch_iterator-Batches_example = dynamic_batch_iterator-Batches sizes items

split_to_batches-Tiles_example : Tiles 4 3 13 (split_to_batches 3 12 4)
split_to_batches-Tiles_example = split_to_batches-Tiles 3 12 4 (omega arith) (omega arith)

abbrev self_id : ℕ → ℕ
self_id n = n

abbrev refused : RpcError
refused = record { code = some (neg 32000); message = some (codes "header not found") }

refused-decoded :
    decode_response_error refused ≡ raises (hemera (rpc_not_reachable (codes "header not found")))
unfolding decode_response_error is_invalid_opcode is_execution_failure is_history_missing has_text
    lower same_text
refused-decoded = refl

decode_response_error-RaisedFor_example :
    (decode_response_error refused ≡ raises (hemera (rpc_not_reachable (codes "header not found"))))
    ↔ RaisedFor refused (rpc_not_reachable (codes "header not found"))
decode_response_error-RaisedFor_example =
    decode_response_error-RaisedFor refused (rpc_not_reachable (codes "header not found"))

abbrev answer : ℕ → ℕ → Response ℕ
answer i r = record { id = i; result = some r; error = none }

abbrev group_of : ℕ × ℕ → ℕ
group_of p = p.0

abbrev rank_of : ℕ × ℕ → ℕ
rank_of p = p.1

abbrev balances : List (ℕ × ℕ)
balances = (1, 5) ∷ (2, 4) ∷ (1, 9) ∷ []

distinct-balances :
    distinct_collections_by_group group_of (some rank_of) balances ≡ (1, 9) ∷ (2, 4) ∷ []
unfolding distinct_collections_by_group keep_item lookup insert
distinct-balances = refl
