-- ===== src/Blocks/Filters.antt =====
-- `ExportBlocksJob._collect`: the filters of the run give the specification that its transactions must
-- satisfy and, when it is only for logs, the blocks that are fetched.
use hemera_indexer.Prelude.{
  Option, none, some, has, ℕ, zero, suc, ◌+◌, ◌-◌, String, Bool, true, false, ◌&&◌, List, [], ◌∷◌,
  ◌++◌, map, if◌then◌else◌, nat_eq, string_eq,
}
use hemera_indexer.Errors.{Outcome, returns, raises, value_error, ◌>>=◌}
use hemera_indexer.Blocks.Specification.{
  Specification, always_true, always_false, or_specification, hash_in, to_specifications, or_spec,
}

-- A `TopicSpecification` of a log filter.
pub record TopicSpecification : Type 0 where
  pub topics : List String
  pub addresses : List String

pub data Filter : Type 0 where
  by_logs : List TopicSpecification → Filter
  by_transaction_info : List Specification → Filter
  unsupported : Filter

-- A log that the node found: the number of its block, and its transaction.
pub record FoundLog : Type 0 where
  pub block_number : ℕ
  pub transaction_hash : String

-- What the loop over the filters carries along; `filter_blocks` is a set.
pub record Collected : Type 0 where
  pub only_log_filter : Bool
  pub filter_blocks : List ℕ
  pub specification : Specification

-- `set.update`
abbrev pub add_all : List ℕ → List ℕ → List ℕ
add_all ns [] = ns
add_all ns (n ∷ rest) = add_all (if has n ns then ns else ns ++ n ∷ []) rest

abbrev pub take_logs : List FoundLog → Collected → Collected
take_logs logs c = record {
  only_log_filter = c.only_log_filter;
  filter_blocks = add_all c.filter_blocks (map (λ l. l.block_number) logs);
  specification = or_spec c.specification (hash_in (map (λ l. l.transaction_hash) logs));
}

-- The parameters of `eth.get_logs`: a log has one of the topics as its first, and one of the addresses,
-- where they are given.
pub record LogQuery : Type 0 where
  pub topics : Option (List (List String))
  pub address : Option (List String)
  pub from_block : ℕ
  pub to_block : ℕ

-- `if values: params[...] = ...`
abbrev pub if_any {ℓ} : {A : Type ℓ} → List String → A → Option A
if_any [] value = none
if_any (x ∷ xs) value = some value

-- `to_filter_params`, with the range that the loop puts in. The addresses of a filter have a checksum:
-- `TransactionFilterByLogs` has asked for each when it was made.
abbrev pub to_filter_params : (String → String) → (start end : ℕ) → TopicSpecification → LogQuery
to_filter_params to_checksum_address start end spec = record {
  topics = if_any spec.topics (spec.topics ∷ []);
  address = if_any spec.addresses (map to_checksum_address spec.addresses);
  from_block = start;
  to_block = end;
}

module _ (to_checksum_address : String → String) (get_logs : LogQuery → Outcome (List FoundLog))
    (start end : ℕ) where
  unfoldable pub collect_topics : List TopicSpecification → Collected → Outcome Collected
  collect_topics [] c = returns c
  collect_topics (spec ∷ specs) c = do
    logs ← get_logs (to_filter_params to_checksum_address start end spec)
    collect_topics specs (take_logs logs c)

  unfoldable pub collect_filter : Filter → Collected → Outcome Collected
  unfolding collect_topics
  collect_filter (by_logs specs) c = collect_topics specs c
  collect_filter (by_transaction_info specs) c = returns (record {
    only_log_filter = false;
    filter_blocks = c.filter_blocks;
    specification = or_spec c.specification (or_specification (to_specifications specs));
  })
  collect_filter unsupported c = raises value_error

  unfoldable pub collect_filters : List Filter → Collected → Outcome Collected
  unfolding collect_filter
  collect_filters [] c = returns c
  collect_filters (filter ∷ filters) c = do c2 ← collect_filter filter c; collect_filters filters c2

-- `range(start, end + 1)`
abbrev pub from_on : ℕ → ℕ → List ℕ
from_on start zero = []
from_on start (suc n) = start ∷ from_on (suc start) n

-- The blocks and the specification of a run from `start` to `end`.
unfoldable pub collect_blocks :
    (String → String)
    → (LogQuery → Outcome (List FoundLog))
    → (is_filter : Bool) → (start end : ℕ) → List Filter
    → Outcome (List ℕ × Specification)
unfolding collect_filters
collect_blocks to_checksum_address get_logs is_filter start end filters = do
  c ← collect_filters to_checksum_address get_logs start end filters (record {
    only_log_filter = true;
    filter_blocks = [];
    specification = if is_filter then always_false else always_true;
  })
  returns (
    if is_filter && c.only_log_filter then c.filter_blocks else from_on start (end + 1 - start),
    c.specification,
  )
