-- ===== src/Traces.antt =====
-- indexer/jobs/export_traces_job.py: a block's call trees split into flat traces, the choice of the
-- internal transactions, and the counts for each block. A hex text is given as the number that it
-- stands for, and a call's own data are carried over as they are.
pub mod Splitting
pub mod Data
pub mod Addresses
pub mod Counts
use hemera_indexer.Prelude.{
  ℕ, zero, suc, ◌+◌, String, Bool, true, false, not, ◌&&◌, ◌||◌, Option, none, some, List, [], ◌∷◌,
  ◌++◌, map, if◌then◌else◌, ◌==◌, nat_eq, string_eq, is_some, length, ltb,
}
use hemera_indexer.Errors.{
  Message, codes, lower, same_text, Exception, hemera, history_unavailable, value_error, other,
  Outcome, returns, raises, ◌>>=◌,
}

pub record CallFields : Type 0 where
  pub type : Message
  pub from : Option String
  pub to : Option String
  pub input : Option String
  pub output : Option String
  pub value : Option ℕ
  pub gas : Option ℕ
  pub gas_used : Option ℕ
  pub error : Option String

mutual
  pub data CallTrace : Type 0 where
    call : CallFields → Calls → CallTrace

  pub data Calls : Type 0 where
    no_calls : Calls
    call_then : CallTrace → Calls → Calls

abbrev pub number_of : Calls → ℕ
number_of no_calls = 0
number_of (call_then tree calls) = suc (number_of calls)

-- `Trace`; the trace id is kept as the last of its three numbers, the others being fields anyway.
pub record Trace : Type 0 where
  pub id_index : ℕ
  pub from_address : Option String
  pub to_address : Option String
  pub input : Option String
  pub output : Option String
  pub value : Option ℕ
  pub gas : Option ℕ
  pub gas_used : Option ℕ
  pub trace_type : Message
  pub call_type : Message
  pub subtraces : ℕ
  pub trace_address : List ℕ
  pub error : Option String
  pub status : ℕ
  pub block_number : ℕ
  pub block_hash : String
  pub block_timestamp : ℕ
  pub transaction_index : ℕ
  pub transaction_hash : String
  pub trace_index : ℕ

abbrev pub is_call : Message → Bool
is_call type =
    same_text type (codes "call")
    || same_text type (codes "callcode")
    || same_text type (codes "delegatecall")
    || same_text type (codes "staticcall")

-- `trace_type` and `call_type`
unfoldable pub types_of : Message → Message × Message
types_of type =
    if same_text (lower type) (codes "selfdestruct")
    then (codes "suicide", [])
    else if is_call (lower type)
    then (codes "call", lower type)
    else (lower type, [])

pub record Block : Type 0 where
  pub number : ℕ
  pub hash : String
  pub timestamp : ℕ
  pub transaction_hashes : List String

-- The node's trace of one transaction.
pub record TransactionTrace : Type 0 where
  pub tx_hash : Option String
  pub result : CallTrace

module _ (block : Block) (tx_index : ℕ) (tx_hash : String) where
  unfoldable pub trace_of : CallFields → ℕ → List ℕ → ℕ → Trace
  unfolding types_of
  trace_of f subtraces trace_address trace_idx = record {
    id_index = trace_idx;
    from_address = f.from;
    to_address = f.to;
    input = f.input;
    output = f.output;
    value = f.value;
    gas = f.gas;
    gas_used = f.gas_used;
    trace_type = (types_of f.type).0;
    call_type = (types_of f.type).1;
    subtraces = subtraces;
    trace_address = trace_address;
    error = f.error;
    status = if is_some f.error then 0 else 1;
    block_number = block.number;
    block_hash = block.hash;
    block_timestamp = block.timestamp;
    transaction_index = tx_index;
    transaction_hash = tx_hash;
    trace_index = trace_idx + 1;
  }

  -- `_iterate_transaction_trace`, with `_trace_idx` passed along, and its loop over the calls.
  unfoldable mutual
    unfolding trace_of

    pub iterate_transaction_trace : CallTrace → List ℕ → ℕ → List Trace × ℕ
    iterate_transaction_trace (call f calls) trace_address trace_idx =
        let rest = iterate_calls calls trace_address 0 (trace_idx + 1) in
        (trace_of f (number_of calls) trace_address trace_idx ∷ rest.0, rest.1)

    pub iterate_calls : Calls → List ℕ → ℕ → ℕ → List Trace × ℕ
    iterate_calls no_calls trace_address call_index trace_idx = ([], trace_idx)
    iterate_calls (call_then tree calls) trace_address call_index trace_idx =
        let first = iterate_transaction_trace tree (trace_address ++ call_index ∷ []) trace_idx in
        let rest = iterate_calls calls trace_address (call_index + 1) first.1 in
        (first.0 ++ rest.0, rest.1)

-- `geth_trace_to_traces`, from the transaction with the given index on. A transaction without a hash
-- is a `KeyError`.
unfoldable pub geth_trace_to_traces : Block → ℕ → List TransactionTrace → Outcome (List Trace)
unfolding iterate_transaction_trace
geth_trace_to_traces block tx_index [] = returns []
geth_trace_to_traces block tx_index (tx ∷ txs) = elim tx.tx_hash [
  | none ↦ raises other
  | some tx_hash ↦ do
    let traces = (iterate_transaction_trace block tx_index tx_hash tx.result [] 0).0
    rest ← geth_trace_to_traces block (suc tx_index) txs
    returns (traces ++ rest)
]

abbrev pub with_hashes : List TransactionTrace → List String → List TransactionTrace
with_hashes (tx ∷ txs) (hash ∷ hashes) =
    record { tx_hash = some hash; result = tx.result } ∷ with_hashes txs hashes
with_hashes _ _ = []

-- The hashes that the node left out. An empty answer has no first transaction to look at.
unfoldable pub name_transactions : Block → List TransactionTrace → Outcome (List TransactionTrace)
name_transactions block [] = raises other
name_transactions block (tx ∷ txs) =
    if is_some tx.tx_hash
    then returns (tx ∷ txs)
    else if not (length (tx ∷ txs) == length block.transaction_hashes)
    then raises value_error
    else returns (with_hashes (tx ∷ txs) block.transaction_hashes)

-- The trace that stands for a block whose history the node no longer has. The fields that the
-- dictionary leaves out are `None`, for which the empty text and 0 stand where a field has no `none`.
abbrev pub unavailable : Block → Trace
unavailable block = record {
  id_index = 0;
  from_address = none;
  to_address = none;
  input = none;
  output = none;
  value = none;
  gas = none;
  gas_used = none;
  trace_type = [];
  call_type = [];
  subtraces = 0;
  trace_address = [];
  error = none;
  status = 0;
  block_number = block.number;
  block_hash = block.hash;
  block_timestamp = block.timestamp;
  transaction_index = 0;
  transaction_hash = "";
  trace_index = 0;
}

abbrev on_exception : Block → Exception → Outcome (List Trace)
on_exception block (hemera (history_unavailable message)) = returns (unavailable block ∷ [])
on_exception block e = raises e

-- The body of the loop of `traces_rpc_requests`, with what `rpc_response_to_result` gave.
unfoldable pub block_traces : Block → Outcome (List TransactionTrace) → Outcome (List Trace)
unfolding geth_trace_to_traces name_transactions
block_traces block (raises e) = on_exception block e
block_traces block (returns result) = do
  named ← name_transactions block result
  geth_trace_to_traces block 0 named

-- `is_contract_creation` and `is_transfer_value`
unfoldable pub is_contract_creation : Trace → Bool
is_contract_creation trace =
    same_text trace.trace_type (codes "create") || same_text trace.trace_type (codes "create2")

abbrev pub same_address : Option String → Option String → Bool
same_address none none = true
same_address (some a) (some b) = a == b
same_address _ _ = false

abbrev pub has_value : Option ℕ → Bool
has_value none = false
has_value (some n) = ltb 0 n

unfoldable pub is_transfer_value : Trace → Bool
is_transfer_value trace =
    has_value trace.value
    && not (same_address trace.from_address trace.to_address)
    && not (same_text trace.trace_type (codes "delegatecall"))

-- The traces that `_collect_batch` also collects as internal transactions.
unfoldable pub internal_transactions : List Trace → List Trace
unfolding is_contract_creation is_transfer_value
internal_transactions [] = []
internal_transactions (trace ∷ traces) =
    if is_contract_creation trace || is_transfer_value trace
    then trace ∷ internal_transactions traces
    else internal_transactions traces

pub record UpdateBlockInternalCount : Type 0 where
  pub hash : String
  pub traces_count : ℕ
  pub internal_transactions_count : ℕ

-- `groupby(traces, block_hash)`: the traces with the same hash as the one before.
abbrev pub take_group : String → List Trace → List Trace
take_group hash [] = []
take_group hash (t ∷ ts) = if t.block_hash == hash then t ∷ take_group hash ts else []

abbrev pub drop_group : String → List Trace → List Trace
drop_group hash [] = []
drop_group hash (t ∷ ts) = if t.block_hash == hash then drop_group hash ts else t ∷ ts

-- The group is an iterator: `list(traces)` uses it up, so that the sum after it runs over nothing.
abbrev pub count_creations : List Trace → ℕ
count_creations [] = 0
count_creations (t ∷ ts) = (if is_contract_creation t then 1 else 0) + count_creations ts

abbrev pub group_counts : String → List Trace → UpdateBlockInternalCount
group_counts hash traces =
    let used_up = [] in
    record {
      hash = hash;
      traces_count = length traces;
      internal_transactions_count = count_creations used_up;
    }

-- The loop of `_process` over the groups, on fuel: there are at most as many as traces.
unfoldable pub count_groups : ℕ → List Trace → List UpdateBlockInternalCount
count_groups zero traces = []
count_groups (suc fuel) [] = []
count_groups (suc fuel) (t ∷ ts) =
    group_counts t.block_hash (t ∷ take_group t.block_hash ts)
    ∷ count_groups fuel (drop_group t.block_hash ts)

unfoldable pub internal_counts : List Trace → List UpdateBlockInternalCount
unfolding count_groups
internal_counts traces = count_groups (length traces) traces
