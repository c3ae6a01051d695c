-- ===== src/Contracts.antt =====
-- indexer/jobs/export_contracts_job.py and indexer/domain/contract.py: the contracts that the traces of a
-- range of blocks create, their names and the senders of their transactions. The codec and the
-- provider are parameters.
pub mod Names
pub mod Senders
use hemera_indexer.Prelude.{
  ℕ, Bool, true, false, ◌&&◌, ◌||◌, Option, none, some, List, [], ◌∷◌, if◌then◌else◌, ◌==◌, nat_eq,
  String,
}
use hemera_indexer.Errors.{Message, codes, same_text, Outcome, returns, raises}
use hemera_indexer.Traces.{Trace}

-- `Contract`; the name and the sender are attributes that are set later.
pub record Contract : Type 0 where
  pub address : Message
  pub contract_creator : Option String
  pub creation_code : Option String
  pub deployed_code : Option String
  pub block_number : ℕ
  pub block_hash : String
  pub block_timestamp : ℕ
  pub transaction_index : ℕ
  pub transaction_hash : String
  pub name : Option (Option Message)
  pub transaction_from_address : Option String

-- `extract_contract_from_trace(trace)`, of a trace with the address.
abbrev pub extract_contract_from_trace : Message → Trace → Contract
extract_contract_from_trace to_address trace = record {
  address = to_address;
  contract_creator = trace.from_address;
  creation_code = trace.input;
  deployed_code = trace.output;
  block_number = trace.block_number;
  block_hash = trace.block_hash;
  block_timestamp = trace.block_timestamp;
  transaction_index = trace.transaction_index;
  transaction_hash = trace.transaction_hash;
  name = none;
  transaction_from_address = none;
}

-- A contract and the data of the call for its name.
pub record Asked : Type 0 where
  pub contract : Contract
  pub param_data : Message

-- The data is "0x" if the call cannot be encoded.
abbrev pub data_or_empty : Outcome Message → Message
data_or_empty (returns text) = text
data_or_empty (raises e) = codes "0x"

abbrev pub is_creation : Trace → Bool
is_creation trace =
    (same_text trace.trace_type (codes "create") || same_text trace.trace_type (codes "create2"))
    && trace.status == 1

abbrev pub asked_at : Outcome Message → Trace → Option String → List Asked
asked_at encoded trace none = []
asked_at encoded trace (some to_address) = elim (codes to_address) [
  | [] ↦ []
  | ◌∷◌ c text ↦
      record {
        contract = extract_contract_from_trace (c ∷ text) trace;
        param_data = data_or_empty encoded;
      }
      ∷ []
]

module _ (encoded : Outcome Message) where
  abbrev pub asked_of : Trace → List Asked
  asked_of trace =
      let asked = asked_at encoded trace trace.to_address in if is_creation trace then asked else []

  -- `build_contracts(traces)`; `encoded` is the call of `name()`, which has no arguments.
  unfoldable pub build_contracts : List Trace → List Asked
  build_contracts [] = []
  build_contracts (trace ∷ traces) =
      let rest = build_contracts traces in
      elim (asked_of trace) [ [] ↦ rest | ◌∷◌ asked _ ↦ asked ∷ rest ]
