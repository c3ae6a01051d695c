-- ===== src/Domain.antt =====
-- The entities of indexer/domain/ that are read from the answers of a node, log.py, receipt.py,
-- transaction.py and block.py, and indexer/jobs/export_transactions_and_logs_job.py. The functions of
-- eth_utils and the reading of floats are parameters.
pub mod Logs
pub mod Receipts
pub mod Blocks
pub mod Job
pub mod Collected
use hemera_indexer.Prelude.{
  ℕ, String, string_eq, Option, none, some, [], ◌∷◌, Dict, lookup, Eq, eq_of_discrete,
}
use hemera_indexer.Errors.{Message, Message-discrete, codes, Outcome, returns, raises, other, ◌>>=◌}
use hemera_indexer.Transfers.{Address}

-- A text of a JSON object, or null.
abbrev pub Text : Type 0
Text = Option Message

pub Text-discrete : Discrete Text
Text-discrete = hlevel Message-discrete

instance abbrev pub text_eq : Eq Text
text_eq = eq_of_discrete Text-discrete

-- The fields of a JSON object that are texts or null; those that are lists stand beside it.
abbrev pub Fields : Type 0
Fields = Dict String Text

-- `fields[key]`, a `KeyError` if it is missing.
abbrev pub required : Option Text → Outcome Text
required none = raises other
required (some text) = returns text

abbrev pub field : String → Fields → Outcome Text
field key fields = required (lookup key fields)

-- `fields.get(key)`
abbrev pub or_none : Option Text → Text
or_none none = none
or_none (some text) = text

abbrev pub get : String → Fields → Text
get key fields = or_none (lookup key fields)

-- `eth_utils`, which raises for a null.
pub record EthUtils : Type 0 where
  pub to_int : Message → Outcome ℕ
  pub to_normalized_address : Message → Outcome Address

-- A text where a null raises.
abbrev pub not_null : Text → Outcome Message
not_null none = raises other
not_null (some text) = returns text

-- `fields.get(key, "0")`, in which a null stays a null.
abbrev pub or_zero : Option Text → Text
or_zero none = some (codes "0")
or_zero (some text) = text

module _ (eth : EthUtils) where
  -- `to_int(hexstr=fields[key])`
  abbrev pub int_field : String → Fields → Outcome ℕ
  int_field key fields = field key fields >>= not_null >>= eth.to_int

  -- `to_int(hexstr=fields.get(key, "0"))`
  abbrev pub int_or_zero : String → Fields → Outcome ℕ
  int_or_zero key fields = not_null (or_zero (lookup key fields)) >>= eth.to_int

  -- `to_normalized_address(fields[key])`
  abbrev pub address_field : String → Fields → Outcome Address
  address_field key fields = field key fields >>= not_null >>= eth.to_normalized_address

  -- `to_int(hexstr=text) if text else None`
  abbrev pub int_if : Text → Outcome (Option ℕ)
  int_if none = returns none
  int_if (some []) = returns none
  int_if (some (c ∷ text)) = eth.to_int (c ∷ text) >>= λ n. returns (some n)

  -- `to_normalized_address(text) if text else None`
  abbrev pub address_if : Text → Outcome (Option Address)
  address_if none = returns none
  address_if (some []) = returns none
  address_if (some (c ∷ text)) = eth.to_normalized_address (c ∷ text) >>= λ a. returns (some a)
