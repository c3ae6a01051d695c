-- ===== src/Blocks/Specification.antt =====
-- indexer/specification/specification.py: the specifications that a transaction may satisfy.
use hemera_indexer.Prelude.{
  has, String, Bool, true, false, not, ◌&&◌, ◌||◌, Option, none, some, List, [], ◌∷◌, if◌then◌else◌,
  ◌==◌, string_eq, take,
}
use hemera_indexer.Errors.{Message, same_text}

pub record ReceiptLog : Type 0 where
  pub topic0 : Option String
  pub address : String

-- The fields of `Transaction` that are read here; `logs` is `none` if there is no receipt or if it has
-- no logs.
pub record Transaction : Type 0 where
  pub hash : String
  pub from_address : Option String
  pub to_address : Option String
  pub input : Message
  pub logs : Option (List ReceiptLog)

-- The subclasses of `Specification`.
mutual
  pub data Specification : Type 0 where
    always_true always_false : Specification
    and_specification or_specification : Specifications → Specification
    not_specification : Specification → Specification
    from_address_is to_address_is : String → Specification
    func_sign_is : Message → Specification
    topics_are : (topics addresses : List String) → Specification
    hash_in : List String → Specification

  pub data Specifications : Type 0 where
    no_more : Specifications
    ◌also◌ : Specification → Specifications → Specifications

infixr 40 ◌also◌
abbrev has_option : Option String → List String → Bool
has_option none us = false
has_option (some t) us = has t us

abbrev is_option : Option String → String → Bool
is_option none u = false
is_option (some t) u = t == u

abbrev is_empty {ℓ} : {A : Type ℓ} → List A → Bool
is_empty [] = true
is_empty (x ∷ xs) = false

abbrev pub matches : List String → List String → ReceiptLog → Bool
matches topics addresses log =
    (is_empty topics || has_option log.topic0 topics)
    && (is_empty addresses || has log.address addresses)

abbrev pub some_match : List String → List String → List ReceiptLog → Bool
some_match topics addresses [] = false
some_match topics addresses (log ∷ logs) =
    if matches topics addresses log then true else some_match topics addresses logs

abbrev some_log : List String → List String → Option (List ReceiptLog) → Bool
some_log topics addresses none = false
some_log topics addresses (some logs) = some_match topics addresses logs

-- `is_satisfied_by(item)` of each of the classes.
unfoldable mutual
  pub is_satisfied_by : Specification → Transaction → Bool
  is_satisfied_by always_true item = true
  is_satisfied_by always_false item = false
  is_satisfied_by (and_specification specs) item = all_satisfied specs item
  is_satisfied_by (or_specification specs) item = any_satisfied specs item
  is_satisfied_by (not_specification spec) item = not (is_satisfied_by spec item)
  is_satisfied_by (from_address_is address) item = is_option item.from_address address
  is_satisfied_by (to_address_is address) item = is_option item.to_address address
  is_satisfied_by (func_sign_is func_sign) item = same_text (take 10 item.input) func_sign
  is_satisfied_by (topics_are topics addresses) item = some_log topics addresses item.logs
  is_satisfied_by (hash_in hashes) item = has item.hash hashes

  pub all_satisfied : Specifications → Transaction → Bool
  all_satisfied no_more item = true
  all_satisfied (spec also specs) item = is_satisfied_by spec item && all_satisfied specs item

  pub any_satisfied : Specifications → Transaction → Bool
  any_satisfied no_more item = false
  any_satisfied (spec also specs) item = is_satisfied_by spec item || any_satisfied specs item

-- `__or__` and `__and__`
abbrev pub or_spec : Specification → Specification → Specification
or_spec self other = or_specification (self also other also no_more)

abbrev pub and_spec : Specification → Specification → Specification
and_spec self other = and_specification (self also other also no_more)

-- `OrSpecification(*specifications)`
abbrev pub to_specifications : List Specification → Specifications
to_specifications [] = no_more
to_specifications (spec ∷ specs) = spec also to_specifications specs
