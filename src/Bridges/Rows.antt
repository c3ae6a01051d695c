-- ===== src/Bridges/Rows.antt =====
-- common/utils/bridge_utils.py works on dicts: rows of the database, and what is shown of them.
use hemera_indexer.Prelude.{
  ℕ, String, Bool, true, false, Option, none, some, List, [], ◌∷◌, ◌==◌, string_eq, Dict, lookup,
}
use hemera_indexer.Errors.{Outcome, returns, raises, other}

-- A value that holds no other one. Amounts are not negative.
pub data Scalar : Type 0 where
  null : Scalar
  num : ℕ → Scalar
  str : String → Scalar
  flag : Bool → Scalar
  texts : List String → Scalar

-- The token of a Taiko message, with the fields of its `ctoken`.
pub record TaikoToken : Type 0 where
  pub name : String
  pub symbol : String
  pub token_type : String
  pub amount : ℕ
  pub decimals : ℕ
  pub token_ids : List String
  pub amounts : List ℕ

abbrev pub TokenDict : Type 0
TokenDict = Dict String Scalar

pub data Value : Type 0 where
  scalar : Scalar → Value
  tokens : List TokenDict → Value
  extra : Option TaikoToken → Value

abbrev pub Row : Type 0
Row = Dict String Value

module _ {ℓ} {V : Type ℓ} where
  found : Option V → Outcome V
  found none = raises other
  found (some v) = returns v

  -- `d[key]`, which raises for a key that is missing.
  unfoldable pub item : String → Dict String V → Outcome V
  unfolding lookup found
  item key d = found (lookup key d)

-- `d.get(key, default)`
unfoldable pub get_or : String → Scalar → TokenDict → Scalar
get_or key default d = elim (lookup key d) [ none ↦ default | some v ↦ v ]

-- The value is the text.
abbrev pub is_str : String → Scalar → Bool
is_str text (str s) = s == text
is_str text null = false
is_str text (num n) = false
is_str text (flag b) = false
is_str text (texts t) = false

-- A value that is used as a number; arithmetic on another one raises.
abbrev pub as_number : Value → Outcome ℕ
as_number (scalar (num n)) = returns n
as_number (scalar null) = raises other
as_number (scalar (str s)) = raises other
as_number (scalar (flag b)) = raises other
as_number (scalar (texts t)) = raises other
as_number (tokens t) = raises other
as_number (extra e) = raises other

abbrev pub as_scalar : Value → Outcome Scalar
as_scalar (scalar s) = returns s
as_scalar (tokens t) = raises other
as_scalar (extra e) = raises other

-- `value or 0` of a number of decimals.
abbrev pub decimals_or : Scalar → Outcome ℕ
decimals_or (num n) = returns n
decimals_or null = returns 0
decimals_or (str s) = raises other
decimals_or (flag b) = raises other
decimals_or (texts t) = raises other

-- `if d:` of a dict that may be `None`.
abbrev pub is_empty : TokenDict → Bool
is_empty [] = true
is_empty (e ∷ d) = false
