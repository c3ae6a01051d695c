-- ===== src/Balances/Tokens.antt =====
-- indexer/jobs/export_token_balances_job.py: the token balances that the transfers of a range of blocks
-- make the indexer ask for. The ABI codec is not code of the repository: `encode` stands for it.
use hemera_indexer.Prelude.{
  has, ℕ, ◌≡◌, refl, String, Bool, false, not, ◌&&◌, ◌||◌, Option, none, some, List, [], ◌∷◌, ◌++◌,
  map, arith, if◌then◌else◌, ◌==◌, Eq, eq_of_discrete, nat_discrete, Distinct, ap, All, All-append,
  Bool-cases, inl, inr,
}
use hemera_indexer.Errors.{same_text}
use hemera_indexer.Transfers.{
  TokenType, erc20, erc721, erc1155, Address, CommonFields, SpecificTransfer, erc20_transfer,
  erc721_transfer, erc1155_transfer,
}
use hemera_indexer.Transfers.Events.{zero_address}
use hemera_indexer.Balances.{set_of, has-set_of, Distinct-set_of, All-set_of}

pub record TokenBalanceParam : Type 0 where
  pub address : Address
  pub token_address : Address
  pub token_id : Option ℕ
  pub token_type : TokenType
  pub block_number : ℕ
  pub block_timestamp : ℕ

pub TokenBalanceParam-discrete : Discrete TokenBalanceParam
TokenBalanceParam-discrete = hlevel nat_discrete

instance abbrev pub param_eq : Eq TokenBalanceParam
param_eq = eq_of_discrete TokenBalanceParam-discrete

abbrev pub fields_of : SpecificTransfer → CommonFields
fields_of (erc20_transfer common value) = common
fields_of (erc721_transfer common token_id) = common
fields_of (erc1155_transfer common token_id value) = common

abbrev pub id_of : SpecificTransfer → Option ℕ
id_of (erc1155_transfer common token_id value) = some token_id
id_of _ = none

abbrev pub type_of : SpecificTransfer → TokenType
type_of (erc20_transfer common value) = erc20
type_of (erc721_transfer common token_id) = erc721
type_of (erc1155_transfer common token_id value) = erc1155

-- `TokenBalanceParam(address, **common_params)`
abbrev pub param_of : SpecificTransfer → Address → TokenBalanceParam
param_of t address = record {
  address = address;
  token_address = (fields_of t).token_address;
  token_id = id_of t;
  token_type = type_of t;
  block_number = (fields_of t).block_number;
  block_timestamp = (fields_of t).block_timestamp;
}

abbrev side : SpecificTransfer → Address → List TokenBalanceParam
side t address = if not (same_text address zero_address) then param_of t address ∷ [] else []

-- What the loop over the transfers adds, in its order.
abbrev both_sides : List SpecificTransfer → List TokenBalanceParam
both_sides [] = []
both_sides (t ∷ ts) =
    side t (fields_of t).from_address ++ side t (fields_of t).to_address ++ both_sides ts

pub record Request : Type 0 where
  pub param : TokenBalanceParam
  pub param_data : String

module _ (encode : Address → Option ℕ → String) where
  -- `encode_balance_abi_parameter`: the id goes into the call of an ERC1155 token alone.
  abbrev pub encode_balance_abi_parameter : Address → TokenType → Option ℕ → String
  encode_balance_abi_parameter address erc1155 token_id = encode address token_id
  encode_balance_abi_parameter address _ token_id = encode address none

  abbrev request_of : TokenBalanceParam → Request
  request_of p = record {
    param = p;
    param_data = encode_balance_abi_parameter p.address p.token_type p.token_id;
  }

  -- `extract_token_parameters(token_transfers)`
  unfoldable pub extract_token_parameters : List SpecificTransfer → List Request
  extract_token_parameters token_transfers = map request_of (set_of [] (both_sides token_transfers))

-- What is to be asked of the holder at the block of the transfer: of ERC1155 tokens the balance of the
-- token id, of the others that of the contract.
abbrev pub balance_at : CommonFields → TokenType → Option ℕ → Address → TokenBalanceParam
balance_at common token_type token_id holder = record {
  address = holder;
  token_address = common.token_address;
  token_id = token_id;
  token_type = token_type;
  block_number = common.block_number;
  block_timestamp = common.block_timestamp;
}

abbrev pub asked_of : SpecificTransfer → Address → TokenBalanceParam
asked_of (erc20_transfer common value) = balance_at common erc20 none
asked_of (erc721_transfer common token_id) = balance_at common erc721 none
asked_of (erc1155_transfer common token_id value) = balance_at common erc1155 (some token_id)

-- A side of the transfer that is no zero address asks for the balance.
abbrev asked_by : TokenBalanceParam → SpecificTransfer → Bool
asked_by p t =
    not (same_text (fields_of t).from_address zero_address)
      && p == asked_of t (fields_of t).from_address
    || not (same_text (fields_of t).to_address zero_address)
      && p == asked_of t (fields_of t).to_address

asked_by-eq :
    (p : TokenBalanceParam) (t : SpecificTransfer)
    → asked_by p t ≡ (
        not (same_text (fields_of t).from_address zero_address)
          && p == param_of t (fields_of t).from_address
        || not (same_text (fields_of t).to_address zero_address)
          && p == param_of t (fields_of t).to_address)
asked_by-eq p (erc20_transfer common value) = refl
asked_by-eq p (erc721_transfer common token_id) = refl
asked_by-eq p (erc1155_transfer common token_id value) = refl

abbrev pub any_asks : TokenBalanceParam → List SpecificTransfer → Bool
any_asks p [] = false
any_asks p (t ∷ ts) = asked_by p t || any_asks p ts

has-append :
    (p : TokenBalanceParam) (xs ys : List TokenBalanceParam)
    → has p (xs ++ ys) ≡ (has p xs || has p ys)
has-append p [] ys = refl
has-append p (x ∷ xs) ys = ground (arith, has-append p xs ys)

has-side :
    (p : TokenBalanceParam) (t : SpecificTransfer) (a : Address)
    → has p (side t a) ≡ (not (same_text a zero_address) && p == param_of t a)
has-side p t a = ground arith

has-both_sides :
    (p : TokenBalanceParam) (ts : List SpecificTransfer) → has p (both_sides ts) ≡ any_asks p ts
has-both_sides p [] = refl
has-both_sides p (t ∷ ts) =
    let from = (fields_of t).from_address in
    let to = (fields_of t).to_address in
    rw (asked_by-eq p t) (
      ground (
        arith,
        has-append p (side t from) (side t to ++ both_sides ts),
        has-append p (side t to) (both_sides ts),
        has-side p t from,
        has-side p t to,
        has-both_sides p ts,
      ))

-- The call of a request asks for its own holder and token id.
abbrev pub Asks : (Address → Option ℕ → String) → Request → Type 0
Asks encode r = r.param_data ≡ encode r.param.address r.param.token_id

module _ (encode : Address → Option ℕ → String) where
  abbrev Called : TokenBalanceParam → Type 0
  Called p = Asks encode (request_of encode p)

  param_of-Called : (t : SpecificTransfer) (a : Address) → Called (param_of t a)
  param_of-Called (erc20_transfer common value) a = refl
  param_of-Called (erc721_transfer common token_id) a = refl
  param_of-Called (erc1155_transfer common token_id value) a = refl

  side-Called : (t : SpecificTransfer) (a : Address) → All Called (side t a)
  side-Called t a = elim (Bool-cases (same_text a zero_address)) [
    | inl zero ↦ rw zero tt
    | inr other ↦ rw other (param_of-Called t a, tt)
  ]

  both_sides-Called : (ts : List SpecificTransfer) → All Called (both_sides ts)
  both_sides-Called [] = tt
  both_sides-Called (t ∷ ts) =
      let from = side t (fields_of t).from_address in
      let to = side t (fields_of t).to_address in
      All-append Called (from ++ to) (both_sides ts)
        (All-append Called from to (side-Called t (fields_of t).from_address)
          (side-Called t (fields_of t).to_address))
        (both_sides-Called ts)

  All-Asks :
      (ps : List TokenBalanceParam) → All Called ps → All (Asks encode) (map (request_of encode) ps)
  All-Asks [] h = tt
  All-Asks (p ∷ ps) h = (h.0, All-Asks ps h.1)

map-param :
    (encode : Address → Option ℕ → String) (ps : List TokenBalanceParam)
    → map (λ r. r.param) (map (request_of encode) ps) ≡ ps
map-param encode [] = refl
map-param encode (p ∷ ps) = ap (λ l. p ∷ l) (map-param encode ps)

-- The token balances that are asked for are, each once, those of the two sides of each transfer at its
-- block, less the zero address, with the token id for ERC1155 transfers alone; and the call of each
-- request asks for its holder and token id.
pub extract_token_parameters-exact :
    (encode : Address → Option ℕ → String) (ts : List SpecificTransfer)
    → let params = map (λ r. r.param) (extract_token_parameters encode ts) in
      Distinct params
      × ((p : TokenBalanceParam) → has p params ≡ any_asks p ts)
      × All (Asks encode) (extract_token_parameters encode ts)
unfolding extract_token_parameters
extract_token_parameters-exact encode ts =
    let params = set_of [] (both_sides ts) in
    (
      rw (map-param encode params) (Distinct-set_of [] (both_sides ts) tt),
      λ p.
          rw (map-param encode params)
            (ground (arith, has-set_of p [] (both_sides ts), has-both_sides p ts)),
      All-Asks encode params
          (All-set_of (Called encode) [] (both_sides ts) tt (both_sides-Called encode ts)),
    )
