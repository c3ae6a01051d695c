-- ===== src/Bridges/Formats.antt =====
-- common/utils/bridge_utils.py: the tokens of a message, by the rollup. `format_value` prints a float and
-- is a parameter.
use hemera_indexer.Prelude.{
  ℕ, String, Bool, Option, none, some, List, [], ◌∷◌, ◌++◌, ◌==◌, string_eq, nat_eq, if◌then◌else◌,
  sum, length, ltb,
}
use hemera_indexer.Errors.{Outcome, returns, raises, other, ◌>>=◌}
use hemera_indexer.Bridges.Rows.{
  Scalar, null, num, str, flag, texts, TaikoToken, TokenDict, Value, scalar, tokens, extra, Row,
  item, get_or, is_str, as_number, decimals_or,
}

-- What Python prints: a value with its decimals, and a number.
pub record Printing : Type 0 where
  pub format_value : ℕ → ℕ → String
  pub str_of_number : ℕ → String

abbrev pub eth_on_l2 : String
eth_on_l2 = "0xdeaddeaddeaddeaddeaddeaddeaddeaddead1111"

abbrev pub mantle_on_l2 : String
mantle_on_l2 = "0xdeaddeaddeaddeaddeaddeaddeaddeaddead0000"

-- The entry of a coin, which has no address.
unfoldable pub coin : String → String → String → TokenDict
coin name symbol value =
    ("token_name", str name)
    ∷ ("token_symbol", str symbol)
    ∷ ("token_type", str "COIN")
    ∷ ("value", str value)
    ∷ []

-- A dict that may be `None` counts as absent also when it is empty.
abbrev pub truthy : Option TokenDict → Option TokenDict
truthy none = none
truthy (some []) = none
truthy (some (e ∷ d)) = some (e ∷ d)

-- A number of decimals: `10 ** decimals` raises for another value.
decimals_of : Scalar → Outcome ℕ
decimals_of (num n) = returns n
decimals_of null = raises other
decimals_of (str s) = raises other
decimals_of (flag b) = raises other
decimals_of (texts t) = raises other

module _ (p : Printing) where
  printed : List ℕ → List String
  printed [] = []
  printed (n ∷ ns) = p.str_of_number n ∷ printed ns

  amount_value : Row → ℕ → Outcome String
  amount_value transaction decimals = do
    amount ← item "amount" transaction
    n ← as_number amount
    returns (p.format_value n decimals)

  -- A token that is named ETH counts as the coin.
  bedrock_entry : Row → TokenDict → Outcome TokenDict
  unfolding amount_value decimals_of
  bedrock_entry transaction token_info = do
    address ← item "address" token_info
    named ← item "name" token_info
    type ← item "type" token_info
    symbol ← item "symbol" token_info
    decimals ← decimals_of (get_or "decimals" (num 18) token_info)
    value ← amount_value transaction decimals
    let token_name = if is_str eth_on_l2 address then str "ETH" else named
    returns (
        ("token_name", token_name)
        ∷ ("token_symbol", symbol)
        ∷ ("token_type", (if is_str "ETH" token_name then str "COIN" else type))
        ∷ ("token_logo_url", get_or "icon_url" (str "") token_info)
        ∷ ("token_address", address)
        ∷ ("value", str value)
        ∷ [])

  unfoldable pub format_bedrock_token_info :
      Row → Option TokenDict → (native_token : String) → Outcome (List TokenDict)
  unfolding bedrock_entry amount_value coin
  format_bedrock_token_info transaction token_info native_token = elim (truthy token_info) [
    | none ↦
        amount_value transaction 18 >>= λ value. returns (coin native_token native_token value ∷ [])
    | some info ↦ bedrock_entry transaction info >>= λ entry. returns (entry ∷ [])
  ]

  plain_entry : Row → TokenDict → ℕ → Outcome TokenDict
  unfolding amount_value
  plain_entry transaction token_info decimals = do
    name ← item "name" token_info
    symbol ← item "symbol" token_info
    type ← item "type" token_info
    icon_url ← item "icon_url" token_info
    address ← item "address" token_info
    value ← amount_value transaction decimals
    returns (
        ("token_name", name)
        ∷ ("token_symbol", symbol)
        ∷ ("token_type", type)
        ∷ ("token_logo_url", icon_url)
        ∷ ("token_address", address)
        ∷ ("value", str value)
        ∷ [])

  unfoldable pub format_linea_token_info : Row → Option TokenDict → Outcome (List TokenDict)
  unfolding plain_entry amount_value coin decimals_of
  format_linea_token_info transaction token_info = elim (truthy token_info) [
    | none ↦ amount_value transaction 18 >>= λ value. returns (coin "ETH" "ETH" value ∷ [])
    | some info ↦ decimals_of (get_or "decimals" (num 18) info) >>= λ decimals.
        plain_entry transaction info decimals >>= λ entry. returns (entry ∷ [])
  ]

  mantle_token : Row → TokenDict → Outcome TokenDict
  unfolding plain_entry amount_value coin
  mantle_token transaction info =
      let address = get_or "address" null info in
      if is_str mantle_on_l2 address
      then (amount_value transaction 18 >>= λ value. returns (coin "Mantle" "MNT" value))
      else if is_str eth_on_l2 address
      then (amount_value transaction 18 >>= λ value. returns (coin "ETH" "ETH" value))
      else (item "decimals" info >>= decimals_or >>= λ decimals.
          plain_entry transaction info decimals)

  -- With no token a message from the first layer is a reward, and one from the second has ETH.
  unfoldable pub format_mantle_token_info :
      Row → Option TokenDict → (from_l1 : Bool) → Outcome (List TokenDict)
  unfolding mantle_token amount_value coin
  format_mantle_token_info transaction token_info from_l1 = elim (truthy token_info) [
    | some info ↦ mantle_token transaction info >>= λ entry. returns (entry ∷ [])
    | none ↦
        if from_l1
        then returns (
            (("token_name", str "")
              ∷ ("token_symbol", str "")
              ∷ ("token_type", null)
              ∷ ("value", str "Tss Reward")
              ∷ [])
            ∷ [])
        else (amount_value transaction 18 >>= λ value. returns (coin "ETH" "ETH" value ∷ []))
  ]

  -- The value, and what the type of the token adds.
  taiko_values : TaikoToken → TokenDict
  unfolding printed
  taiko_values token =
      if token.token_type == "ERC721"
      then (("value", str (p.str_of_number (length token.token_ids)))
          ∷ ("token_ids", texts token.token_ids)
          ∷ [])
      else if token.token_type == "ERC1155"
      then (("value", str (p.str_of_number (sum token.amounts)))
          ∷ ("amounts", texts (printed token.amounts))
          ∷ ("token_ids", texts token.token_ids)
          ∷ [])
      else if token.token_type == "ERC20"
      then (("value", str (p.format_value token.amount token.decimals)) ∷ [])
      else (("value", str "") ∷ [])

  taiko_token : Option TokenDict → Option TaikoToken → Outcome (List TokenDict)
  unfolding taiko_values
  taiko_token token_info none = returns []
  taiko_token none (some token) = raises other
  taiko_token (some info) (some token) = do
    icon_url ← item "icon_url" info
    address ← item "address" info
    returns (
        (("token_name", str token.name)
          ∷ ("token_symbol", str token.symbol)
          ∷ ("token_logo_url", icon_url)
          ∷ ("token_type", str token.token_type)
          ∷ ("token_address", address)
          ∷ taiko_values token)
        ∷ [])

  taiko_extra : Option TokenDict → Value → Outcome (List TokenDict)
  unfolding taiko_token
  taiko_extra token_info (extra token) = taiko_token token_info token
  taiko_extra token_info (scalar s) = raises other
  taiko_extra token_info (tokens t) = raises other

  -- The token of the message, and ETH if there is any.
  unfoldable pub format_taiko_token_info : Row → Option TokenDict → Outcome (List TokenDict)
  unfolding taiko_extra coin
  format_taiko_token_info transaction token_info = do
    extra_info ← item "extra_info" transaction
    listed ← taiko_extra token_info extra_info
    amount ← item "amount" transaction
    n ← as_number amount
    returns (if ltb 0 n then listed ++ coin "ETH" "ETH" (p.format_value n 18) ∷ [] else listed)
