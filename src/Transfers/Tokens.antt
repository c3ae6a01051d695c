-- ===== src/Transfers/Tokens.antt =====
-- `ExportTokensAndTransfersJob._collect`: the tokens of the transfers, and the types that the job learns
-- for those that it does not know yet. What the node answers for a token is a parameter.
use hemera_indexer.Prelude.{
  ℕ, ◌≡◌, refl, ap, ◌∙◌, ◌≢◌, ◌⊎◌, inl, inr, Bool, true, false, not, ◌||◌, Option, none, some, List,
  [], ◌∷◌, map, arith, if◌then◌else◌, ◌==◌, ltb, is_some, Dict, lookup, insert, update, contains,
  lookup-update, lookup-insert, All, Bool-cases, Option-cases, beq→eq, beq_refl, ne_of_beq, All-map,
}
use hemera_indexer.Errors.{message_eq, returns}
use hemera_indexer.Transfers.{TokenType, erc20, erc721, erc1155, erc404, Address, TokenTransfer}
use hemera_indexer.Transfers.Origins.{is_typed}
use hemera_indexer.Transfers.Specific.{
  generate_token_transfers, stored, generate_token_transfers-eq-map,
}

-- The fields of `Token` that the job reads.
pub record Token : Type 0 where
  pub address : Address
  pub token_type : TokenType
  pub block_number : ℕ

abbrev pub token_of : TokenTransfer → Token
token_of t = record {
  address = t.common.token_address;
  token_type = t.token_type;
  block_number = t.common.block_number;
}

abbrev pub later : Token → Option Token → Token
later token none = token
later token (some held) = if ltb held.block_number token.block_number then token else held

-- The loop that fills `token_dict`.
unfoldable pub collect_tokens : List TokenTransfer → Dict Address Token → Dict Address Token
collect_tokens [] token_dict = token_dict
collect_tokens (t ∷ ts) token_dict =
    collect_tokens ts (update (later (token_of t)) t.common.token_address token_dict)

-- The tokens that are not in the job's table, `new_token_dict`.
unfoldable pub new_tokens : Dict Address TokenType → Dict Address Token → Dict Address Token
new_tokens tokens [] = []
new_tokens tokens ((address, token) ∷ d) =
    let rest = new_tokens tokens d in
    if contains address tokens then rest else (address, token) ∷ rest

-- What the calls for a token gave: whether `tokenURI(1)`, `ownerOf(1)` and `decimals()` had an answer.
pub record TokenInfo : Type 0 where
  pub has_token_uri : Bool
  pub has_owner_of : Bool
  pub has_decimals : Bool

-- The end of `tokens_info_rpc_requests`.
unfoldable pub inferred_type : TokenInfo → TokenType → TokenType
inferred_type info erc1155 = erc1155
inferred_type info _ =
    if info.has_token_uri || info.has_owner_of || not info.has_decimals then erc721 else erc20

module _ (info : Address → TokenInfo) where
  -- The table with the new tokens, as the loop over the buffer of `Token` writes them.
  unfoldable pub learn : Dict Address Token → Dict Address TokenType → Dict Address TokenType
  unfolding inferred_type
  learn [] tokens = tokens
  learn ((address, token) ∷ d) tokens =
      learn d (insert address (inferred_type (info address) token.token_type) tokens)

  -- The table after the transfers of a range of blocks.
  unfoldable pub learn_tokens : List TokenTransfer → Dict Address TokenType → Dict Address TokenType
  unfolding collect_tokens new_tokens learn
  learn_tokens ts tokens = learn (new_tokens tokens (collect_tokens ts [])) tokens

inferred_type-stored : (info : TokenInfo) (ty : TokenType) → inferred_type info ty ≢ erc404
unfolding inferred_type
inferred_type-stored info erc1155 h = cc
inferred_type-stored info erc20 h = ground arith
inferred_type-stored info erc721 h = ground arith
inferred_type-stored info erc404 h = ground arith

-- The table has a type for the token, and it is one of the three that are stored.
abbrev Has : Dict Address TokenType → Address → Type 0
Has tokens a = (ty : TokenType) × (lookup a tokens ≡ some ty) × (ty ≢ erc404)

module _ (info : Address → TokenInfo) where
  insert-Has :
      (a b : Address) (ty : TokenType) (tokens : Dict Address TokenType)
      → ty ≢ erc404
      → (a ≡ b) ⊎ Has tokens a
      → Has (insert b ty tokens) a
  insert-Has a b ty tokens ok h = elim (Bool-cases (a == b)) [
    | inl same ↦ (ty, rw (lookup-insert b a ty tokens, same) refl, ok)
    | inr differ ↦ elim h [
      | inl e ↦ absurd (ne_of_beq differ e)
      | inr (ty2, found, ok2) ↦ (ty2, rw (lookup-insert b a ty tokens, differ) found, ok2)
    ]
  ]

  learn-Has :
      (a : Address) (d : Dict Address Token) (tokens : Dict Address TokenType)
      → (is_some (lookup a d) ≡ true) ⊎ Has tokens a
      → Has (learn info d tokens) a
  unfolding learn lookup
  learn-Has a [] tokens (inl h) = absurd cc
  learn-Has a [] tokens (inr h) = h
  learn-Has a ((b, token) ∷ d) tokens h =
      let ty = inferred_type (info b) token.token_type in
      let ok = inferred_type-stored (info b) token.token_type in
      elim (Bool-cases (a == b)) [
        | inl same ↦
            learn-Has a d (insert b ty tokens)
              (inr (insert-Has a b ty tokens ok (inl (beq→eq same))))
        | inr differ ↦ elim h [
          | inl among ↦ learn-Has a d (insert b ty tokens) (inl (ground arith))
          | inr has ↦
              learn-Has a d (insert b ty tokens) (inr (insert-Has a b ty tokens ok (inr has)))
        ]
      ]

  lookup-new_tokens :
      (a : Address) (tokens : Dict Address TokenType) (d : Dict Address Token)
      → contains a tokens ≡ false
      → lookup a (new_tokens tokens d) ≡ lookup a d
  unfolding new_tokens lookup
  lookup-new_tokens a tokens [] h = refl
  lookup-new_tokens a tokens ((b, token) ∷ d) h =
      let rest = lookup-new_tokens a tokens d h in
      elim (Bool-cases (contains b tokens)) [
        | inl held ↦ elim (Bool-cases (a == b)) [
          | inl same ↦
              let e : a ≡ b = beq→eq same in
              let a_held : contains a tokens ≡ true = ap (λ k. contains k tokens) e ∙ held in
              absurd cc
          | inr differ ↦ rw (held, differ) rest
        ]
        | inr new ↦ elim (Bool-cases (a == b)) [
          | inl same ↦ rw new (rw (lookup, same) refl)
          | inr differ ↦ rw new (rw (lookup, differ) rest)
        ]
      ]

  found-collect_tokens :
      (a : Address) (ts : List TokenTransfer) (d : Dict Address Token)
      → is_some (lookup a d) ≡ true
      → is_some (lookup a (collect_tokens ts d)) ≡ true
  unfolding collect_tokens
  found-collect_tokens a [] d h = h
  found-collect_tokens a (t ∷ ts) d h =
      found-collect_tokens a ts (update (later (token_of t)) t.common.token_address d)
        (ground (arith, lookup-update (later (token_of t)) t.common.token_address a d))

  All-collected :
      (ts : List TokenTransfer) (d : Dict Address Token)
      → All (λ t. is_some (lookup t.common.token_address (collect_tokens ts d)) ≡ true) ts
  unfolding collect_tokens
  All-collected [] d = tt
  All-collected (t ∷ ts) d =
      let a = t.common.token_address in
      let d2 = update (later (token_of t)) a d in
      (
        found-collect_tokens a ts d2
            (rw (lookup-update (later (token_of t)) a a d, beq_refl a) refl),
        All-collected ts d2,
      )

  known_after :
      (ts : List TokenTransfer) (tokens : Dict Address TokenType) (a : Address)
      → ((b : Address) (ty : TokenType) → lookup b tokens ≡ some ty → ty ≢ erc404)
      → is_some (lookup a (collect_tokens ts [])) ≡ true
      → Has (learn_tokens info ts tokens) a
  unfolding learn_tokens
  known_after ts tokens a stored_types collected =
      learn-Has a (new_tokens tokens (collect_tokens ts [])) tokens
        (elim (Option-cases (lookup a tokens)) [
          | inl unknown ↦
              let absent : contains a tokens ≡ false = rw unknown refl in
              inl (rw (lookup-new_tokens a tokens (collect_tokens ts []) absent) collected)
          | inr (ty, found) ↦ inr (ty, found, stored_types a ty found)
        ])

-- After the tokens of a range of blocks are learned, whatever the node answers for them, the step that
-- stores the transfers does not raise: it stores each of them, with the type that the table has for its
-- token then. The table must have had no type but the three that are stored, and the transfers be typed
-- as those that are extracted from logs.
pub learn_tokens-eq-map :
    (info : Address → TokenInfo) (ts : List TokenTransfer) (tokens : Dict Address TokenType)
    → ((a : Address) (ty : TokenType) → lookup a tokens ≡ some ty → ty ≢ erc404)
    → All (λ t. is_typed t.token_id t.token_type ≡ true) ts
    → let table = λ (a : Address). lookup a (learn_tokens info ts tokens) in
      generate_token_transfers table ts ≡ returns (map (stored table) ts)
learn_tokens-eq-map info ts tokens stored_types typed =
    generate_token_transfers-eq-map (λ (a : Address). lookup a (learn_tokens info ts tokens)) ts
      typed
      (All-map
        (λ t collected. known_after info ts tokens t.common.token_address stored_types collected) ts
        (All-collected info ts []))
