-- ===== src/Transfers/Specific.antt =====
-- `ExportTokensAndTransfersJob._generate_token_transfers`: the transfer class that a transfer is
-- stored as, with the token types that the job knows.
use hemera_indexer.Prelude.{ℕ, ◌≡◌, ◌≢◌, refl, true, Option, none, some, List, [], ◌∷◌, map, All}
use hemera_indexer.Errors.{Outcome, returns, raises, other, ◌>>=◌}
use hemera_indexer.Transfers.{
  TokenType, erc20, erc721, erc1155, erc404, Address, CommonFields, TokenTransfer, SpecificTransfer,
  erc20_transfer, erc721_transfer, erc1155_transfer, to_specific_transfer,
}
use hemera_indexer.Transfers.Origins.{is_typed}

-- A transfer with the type of its token; a token that the job does not know is a `KeyError`.
unfoldable pub with_token_type :
    (Address → Option TokenType) → TokenTransfer → Outcome TokenTransfer
with_token_type tokens transfer = elim transfer.token_id [
  | some token_id ↦ returns transfer
  | none ↦ elim (tokens transfer.common.token_address) [
    | none ↦ raises other
    | some token_type ↦ returns (record {
      common = transfer.common;
      token_id = transfer.token_id;
      value = transfer.value;
      token_type = token_type;
    })
  ]
]

unfoldable pub generate_token_transfers :
    (Address → Option TokenType) → List TokenTransfer → Outcome (List SpecificTransfer)
generate_token_transfers tokens [] = returns []
generate_token_transfers tokens (transfer ∷ transfers) = do
  typed ← with_token_type tokens transfer
  first ← to_specific_transfer typed
  rest ← generate_token_transfers tokens transfers
  returns (first ∷ rest)

-- The transfer that is stored for one that was extracted.
abbrev pub stored : (Address → Option TokenType) → TokenTransfer → SpecificTransfer
stored tokens t = elim t.token_id [
  | some token_id ↦ erc1155_transfer t.common token_id t.value
  | none ↦ elim (tokens t.common.token_address) [
    | some erc721 ↦ erc721_transfer t.common t.value
    | _ ↦ erc20_transfer t.common t.value
  ]
]

-- The job has a type for the token, and it is one of the three that are stored.
abbrev pub IsKnown : (Address → Option TokenType) → TokenTransfer → Type 0
IsKnown tokens t =
    (token_type : TokenType) × (tokens t.common.token_address ≡ some token_type)
    × (token_type ≢ erc404)

abbrev transfer : CommonFields → Option ℕ → ℕ → TokenType → TokenTransfer
transfer c o v ty = record { common = c; token_id = o; value = v; token_type = ty }

-- The transfer with its token's type.
abbrev retyped : (Address → Option TokenType) → TokenTransfer → TokenTransfer
retyped tokens t = record {
  common = t.common;
  token_id = t.token_id;
  value = t.value;
  token_type = elim t.token_id [
    | some token_id ↦ t.token_type
    | none ↦ elim (tokens t.common.token_address) [ none ↦ erc404 | some ty ↦ ty ]
  ];
}

module _ (tokens : Address → Option TokenType) where
  with_token_type-eq :
      (c : CommonFields) (o : Option ℕ) (v : ℕ) (ty : TokenType)
      → let t = transfer c o v ty in
        IsKnown tokens t → with_token_type tokens t ≡ returns (retyped tokens t)
  unfolding with_token_type
  with_token_type-eq c (some i) v ty known = refl
  with_token_type-eq c none v ty (known_type, found, h) = rw found refl

  to_specific_transfer-eq :
      (c : CommonFields) (o : Option ℕ) (v : ℕ) (ty : TokenType)
      → let t = transfer c o v ty in
        is_typed o ty ≡ true
        → IsKnown tokens t
        → to_specific_transfer (retyped tokens t) ≡ returns (stored tokens t)
  unfolding to_specific_transfer
  to_specific_transfer-eq c (some i) v erc1155 h known = refl
  to_specific_transfer-eq c none v ty h (erc20, found, k) = rw found refl
  to_specific_transfer-eq c none v ty h (erc721, found, k) = rw found refl
  to_specific_transfer-eq c none v ty h (erc1155, found, k) = rw found refl
  to_specific_transfer-eq c none v ty h (erc404, found, k) = absurd (k refl)
  to_specific_transfer-eq c (some i) v erc20 h known = absurd cc
  to_specific_transfer-eq c (some i) v erc721 h known = absurd cc
  to_specific_transfer-eq c (some i) v erc404 h known = absurd cc

-- If the job knows the tokens of the transfers, and each transfer has a token id exactly if it is of
-- an ERC1155 token, as it has when it was extracted from a log, then the job stores each of them, in
-- order and with all that it has of the log: one with a token id as an ERC1155 transfer, and any other by
-- the type that the job has for its token, its value being the token's id if that is ERC721.
pub generate_token_transfers-eq-map :
    (tokens : Address → Option TokenType) (ts : List TokenTransfer)
    → All (λ t. is_typed t.token_id t.token_type ≡ true) ts
    → All (IsKnown tokens) ts
    → generate_token_transfers tokens ts ≡ returns (map (stored tokens) ts)
unfolding generate_token_transfers
generate_token_transfers-eq-map tokens [] typed known = refl
generate_token_transfers-eq-map tokens (t ∷ ts) typed known =
    rw
      (
        with_token_type-eq tokens t.common t.token_id t.value t.token_type known.0,
        to_specific_transfer-eq tokens t.common t.token_id t.value t.token_type typed.0 known.0,
        generate_token_transfers-eq-map tokens ts typed.1 known.1,
      )
      refl
