-- ===== src/Transfers/Origins.antt =====
-- Where a transfer comes from: the fields that it takes over from its log.
use hemera_indexer.Prelude.{
  ℕ, ◌≡◌, refl, inl, inr, Bool, true, false, Option, none, some, List, [], ◌∷◌, ◌++◌, map, arith,
  if◌then◌else◌, All, Bool-cases, Dict, subst, ◌==◌, nat_eq, length,
}
use hemera_indexer.Errors.{Outcome, returns, raises, Outcome-cases, ◌>>=◌, >>=-eq-returns}
use hemera_indexer.Transfers.{Log, TokenTransfer, Address, TokenType, erc20, erc721, erc1155}
use hemera_indexer.Transfers.Events.{
  Codec, decode_log, amounts, batch_transfer, handle_transfer_event, handle_deposit_event,
  handle_withdraw_event, handle_transfer_single_event, handle_transfer_batch_event,
  extract_transfer_from_log, extract_tokens_and_token_transfers, transfer_token_type, transfer_of,
}

abbrev pub is_typed : Option ℕ → TokenType → Bool
is_typed none erc20 = true
is_typed none erc721 = true
is_typed (some token_id) erc1155 = true
is_typed _ _ = false

-- The transfer is of the token contract that wrote the log, and it has the place of the log on the
-- chain; it has a token id if it is of an ERC1155 token, and else it is of an ERC20 or an ERC721 token.
pub record IsFrom (log : Log) (t : TokenTransfer) : Type 0 where
  pub token : t.common.token_address ≡ log.address
  pub hash : t.common.transaction_hash ≡ log.transaction_hash
  pub index : t.common.log_index ≡ log.log_index
  pub block : t.common.block_number ≡ log.block_number
  pub block_hash : t.common.block_hash ≡ log.block_hash
  pub timestamp : t.common.block_timestamp ≡ log.block_timestamp
  pub typed : is_typed t.token_id t.token_type ≡ true

abbrev AllFrom : Log → Outcome (List TokenTransfer) → Type 0
AllFrom log (returns ts) = All (IsFrom log) ts
AllFrom log (raises e) = Unit

transfer_of-IsFrom :
    (log : Log) (from to : Address) (token_id : Option ℕ) (value : ℕ) (token_type : TokenType)
    → is_typed token_id token_type ≡ true
    → IsFrom log (transfer_of log from to token_id value token_type)
transfer_of-IsFrom log from to token_id value token_type h = record {
  token = refl;
  hash = refl;
  index = refl;
  block = refl;
  block_hash = refl;
  timestamp = refl;
  typed = h;
}

token_type-IsTyped : (log : Log) → is_typed none (transfer_token_type log) ≡ true
unfolding transfer_token_type
token_type-IsTyped log = ground arith

batch-IsFrom :
    (log : Log) (from to : Address) (d : Dict ℕ ℕ)
    → All (IsFrom log) (map (batch_transfer log from to) d)
batch-IsFrom log from to [] = tt
batch-IsFrom log from to ((i, v) ∷ d) =
    (transfer_of-IsFrom log _ _ (some i) v erc1155 refl, batch-IsFrom log from to d)

module _ (codec : Codec) (log : Log) where
  transfer-AllFrom : AllFrom log (handle_transfer_event codec log)
  unfolding handle_transfer_event
  transfer-AllFrom = elim (Outcome-cases (codec.transfer log)) [
    | inl ((from, to, value), ok) ↦
        rw (AllFrom, ok, ◌>>=◌)
          (
            transfer_of-IsFrom log _ _ none value (transfer_token_type log)
                (token_type-IsTyped log),
            tt,
          )
    | inr (e, failed) ↦ rw (AllFrom, failed, ◌>>=◌) tt
  ]

  deposit-AllFrom : AllFrom log (handle_deposit_event codec log)
  unfolding handle_deposit_event
  deposit-AllFrom = elim (Outcome-cases (codec.deposit log)) [
    | inl ((dst, wad), ok) ↦
        rw (AllFrom, ok, decode_log) (transfer_of-IsFrom log _ _ none wad erc20 refl, tt)
    | inr (e, failed) ↦ rw (AllFrom, failed, decode_log) tt
  ]

  withdraw-AllFrom : AllFrom log (handle_withdraw_event codec log)
  unfolding handle_withdraw_event
  withdraw-AllFrom = elim (Outcome-cases (codec.withdrawal log)) [
    | inl ((src, wad), ok) ↦
        rw (AllFrom, ok, decode_log) (transfer_of-IsFrom log _ _ none wad erc20 refl, tt)
    | inr (e, failed) ↦ rw (AllFrom, failed, decode_log) tt
  ]

  single-AllFrom : AllFrom log (handle_transfer_single_event codec log)
  unfolding handle_transfer_single_event
  single-AllFrom = elim (Outcome-cases (codec.transfer_single log)) [
    | inl ((from, to, i, v), ok) ↦
        rw (AllFrom, ok, decode_log) (transfer_of-IsFrom log _ _ (some i) v erc1155 refl, tt)
    | inr (e, failed) ↦ rw (AllFrom, failed, decode_log) tt
  ]

  batch-AllFrom : AllFrom log (handle_transfer_batch_event codec log)
  unfolding handle_transfer_batch_event
  batch-AllFrom = elim (Outcome-cases (codec.transfer_batch log)) [
    | inl ((from, to, ids, values), ok) ↦ elim (Bool-cases (length ids == length values)) [
      | inl same ↦
          rw (AllFrom, ok, decode_log) (rw same (batch-IsFrom log from to (amounts ids values [])))
      | inr differ ↦ rw (AllFrom, ok, decode_log) (rw differ tt)
    ]
    | inr (e, failed) ↦ rw (AllFrom, failed, decode_log) tt
  ]

  if-AllFrom :
      (b : Bool) (x y : Outcome (List TokenTransfer))
      → AllFrom log x
      → AllFrom log y
      → AllFrom log (if b then x else y)
  if-AllFrom true x y h k = h
  if-AllFrom false x y h k = k

  extract-AllFrom : AllFrom log (extract_transfer_from_log codec log)
  unfolding extract_transfer_from_log
  extract-AllFrom =
      search
        (
          if-AllFrom, transfer-AllFrom, deposit-AllFrom, withdraw-AllFrom, single-AllFrom,
          batch-AllFrom,
        )
        depth 12

-- Where the transfers of a list of logs come from: those of the first log, then those of the rest.
abbrev pub Lined : List Log → List TokenTransfer → Type 0
Lined [] ts = ts ≡ []
Lined (log ∷ logs) ts =
    (first : List TokenTransfer) × (others : List TokenTransfer) × (ts ≡ first ++ others)
    × All (IsFrom log) first
    × Lined logs others

-- The transfers that a list of logs stands for are in the order of the logs, and each is a transfer
-- of the contract that wrote its log, at the place of the log on the chain, with a token id exactly
-- if it is of an ERC1155 token.
pub extract_tokens_and_token_transfers-Lined :
    (codec : Codec) (logs : List Log) (ts : List TokenTransfer)
    → extract_tokens_and_token_transfers codec logs ≡ returns ts
    → Lined logs ts
unfolding extract_tokens_and_token_transfers
extract_tokens_and_token_transfers-Lined codec [] ts h = cc
extract_tokens_and_token_transfers-Lined codec (log ∷ logs) ts h =
    let (first, ok, h2) = >>=-eq-returns (extract_transfer_from_log codec log) _ h in
    let (others, ok2, h3) = >>=-eq-returns (extract_tokens_and_token_transfers codec logs) _ h2 in
    (
      first,
      others,
      cc,
      subst (AllFrom log) ok (extract-AllFrom codec log),
      extract_tokens_and_token_transfers-Lined codec logs others ok2,
    )
