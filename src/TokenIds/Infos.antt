-- ===== src/TokenIds/Infos.antt =====
-- `generate_token_id_info` of indexer/jobs/export_token_id_infos_job.py: the token ids of the transfers
-- of a range of blocks, with the URI of those that are minted.
use hemera_indexer.Prelude.{
  has, ℕ, ◌≡◌, refl, Bool, true, false, ◌&&◌, ◌||◌, List, [], ◌∷◌, ◌++◌, arith, if◌then◌else◌, ◌==◌,
  Eq, eq_of_discrete, nat_discrete, Distinct, append-nil,
}
use hemera_indexer.Prelude.Int.{ℤ}
use hemera_indexer.Errors.{Message, codes, same_text}
use hemera_indexer.Transfers.{TokenType, Address}
use hemera_indexer.Transfers.Events.{zero_address}
use hemera_indexer.Recorders.Decimal.{str_of}
use hemera_indexer.Balances.{set_of, has-set_of, Distinct-set_of}
use hemera_indexer.TokenIds.{TokenIdInfo}

pub TokenIdInfo-discrete : Discrete TokenIdInfo
TokenIdInfo-discrete = hlevel nat_discrete

instance abbrev pub info_eq : Eq TokenIdInfo
info_eq = eq_of_discrete TokenIdInfo-discrete

-- The fields that are read of `ERC721TokenTransfer` and `ERC1155TokenTransfer`.
pub record IdTransfer : Type 0 where
  pub token_address : Address
  pub token_id : ℕ
  pub token_type : TokenType
  pub from_address : Address
  pub block_number : ℕ
  pub block_timestamp : ℕ

-- `f"{token_address}_{token_id}_{block_number}"`
abbrev pub key_of : IdTransfer → Message
key_of t = t.token_address ++ codes "_" ++ str_of t.token_id ++ codes "_" ++ str_of t.block_number

module _ (hash : Message → ℤ) where
  abbrev pub uri_info : IdTransfer → TokenIdInfo
  uri_info t = record {
    address = t.token_address;
    token_id = t.token_id;
    token_type = t.token_type;
    block_number = t.block_number;
    block_timestamp = t.block_timestamp;
    is_get_token_uri = true;
    request_id = hash (key_of t ++ codes "_get_token_uri");
  }

  abbrev pub state_info : IdTransfer → TokenIdInfo
  state_info t = record {
    address = t.token_address;
    token_id = t.token_id;
    token_type = t.token_type;
    block_number = t.block_number;
    block_timestamp = t.block_timestamp;
    is_get_token_uri = false;
    request_id = hash (key_of t);
  }

  abbrev pub is_mint : IdTransfer → Bool
  is_mint t = same_text t.from_address zero_address

  -- What the loop over the transfers adds, in its order.
  abbrev infos_of : List IdTransfer → List TokenIdInfo
  infos_of [] = []
  infos_of (t ∷ ts) =
      let rest = state_info t ∷ infos_of ts in if is_mint t then uri_info t ∷ rest else rest

  -- `generate_token_id_info(erc721_token_transfers, erc1155_token_transfers)`
  unfoldable pub generate_token_id_info : List IdTransfer → List IdTransfer → List TokenIdInfo
  generate_token_id_info erc721_token_transfers erc1155_token_transfers =
      set_of [] (infos_of (erc721_token_transfers ++ erc1155_token_transfers))

  -- A question about the token id of the transfer, at its block.
  abbrev pub at_transfer : IdTransfer → Bool → Message → TokenIdInfo
  at_transfer t is_get_token_uri suffix = record {
    address = t.token_address;
    token_id = t.token_id;
    token_type = t.token_type;
    block_number = t.block_number;
    block_timestamp = t.block_timestamp;
    is_get_token_uri = is_get_token_uri;
    request_id = hash (
        (t.token_address ++ codes "_" ++ str_of t.token_id ++ codes "_" ++ str_of t.block_number)
        ++ suffix);
  }

  -- One of the transfers moves the token id, or mints it where its URI is asked for.
  abbrev pub any_needs : TokenIdInfo → List IdTransfer → Bool
  any_needs i [] = false
  any_needs i (t ∷ ts) =
      i == at_transfer t false []
      || same_text t.from_address zero_address && i == at_transfer t true (codes "_get_token_uri")
      || any_needs i ts

  at_transfer-state_info : (t : IdTransfer) → at_transfer t false [] ≡ state_info t
  at_transfer-state_info t = rw (append-nil (key_of t)) refl

  has-infos_of : (i : TokenIdInfo) (ts : List IdTransfer) → has i (infos_of ts) ≡ any_needs i ts
  has-infos_of i [] = refl
  has-infos_of i (t ∷ ts) = rw (at_transfer-state_info t) (ground (arith, has-infos_of i ts))

  any_needs-append :
      (i : TokenIdInfo) (ts us : List IdTransfer)
      → any_needs i (ts ++ us) ≡ (any_needs i ts || any_needs i us)
  any_needs-append i [] us = refl
  any_needs-append i (t ∷ ts) us =
      rw (at_transfer-state_info t) (ground (arith, any_needs-append i ts us))

  -- What is asked for is, each once, the owner or the supply of each token id that a transfer moves, at
  -- the block of the transfer, and the URI of each that a transfer from the zero address mints, under the
  -- hash of its contract, its number and its block.
  pub generate_token_id_info-exact :
      (erc721 erc1155 : List IdTransfer)
      → Distinct (generate_token_id_info erc721 erc1155)
        × ((i : TokenIdInfo)
            → has i (generate_token_id_info erc721 erc1155)
              ≡ (any_needs i erc721 || any_needs i erc1155))
  unfolding generate_token_id_info
  generate_token_id_info-exact moved_721 moved_1155 =
      let transfers = moved_721 ++ moved_1155 in
      (
        Distinct-set_of [] (infos_of transfers) tt,
        λ i. ground (
          arith,
          has-set_of i [] (infos_of transfers),
          has-infos_of i transfers,
          any_needs-append i moved_721 moved_1155,
        ),
      )
