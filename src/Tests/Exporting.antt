-- ===== src/Tests/Exporting.antt =====
-- The filters, hours and balances of a few blocks.
use hemera_indexer.Prelude.{
  All, ℕ, ◌≡◌, refl, String, true, not, ◌&&◌, ◌||◌, Option, List, [], ◌∷◌, map, has, nat_eq,
  if◌then◌else◌, leb, Distinct, update,
}
use hemera_indexer.Errors.{Outcome, returns, codes}
use hemera_indexer.Blocks.Specification.{
  Transaction, Specification, always_false, or_spec, hash_in, is_satisfied_by,
}
use hemera_indexer.Blocks.Filters.{Filter, by_logs, LogQuery, FoundLog, collect_blocks}
use hemera_indexer.Blocks.Selection.{accepted, found, only_logs, collect_blocks-selects}
use hemera_indexer.Blocks.Timestamps.{BlockTime, map_timestamps}
use hemera_indexer.Balances.Coins.{record_eq}
use hemera_indexer.Balances.Tokens.{
  TokenBalanceParam, param_eq, extract_token_parameters, any_asks, Asks,
  extract_token_parameters-exact,
}
use hemera_indexer.Transfers.{Address, SpecificTransfer, erc1155_transfer}
use hemera_indexer.Transfers.Events.{zero_address}

abbrev to_checksum_address : String → String
to_checksum_address address = address

-- The node finds two logs, in blocks 12 and 15.
abbrev get_logs : LogQuery → Outcome (List FoundLog)
get_logs query = returns (
    record { block_number = 12; transaction_hash = "0x1" }
    ∷ record { block_number = 15; transaction_hash = "0x2" }
    ∷ [])

abbrev filters : List Filter
filters = by_logs (record { topics = "t" ∷ []; addresses = [] } ∷ []) ∷ []

abbrev chosen : Specification
chosen = or_spec always_false (hash_in ("0x1" ∷ "0x2" ∷ []))

two_blocks :
    collect_blocks to_checksum_address get_logs true 10 20 filters ≡ returns (12 ∷ 15 ∷ [], chosen)
unfolding collect_blocks
two_blocks = refl

collect_blocks-selects_example :
    ((tx : Transaction)
      → is_satisfied_by chosen tx
        ≡ (not true || accepted to_checksum_address get_logs 10 20 filters tx))
    × ((n : ℕ)
        → has n (12 ∷ 15 ∷ []) ≡ (
            if true && only_logs to_checksum_address get_logs 10 20 filters
            then found to_checksum_address get_logs 10 20 filters n
            else leb 10 n && leb n 20))
collect_blocks-selects_example =
    collect_blocks-selects to_checksum_address get_logs true 10 20 filters (12 ∷ 15 ∷ []) chosen
      two_blocks

abbrev times : List BlockTime
times =
    record { number = 6; timestamp = 7300 }
    ∷ record { number = 5; timestamp = 7201 }
    ∷ record { number = 4; timestamp = 7100 }
    ∷ []

two_hours : map_timestamps times [] ≡ (7200, 5) ∷ (3600, 4) ∷ []
unfolding map_timestamps update
two_hours = refl

-- A mint: its sender is the zero address.
abbrev mint : SpecificTransfer
mint =
    erc1155_transfer
      (record {
        transaction_hash = "0xdd";
        log_index = 1;
        from_address = zero_address;
        to_address = codes "0xbb";
        token_address = codes "0xcc";
        block_number = 5;
        block_hash = "0xee";
        block_timestamp = 7201;
      })
      3 10

abbrev encode : Address → Option ℕ → String
encode address token_id = "0x"

extract_token_parameters-exact_example :
    let params = map (λ r. r.param) (extract_token_parameters encode (mint ∷ [])) in
    Distinct params
    × ((p : TokenBalanceParam) → has p params ≡ any_asks p (mint ∷ []))
    × All (Asks encode) (extract_token_parameters encode (mint ∷ []))
extract_token_parameters-exact_example = extract_token_parameters-exact encode (mint ∷ [])
