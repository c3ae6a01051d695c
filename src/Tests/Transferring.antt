-- ===== src/Tests/Transferring.antt =====
-- The transfers of a batch event and of a plain transfer, with a codec that answers the same for each log.
use hemera_indexer.Prelude.{
  ◌≡◌, ◌≢◌, false, true, lookup, refl, Option, none, some, List, [], ◌∷◌, map, String, update,
}
use hemera_indexer.Errors.{message_eq, returns, raises, other, codes, lower}
use hemera_indexer.Transfers.{
  Address, Log, TokenTransfer, TokenType, erc20, erc721, erc1155, erc404,
}
use hemera_indexer.Transfers.Events.{
  Codec, handle_transfer_batch_event, extract_tokens_and_token_transfers, transfer_of,
  extract_transfer_from_log, handle_transfer_event,
}
use hemera_indexer.Transfers.Amounts.{IsBatchResult, handle_transfer_batch_event-result}
use hemera_indexer.Transfers.Origins.{Lined, extract_tokens_and_token_transfers-Lined}
use hemera_indexer.Transfers.Tokens.{TokenInfo, learn_tokens, learn_tokens-eq-map}
use hemera_indexer.Transfers.Specific.{
  generate_token_transfers, stored, generate_token_transfers-eq-map, IsKnown,
}

abbrev codec : Codec
codec = record {
  transfer_signature = "transfer";
  deposit_signature = "deposit";
  withdraw_signature = "withdraw";
  single_signature = "single";
  batch_signature = "batch";
  deposit = λ log. raises other;
  withdrawal = λ log. raises other;
  transfer = λ log. returns (codes "0xaa", codes "0xbb", 7);
  transfer_single = λ log. raises other;
  transfer_batch = λ log. returns (codes "0xaa", codes "0xbb", 1 ∷ 2 ∷ 1 ∷ [], 10 ∷ 20 ∷ 30 ∷ []);
}

abbrev log_of : String → Log
log_of topic = record {
  log_index = 4;
  address = codes "0xcc";
  data_hex = "0x";
  transaction_hash = "0xdd";
  block_number = 100;
  block_hash = "0xee";
  block_timestamp = 1000;
  topic0 = some topic;
  topic1 = some "a";
  topic2 = some "b";
  topic3 = none;
}

batch_moves :
    handle_transfer_batch_event codec (log_of "batch")
    ≡ returns (
        transfer_of (log_of "batch") (codes "0xaa") (codes "0xbb") (some 1) 40 erc1155
        ∷ transfer_of (log_of "batch") (codes "0xaa") (codes "0xbb") (some 2) 20 erc1155
        ∷ [])
unfolding handle_transfer_batch_event update lower
batch_moves = refl

handle_transfer_batch_event-result_example :
    (ts : List TokenTransfer) × (handle_transfer_batch_event codec (log_of "batch") ≡ returns ts)
    × IsBatchResult (1 ∷ 2 ∷ 1 ∷ []) (10 ∷ 20 ∷ 30 ∷ []) ts
handle_transfer_batch_event-result_example =
    handle_transfer_batch_event-result codec (log_of "batch") (codes "0xaa") (codes "0xbb")
      (1 ∷ 2 ∷ 1 ∷ []) (10 ∷ 20 ∷ 30 ∷ []) refl

abbrev two_logs : List Log
two_logs = log_of "transfer" ∷ log_of "batch" ∷ []

abbrev plain : TokenTransfer
plain = transfer_of (log_of "transfer") (codes "0xaa") (codes "0xbb") none 7 erc20

abbrev three_transfers : List TokenTransfer
three_transfers =
    plain
    ∷ transfer_of (log_of "batch") (codes "0xaa") (codes "0xbb") (some 1) 40 erc1155
    ∷ transfer_of (log_of "batch") (codes "0xaa") (codes "0xbb") (some 2) 20 erc1155
    ∷ []

two_logs_moved : extract_tokens_and_token_transfers codec two_logs ≡ returns three_transfers
unfolding extract_tokens_and_token_transfers extract_transfer_from_log handle_transfer_event
    handle_transfer_batch_event lower update
two_logs_moved = refl

extract_tokens_and_token_transfers-Lined_example : Lined two_logs three_transfers
extract_tokens_and_token_transfers-Lined_example =
    extract_tokens_and_token_transfers-Lined codec two_logs three_transfers two_logs_moved

abbrev tokens : Address → Option TokenType
tokens address = some erc721

known : IsKnown tokens plain
known = (erc721, refl, λ e. cc)

generate_token_transfers-eq-map_example :
    generate_token_transfers tokens (plain ∷ []) ≡ returns (map (stored tokens) (plain ∷ []))
generate_token_transfers-eq-map_example =
    generate_token_transfers-eq-map tokens (plain ∷ []) (refl, tt) (known, tt)

abbrev info : Address → TokenInfo
info address = record { has_token_uri = false; has_owner_of = false; has_decimals = true }

none_held : (a : Address) (ty : TokenType) → lookup a [] ≡ some ty → ty ≢ erc404
unfolding lookup
none_held a ty h = cc

learn_tokens-eq-map_example :
    let table = λ (a : Address). lookup a (learn_tokens info (plain ∷ []) []) in
    generate_token_transfers table (plain ∷ []) ≡ returns (map (stored table) (plain ∷ []))
learn_tokens-eq-map_example = learn_tokens-eq-map info (plain ∷ []) [] none_held (refl, tt)
