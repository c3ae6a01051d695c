-- ===== src/Balances/Answers.antt =====
-- `token_balances_rpc_requests` of indexer/jobs/export_token_balances_job.py: the balances that are read
-- from the node's answers. The provider and the codec of web3 are parameters.
use hemera_indexer.Prelude.{
  ℕ, suc, ◌≡◌, refl, ap, ◌∙◌, sym, Bool, true, false, Option, none, some, List, [], ◌∷◌, drop,
}
use hemera_indexer.Errors.{Message, Outcome, returns, raises, other, ◌>>=◌, lower}
use hemera_indexer.Transfers.{TokenType, Address}
use hemera_indexer.Utils.Rpc.{
  Response, rpc_response_to_result, zip_rpc_response, zip_rpc_response-eq-with_last, last_with,
  with_last,
}
use hemera_indexer.Bridges.Bytes.{Bytes}
use hemera_indexer.Bridges.Hex.{from_hex}
use hemera_indexer.Balances.Tokens.{Request, TokenBalanceParam}

pub record TokenBalance : Type 0 where
  pub address : Address
  pub token_id : Option ℕ
  pub token_type : TokenType
  pub token_address : Address
  pub balance : Option ℕ
  pub block_number : ℕ
  pub block_timestamp : ℕ

-- `token["request_id"] = idx`
abbrev pub numbered {ℓ} : {A : Type ℓ} → ℕ → List A → List (ℕ × A)
numbered idx [] = []
numbered idx (token ∷ tokens) = (idx, token) ∷ numbered (suc idx) tokens

abbrev pub request_id {ℓ} : {A : Type ℓ} → ℕ × A → ℕ
request_id (idx, token) = idx

abbrev pub balance_of : TokenBalanceParam → Option ℕ → TokenBalance
balance_of p balance = record {
  address = lower p.address;
  token_id = p.token_id;
  token_type = p.token_type;
  token_address = lower p.token_address;
  balance = balance;
  block_number = p.block_number;
  block_timestamp = p.block_timestamp;
}

-- The balances, unless a response raises, and the requests whose answers could not be decoded.
abbrev pub Balances : Type 0
Balances = Outcome (List TokenBalance) × List Request

abbrev add_balance : Request → Option ℕ → Balances → Balances
add_balance r balance (others, failed) =
    (others >>= λ xs. returns (balance_of r.param balance ∷ xs), failed)

abbrev add_decoded : Request → Outcome ℕ → Balances → Balances
add_decoded r (returns balance) later = add_balance r (some balance) later
add_decoded r (raises e) later =
    let (others, failed) = add_balance r none later in (others, r ∷ failed)

module _ (uint256 : Bytes → Outcome ℕ) where
  -- One round; an empty result is falsy, and leaves no balance.
  abbrev collect_balance : Outcome (Option Message) → Request → Balances → Balances
  collect_balance (raises e) r later = (raises e, [])
  collect_balance (returns none) r later = add_balance r none later
  collect_balance (returns (some [])) r later = add_balance r none later
  collect_balance (returns (some (c ∷ text))) r later =
      add_decoded r (from_hex (drop 2 (c ∷ text)) >>= uint256) later

  abbrev collect_balances : List ((ℕ × Request) × Response Message) → Balances
  collect_balances [] = (returns [], [])
  collect_balances (((idx, r), response) ∷ rest) =
      collect_balance (rpc_response_to_result response) r (collect_balances rest)

-- The provider, for a batch and for a single call.
pub record Provider {ℓ} (R : Type ℓ) : Type ℓ where
  pub batch : List (ℕ × R) → Outcome (List (Response Message))
  pub single : ℕ × R → Outcome (Response Message)

module _ {ℓ} {R : Type ℓ} (make_requests : Provider R) where
  -- Without batches the first call alone is made; of no calls there is none, an `IndexError`.
  abbrev pub answers_to : List (ℕ × R) → Bool → Outcome (List (Response Message))
  answers_to requests true = make_requests.batch requests
  answers_to [] false = raises other
  answers_to (request ∷ rest) false =
      make_requests.single request >>= λ response. returns (response ∷ [])

module _ (uint256 : Bytes → Outcome ℕ) where
  abbrev balances_from : List (ℕ × Request) → Outcome (List (Response Message)) → Balances
  balances_from requests (returns responses) =
      collect_balances uint256 (zip_rpc_response request_id requests responses)
  balances_from requests (raises e) = (raises e, [])

  -- `token_balances_rpc_requests(make_requests, tokens, is_batch)`
  unfoldable pub token_balances_rpc_requests : Provider Request → List Request → Bool → Balances
  token_balances_rpc_requests make_requests tokens is_batch =
      balances_from (numbered 0 tokens) (answers_to make_requests (numbered 0 tokens) is_batch)

-- What the answers are read through: for each id the last response.
abbrev pub SameAnswers : List (Response Message) → List (Response Message) → Type 0
SameAnswers one another = (k : ℕ) → last_with k one ≡ last_with k another

with_last-eq {ℓ} :
    {R : Type ℓ} (one another : List (Response Message)) (requests : List (ℕ × R))
    → SameAnswers one another
    → with_last request_id one requests ≡ with_last request_id another requests
with_last-eq one another [] same = refl
with_last-eq {R = R} one another ((idx, r) ∷ rest) same =
    let with_first : Option (Response Message)
        → List ((ℕ × R) × Response Message)
        → List ((ℕ × R) × Response Message) =
      λ o others. elim o [ some response ↦ ((idx, r), response) ∷ others | none ↦ others ] in
    ap (λ o. with_first o (with_last request_id one rest)) (same idx)
    ∙ ap (with_first (last_with idx another)) (with_last-eq one another rest same)

pub zip_rpc_response-eq {ℓ} :
    {R : Type ℓ} (one another : List (Response Message)) (requests : List (ℕ × R))
    → SameAnswers one another
    → zip_rpc_response request_id requests one ≡ zip_rpc_response request_id requests another
zip_rpc_response-eq one another requests same =
    zip_rpc_response-eq-with_last request_id requests one
    ∙ with_last-eq one another requests same
    ∙ sym (zip_rpc_response-eq-with_last request_id requests another)

-- The order of the responses of a batch is of no account: two providers that answer each request id
-- with the same last response give the same balances.
pub token_balances_rpc_requests-eq :
    (uint256 : Bytes → Outcome ℕ) (first second : Provider Request) (tokens : List Request)
    (one another : List (Response Message))
    → first.batch (numbered 0 tokens) ≡ returns one
    → second.batch (numbered 0 tokens) ≡ returns another
    → SameAnswers one another
    → token_balances_rpc_requests uint256 first tokens true
      ≡ token_balances_rpc_requests uint256 second tokens true
unfolding token_balances_rpc_requests
token_balances_rpc_requests-eq uint256 first second tokens one another says_one says_another same =
    let requests = numbered 0 tokens in
    ap (balances_from uint256 requests) says_one
    ∙ ap (collect_balances uint256) (zip_rpc_response-eq one another requests same)
    ∙ sym (ap (balances_from uint256 requests) says_another)
