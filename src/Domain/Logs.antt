-- ===== src/Domain/Logs.antt =====
-- indexer/domain/log.py: `Log`, its reading from an answer, and the bytes of its topics and data.
use hemera_indexer.Prelude.{
  ℕ, ◌/◌, ◌%◌, All-append, ◌≡◌, refl, ap, ◌∙◌, Option, none, some, List, [], ◌∷◌, ◌++◌, get_elem?,
  drop, if◌then◌else◌,
}
use hemera_indexer.Errors.{Message, codes, Outcome, returns, ◌>>=◌, starts_with}
use hemera_indexer.Transfers.{Address}
use hemera_indexer.Bridges.Bytes.{Bytes, IsBytes}
use hemera_indexer.Bridges.Hex.{from_hex, hex_of, hex_digit, from_hex-hex_of}
use hemera_indexer.Domain.{Text, Fields, field, EthUtils, int_field, address_field, not_null}

pub record Log : Type 0 where
  pub log_index : ℕ
  pub address : Address
  pub data_text : Text
  pub transaction_hash : Text
  pub transaction_index : ℕ
  pub block_timestamp : ℕ
  pub block_number : ℕ
  pub block_hash : Text
  pub topic0 : Option Message
  pub topic1 : Option Message
  pub topic2 : Option Message
  pub topic3 : Option Message

-- The arguments `block_timestamp`, `block_hash` and `block_number` of the readers.
pub record InBlock : Type 0 where
  pub timestamp : ℕ
  pub hash : Text
  pub number : ℕ

-- `log_dict`; the topics are texts, and topics that are missing are none, `log_dict.get("topics", [])`.
pub record LogDict : Type 0 where
  pub fields : Fields
  pub topics : List Message

-- The arguments that are read from the answer.
pub record LogFields : Type 0 where
  pub log_index : ℕ
  pub address : Address
  pub data_text : Text
  pub transaction_hash : Text
  pub transaction_index : ℕ

abbrev pub log_of : InBlock → List Message → LogFields → Log
log_of block topics f = record {
  log_index = f.log_index;
  address = f.address;
  data_text = f.data_text;
  transaction_hash = f.transaction_hash;
  transaction_index = f.transaction_index;
  block_timestamp = block.timestamp;
  block_number = block.number;
  block_hash = block.hash;
  topic0 = get_elem? topics 0;
  topic1 = get_elem? topics 1;
  topic2 = get_elem? topics 2;
  topic3 = get_elem? topics 3;
}

module _ (eth : EthUtils) where
  abbrev pub log_fields : Fields → Outcome LogFields
  log_fields d = do
    log_index ← int_field eth "logIndex" d
    address ← address_field eth "address" d
    data_text ← field "data" d
    transaction_hash ← field "transactionHash" d
    transaction_index ← int_field eth "transactionIndex" d
    returns (record {
      log_index = log_index;
      address = address;
      data_text = data_text;
      transaction_hash = transaction_hash;
      transaction_index = transaction_index;
    })

  -- `Log.from_rpc(log_dict, block_timestamp, block_hash, block_number)`
  abbrev pub log_from_rpc : InBlock → LogDict → Outcome Log
  log_from_rpc block d = log_fields d.fields >>= λ f. returns (log_of block d.topics f)

-- The text without its prefix "0x".
unfoldable pub without_0x : Message → Message
without_0x text = if starts_with (codes "0x") text then drop 2 text else text

-- A topic that is missing or empty is left out.
abbrev topic_text : Option Message → Message
topic_text none = []
topic_text (some topic) = without_0x topic

-- `get_bytes_topics`: all topics but the first, which is the signature of the event.
unfoldable pub get_bytes_topics : Log → Outcome Bytes
get_bytes_topics self =
    from_hex (topic_text self.topic1 ++ topic_text self.topic2 ++ topic_text self.topic3)

-- `get_bytes_data`; data that are null are no text.
unfoldable pub get_bytes_data : Log → Outcome Bytes
get_bytes_data self = not_null self.data_text >>= λ text. from_hex (without_0x text)

-- `get_topic_with_data`
unfoldable pub get_topic_with_data : Log → Outcome Bytes
unfolding get_bytes_topics get_bytes_data
get_topic_with_data self =
    get_bytes_topics self >>= λ topics. get_bytes_data self >>= λ bytes. returns (topics ++ bytes)

-- The text of bytes, with its prefix.
abbrev pub printed : Bytes → Message
printed bytes = codes "0x" ++ hex_of bytes

abbrev pub prints : Option Bytes → Option Message
prints none = none
prints (some bytes) = some (printed bytes)

abbrev pub bytes_or_empty : Option Bytes → Bytes
bytes_or_empty none = []
bytes_or_empty (some bytes) = bytes

abbrev pub IsBytesIf : Option Bytes → Type 0
IsBytesIf none = Unit
IsBytesIf (some bytes) = IsBytes bytes

without_0x-printed : (bytes : Bytes) → without_0x (printed bytes) ≡ hex_of bytes
unfolding without_0x starts_with
without_0x-printed bytes = refl

topic_text-prints : (o : Option Bytes) → topic_text (prints o) ≡ hex_of (bytes_or_empty o)
unfolding hex_of
topic_text-prints none = refl
topic_text-prints (some bytes) = without_0x-printed bytes

hex_of-append : (xs ys : Bytes) → hex_of (xs ++ ys) ≡ hex_of xs ++ hex_of ys
unfolding hex_of
hex_of-append [] ys = refl
hex_of-append (x ∷ xs) ys =
    ap (λ l. hex_digit (x / 16) ∷ hex_digit (x % 16) ∷ l) (hex_of-append xs ys)

hex_of-append3 : (xs ys zs : Bytes) → hex_of (xs ++ ys ++ zs) ≡ hex_of xs ++ hex_of ys ++ hex_of zs
hex_of-append3 xs ys zs =
    hex_of-append (xs ++ ys) zs ∙ ap (λ l. l ++ hex_of zs) (hex_of-append xs ys)

IsBytes-bytes_or_empty : (o : Option Bytes) → IsBytesIf o → IsBytes (bytes_or_empty o)
IsBytes-bytes_or_empty none h = tt
IsBytes-bytes_or_empty (some bytes) h = h

-- A log whose topics and data are the texts of bytes, each with its prefix "0x", gives these bytes, in
-- their order, without those of the first topic; a topic may be missing.
pub get_topic_with_data-printed :
    (self : Log) (topic1 topic2 topic3 : Option Bytes) (bytes : Bytes)
    → self.topic1 ≡ prints topic1
    → self.topic2 ≡ prints topic2
    → self.topic3 ≡ prints topic3
    → self.data_text ≡ some (printed bytes)
    → IsBytesIf topic1
    → IsBytesIf topic2
    → IsBytesIf topic3
    → IsBytes bytes
    → get_topic_with_data self
      ≡ returns ((bytes_or_empty topic1 ++ bytes_or_empty topic2 ++ bytes_or_empty topic3) ++ bytes)
unfolding get_topic_with_data
get_topic_with_data-printed self topic1 topic2 topic3 bytes is1 is2 is3 has_data fit1 fit2 fit3
      fit =
    let t1 = bytes_or_empty topic1 in
    let t2 = bytes_or_empty topic2 in
    let t3 = bytes_or_empty topic3 in
    let text : topic_text self.topic1 ++ topic_text self.topic2 ++ topic_text self.topic3
        ≡ hex_of (t1 ++ t2 ++ t3) =
      rw
        (
          is1,
          is2,
          is3,
          topic_text-prints topic1,
          topic_text-prints topic2,
          topic_text-prints topic3,
          hex_of-append3 t1 t2 t3,
        )
        refl in
    let all_fit =
      All-append _ (t1 ++ t2) t3
        (All-append _ t1 t2 (IsBytes-bytes_or_empty topic1 fit1)
          (IsBytes-bytes_or_empty topic2 fit2))
        (IsBytes-bytes_or_empty topic3 fit3) in
    let topics = ap from_hex text ∙ from_hex-hex_of (t1 ++ t2 ++ t3) all_fit in
    let after =
      ap (λ t. not_null t >>= λ text. from_hex (without_0x text)) has_data
      ∙ ap from_hex (without_0x-printed bytes)
      ∙ from_hex-hex_of bytes fit in
    ap (λ o. o >>= λ ts. get_bytes_data self >>= λ bs. returns (ts ++ bs)) topics
    ∙ ap (λ o. o >>= λ bs. returns ((t1 ++ t2 ++ t3) ++ bs)) after
