-- ===== src/Bridges/Arbitrum/Tickets.antt =====
-- indexer/modules/bridge/arbitrum/: what the addresses and the words of a message must be, for the job to
-- make a deposit of a ticket or of ETH without an exception.
use hemera_indexer.Prelude.{
  ℕ, ◌+◌, ◌<◌, ◌^◌, ◌≡◌, refl, Bool, true, false, ◌&&◌, Option, none, some, [], ◌∷◌, arith,
  if◌then◌else◌, ◌==◌, nat_beq, nat_eq, string_eq, Bool-cases, inl, inr, ap, ◌∙◌, leb, length, drop,
  ltb,
}
use hemera_indexer.Errors.{Message, message_eq, Returns, Returns-if, Returns-bind}
use hemera_indexer.Bridges.Bytes.{
  Bytes, IsBytes, slice, from_bytes, to_bytes, slice-IsBytes, IsBytes-drop, to_bytes-IsBytes,
}
use hemera_indexer.Bridges.Hex.{hex_of, from_hex-hex_of}
use hemera_indexer.Bridges.Arbitrum.Messages.{
  Word, InboxMessage, to_hex, text, zero_address, lstrip_zeros, is_zeros, strip_bytes_leading_zeros,
  strip_leading_zeros, token_of, submit_retryable, arbitrum, dodo_testnet,
}
use hemera_indexer.Bridges.Arbitrum.Events.{MessageDeliveredData, stripped_token}
use hemera_indexer.Bridges.Arbitrum.Rollup.{TransactionToken}
use hemera_indexer.Bridges.Arbitrum.Ids.{
  Hashing, convert_int_bytes, address_bytes, address_bytes-to_hex, calculate_deposit_tx_id,
  calculate_submit_retryable_id,
}
use hemera_indexer.Bridges.Arbitrum.Job.{stripped_word, retryable_deposit, plain_deposit}

lstrip_zeros-IsBytes : (bytes : Bytes) → IsBytes bytes → IsBytes (lstrip_zeros bytes)
unfolding lstrip_zeros
lstrip_zeros-IsBytes [] h = tt
lstrip_zeros-IsBytes (b ∷ bytes) h = elim (Bool-cases (nat_beq b 0)) [
  | inl z ↦ rw z (lstrip_zeros-IsBytes bytes h.1)
  | inr n ↦ rw n h
]

strip_bytes_leading_zeros-IsBytes :
    (bytes : Bytes) → IsBytes bytes → IsBytes (strip_bytes_leading_zeros bytes)
unfolding strip_bytes_leading_zeros
strip_bytes_leading_zeros-IsBytes bytes h =
    elim (Bool-cases (nat_beq (length bytes) 32 && is_zeros bytes)) [
      | inl z ↦ rw z (to_bytes-IsBytes 20 0)
      | inr n ↦ rw n (lstrip_zeros-IsBytes bytes h)
    ]

-- A text is that of bytes.
abbrev pub IsHexText : Message → Type 0
IsHexText hex = (bytes : Bytes) × (hex ≡ to_hex bytes) × IsBytes bytes

abbrev pub Any {ℓ} : {A : Type ℓ} → A → Type 0
Any a = Unit

-- The text of bytes is stripped to the text of bytes.
strip_leading_zeros-IsHexText :
    (bytes : Bytes) → IsBytes bytes → Returns IsHexText (strip_leading_zeros (to_hex bytes))
unfolding strip_leading_zeros
strip_leading_zeros-IsHexText bytes h = (
  to_hex (strip_bytes_leading_zeros bytes),
  rw (from_hex-hex_of bytes h) refl,
  (strip_bytes_leading_zeros bytes, refl, strip_bytes_leading_zeros-IsBytes bytes h),
)

address_bytes-IsHexText : (hex : Message) → IsHexText hex → Returns Any (address_bytes hex)
address_bytes-IsHexText hex (bytes, written, h) =
    (bytes, ap address_bytes written ∙ address_bytes-to_hex bytes h, tt)

token_of-Returns :
    (chain_id : ℕ) (rest : Bytes) → IsBytes rest → Returns Any (token_of chain_id rest)
unfolding token_of
token_of-Returns chain_id rest h =
    Returns-if Any (nat_beq chain_id arbitrum) (_, refl, tt)
      (Returns-if Any (nat_beq chain_id dodo_testnet)
        (Returns-bind Any Any _ _
          (Returns-if Any (leb 36 (length rest))
            (Returns-bind IsHexText Any (strip_leading_zeros (to_hex (slice 4 36 rest))) _
              (strip_leading_zeros-IsHexText (slice 4 36 rest) (slice-IsBytes 4 36 rest h))
              (λ t _. (some t, refl, tt)))
            (none, refl, tt))
          (λ t _. (_, refl, tt)))
        (_, refl, tt))

lt→ltb : (a b : ℕ) → a < b → ltb a b ≡ true
lt→ltb a b h = ground arith

-- A field that is the text of bytes.
abbrev IsWordText : Word → Type 0
IsWordText w = (bytes : Bytes) × (w ≡ text (to_hex bytes)) × IsBytes bytes

pub record IsTicket (i : InboxMessage) : Type 0 where
  dest : IsWordText i.dest_address
  excess : IsWordText i.excess_fee_refund_address
  call_value : IsWordText i.call_value_refund_address
  call : IsHexText i.data_bytes

stripped_word-IsHexText : (w : Word) → IsWordText w → Returns IsHexText (stripped_word w)
unfolding stripped_word
stripped_word-IsHexText w (bytes, written, h) =
    let (hex, stripped, is_hex) = strip_leading_zeros-IsHexText bytes h in
    (hex, ap stripped_word written ∙ stripped, is_hex)

slice_word :
    (start stop : ℕ) (bytes : Bytes)
    → IsBytes bytes
    → IsWordText (text (to_hex (slice start stop bytes)))
slice_word start stop bytes h = (slice start stop bytes, refl, slice-IsBytes start stop bytes h)

-- Whatever the bytes of a retryable ticket are, they are read.
pub submit_retryable-IsTicket :
    (chain_id : ℕ) (content : Bytes)
    → IsBytes content
    → Returns IsTicket (submit_retryable chain_id content)
unfolding submit_retryable
submit_retryable-IsTicket chain_id content h =
    Returns-bind Any IsTicket _ _
      (token_of-Returns chain_id (drop 288 content) (IsBytes-drop 288 content h))
      λ token _. (
        _,
        refl,
        record {
          dest = slice_word 0 32 content h;
          excess = slice_word 128 160 content h;
          call_value = slice_word 160 192 content h;
          call = (
            slice 288 (288 + from_bytes (slice 256 288 content)) content,
            refl,
            slice-IsBytes 288 (288 + from_bytes (slice 256 288 content)) content h,
          );
        },
      )

convert_int_bytes-Returns : (n : ℕ) → n < 2 ^ 256 → Returns Any (convert_int_bytes n)
unfolding convert_int_bytes
convert_int_bytes-Returns n h = (to_bytes 32 n, rw (lt→ltb n (2 ^ 256) h) refl, tt)

empty_text : IsHexText (48 ∷ 120 ∷ [])
unfolding hex_of
empty_text = ([], refl, tt)

either_text :
    (test : Bool) {x y : Message} → IsHexText x → IsHexText y → IsHexText (if test then x else y)
either_text true h k = h
either_text false h k = k

module _ (h : Hashing) (chain n : ℕ) (small : n < 2 ^ 256) where
  calculate_deposit_tx_id-Returns :
      (from to : Message) (value : ℕ)
      → IsHexText from
      → IsHexText to
      → Returns Any (calculate_deposit_tx_id h chain n from to value)
  unfolding calculate_deposit_tx_id
  calculate_deposit_tx_id-Returns from to value f t =
      Returns-bind Any Any _ _ (convert_int_bytes-Returns n small) λ _ _.
        Returns-bind Any Any _ _ (address_bytes-IsHexText from f)
          λ _ _. Returns-bind Any Any _ _ (address_bytes-IsHexText to t) λ _ _. (_, refl, tt)

  calculate_submit_retryable_id-Returns :
      (from : Message) (fee : ℕ) (dest : Message) (call_value value cost : ℕ)
      (excess refund : Message) (gas max_fee : ℕ) (content : Message)
      → IsHexText from
      → IsHexText dest
      → IsHexText excess
      → IsHexText refund
      → IsHexText content
      → Returns Any (
          calculate_submit_retryable_id h chain n from fee dest call_value value cost excess refund
            gas max_fee content)
  unfolding calculate_submit_retryable_id
  calculate_submit_retryable_id-Returns from fee dest call_value value cost excess refund gas
        max_fee content f d e r c =
      Returns-bind Any Any _ _ (convert_int_bytes-Returns n small) λ _ _.
        Returns-bind Any Any _ _ (address_bytes-IsHexText from f) λ _ _.
          Returns-bind Any Any _ _
            (address_bytes-IsHexText _ (either_text (dest == to_hex zero_address) empty_text d))
            λ _ _. Returns-bind Any Any _ _ (address_bytes-IsHexText refund r) λ _ _.
              Returns-bind Any Any _ _ (address_bytes-IsHexText excess e) λ _ _.
                Returns-bind Any Any _ _ (address_bytes-IsHexText content c) λ _ _. (_, refl, tt)

  pub retryable_deposit-Returns :
      (m : MessageDeliveredData) (token : Option TransactionToken) (i : InboxMessage)
      → IsHexText m.sender
      → IsTicket i
      → Returns (λ d. d.index ≡ n) (retryable_deposit h chain n m token i)
  unfolding retryable_deposit
  retryable_deposit-Returns m token i s t =
      Returns-bind IsHexText (λ d. d.index ≡ n) _ _ (stripped_word-IsHexText i.dest_address t.dest)
        λ dest d.
          Returns-bind IsHexText (λ d. d.index ≡ n) _ _
            (stripped_word-IsHexText i.excess_fee_refund_address t.excess)
            λ excess e.
              Returns-bind IsHexText (λ d. d.index ≡ n) _ _
                (stripped_word-IsHexText i.call_value_refund_address t.call_value)
                λ refund r.
                  Returns-bind Any (λ d. d.index ≡ n) _ _
                    (calculate_submit_retryable_id-Returns m.sender m.base_fee_l1 dest
                      i.l2_call_value i.msg_value i.max_submission_cost excess refund i.gas_limit
                      i.max_fee_per_gas i.data_bytes s d e r t.call)
                    λ id _. (_, refl, refl)

  pub plain_deposit-Returns :
      (m : MessageDeliveredData) (i : InboxMessage)
      → i.l1_token_id ≡ none
      → IsHexText m.sender
      → IsHexText m.from_address
      → Returns (λ d. d.index ≡ n) (plain_deposit h chain n m i)
  unfolding plain_deposit stripped_token
  plain_deposit-Returns m i no_token s f =
      Returns-bind Any (λ d. d.index ≡ n) _ _
        (calculate_deposit_tx_id-Returns m.sender m.from_address i.msg_value s f)
        λ id _.
          Returns-bind Any (λ d. d.index ≡ n) (stripped_token i.l1_token_id) _
            (none, ap stripped_token no_token, tt) λ _ _. (_, refl, refl)
