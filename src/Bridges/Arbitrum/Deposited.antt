-- ===== src/Bridges/Arbitrum/Deposited.antt =====
-- indexer/modules/bridge/arbitrum/arb_bridge_on_l1_job.py: which messages become deposits, and which make
-- the job raise.
use hemera_indexer.Prelude.{
  ℕ, ◌<◌, ◌^◌, ◌≡◌, ◌⊎◌, refl, String, Bool, not, Option, none, some, List, [], ◌∷◌, ◌++◌, map,
  arith, if◌then◌else◌, nat_beq, nat_eq, string_eq, Dict, lookup, All, inl, inr, flat_map, ap, ◌∙◌,
  Option-cases,
}
use mathlib.Core.List.{map-append}
use hemera_indexer.Errors.{
  message_eq, Outcome, returns, raises, other, ◌>>=◌, Returns, Returns-bind,
}
use hemera_indexer.Bridges.Bytes.{Bytes, IsBytes}
use hemera_indexer.Bridges.Arbitrum.Messages.{
  InboxMessage, no_message, eth_deposit, submit_retryable, un_marshal_inbox_message_delivered_data,
  un_marshal_kind,
}
use hemera_indexer.Bridges.Arbitrum.Events.{InboxMessageDeliveredData, MessageDeliveredData}
use hemera_indexer.Bridges.Arbitrum.Rollup.{TransactionToken}
use hemera_indexer.Bridges.Arbitrum.Ids.{Hashing}
use hemera_indexer.Bridges.Arbitrum.Job.{
  Deposit, kind_of, plain_deposit, branches, deposit_if, deposit_of, arb_deposits,
}
use hemera_indexer.Bridges.Arbitrum.Tickets.{
  IsHexText, IsTicket, submit_retryable-IsTicket, retryable_deposit-Returns, plain_deposit-Returns,
}

-- The kinds of the messages that are read: tickets, deposits of ETH, initialisations, messages of the
-- second layer, and the reports of batches, which are read and make no deposit.
abbrev pub IsRead : ℕ → Type 0
IsRead k = (k ≡ 9) ⊎ ((k ≡ 12) ⊎ ((k ≡ 11) ⊎ ((k ≡ 3) ⊎ (k ≡ 13))))

abbrev pub makes_deposit : ℕ → Bool
makes_deposit k = not (nat_beq k 13)

-- The numbers of the messages that become deposits.
abbrev pub number_if : ℕ → Option MessageDeliveredData → List ℕ
number_if n none = []
number_if n (some m) = if makes_deposit m.kind then n ∷ [] else []

one_number :
    (n : ℕ) (made : Outcome Deposit)
    → Returns (λ d. d.index ≡ n) made
    → Returns (λ ds. map (λ d. d.index) ds ≡ n ∷ []) (made >>= λ d. returns (d ∷ []))
one_number n made made_returns =
    Returns-bind (λ d. d.index ≡ n) (λ ds. map (λ d. d.index) ds ≡ n ∷ []) made _ made_returns
      λ d e. (d ∷ [], refl, ap (λ i. i ∷ []) e)

-- What the message must have for its deposit: a kind that is read, and addresses that are texts of
-- bytes.
pub record IsMessage (m : MessageDeliveredData) : Type 0 where
  pub kind_read : IsRead m.kind
  pub sender_hex : IsHexText m.sender
  pub from_hex_text : IsHexText m.from_address

un_marshal-raises :
    (kind : ℕ) (content : Bytes) (chain : ℕ)
    → ¬ IsRead kind
    → un_marshal_inbox_message_delivered_data (kind_of kind) content chain ≡ raises other
unfolding un_marshal_inbox_message_delivered_data un_marshal_kind kind_of
un_marshal-raises kind content chain unknown = ground arith

module _ (h : Hashing) (chain n : ℕ) (small : n < 2 ^ 256) where
  deposit_if-Returns :
      (inbox : InboxMessageDeliveredData) (token : Option TransactionToken)
      (m : MessageDeliveredData)
      → IsBytes inbox.content
      → IsMessage m
      → Returns
          (λ ds. map (λ d. d.index) ds ≡ number_if n (some m))
          (deposit_if h chain n inbox token (some m))
  unfolding deposit_if un_marshal_inbox_message_delivered_data branches eth_deposit
  deposit_if-Returns inbox token m bytes ok =
      let s = ok.sender_hex in
      let f = ok.from_hex_text in
      let plain =
        λ (m' : MessageDeliveredData) (i : InboxMessage) (none_read : i.l1_token_id ≡ none)
            (s' : IsHexText m'.sender) (f' : IsHexText m'.from_address).
          one_number n (plain_deposit h chain n m' i)
            (plain_deposit-Returns h chain n small m' i none_read s' f') in
      elim ok.kind_read [
        | inl ticket ↦ rw ticket (
            Returns-bind IsTicket (λ ds. map (λ d. d.index) ds ≡ n ∷ [])
              (submit_retryable chain inbox.content) _
              (submit_retryable-IsTicket chain inbox.content bytes)
              λ i t.
                one_number n _
                  (retryable_deposit-Returns h chain n small (record m { kind = 9 }) token i s t))
        | inr (inl eth) ↦
            rw eth (plain (record m { kind = 12 }) (eth_deposit inbox.content) refl s f)
        | inr (inr (inl init)) ↦ rw init (plain (record m { kind = 11 }) no_message refl s f)
        | inr (inr (inr (inl l2))) ↦ rw l2 (plain (record m { kind = 3 }) no_message refl s f)
        | inr (inr (inr (inr report))) ↦ rw report ([], refl, refl)
      ]

  -- Any other kind raises, 0 and 7 among them.
  deposit_if-raises :
      (inbox : InboxMessageDeliveredData) (token : Option TransactionToken)
      (m : MessageDeliveredData)
      → ¬ IsRead m.kind
      → deposit_if h chain n inbox token (some m) ≡ raises other
  unfolding deposit_if
  deposit_if-raises inbox token m unknown =
      ap (λ o. o >>= branches h chain n m token)
        (un_marshal-raises m.kind inbox.content chain unknown)

module _ (h : Hashing) (chain : ℕ) (tokens : Dict String TransactionToken)
    (delivered : Dict ℕ MessageDeliveredData) where
  -- An entry of the messages of the inbox.
  abbrev pub IsEntry : ℕ × InboxMessageDeliveredData → Type 0
  IsEntry e =
      (e.0 < 2 ^ 256)
      × IsBytes e.1.content
      × ((m : MessageDeliveredData) → lookup e.0 delivered ≡ some m → IsMessage m)

  abbrev pub numbers : Dict ℕ InboxMessageDeliveredData → List ℕ
  numbers = flat_map (λ e. number_if e.0 (lookup e.0 delivered))

  deposit_of-Returns :
      (e : ℕ × InboxMessageDeliveredData)
      → IsEntry e
      → Returns
          (λ ds. map (λ d. d.index) ds ≡ number_if e.0 (lookup e.0 delivered))
          (deposit_of h chain tokens delivered e)
  unfolding deposit_of deposit_if
  deposit_of-Returns (n, inbox) (small, bytes, ok) = elim (Option-cases (lookup n delivered)) [
    | inl missing ↦ rw missing ([], refl, refl)
    | inr (m, found) ↦ rw found (
        deposit_if-Returns h chain n small inbox (lookup inbox.transaction_hash tokens) m bytes
          (ok m found))
  ]

  pub arb_deposits-numbers :
      (inbox : Dict ℕ InboxMessageDeliveredData)
      → All IsEntry inbox
      → Returns
          (λ ds. map (λ d. d.index) ds ≡ numbers inbox)
          (arb_deposits h chain tokens delivered inbox)
  unfolding arb_deposits
  arb_deposits-numbers [] ok = ([], refl, refl)
  arb_deposits-numbers (e ∷ entries) ok =
      let P = λ (e : ℕ × InboxMessageDeliveredData) (ds : List Deposit).
        map (λ d. d.index) ds ≡ number_if e.0 (lookup e.0 delivered) in
      let Q = λ (ds : List Deposit). map (λ d. d.index) ds ≡ numbers (e ∷ entries) in
      Returns-bind (P e) Q (deposit_of h chain tokens delivered e) _ (deposit_of-Returns e ok.0)
        λ ds p.
          Returns-bind (λ more. map (λ d. d.index) more ≡ numbers entries) Q
            (arb_deposits h chain tokens delivered entries) _ (arb_deposits-numbers entries ok.1)
            λ more q. (ds ++ more, refl, map-append (λ d. d.index) ds more ∙ rw p (rw q refl))

  -- One message of a kind that is not read makes the whole raise, whatever stands before and behind it.
  pub arb_deposits-raises :
      (before : Dict ℕ InboxMessageDeliveredData) (n : ℕ) (inbox : InboxMessageDeliveredData)
      (after : Dict ℕ InboxMessageDeliveredData) (m : MessageDeliveredData)
      → All IsEntry before
      → n < 2 ^ 256
      → lookup n delivered ≡ some m
      → ¬ IsRead m.kind
      → arb_deposits h chain tokens delivered (before ++ (n, inbox) ∷ after) ≡ raises other
  unfolding arb_deposits deposit_of
  arb_deposits-raises [] n inbox after m ok small found unknown = rw found (
      rw (deposit_if-raises h chain n small inbox (lookup inbox.transaction_hash tokens) m unknown)
        refl)
  arb_deposits-raises (e ∷ before) n inbox after m ok small found unknown =
      let (ds, returned, _) = deposit_of-Returns e ok.0 in
      rw returned (rw (arb_deposits-raises before n inbox after m ok.1 small found unknown) refl)
