-- ===== src/Domain/Collected.antt =====
-- What the batch of `ExportTransactionsAndLogsJob` makes of receipts that can be read, and the order of
-- the logs.
use mathlib.Core.List.{Perm}
use hemera_indexer.Prelude.{
  ℕ, ◌+◌, ◌≡◌, refl, ap, ◌∙◌, subst, Option, none, some, List, [], ◌∷◌, ◌++◌, All, All-append,
  All-map, All-insert, All-lookup, length, length-append, arith, Dict, keys, lookup, insert,
  lookup-insert, ◌==◌, Bool-cases, inl, inr,
}
use hemera_indexer.Errors.{
  Message, Outcome, returns, ◌>>=◌, Returns, WhenReturns, WhenReturns-bind, WhenReturns-any,
}
use hemera_indexer.Utils.Sorting.{
  nat_order, pair_order, Sorted, sort_by-Sorted, sort_by-perm, All-sort_by,
}
use hemera_indexer.Domain.{Text, text_eq, field, EthUtils}
use hemera_indexer.Domain.Logs.{Log, InBlock, LogDict, log_from_rpc, log_fields, log_of}
use hemera_indexer.Domain.Receipts.{
  Receipt, ReceiptDict, Transaction, logs_from_rpc, receipt_from_rpc, receipt_of, fill_with_receipt,
}
use hemera_indexer.Domain.Job.{
  Collected, collect_receipt, collect_receipts, place_of, process, block_of, logs_in, keys-insert,
}

module _ (eth : EthUtils) (P : InBlock → Type 0) (block : InBlock) (in_P : P block) where
  -- A log is in the block that it is read for.
  log_from_rpc-block : (d : LogDict) → WhenReturns (λ l. P (block_of l)) (log_from_rpc eth block d)
  log_from_rpc-block d =
      WhenReturns-any (λ l. P (block_of l)) (log_fields eth d.fields)
        (λ f. returns (log_of block d.topics f)) (λ f. in_P)

  -- The logs that are read are as many as the node gave.
  abbrev GoodLogs : List LogDict → List Log → Type 0
  GoodLogs dicts logs = (length logs ≡ length dicts) × All (λ l. P (block_of l)) logs

  logs_from_rpc-blocks :
      (dicts : List LogDict) → WhenReturns (GoodLogs dicts) (logs_from_rpc eth block dicts)
  logs_from_rpc-blocks [] = (refl, tt)
  logs_from_rpc-blocks (d ∷ dicts) =
      WhenReturns-bind (λ l. P (block_of l)) (GoodLogs (d ∷ dicts)) (log_from_rpc eth block d)
        (λ log. logs_from_rpc eth block dicts >>= λ logs. returns (log ∷ logs))
        (log_from_rpc-block d)
        (λ log p.
          WhenReturns-bind (GoodLogs dicts) (GoodLogs (d ∷ dicts)) (logs_from_rpc eth block dicts)
            (λ logs. returns (log ∷ logs)) (logs_from_rpc-blocks dicts)
            (λ logs (count, all). (omega (arith, count), (p, all))))

  module _ {Float : Type 0} (to_float : Message → Outcome Float) where
    receipt_from_rpc-logs :
        (d : ReceiptDict)
        → WhenReturns (λ r. GoodLogs d.logs r.logs) (receipt_from_rpc to_float eth block d)
    unfolding receipt_from_rpc
    receipt_from_rpc-logs d =
        let read : List Log → Outcome (Receipt Float) = λ logs.
          receipt_of to_float eth d.fields >>= λ receipt.
          returns (record receipt { logs = logs }) in
        let Good : Receipt Float → Type 0 = λ r. GoodLogs d.logs r.logs in
        WhenReturns-bind (GoodLogs d.logs) Good (logs_from_rpc eth block d.logs) read
          (logs_from_rpc-blocks d.logs)
          (λ logs good.
            WhenReturns-any Good (receipt_of to_float eth d.fields)
              (λ receipt. returns (record receipt { logs = logs })) (λ receipt. good))

logs_in-cons :
    (result : Option ReceiptDict) (results : List (Option ReceiptDict))
    → logs_in (result ∷ results) ≡ logs_in (result ∷ []) + logs_in results
logs_in-cons none results = omega arith
logs_in-cons (some receipt) results = omega arith

module _ {Float : Type 0} (to_float : Message → Outcome Float) (eth : EthUtils) where
  -- The node has answered for a transaction of the batch, with a receipt that can be read.
  abbrev pub IsReadable : Dict Text (Transaction Float) → Option ReceiptDict → Type 0
  IsReadable mapper result =
      (receipt : ReceiptDict) × (result ≡ some receipt)
      × ((hash : Text) × (field "transactionHash" receipt.fields ≡ returns hash)
          × ((t : Transaction Float) × (lookup hash mapper ≡ some t)))
      × ((block : InBlock)
          → (r : Receipt Float) × (receipt_from_rpc to_float eth block receipt ≡ returns r))

  IsReadable-insert :
      (k : Text) (v : Transaction Float) (mapper : Dict Text (Transaction Float))
      (result : Option ReceiptDict)
      → IsReadable mapper result
      → IsReadable (insert k v mapper) result
  IsReadable-insert k v mapper result (receipt, present, (hash, says, (t, found)), readable) =
      let written = lookup-insert k hash v mapper in
      elim (Bool-cases (hash == k)) [
        | inl same ↦ (receipt, present, (hash, says, (v, rw (written, same) refl)), readable)
        | inr other ↦ (receipt, present, (hash, says, (t, rw (written, other) found)), readable)
      ]

  module _ (P : InBlock → Type 0) where
    -- What holds while the receipts are collected, of `collected` logs.
    abbrev pub IsCollected : List Text → ℕ → Collected Float → Type 0
    IsCollected hashes collected (mapper, logs) =
        (keys mapper ≡ hashes)
        × All (λ e. P e.1.block) mapper
        × (length logs ≡ collected)
        × All (λ l. P (block_of l)) logs

    -- A round whose receipt can be read adds its logs, and keeps the transactions.
    collect_receipt-IsCollected :
        (hashes : List Text) (collected : ℕ) (result : Option ReceiptDict)
        (mapper : Dict Text (Transaction Float)) (logs : List Log)
        → IsCollected hashes collected (mapper, logs)
        → IsReadable mapper result
        → Returns
            (λ state.
              IsCollected hashes (collected + logs_in (result ∷ [])) state
              × ((other : Option ReceiptDict) → IsReadable mapper other → IsReadable state.0 other))
            (collect_receipt to_float eth result (mapper, logs))
    unfolding collect_receipt fill_with_receipt
    collect_receipt-IsCollected hashes collected result mapper logs (same, within, count, all)
          (receipt, present, (hash, says, (t, found)), readable) =
        let (entity, read) = readable t.block in
        let in_block : P t.block = All-lookup (λ k v. P v.block) hash mapper within found in
        let good =
          subst (WhenReturns _) read
            (receipt_from_rpc-logs eth P t.block in_block to_float receipt) in
        let filled = fill_with_receipt entity t in
        let adds = ap (λ r. logs_in (r ∷ [])) present in
        (
          (insert hash filled mapper, logs ++ entity.logs),
          rw (present, says) (rw found (rw read refl)),
          (
            (
              keys-insert hash filled mapper found ∙ same,
              All-insert (λ e. P e.1.block) hash filled mapper (λ j h. in_block) in_block within,
              omega (arith, length-append logs entity.logs, count, good.0, adds),
              All-append _ logs entity.logs all good.1,
            ),
            λ other. IsReadable-insert hash filled mapper other,
          ),
        )

    collect_receipts-IsCollected :
        (hashes : List Text) (collected : ℕ) (results : List (Option ReceiptDict))
        (mapper : Dict Text (Transaction Float)) (logs : List Log)
        → IsCollected hashes collected (mapper, logs)
        → All (IsReadable mapper) results
        → Returns
            (IsCollected hashes (collected + logs_in results))
            (collect_receipts to_float eth results (mapper, logs))
    unfolding collect_receipts
    collect_receipts-IsCollected hashes collected [] mapper logs h readable =
        ((mapper, logs), refl, subst (λ n. IsCollected hashes n (mapper, logs)) (omega arith) h)
    collect_receipts-IsCollected hashes collected (result ∷ results) mapper logs h readable =
        let ((mapper', logs'), first, (kept, still)) =
          collect_receipt-IsCollected hashes collected result mapper logs h readable.0 in
        let so_far = collected + logs_in (result ∷ []) in
        let (done, rest, all) =
          collect_receipts-IsCollected hashes so_far results mapper' logs' kept
            (All-map still results readable.1) in
        (
          done,
          rw first rest,
          subst (λ n. IsCollected hashes n done) (omega (arith, logs_in-cons result results)) all,
        )

    -- If the node answers with receipts that can be read, each of a transaction of the batch, then the
    -- loop returns: it collects as many logs as the receipts have, each in the block of a transaction of
    -- the batch, keeps the transactions, and `_process` leaves these logs sorted by block and index.
    pub collect_receipts-process :
        (results : List (Option ReceiptDict)) (mapper : Dict Text (Transaction Float))
        → All (λ e. P e.1.block) mapper
        → All (IsReadable mapper) results
        → Returns
            (λ (done, logs).
              (keys done ≡ keys mapper)
              × (length logs ≡ logs_in results)
              × All (λ l. P (block_of l)) (process logs)
              × Perm (process logs) logs
              × Sorted place_of (process logs))
            (collect_receipts to_float eth results (mapper, []))
    unfolding process
    collect_receipts-process results mapper within readable =
        let ((done, logs), returned, (same, _, count, all)) =
          collect_receipts-IsCollected (keys mapper) 0 results mapper [] (refl, within, refl, tt)
            readable in
        (
          (done, logs),
          returned,
          (
            same,
            omega (arith, count),
            All-sort_by place_of _ logs all,
            sort_by-perm place_of logs,
            sort_by-Sorted place_of logs,
          ),
        )
