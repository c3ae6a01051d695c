-- ===== src/Utils/Batches.antt =====
-- `dynamic_batch_iterator` of indexer/utils/utils.py. The generator asks for the batch size once
-- at the start and once after each batch that it hands out, and the executor may have changed it
-- in between: `batch_size_getter i` is the answer to call number `i`.
use hemera_indexer.Prelude.{
  ℕ, suc, ◌≤◌, ◌<◌, max, ◌≡◌, refl, ◌≢◌, inl, inr, List, [], ◌∷◌, ◌++◌, append_assoc, arith,
  if◌then◌else◌, ltb, leb, leb→le, leb→lt, Bool-cases, length, length-append, concat, ltb-zero-suc,
}

module _ {ℓ} {A : Type ℓ} (batch_size_getter : ℕ → ℕ) where
  -- The loop, at call number `call`, with the answer `batch_size` to it.
  batches_loop : ℕ → ℕ → List A → List A → List (List A)
  batches_loop call batch_size batch [] = if ltb 0 (length batch) then batch ∷ [] else []
  batches_loop call batch_size batch (item ∷ rest) =
      let batch' = batch ++ item ∷ [] in
      let after_yield = batches_loop (suc call) (batch_size_getter (suc call)) [] rest in
      let longer = batches_loop call batch_size batch' rest in
      if leb batch_size (length batch') then batch' ∷ after_yield else longer

  -- `dynamic_batch_iterator(iterable, batch_size_getter)`
  pub dynamic_batch_iterator : List A → List (List A)
  unfolding batches_loop
  dynamic_batch_iterator iterable = batches_loop 0 (batch_size_getter 0) [] iterable

  concat-batches_loop :
      (call size : ℕ) (batch items : List A)
      → concat (batches_loop call size batch items) ≡ batch ++ items
  unfolding batches_loop
  concat-batches_loop call size [] [] = refl
  concat-batches_loop call size (x ∷ batch) [] = rw (ltb-zero-suc (length batch))
  concat-batches_loop call size batch (item ∷ rest) =
      elim (Bool-cases (leb size (length (batch ++ item ∷ [])))) [
        | inl full ↦
            rw (full, concat-batches_loop (suc call) (batch_size_getter (suc call)) [] rest)
              (append_assoc batch (item ∷ []) rest)
        | inr more ↦
            rw (more, concat-batches_loop call size (batch ++ item ∷ []) rest)
              (append_assoc batch (item ∷ []) rest)
      ]

  -- The batches, joined, are the items: none is lost, repeated or moved, whatever sizes the getter
  -- answers.
  pub concat-dynamic_batch_iterator :
      (items : List A) → concat (dynamic_batch_iterator items) ≡ items
  unfolding dynamic_batch_iterator
  concat-dynamic_batch_iterator = concat-batches_loop 0 (batch_size_getter 0) []

  -- Batch number `call` is not empty and has at most the size that was asked for it, a size of zero
  -- counting as one; and every batch but the last has exactly that size.
  abbrev pub Sized : ℕ → List (List A) → Type ℓ
  Sized call [] = Unit
  Sized call (b ∷ rest) =
      (0 < length b)
      × (length b ≤ max 1 (batch_size_getter call))
      × (rest ≢ [] → length b ≡ max 1 (batch_size_getter call))
      × Sized (suc call) rest

  batches_loop-Sized :
      (call : ℕ) (batch items : List A)
      → length batch < max 1 (batch_size_getter call)
      → Sized call (batches_loop call (batch_size_getter call) batch items)
  unfolding batches_loop
  batches_loop-Sized call [] [] room = tt
  batches_loop-Sized call (x ∷ batch) [] room =
      rw (ltb-zero-suc (length batch)) (omega arith, omega arith, λ more. absurd (more refl), tt)
  batches_loop-Sized call batch (item ∷ rest) room =
      let size = batch_size_getter call in
      let longer = length-append batch (item ∷ []) in
      elim (Bool-cases (leb size (length (batch ++ item ∷ [])))) [
        | inl full ↦
            let reached = leb→le size (length (batch ++ item ∷ [])) full in
            rw full (
              omega arith,
              omega arith,
              λ _. omega arith,
              batches_loop-Sized (suc call) [] rest (omega arith),
            )
        | inr more ↦
            let below = leb→lt size (length (batch ++ item ∷ [])) more in
            rw more (batches_loop-Sized call (batch ++ item ∷ []) rest (omega arith))
      ]

  -- The batches have the sizes that the getter asks for.
  pub dynamic_batch_iterator-Sized : (items : List A) → Sized 0 (dynamic_batch_iterator items)
  unfolding dynamic_batch_iterator
  dynamic_batch_iterator-Sized items = batches_loop-Sized 0 [] items (omega arith)

  -- The batches, joined, are the items, whatever sizes the getter answers: none is lost, repeated or
  -- moved. No batch is empty or larger than the size that was asked for it, a size of zero counting as
  -- one, and all but the last have exactly that size.
  pub dynamic_batch_iterator-Batches :
      (items : List A)
      → (concat (dynamic_batch_iterator items) ≡ items) × Sized 0 (dynamic_batch_iterator items)
  dynamic_batch_iterator-Batches items =
      (concat-dynamic_batch_iterator items, dynamic_batch_iterator-Sized items)
