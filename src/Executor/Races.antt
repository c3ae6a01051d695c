-- ===== src/Executor/Races.antt =====
-- The batch size under concurrency. The workers of the thread pool share the executor and take no
-- lock: each reads the batch size, decides, and writes later, whatever was written in between.
use hemera_indexer.Prelude.{ℕ, ◌*◌, ◌/◌, ◌≤◌, ◌<◌, ◌≡◌, List, [], ◌∷◌, ◌++◌, All, arith}

-- The shared batch size, the bound, and the sizes that workers have decided on and not yet written.
pub record Shared : Type 0 where
  pub batch_size : ℕ
  pub max_batch_size : ℕ
  pub decided : List ℕ

-- A worker that handled a batch of `n` items takes one of the two decisions, of
-- `_try_decrease_batch_size` and of `_try_increase_batch_size`, or writes the one that it took.
pub data Step (s : Shared) : Shared → Type 0 where
  decide_smaller :
      (n : ℕ)
      → s.batch_size ≡ n
      → 1 < s.batch_size
      → Step s (record s { decided = n / 2 ∷ s.decided })
  decide_larger :
      (n : ℕ) → 0 < n → n * 2 ≤ s.max_batch_size → Step s (record s { decided = n * 2 ∷ s.decided })
  write :
      (before : List ℕ) (new_size : ℕ) (after : List ℕ)
      → s.decided ≡ before ++ new_size ∷ after
      → Step s (record s { batch_size = new_size; decided = before ++ after })

pub data Reach (s : Shared) : Shared → Type 0 where
  here : Reach s s
  next : {t u : Shared} → Reach s t → Step t u → Reach s u

pub record IsBounded (s : Shared) : Type 0 where
  pub not_empty : 1 ≤ s.batch_size
  pub capped : s.batch_size ≤ s.max_batch_size
  pub each_decided : All (λ n. (1 ≤ n) × (n ≤ s.max_batch_size)) s.decided

All-remove {ℓ κ} :
    {A : Type ℓ} (P : A → Type κ) (xs : List A) (y : A) (ys : List A)
    → All P (xs ++ y ∷ ys)
    → P y × All P (xs ++ ys)
All-remove P [] y ys h = h
All-remove P (x ∷ xs) y ys h =
    let (here_y, others) = All-remove P xs y ys h.1 in (here_y, (h.0, others))

Step-IsBounded : {s t : Shared} → Step s t → IsBounded s → IsBounded t
Step-IsBounded (decide_smaller n read more) h = record {
  not_empty = h.not_empty;
  capped = h.capped;
  each_decided = ((omega arith, omega arith), h.each_decided);
}
Step-IsBounded (decide_larger n filled fits) h = record {
  not_empty = h.not_empty;
  capped = h.capped;
  each_decided = ((omega arith, omega arith), h.each_decided);
}
Step-IsBounded {s} (write before new_size after split) h =
    let (fits, others) =
      All-remove (λ n. (1 ≤ n) × (n ≤ s.max_batch_size)) before new_size after
        (rw split at h.each_decided) in
    record { not_empty = fits.0; capped = fits.1; each_decided = others }

-- However the workers interleave, the batch size stays between one and the starting size.
pub Reach-IsBounded : {s t : Shared} → IsBounded s → Reach s t → IsBounded t
Reach-IsBounded h here = h
Reach-IsBounded h (next r step) = Step-IsBounded step (Reach-IsBounded h r)
