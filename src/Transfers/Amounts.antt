-- ===== src/Transfers/Amounts.antt =====
-- The amounts of a batch event: one transfer for each token id, and nothing lost or made.
use hemera_indexer.Prelude.{
  has, Bool, ◌||◌, ℕ, ◌+◌, ◌≡◌, refl, ap, ◌≢◌, inl, inr, true, false, Option, none, some, List, [],
  ◌∷◌, map, arith, if◌then◌else◌, ◌==◌, nat_eq, length, sum, Dict, update, All, Bool-cases, beq→eq,
  keys, values, Distinct, Distinct-update,
}
use hemera_indexer.Errors.{returns}
use hemera_indexer.Transfers.{Log, TokenTransfer, Address}
use hemera_indexer.Transfers.Events.{
  Codec, amounts, add_amount, batch_transfer, handle_transfer_batch_event,
}

sum-update :
    (v k : ℕ) (d : Dict ℕ ℕ) → sum (values (update (add_amount v) k d)) ≡ sum (values d) + v
unfolding update
sum-update v k [] = omega arith
sum-update v k ((j, w) ∷ d) = ground (arith, sum-update v k d)

sum-amounts :
    (ids vals : List ℕ) (d : Dict ℕ ℕ)
    → length ids ≡ length vals
    → sum (values (amounts ids vals d)) ≡ sum (values d) + sum vals
unfolding amounts
sum-amounts [] [] d h = omega arith
sum-amounts (i ∷ ids) (v ∷ vals) d h =
    omega (arith, sum-amounts ids vals (update (add_amount v) i d), sum-update v i d)
sum-amounts [] (v ∷ vals) d h = absurd (omega arith)
sum-amounts (i ∷ ids) [] d h = absurd (omega arith)

Distinct-amounts :
    (ids vals : List ℕ) (d : Dict ℕ ℕ) → Distinct (keys d) → Distinct (keys (amounts ids vals d))
unfolding amounts
Distinct-amounts (i ∷ ids) (v ∷ vals) d h =
    Distinct-amounts ids vals (update (add_amount v) i d) (Distinct-update (add_amount v) i d h)
Distinct-amounts [] vals d h = h
Distinct-amounts (i ∷ ids) [] d h = h

-- What the entries of the event with the id `k` add up to.
abbrev pub total_for : ℕ → List ℕ → List ℕ → ℕ
total_for k (i ∷ ids) (v ∷ vals) = (if k == i then v else 0) + total_for k ids vals
total_for k _ _ = 0

total_in : ℕ → Dict ℕ ℕ → ℕ
total_in k [] = 0
total_in k ((j, w) ∷ d) = (if k == j then w else 0) + total_in k d

total_in-update :
    (k v i : ℕ) (d : Dict ℕ ℕ)
    → total_in k (update (add_amount v) i d) ≡ total_in k d + (if k == i then v else 0)
unfolding total_in update
total_in-update k v i [] = omega arith
total_in-update k v i ((j, w) ∷ d) = ground (arith, total_in-update k v i d)

total_in-amounts :
    (k : ℕ) (ids vals : List ℕ) (d : Dict ℕ ℕ)
    → total_in k (amounts ids vals d) ≡ total_in k d + total_for k ids vals
unfolding amounts
total_in-amounts k (i ∷ ids) (v ∷ vals) d =
    omega (arith, total_in-amounts k ids vals (update (add_amount v) i d), total_in-update k v i d)
total_in-amounts k [] [] d = omega arith
total_in-amounts k [] (v ∷ vals) d = omega arith
total_in-amounts k (i ∷ ids) [] d = omega arith

abbrev pub value_of : TokenTransfer → ℕ
value_of t = t.value

abbrev pub token_id_of : TokenTransfer → Option ℕ
token_id_of t = t.token_id

map-value :
    (log : Log) (from to : Address) (d : Dict ℕ ℕ)
    → map value_of (map (batch_transfer log from to) d) ≡ values d
map-value log from to [] = refl
map-value log from to (e ∷ d) = ap (λ l. e.1 ∷ l) (map-value log from to d)

map-token_id :
    (log : Log) (from to : Address) (d : Dict ℕ ℕ)
    → map token_id_of (map (batch_transfer log from to) d) ≡ map some (keys d)
map-token_id log from to [] = refl
map-token_id log from to (e ∷ d) = ap (λ l. some e.0 ∷ l) (map-token_id log from to d)

-- What the transfers of a token id add up to.
abbrev pub moved : ℕ → List TokenTransfer → ℕ
moved k [] = 0
moved k (t ∷ ts) =
    (elim t.token_id [ none ↦ 0 | some j ↦ if k == j then t.value else 0 ]) + moved k ts

moved-eq-total_in :
    (k : ℕ) (log : Log) (from to : Address) (d : Dict ℕ ℕ)
    → moved k (map (batch_transfer log from to) d) ≡ total_in k d
unfolding total_in
moved-eq-total_in k log from to [] = refl
moved-eq-total_in k log from to ((j, w) ∷ d) = ground (arith, moved-eq-total_in k log from to d)

Distinct-map-some : (ks : List ℕ) → Distinct ks → Distinct (map some ks)
Distinct-map-some [] h = tt
Distinct-map-some (k ∷ ks) h = (All-map-some k ks h.0, Distinct-map-some ks h.1)
  where
    All-map-some : (k : ℕ) (ks : List ℕ) → All (λ j. j ≢ k) ks → All (λ o. o ≢ some k) (map some ks)
    All-map-some k [] h = tt
    All-map-some k (j ∷ ks) h = ((λ e. h.0 (ground arith)), All-map-some k ks h.1)

-- One of the transfers is of the token id.
abbrev pub names : ℕ → List TokenTransfer → Bool
names k [] = false
names k (t ∷ ts) = (elim t.token_id [ none ↦ false | some j ↦ k == j ]) || names k ts

names-eq-has :
    (k : ℕ) (log : Log) (from to : Address) (d : Dict ℕ ℕ)
    → names k (map (batch_transfer log from to) d) ≡ has k (keys d)
names-eq-has k log from to [] = refl
names-eq-has k log from to ((j, w) ∷ d) = ground (arith, names-eq-has k log from to d)

has-keys-update :
    (k v i : ℕ) (d : Dict ℕ ℕ)
    → has k (keys (update (add_amount v) i d)) ≡ (has k (keys d) || k == i)
unfolding update
has-keys-update k v i [] = ground arith
has-keys-update k v i ((j, w) ∷ d) = ground (arith, has-keys-update k v i d)

has-keys-amounts :
    (k : ℕ) (ids vals : List ℕ) (d : Dict ℕ ℕ)
    → length ids ≡ length vals
    → has k (keys (amounts ids vals d)) ≡ (has k (keys d) || has k ids)
unfolding amounts
has-keys-amounts k [] [] d h = ground arith
has-keys-amounts k [] (v ∷ vals) d h = absurd (omega arith)
has-keys-amounts k (i ∷ ids) [] d h = absurd (omega arith)
has-keys-amounts k (i ∷ ids) (v ∷ vals) d h = ground (
  arith,
  has-keys-amounts k ids vals (update (add_amount v) i d) (omega arith),
  has-keys-update k v i d,
)

-- What is promised of the transfers of a batch.
pub record SplitsBatch (ids vals : List ℕ) (ts : List TokenTransfer) : Type 0 where
  pub conserved : sum (map value_of ts) ≡ sum vals
  pub per_token : (k : ℕ) → moved k ts ≡ total_for k ids vals
  pub named : (k : ℕ) → names k ts ≡ has k ids
  pub distinct_ids : Distinct (map token_id_of ts)

-- The transfers of a batch event: split as promised if its two lists have one length, and else none.
abbrev pub IsBatchResult : List ℕ → List ℕ → List TokenTransfer → Type 0
IsBatchResult ids vals ts = elim (length ids == length vals) [
  | true ↦ SplitsBatch ids vals ts
  | false ↦ ts ≡ []
]

batch-SplitsBatch :
    (log : Log) (from to : Address) (ids vals : List ℕ)
    → length ids ≡ length vals
    → SplitsBatch ids vals (map (batch_transfer log from to) (amounts ids vals []))
batch-SplitsBatch log from to ids vals same =
    let d = amounts ids vals [] in
    record {
      conserved = rw (map-value log from to d) (omega (arith, sum-amounts ids vals [] same));
      per_token = λ k.
          rw (moved-eq-total_in k log from to d)
            (unfold total_in in omega (arith, total_in-amounts k ids vals []));
      named = λ k.
          rw (names-eq-has k log from to d) (ground (arith, has-keys-amounts k ids vals [] same));
      distinct_ids =
          rw (map-token_id log from to d)
            (Distinct-map-some (keys d) (Distinct-amounts ids vals [] tt));
    }

-- A batch event that the codec decodes is handled without an exception. If its lists of ids and values
-- have one length, it becomes one transfer for each token id that it names, and none for any other:
-- together they move the sum of the values, and the one of an id moves what the event has for that id. If
-- the lengths differ there is no transfer.
pub handle_transfer_batch_event-result :
    (codec : Codec) (log : Log) (from to : Address) (ids vals : List ℕ)
    → codec.transfer_batch log ≡ returns (from, to, ids, vals)
    → (ts : List TokenTransfer) × (handle_transfer_batch_event codec log ≡ returns ts)
      × IsBatchResult ids vals ts
unfolding handle_transfer_batch_event
handle_transfer_batch_event-result codec log from to ids vals decoded =
    let ts = map (batch_transfer log from to) (amounts ids vals []) in
    elim (Bool-cases (length ids == length vals)) [
      | inl same ↦ (
        ts,
        ground arith,
        rw (IsBatchResult, same) (batch-SplitsBatch log from to ids vals (beq→eq same)),
      )
      | inr differ ↦ ([], ground arith, rw (IsBatchResult, differ) refl)
    ]
