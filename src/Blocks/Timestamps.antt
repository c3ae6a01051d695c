-- ===== src/Blocks/Timestamps.antt =====
-- `ExportBlocksJob._process`: the first block of each hour.
use hemera_indexer.Prelude.{
  ℕ, ◌*◌, ◌/◌, ◌≡◌, Option, none, some, List, [], ◌∷◌, arith, if◌then◌else◌, ◌==◌, nat_eq, ltb, min,
  Dict, keys, Distinct, lookup, update, lookup-update, Distinct-update,
}

-- A block's number and timestamp.
pub record BlockTime : Type 0 where
  pub number : ℕ
  pub timestamp : ℕ

-- `timestamp // 3600 * 3600`
abbrev pub hour_of : BlockTime → ℕ
hour_of block = block.timestamp / 3600 * 3600

abbrev pub earlier : ℕ → Option ℕ → ℕ
earlier number none = number
earlier number (some first) = if ltb number first then number else first

-- The loop over the blocks that fills `ts_dict`.
unfoldable pub map_timestamps : List BlockTime → Dict ℕ ℕ → Dict ℕ ℕ
map_timestamps [] ts_dict = ts_dict
map_timestamps (block ∷ blocks) ts_dict =
    map_timestamps blocks (update (earlier block.number) (hour_of block) ts_dict)

-- The least number of the blocks of an hour.
abbrev pub first_of : ℕ → List BlockTime → Option ℕ
first_of hour [] = none
first_of hour (block ∷ blocks) =
    if hour == hour_of block
    then elim (first_of hour blocks) [
      | none ↦ some block.number
      | some n ↦ some (min block.number n)
    ]
    else first_of hour blocks

abbrev min_option : Option ℕ → Option ℕ → Option ℕ
min_option none o = o
min_option (some n) none = some n
min_option (some n) (some m) = some (min n m)

lookup-map_timestamps :
    (hour : ℕ) (blocks : List BlockTime) (d : Dict ℕ ℕ)
    → lookup hour (map_timestamps blocks d) ≡ min_option (lookup hour d) (first_of hour blocks)
unfolding map_timestamps
lookup-map_timestamps hour [] d = ground arith
lookup-map_timestamps hour (block ∷ blocks) d = ground (
  arith,
  lookup-map_timestamps hour blocks (update (earlier block.number) (hour_of block) d),
  lookup-update (earlier block.number) (hour_of block) hour d,
)

Distinct-map_timestamps :
    (blocks : List BlockTime) (d : Dict ℕ ℕ)
    → Distinct (keys d)
    → Distinct (keys (map_timestamps blocks d))
unfolding map_timestamps
Distinct-map_timestamps [] d h = h
Distinct-map_timestamps (block ∷ blocks) d h =
    Distinct-map_timestamps blocks (update (earlier block.number) (hour_of block) d)
      (Distinct-update (earlier block.number) (hour_of block) d h)

-- In whatever order the blocks come, the mapping has each hour at most once; it has the hours of the
-- blocks and no other, each with the least number of the blocks of that hour.
pub map_timestamps-first :
    (blocks : List BlockTime)
    → Distinct (keys (map_timestamps blocks []))
      × ((hour : ℕ) → lookup hour (map_timestamps blocks []) ≡ first_of hour blocks)
unfolding lookup
map_timestamps-first blocks =
    (Distinct-map_timestamps blocks [] tt, λ hour. lookup-map_timestamps hour blocks [])
