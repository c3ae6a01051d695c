-- ===== src/Recorders/Sync.antt =====
-- indexer/utils/sync_recorder.py: the last synced block of a mission, in a table of the database or in
-- a file. A write of the database or of a file either succeeds or changes nothing and raises.
use hemera_indexer.Prelude.{
  ℕ, ◌≡◌, refl, ap, ◌∙◌, ◌≢◌, inl, inr, Bool, true, false, Option, none, some, [], ◌∷◌, ◌++◌,
  if◌then◌else◌, ◌==◌, nat_eq, Eq, eq_of_discrete, Dict, lookup, insert, lookup-insert, beq_refl,
  beq-false, Bool-cases, beq→eq, ne_of_beq, not, ◌&&◌, arith,
}
use hemera_indexer.Errors.{
  Message-discrete, message_eq, Message, codes, starts_with, Outcome, returns, raises, value_error,
  other,
}
use hemera_indexer.Recorders.Decimal.{str_of, int_of, int_of-str_of}

-- The rows of `SyncRecord`, by their `mission_sign`, the files, by their names, and what a read of the
-- standard input gives.
pub record Store : Type 0 where
  pub sync_records : Dict Message ℕ
  pub files : Dict Message Message
  pub stdin : Outcome Message

-- `is_file` of `get_file_handle`: the empty name is for `NoopFile` and `-` for a standard stream.
abbrev pub is_file : Message → Bool
is_file name = not (name == []) && not (name == codes "-")

-- `os.path.isfile(file_name)`, with the text of the file.
abbrev found_file : Message → Store → Option Message
found_file name store = if name == [] then none else lookup name store.files

-- `PGSyncRecorder(key, service)` and `FileSyncRecorder(file_name)`
pub data Recorder : Type 0 where
  pg_recorder file_recorder : Message → Recorder

-- `set_last_synced_block(last_synced_block)`, with the answer of the database or the file system.
unfoldable pub set_last_synced_block :
    Recorder → ℕ → Outcome (Unit {0}) → Store → Outcome (Unit {0}) × Store
set_last_synced_block (pg_recorder key) n (returns done) store =
    (returns tt, record store { sync_records = insert key n store.sync_records })
set_last_synced_block (file_recorder name) n (returns done) store = (
  returns tt,
  if is_file name
      then record store { files = insert name (str_of n ++ 10 ∷ []) store.files }
      else store,
)
set_last_synced_block recorder n (raises e) store = (raises e, store)

abbrev or_zero : Option ℕ → ℕ
or_zero none = 0
or_zero (some n) = n

abbrev parsed : Option ℕ → Outcome ℕ
parsed none = raises value_error
parsed (some n) = returns n

-- The standard input, which is closed after it is read.
abbrev of_stdin : Outcome Message → Outcome ℕ
of_stdin (returns text) = parsed (int_of text)
of_stdin (raises e) = raises e

-- The read of a file; a file that is missing is written first, and the one with the name `-` is not read
-- itself.
abbrev first_write : Outcome (Unit {0}) × Store → Outcome ℕ × Store
first_write (returns done, after) = (returns 0, after)
first_write (raises e, after) = (raises e, after)

unfoldable pub read_file : Message → Outcome (Unit {0}) → Store → Option Message → Outcome ℕ × Store
unfolding set_last_synced_block
read_file name answer store (some text) =
    if is_file name
    then (parsed (int_of text), store)
    else (of_stdin store.stdin, record store { stdin = raises other })
read_file name answer store none =
    first_write (set_last_synced_block (file_recorder name) 0 answer store)

-- `get_last_synced_block()`, with the answer to the query or to the write.
unfoldable pub get_last_synced_block : Recorder → Outcome (Unit {0}) → Store → Outcome ℕ × Store
unfolding read_file
get_last_synced_block (pg_recorder key) (returns done) store =
    (returns (or_zero (lookup key store.sync_records)), store)
get_last_synced_block (pg_recorder key) (raises e) store = (raises e, store)
get_last_synced_block (file_recorder name) answer store =
    read_file name answer store (found_file name store)

-- What a recorder would answer now, with a database that answers.
abbrev pub recorded : Recorder → Store → Outcome ℕ
recorded recorder store = (get_last_synced_block recorder (returns tt) store).0

abbrev from_file : Message → Outcome Message → Option Message → Outcome ℕ
from_file name stdin none = returns 0
from_file name stdin (some text) = if is_file name then parsed (int_of text) else of_stdin stdin

read_file-eq :
    (name : Message) (store : Store) (o : Option Message)
    → (read_file name (returns tt) store o).0 ≡ from_file name store.stdin o
unfolding read_file
read_file-eq name store none = refl
read_file-eq name store (some text) = elim (Bool-cases (is_file name)) [
  | inl yes_file ↦ rw yes_file refl
  | inr no_file ↦ rw no_file refl
]

-- What is written there is read again: a row of the table, or a file with a name of its own.
abbrev pub is_kept : Recorder → Bool
is_kept (pg_recorder key) = true
is_kept (file_recorder name) = is_file name

recorded-file :
    (name : Message) (store : Store)
    → recorded (file_recorder name) store ≡ from_file name store.stdin (found_file name store)
unfolding get_last_synced_block
recorded-file name store = read_file-eq name store (found_file name store)

unfoldable written_file : Message → ℕ → Store → Store
written_file name n store = record store { files = insert name (str_of n ++ 10 ∷ []) store.files }

file_written :
    (name : Message) (n : ℕ) (store : Store)
    → is_file name ≡ true
    → (set_last_synced_block (file_recorder name) n (returns tt) store).1
      ≡ written_file name n store
unfolding set_last_synced_block written_file
file_written name n store kept = rw kept refl

others_kept :
    (recorder other_one : Recorder) (n : ℕ) (store : Store)
    → is_kept recorder ≡ true
    → other_one ≢ recorder
    → recorded other_one (set_last_synced_block recorder n (returns tt) store).1
      ≡ recorded other_one store
unfolding set_last_synced_block get_last_synced_block written_file
others_kept (pg_recorder key) (pg_recorder key2) n store kept differ =
    rw
      (
        lookup-insert key key2 n store.sync_records,
        beq-false {a = key2} {b = key} (λ e. differ (ap pg_recorder e)),
      )
      refl
others_kept (pg_recorder key) (file_recorder name) n store kept differ =
    let after = (set_last_synced_block (pg_recorder key) n (returns tt) store).1 in
    rw (recorded-file name after, recorded-file name store) refl
others_kept (file_recorder name) (pg_recorder key) n store kept differ =
    rw (file_written name n store kept) refl
others_kept (file_recorder name) (file_recorder name2) n store kept differ =
    rw
      (
        file_written name n store kept,
        recorded-file name2 (written_file name n store),
        recorded-file name2 store,
        lookup-insert name name2 (str_of n ++ 10 ∷ []) store.files,
        beq-false {a = name2} {b = name} (λ e. differ (ap file_recorder e)),
      )
      refl

pub Recorder-discrete : Discrete Recorder
Recorder-discrete = hlevel Message-discrete

instance abbrev pub recorder_eq : Eq Recorder
recorder_eq = eq_of_discrete Recorder-discrete

recorded_self :
    (recorder : Recorder) (n : ℕ) (store : Store)
    → is_kept recorder ≡ true
    → recorded recorder (set_last_synced_block recorder n (returns tt) store).1 ≡ returns n
unfolding set_last_synced_block get_last_synced_block written_file
recorded_self (pg_recorder key) n store kept =
    rw (lookup-insert key key n store.sync_records, beq_refl key) refl
recorded_self (file_recorder name) n store kept =
    let named : (name == []) ≡ false = ground arith in
    let file : is_file name ≡ true = kept in
    rw
      (
        file_written name n store kept,
        recorded-file name (written_file name n store),
        named,
        lookup-insert name name (str_of n ++ 10 ∷ []) store.files,
        beq_refl name,
        file,
        int_of-str_of n,
      )
      refl

-- After a write that succeeds, of a recorder of the table or of a file whose name is neither empty nor
-- `-`, the recorder that wrote gets the block that was set, and every other one gets what it got before.
pub set_last_synced_block-recorded :
    (recorder reader : Recorder) (n : ℕ) (store : Store)
    → is_kept recorder ≡ true
    → recorded reader (set_last_synced_block recorder n (returns tt) store).1
      ≡ (if reader == recorder then returns n else recorded reader store)
set_last_synced_block-recorded recorder reader n store kept =
    elim (Bool-cases (reader == recorder)) [
      | inl same ↦
          let one : reader ≡ recorder = beq→eq same in
          rw same (
            ap (λ r. recorded r (set_last_synced_block recorder n (returns tt) store).1) one
            ∙ recorded_self recorder n store kept)
      | inr differ ↦ rw differ (others_kept recorder reader n store kept (ne_of_beq differ))
    ]

-- The part of a text behind its first `_`.
unfoldable pub behind_underscore : Message → Option Message
behind_underscore [] = none
behind_underscore (c ∷ text) =
    let rest = behind_underscore text in if c == b'_' then some text else rest

-- `create_recorder(sync_recorder, config)`; `has_service` tells whether the configuration has a
-- database.
unfoldable pub create_recorder : Message → (has_service : Bool) → Outcome Recorder
unfolding behind_underscore
create_recorder sync_recorder has_service = elim (behind_underscore sync_recorder) [
  | none ↦ raises value_error
  | some recorder ↦
      if starts_with (codes "pg") sync_recorder
      then (if has_service then returns (pg_recorder recorder) else raises value_error)
      else if starts_with (codes "file") sync_recorder
      then returns (file_recorder recorder)
      else raises value_error
]

-- `pg_` or `file_` before any name, be there more of the `_` in it or not, give the recorder of that
-- name, and `pg_` without a database in the configuration gives a `ValueError`.
pub create_recorder-kinds :
    (name : Message) (has_service : Bool)
    → (create_recorder (codes "pg_" ++ name) true ≡ returns (pg_recorder name))
      × (create_recorder (codes "pg_" ++ name) false ≡ raises value_error)
      × (create_recorder (codes "file_" ++ name) has_service ≡ returns (file_recorder name))
unfolding create_recorder starts_with
create_recorder-kinds name has_service = (refl, refl, refl)
