-- ===== src/Recorders/Exceptions.antt =====
-- indexer/utils/exception_recorder.py: the one `ExceptionRecorder`, its buffer and its flushes. The
-- locks let one flush run at a time; an operation is one step here.
use hemera_indexer.Prelude.{
  Option, none, some, map, ℕ, ◌<◌, ◌≡◌, refl, sym, ap, ◌∙◌, Bool, true, false, List, [], ◌∷◌, ◌++◌,
  append_assoc, append-nil, arith, if◌then◌else◌, leb, length, Bool-cases, inl, inr, leb→lt,
}
use hemera_indexer.Errors.{Outcome, returns, raises}

-- `LOG_BUFFER_SIZE`
abbrev pub log_buffer_size : ℕ
log_buffer_size = 5000

-- `written` are the rows of the table; `none` is a row of which no column was given.
pub record ExceptionRecorder {ℓ} (Record : Type ℓ) : Type ℓ where
  pub has_service : Bool
  pub log_buffer : List Record
  pub written : List (Option Record)

-- What the program does with the recorder once it has a service.
pub data Action {ℓ} (Record : Type ℓ) : Type ℓ where
  logs : Record → Action Record
  flushes : Action Record

module _ {ℓ} {Record : Type ℓ} where
  -- `ExceptionRecorder()`: the class has one instance, which each such call initializes again.
  unfoldable pub construct : ExceptionRecorder Record → ExceptionRecorder Record
  construct r = record { has_service = false; log_buffer = []; written = r.written }

  unfoldable pub init_pg_service : ExceptionRecorder Record → ExceptionRecorder Record
  init_pg_service r = record { has_service = true; log_buffer = r.log_buffer; written = r.written }

  -- The rows of `insert(ExceptionRecords).values(logs)`: with an empty list, the insert gives no column
  -- and still makes one row.
  abbrev pub rows_of : List Record → List (Option Record)
  rows_of [] = none ∷ []
  rows_of (entry ∷ rest) = some entry ∷ map some rest

  -- The buffer is emptied before the rows go to the database.
  unfoldable pub flush_logs_to_db :
      Outcome (Unit {0}) → ExceptionRecorder Record → Outcome (Unit {0}) × ExceptionRecorder Record
  flush_logs_to_db (returns done) r = (
    returns tt,
    record {
      has_service = r.has_service;
      log_buffer = [];
      written = r.written ++ rows_of r.log_buffer;
    },
  )
  flush_logs_to_db (raises e) r =
      (raises e, record { has_service = r.has_service; log_buffer = []; written = r.written })

  unfoldable pub check_and_flush :
      Outcome (Unit {0}) → ExceptionRecorder Record → Outcome (Unit {0}) × ExceptionRecorder Record
  unfolding flush_logs_to_db
  check_and_flush answer r =
      if leb log_buffer_size (length r.log_buffer)
      then flush_logs_to_db answer r
      else (returns tt, r)

  unfoldable pub log :
      Record
      → Outcome (Unit {0})
      → ExceptionRecorder Record
      → Outcome (Unit {0}) × ExceptionRecorder Record
  unfolding check_and_flush
  log entry answer r =
      if r.has_service
      then check_and_flush answer (record {
        has_service = r.has_service;
        log_buffer = r.log_buffer ++ entry ∷ [];
        written = r.written;
      })
      else (returns tt, r)

  unfoldable pub force_to_flush :
      Outcome (Unit {0}) → ExceptionRecorder Record → Outcome (Unit {0}) × ExceptionRecorder Record
  unfolding flush_logs_to_db
  force_to_flush answer r = if r.has_service then flush_logs_to_db answer r else (returns tt, r)

  abbrev pub act : Action Record → ExceptionRecorder Record → ExceptionRecorder Record
  act (logs entry) r = (log entry (returns tt) r).1
  act flushes r = (force_to_flush (returns tt) r).1

  abbrev pub act_all : List (Action Record) → ExceptionRecorder Record → ExceptionRecorder Record
  act_all [] r = r
  act_all (action ∷ actions) r = act_all actions (act action r)

  abbrev pub logged : List (Action Record) → List Record
  logged [] = []
  logged (logs entry ∷ actions) = entry ∷ logged actions
  logged (flushes ∷ actions) = logged actions

  -- The records among the rows.
  abbrev pub entries : List (Option Record) → List Record
  entries [] = []
  entries (none ∷ rows) = entries rows
  entries (some entry ∷ rows) = entry ∷ entries rows

  entries-append : (xs ys : List (Option Record)) → entries (xs ++ ys) ≡ entries xs ++ entries ys
  entries-append [] ys = refl
  entries-append (none ∷ xs) ys = entries-append xs ys
  entries-append (some x ∷ xs) ys = ap (λ l. x ∷ l) (entries-append xs ys)

  entries-map : (xs : List Record) → entries (map some xs) ≡ xs
  entries-map [] = refl
  entries-map (x ∷ xs) = ap (λ l. x ∷ l) (entries-map xs)

  entries-rows_of : (xs : List Record) → entries (rows_of xs) ≡ xs
  entries-rows_of [] = refl
  entries-rows_of (x ∷ xs) = ap (λ l. x ∷ l) (entries-map xs)

  flushed :
      (rows : List (Option Record)) (buffer : List Record)
      → entries (rows ++ rows_of buffer) ≡ entries rows ++ buffer
  flushed rows buffer =
      entries-append rows (rows_of buffer) ∙ ap (λ l. entries rows ++ l) (entries-rows_of buffer)

  abbrev serving : List Record → List (Option Record) → ExceptionRecorder Record
  serving buffer rows = record { has_service = true; log_buffer = buffer; written = rows }

  -- The recorder has its service, its buffer is below its size, and this is what it has in all.
  record Holds (after : ExceptionRecorder Record) (all : List Record) : Type ℓ where
    buffer : List Record
    rows : List (Option Record)
    is_serving : after ≡ serving buffer rows
    small : length buffer < log_buffer_size
    in_all : entries rows ++ buffer ≡ all

  log-Holds :
      (entry : Record) (buffer : List Record) (rows : List (Option Record))
      → length buffer < log_buffer_size
      → Holds (act (logs entry) (serving buffer rows)) ((entries rows ++ buffer) ++ entry ∷ [])
  unfolding log check_and_flush flush_logs_to_db
  log-Holds entry buffer rows small =
      elim (Bool-cases (leb log_buffer_size (length (buffer ++ entry ∷ [])))) [
        | inl full ↦ record {
          buffer = [];
          rows = rows ++ rows_of (buffer ++ entry ∷ []);
          is_serving = rw (act, full) refl;
          small = omega arith;
          in_all =
              append-nil (entries (rows ++ rows_of (buffer ++ entry ∷ [])))
              ∙ flushed rows (buffer ++ entry ∷ [])
              ∙ sym (append_assoc (entries rows) buffer (entry ∷ []));
        }
        | inr room ↦ record {
          buffer = buffer ++ entry ∷ [];
          rows = rows;
          is_serving = rw (act, room) refl;
          small = leb→lt _ _ room;
          in_all = sym (append_assoc (entries rows) buffer (entry ∷ []));
        }
      ]

  acts-Holds :
      (actions : List (Action Record)) (buffer : List Record) (rows : List (Option Record))
      → length buffer < log_buffer_size
      → Holds (act_all actions (serving buffer rows)) ((entries rows ++ buffer) ++ logged actions)
  unfolding force_to_flush flush_logs_to_db
  acts-Holds [] buffer rows small = record {
    buffer = buffer;
    rows = rows;
    is_serving = refl;
    small = small;
    in_all = sym (append-nil (entries rows ++ buffer));
  }
  acts-Holds (logs entry ∷ actions) buffer rows small =
      let one = log-Holds entry buffer rows small in
      let rest = acts-Holds actions one.buffer one.rows one.small in
      record {
        buffer = rest.buffer;
        rows = rest.rows;
        is_serving = ap (act_all actions) one.is_serving ∙ rest.is_serving;
        small = rest.small;
        in_all =
            rest.in_all
            ∙ ap (λ l. l ++ logged actions) one.in_all
            ∙ append_assoc (entries rows ++ buffer) (entry ∷ []) (logged actions);
      }
  acts-Holds (flushes ∷ actions) buffer rows small =
      let rest = acts-Holds actions [] (rows ++ rows_of buffer) (omega arith) in
      record {
        buffer = rest.buffer;
        rows = rest.rows;
        is_serving = rest.is_serving;
        small = rest.small;
        in_all =
            rest.in_all
            ∙ ap (λ l. l ++ logged actions)
                (append-nil (entries (rows ++ rows_of buffer)) ∙ flushed rows buffer);
      }

  -- As long as the database answers, no record is lost and none is written twice: from the start of a
  -- service on, the records in the rows of the table and the buffer behind them are what was logged, in
  -- its order, and fewer than `LOG_BUFFER_SIZE` records wait. The rows without columns, which the flushes
  -- of an empty buffer leave between them, are not counted.
  pub log-conserved :
      (actions : List (Action Record)) (rows : List (Option Record))
      → let start =
          init_pg_service
            (construct (record { has_service = false; log_buffer = []; written = rows })) in
        let after = act_all actions start in
        (entries after.written ++ after.log_buffer ≡ entries rows ++ logged actions)
        × (length after.log_buffer < log_buffer_size)
  unfolding init_pg_service construct
  log-conserved actions rows =
      let h = acts-Holds actions [] rows (omega arith) in
      (
        ap (λ r. entries r.written ++ r.log_buffer) h.is_serving
            ∙ h.in_all
            ∙ ap (λ l. l ++ logged actions) (append-nil (entries rows)),
        rw (ap (λ r. length r.log_buffer) h.is_serving) h.small,
      )

  -- A second `ExceptionRecorder()`, as each module makes one when it is loaded, leaves the one instance
  -- without its service: what waits in the buffer is dropped, and so is all that is logged from then on.
  pub construct-drops :
      (actions : List (Action Record)) (r : ExceptionRecorder Record)
      → act_all actions (construct r) ≡ construct r
  unfolding construct log force_to_flush
  construct-drops [] r = refl
  construct-drops (logs entry ∷ actions) r = construct-drops actions r
  construct-drops (flushes ∷ actions) r = construct-drops actions r
