-- ===== src/Controller/Db/Sources.antt =====
-- services/controller/internal/db/collection_sources.go: the collection sources and their runs.
pub mod Runs
pub mod Saving
pub mod Steps
pub mod Deleting
use ice_hive.Prelude.{
  ℕ, Bool, true, false, ◌&&◌, ◌||◌, not, List, [], ◌∷◌, ◌++◌, Option, none, some, map,
  if◌then◌else◌, Result, ok, err, ltb, leb, ◌==◌, length,
}
use ice_hive.Prelude.Int.{ℤ, pos, leb_ℤ, eq_ℤ}
use ice_hive.Text.{Bytes, codes, is_nil, str_eq, trim_space}
use ice_hive.Dict.{Dict, lookup, insert, remove}
use ice_hive.Controller.Db.{
  Collation, CollectionSourceRow, Tables, Db, Action, pure, raise, ◌>>=◌, call, query, iterate,
  rows,
}
use ice_hive.Controller.Db.Meta.{sort_by}

-- Two columns hold the same.
abbrev pub same_text : Option Bytes → Option Bytes → Bool
same_text none none = true
same_text none (some b) = false
same_text (some a) none = false
same_text (some a) (some b) = str_eq a b

abbrev pub same_number : Option ℤ → Option ℤ → Bool
same_number none none = true
same_number none (some b) = false
same_number (some a) none = false
same_number (some a) (some b) = eq_ℤ a b

abbrev pub same_flag : Bool → Bool → Bool
same_flag true b = b
same_flag false b = not b

-- The columns of a row besides updated_at.
unfoldable pub same_row : CollectionSourceRow → CollectionSourceRow → Bool
same_row a b =
    str_eq a.id b.id
    && (str_eq a.collector_type b.collector_type
        && (str_eq a.source_spec b.source_spec
            && (str_eq a.cron_line b.cron_line
                && (same_flag a.enabled b.enabled
                    && (same_number a.last_run_unix_ms b.last_run_unix_ms
                        && (same_number a.last_success_unix_ms b.last_success_unix_ms
                            && (same_text a.last_error b.last_error
                                && (same_number a.next_due_unix_ms b.next_due_unix_ms
                                    && eq_ℤ a.created_at b.created_at))))))))

-- ON UPDATE CURRENT_TIMESTAMP: an update that changes no column does not move updated_at.
unfoldable pub touch : ℤ → CollectionSourceRow → CollectionSourceRow → CollectionSourceRow
touch now old new = if same_row old new then old else record new { updated_at = now }

unfoldable pub checked : Option Bytes → Action (Unit {0})
checked none = pure tt
checked (some e) = raise (codes "invalid cron_line: " ++ e)

-- validateCronLine, with the parser of the cron library: the text of its error, if it has one
unfoldable pub validate_cron_line : (Bytes → Option Bytes) → Bytes → Action (Unit {0})
unfolding checked
validate_cron_line parse s =
    let line = trim_space s in
    if is_nil line
    then pure tt
    else if ltb 256 (length line)
    then raise (codes "cron_line exceeds 256 characters")
    else checked (parse line)

unfoldable pub generated : Result Bytes Bytes → Action Bytes
generated (ok s) = pure s
generated (err e) = raise (codes "generate id: " ++ e)

-- The id that is given, or else a generated one.
unfoldable pub given_id : Bytes → Result Bytes Bytes → Action Bytes
unfolding generated
given_id id random = if is_nil id then generated random else pure id

unfoldable pub not_found : Bytes → Bytes
not_found id = codes "collection source not found: " ++ id

-- requireCollectionSourceID
unfoldable pub require_collection_source_id : Bytes → Action Bytes
require_collection_source_id s =
    let id = trim_space s in if is_nil id then raise (codes "empty id") else pure id

unfoldable pub found_or : Bytes → Option CollectionSourceRow → Action CollectionSourceRow
found_or id none = raise (not_found id)
found_or id (some r) = pure r

-- RowsAffected and what comes of none.
unfoldable pub affected : Bytes → ℕ → Action (Unit {0})
affected id n = if n == 0 then raise (not_found id) else pure tt

-- Rows with a collector_type, or all.
unfoldable pub select_type : (Bytes → Bool) → List CollectionSourceRow → List CollectionSourceRow
select_type p [] = []
select_type p (r ∷ rs) =
    let rest = select_type p rs in if p r.collector_type then r ∷ rest else rest

abbrev pub count_found : Option CollectionSourceRow → ℕ
count_found none = 0
count_found (some r) = 1

-- The columns that a report sets.
unfoldable pub reported : ℤ → Bool → Bytes → ℤ → CollectionSourceRow → CollectionSourceRow
reported run success error next_due r = record r {
  last_run_unix_ms = some run;
  last_success_unix_ms = if success then some run else r.last_success_unix_ms;
  last_error = if success then none else some error;
  next_due_unix_ms = if leb_ℤ next_due (pos 0) then none else some next_due;
}

unfoldable pub update_found :
    Bytes
    → ℤ
    → (CollectionSourceRow → CollectionSourceRow)
    → Tables
    → Option CollectionSourceRow
    → ℕ × Tables
update_found key now change t none = (0, t)
update_found key now change t (some r) =
    if same_row r (change r)
    then (0, t)
    else (1, record t { sources = insert key (touch now r (change r)) t.sources })

-- The INSERT: NULL for the run, and CURRENT_TIMESTAMP for both times; on a duplicate key only the
-- four columns are set.
unfoldable pub stored : ℤ → CollectionSourceRow → Option CollectionSourceRow → CollectionSourceRow
stored now r none = record r {
  last_run_unix_ms = none;
  last_success_unix_ms = none;
  last_error = none;
  next_due_unix_ms = none;
  created_at = now;
  updated_at = now;
}
stored now r (some old) = touch now old (record old {
  collector_type = r.collector_type;
  source_spec = r.source_spec;
  cron_line = r.cron_line;
  enabled = r.enabled;
})

unfoldable pub trimmed : CollectionSourceRow → CollectionSourceRow
trimmed r = record r {
  collector_type = trim_space r.collector_type;
  source_spec = trim_space r.source_spec;
  cron_line = trim_space r.cron_line;
}

unfoldable pub check_row : CollectionSourceRow → Action (Unit {0})
check_row r =
    if is_nil r.collector_type
    then raise (codes "collector_type is required")
    else if is_nil r.source_spec
    then raise (codes "source_spec is required")
    else pure tt

module _ (c : Collation) where
  same_key : Bytes → Bytes → Bool
  same_key a b = str_eq (c.fold a) (c.fold b)

  -- ORDER BY collector_type, id, as the server compares texts. `sort_by` is stable.
  ordered : List CollectionSourceRow → List CollectionSourceRow
  ordered rs = sort_by (λ r. c.fold r.collector_type) (sort_by (λ r. c.fold r.id) rs)

  -- ListCollectionSources
  unfoldable pub list_collection_sources : Bytes → Action (List CollectionSourceRow)
  unfolding same_key ordered
  list_collection_sources collector_type =
      let type = trim_space collector_type in
      let wanted = λ (x : Bytes). is_nil type || same_key x type in
      query (codes "list collection sources") (λ t. ordered (select_type wanted (rows t.sources)))
      >>= iterate (codes "iterate collection sources")

  -- GetCollectionSourceByID
  unfoldable pub get_collection_source_by_id : Bytes → Action CollectionSourceRow
  get_collection_source_by_id s = require_collection_source_id s >>= λ id.
      query (codes "get collection source") (λ t. lookup (c.fold id) t.sources) >>= found_or id

  unfoldable pub upsert_source : ℤ → CollectionSourceRow → Tables → Unit {0} × Tables
  unfolding stored
  upsert_source now r t =
      let key = c.fold r.id in
      (tt, record t { sources = insert key (stored now r (lookup key t.sources)) t.sources })

  unfoldable pub save_row : CollectionSourceRow → Action (Unit {0})
  save_row r d = call (codes "upsert collection source") (upsert_source d.clock r) d

  -- UpsertCollectionSource; `random` is what randomID returns
  unfoldable pub upsert_collection_source :
      (Bytes → Option Bytes) → Result Bytes Bytes → CollectionSourceRow → Action CollectionSourceRow
  unfolding trimmed check_row save_row given_id
  upsert_collection_source parse random row =
      let r = trimmed row in
      check_row r >>= λ _. validate_cron_line parse r.cron_line >>= λ _.
      given_id (trim_space r.id) random >>= λ id.
      save_row (record r { id = id }) >>= λ _. get_collection_source_by_id id

  -- The DELETE and the UPDATE, with the number of rows that they affect. A row that an UPDATE leaves
  -- as it is does not count, since the driver is opened without clientFoundRows.
  unfoldable pub delete_source : Bytes → Tables → ℕ × Tables
  delete_source id t = (
    count_found (lookup (c.fold id) t.sources),
    record t { sources = remove (c.fold id) t.sources },
  )

  -- DeleteCollectionSource
  unfoldable pub delete_collection_source : Bytes → Action (Unit {0})
  delete_collection_source s = require_collection_source_id s >>= λ id.
      call (codes "delete collection source") (delete_source id) >>= affected id

  unfoldable pub update_run :
      Bytes → ℤ → (CollectionSourceRow → CollectionSourceRow) → Tables → ℕ × Tables
  unfolding update_found
  update_run id now change t = update_found (c.fold id) now change t (lookup (c.fold id) t.sources)

  unfoldable pub save_run : Bytes → (CollectionSourceRow → CollectionSourceRow) → Action ℕ
  unfolding update_run
  save_run id change d =
      call (codes "report collection source run") (update_run id d.clock change) d

  -- ReportCollectionSourceRun
  unfoldable pub report_collection_source_run : Bytes → ℤ → Bool → Bytes → ℤ → Action (Unit {0})
  unfolding save_run
  report_collection_source_run s run success error next_due =
      let id = trim_space s in
      if is_nil id
      then raise (codes "empty id")
      else if leb_ℤ run (pos 0)
      then raise (codes "invalid run_unix_ms")
      else save_run id (reported run success error next_due) >>= affected id
