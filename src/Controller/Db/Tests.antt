-- ===== src/Controller/Db/Tests.antt =====
-- The database at a small table of sources.
use mathlib.Core.Path.{subst}
use ice_hive.Prelude.{◌≡◌, refl, ap, true, [], ◌∷◌, none, some, Result, ok, err}
use ice_hive.Prelude.Int.{pos}
use ice_hive.Text.{
  Bytes, codes, trim_space, trim, trim_left, trim_right, is_space, has_prefix, str_eq,
}
use ice_hive.Dict.{lookup, insert, remove}
use ice_hive.Controller.Db.{Collation, CollectionSourceRow, Tables, Db, next_fault, later}
use ice_hive.Controller.Db.Sources.{
  same_row, touch, checked, validate_cron_line, generated, given_id, not_found,
  require_collection_source_id, found_or, affected, reported, update_found, stored, trimmed,
  check_row, get_collection_source_by_id, upsert_source, save_row, upsert_collection_source,
  delete_source, delete_collection_source, update_run, save_run, report_collection_source_run,
}
use ice_hive.Controller.Db.Sources.Runs.{Recorded, report-Recorded, report-again}
use ice_hive.Controller.Db.Sources.Saving.{Saved, IdOf, upsert-Saved}

abbrev plain : Collation
plain = record { fold = λ s. s; starts = has_prefix; json_text = λ s. s }

abbrev feed : CollectionSourceRow
feed = record {
  id = codes "s1";
  collector_type = codes "collector-rss";
  source_spec = codes "rss:news";
  cron_line = [];
  enabled = true;
  last_run_unix_ms = none;
  last_success_unix_ms = none;
  last_error = none;
  next_due_unix_ms = none;
  created_at = pos 1;
  updated_at = pos 1;
}

abbrev tables : Tables
tables = record { meta = []; heartbeats = []; sources = (codes "s1", feed) ∷ []; schemas = [] }

abbrev small : Db
small = record { tables = tables; clock = pos 5000; faults = [] }

-- What a run that succeeded is.
succeeded {ℓ} : {A : Type ℓ} (a : A) (x : Result Bytes A × Db) → x.0 ≡ ok a → x ≡ (ok a, x.1)
succeeded a x h = ap (λ r. (r, x.1)) h

abbrev reporting : Result Bytes (Unit {0}) × Db
reporting = report_collection_source_run plain (codes " s1") (pos 4000) true [] (pos 0) small

reporting_ok : reporting.0 ≡ ok tt
unfolding report_collection_source_run save_run update_run update_found affected reported same_row
    touch trim_space trim trim_left trim_right is_space str_eq lookup insert next_fault later
reporting_ok = refl

no_fault_left : next_fault reporting.1.faults ≡ none
unfolding report_collection_source_run save_run update_run update_found affected reported same_row
    touch trim_space trim trim_left trim_right is_space str_eq lookup insert next_fault later
no_fault_left = refl

report-Recorded_example :
    Recorded
      (trim_space (codes " s1"))
      (pos 4000)
      true
      []
      (pos 0)
      small.clock
      small.tables
      reporting.1.tables
report-Recorded_example =
    report-Recorded plain (codes " s1") (pos 4000) true [] (pos 0) small reporting.1
      (succeeded tt reporting reporting_ok)

report-again_example :
    ((report_collection_source_run plain (codes " s1") (pos 4000) true [] (pos 0) reporting.1).0
      ≡ err (not_found (trim_space (codes " s1"))))
    × ((r : CollectionSourceRow) × (lookup (trim_space (codes " s1")) reporting.1.tables.sources
          ≡ some r))
report-again_example =
    report-again plain (codes " s1") (pos 4000) true [] (pos 0) small reporting.1
      (succeeded tt reporting reporting_ok) no_fault_left

abbrev request : CollectionSourceRow
request = record feed { id = []; source_spec = codes " rss:news "; cron_line = codes "0 * * * *" }

the_text : Result Bytes Bytes → Bytes
the_text (ok x) = x
the_text (err e) = e

abbrev random : Result Bytes Bytes
random = ok (codes "a7")

abbrev saving : Result Bytes CollectionSourceRow × Db
saving = upsert_collection_source plain (λ s. none) random request small

abbrev saved_row : CollectionSourceRow
saved_row = record feed {
  id = codes "a7";
  cron_line = codes "0 * * * *";
  created_at = pos 5000;
  updated_at = pos 5000;
}

saving_ok : saving.0 ≡ ok saved_row
unfolding upsert_collection_source trimmed check_row validate_cron_line checked given_id generated
    save_row upsert_source stored get_collection_source_by_id require_collection_source_id found_or
    trim_space trim trim_left trim_right is_space str_eq lookup insert next_fault later
saving_ok = refl

generated_clean : (x : Bytes) → random ≡ ok x → trim_space x ≡ x
unfolding trim_space trim trim_left trim_right is_space the_text
generated_clean x h = subst (λ y. trim_space y ≡ y) (ap the_text h) refl

upsert-Saved_example :
    (id : Bytes) × IdOf [] random id
    × ((v : Saved plain request id small saving.1) × (v.row ≡ saved_row))
upsert-Saved_example =
    upsert-Saved plain (λ s. none) random request saved_row small saving.1 generated_clean
      (succeeded saved_row saving saving_ok)

abbrev deleting : Result Bytes (Unit {0}) × Db
deleting = delete_collection_source plain (codes "s1") small

deleting_ok : deleting.0 ≡ ok tt
unfolding delete_collection_source require_collection_source_id delete_source affected trim_space
    trim trim_left trim_right is_space str_eq lookup remove next_fault later
deleting_ok = refl
