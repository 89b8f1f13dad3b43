-- ===== src/Collector/Due.antt =====
-- services/controller/internal/db/collection_sources.go with services/collector-rss/main.go: what a
-- collector reports comes back to it as the time of the next run.
use ice_hive.Prelude.{◌≡◌, refl, Bool, false, some, if◌then◌else◌, ok}
use ice_hive.Prelude.Int.{ℤ, pos, leb_ℤ}
use ice_hive.Text.{Bytes, is_nil, trim_space}
use ice_hive.Dict.{lookup}
use ice_hive.Controller.Db.{CollectionSourceRow, Db}
use ice_hive.Controller.Db.Sources.{reported, report_collection_source_run}
use ice_hive.Controller.Db.Sources.Runs.{report-Updated}
use ice_hive.Controller.Health.{PipelineHealth, unix_milli}
use ice_hive.Controller.Server.{Environment}
use ice_hive.Controller.Server.Sources.{collection_source_to_proto}
use ice_hive.Collector.{collection_source_run_now_only, collection_source_due}

module _ (env : Environment) where
  -- When a run's report with a time of the next one is accepted, the source that the controller shows
  -- from then on is due exactly from that time on, if it has a schedule, and never if it has none.
  pub reported_next_due :
      (s : Bytes) (run : ℤ) (success : Bool) (error : Bytes) (next_due now : ℤ) (d d' : Db)
      (h : PipelineHealth env.clockwork)
      → leb_ℤ next_due (pos 0) ≡ false
      → report_collection_source_run env.collation s run success error next_due d ≡ (ok tt, d')
      → (row : CollectionSourceRow) × (lookup (env.collation.fold (trim_space s)) d'.tables.sources
          ≡ some row)
        × (collection_source_due (collection_source_to_proto env row h) now ≡ (
            if is_nil (trim_space row.cron_line) then false else leb_ℤ (unix_milli next_due) now))
  unfolding collection_source_due collection_source_run_now_only collection_source_to_proto reported
  reported_next_due s run success error next_due now d d' h later e =
      let r = report-Updated env.collation s run success error next_due d d' e in
      (
        record (reported run success error next_due r.row) { updated_at = d.clock },
        r.is,
        rw later (rw later refl),
      )
