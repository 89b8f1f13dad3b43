-- ===== src/Controller/Health.antt =====
-- services/controller/internal/healthmetrics/refresher.go: how long ago a source succeeded, and
-- whether it is stale. The times of the rows are in milliseconds, durations and `now` in
-- nanoseconds; that a duration of 292 years or more does not fit is left out, and so is the query of
-- the sink's tables.
pub mod Stale
mod Tests
use ice_hive.Prelude.{
  ℕ, Bool, true, false, not, ◌&&◌, ◌||◌, List, [], ◌∷◌, Option, none, some, if◌then◌else◌, Result,
  ok, err, map,
}
use ice_hive.Prelude.Int.{ℤ, pos, negsuc, ◌-ℤ◌, leb_ℤ, ltb_ℤ, scale, quot}
use ice_hive.Text.{Bytes, codes, is_nil, trim_space}
use ice_hive.Dict.{Dict, lookup}
use ice_hive.Controller.Db.{Collation, CollectionSourceRow, HeartbeatRow, Db, Action}
use ice_hive.Controller.Db.Meta.{
  PersisterMysqlSettings, list_heartbeats, load_persister_mysql_settings,
}
use ice_hive.Controller.Db.Sources.{list_collection_sources}

-- What is used of float64 and of the cron library.
pub record Clockwork : Type 1 where
  pub Float : Type 0
  -- float64(n)
  pub float : ℤ → Float
  -- d.Seconds() of a duration
  pub seconds : ℤ → Float
  -- x < 0
  pub negative : Float → Bool
  -- int64(x)
  pub whole : Float → ℤ
  -- time.Duration(x * float64(time.Second))
  pub duration : Float → ℤ
  -- Parse of the standard parser: Next of the schedule, or an error
  pub parse : Bytes → Option (ℤ → ℤ)

unfoldable pub mysql_tcp_port : ℤ → ℤ
mysql_tcp_port port = if leb_ℤ port (pos 0) then pos 3306 else port

unfoldable pub ticker_interval : ℤ → ℤ → ℤ
ticker_interval interval fallback = if leb_ℤ interval (pos 0) then fallback else interval

-- The keys of a koanf that are read here.
pub record Koanf : Type 0 where
  pub is_set : Bytes → Bool
  pub text : Bytes → Bytes
  pub number : Bytes → ℤ

-- persister_mysql of the configuration file
unfoldable pub configured_settings : Koanf → PersisterMysqlSettings
configured_settings k = record {
  host = trim_space (k.text (codes "persister_mysql.host"));
  user = trim_space (k.text (codes "persister_mysql.user"));
  password = k.text (codes "persister_mysql.password");
  database = trim_space (k.text (codes "persister_mysql.database"));
  port = mysql_tcp_port (k.number (codes "persister_mysql.port"));
}

-- The settings of the database, else those of the file, else `none`
fallback : Option Koanf → Result Bytes PersisterMysqlSettings → Option PersisterMysqlSettings
fallback k (ok s) = some s
fallback none (err e) = none
fallback (some k) (err e) =
    if k.is_set (codes "persister_mysql.host") then some (configured_settings k) else none

-- loadPersisterSettings, with a database that is there
unfoldable pub load_persister_settings :
    Collation → Option Koanf → Db → Option PersisterMysqlSettings × Db
unfolding fallback
load_persister_settings c k d =
    let (r, d') = load_persister_mysql_settings c d in (fallback k r, d')

-- time.UnixMilli
abbrev pub unix_milli : ℤ → ℤ
unix_milli ms = scale 1000000 ms

abbrev pub positive_or_none : Option ℤ → Option ℤ
positive_or_none none = none
positive_or_none (some n) = if leb_ℤ n (pos 0) then none else some n

-- LastSuccessUnixMs and LastRunUnixMs where they are valid and positive
abbrev pub last_success : CollectionSourceRow → Option ℤ
last_success src = positive_or_none src.last_success_unix_ms

abbrev pub last_run : CollectionSourceRow → Option ℤ
last_run src = positive_or_none src.last_run_unix_ms

abbrev pub is_none {ℓ} : {A : Type ℓ} → Option A → Bool
is_none none = true
is_none (some a) = false

-- cronInterval
unfoldable pub cron_interval : (ℤ → ℤ) → ℤ → ℤ
cron_interval next now =
    let first = next now in
    let following = next first in
    if ltb_ℤ first following then following -ℤ first else pos 3600000000000

module _ (w : Clockwork) where
  open w use {Float}

  -- The gauges of a source; `none` is one that is not set.
  pub record SourceGauges : Type 0 where
    pub id : Bytes
    pub collector_type : Bytes
    pub stale : Bool
    pub success_age : Option Float

  pub record PipelineHealth : Type 0 where
    pub seconds_since_last_success : ℤ
    pub is_stale : Bool
    pub entity_freshness_age_seconds : ℤ

  -- heartbeatAgeSeconds
  unfoldable pub heartbeat_age_seconds : ℤ → ℤ → Float
  heartbeat_age_seconds latest now =
      let age = w.seconds (now -ℤ unix_milli latest) in
      if leb_ℤ latest (pos 0)
      then w.float (pos 0)
      else if w.negative age
      then w.float (pos 0)
      else age

  unfoldable pub age_of : ℤ → Option ℤ → Float
  age_of now none = w.float (negsuc 0)
  age_of now (some s) = w.seconds (now -ℤ unix_milli s)

  -- successAgeSeconds
  unfoldable pub success_age_seconds : CollectionSourceRow → ℤ → Float
  unfolding age_of
  success_age_seconds src now = age_of now (last_success src)

  -- The last condition of sourceIsStale.
  unfoldable pub ran_since : Option ℤ → ℤ → ℤ → ℤ → Bool
  ran_since none now age threshold = false
  ran_since (some run) now age threshold =
      leb_ℤ (now -ℤ unix_milli run) threshold && ltb_ℤ (quot 2 threshold) age

  -- sourceIsStale
  unfoldable pub source_is_stale : CollectionSourceRow → ℤ → Float → ℤ → Bool
  unfolding ran_since
  source_is_stale src now success_age interval =
      let threshold = scale 2 interval in
      if is_none (last_success src)
      then true
      else if w.negative success_age
      then true
      else if ltb_ℤ threshold (w.duration success_age)
      then true
      else ran_since (last_run src) now (w.duration success_age) threshold

  -- The gauges of an enabled source with a schedule.
  unfoldable pub scheduled_gauges : CollectionSourceRow → ℤ → Option (ℤ → ℤ) → SourceGauges
  scheduled_gauges src now none = record {
    id = src.id;
    collector_type = src.collector_type;
    stale = true;
    success_age = none;
  }
  scheduled_gauges src now (some next) =
      let age = success_age_seconds src now in
      record {
        id = src.id;
        collector_type = src.collector_type;
        stale = source_is_stale src now age (cron_interval next now);
        success_age = some age;
      }

  -- A round of the loop of refreshCollectionSources.
  unfoldable pub source_gauges : ℤ → CollectionSourceRow → SourceGauges
  unfolding scheduled_gauges
  source_gauges now src =
      let cron_line = trim_space src.cron_line in
      if not src.enabled
      then record {
        id = src.id;
        collector_type = src.collector_type;
        stale = false;
        success_age = some (w.float (pos 0));
      }
      else if is_nil cron_line
      then record {
        id = src.id;
        collector_type = src.collector_type;
        stale = is_none (last_success src);
        success_age = some (success_age_seconds src now);
      }
      else scheduled_gauges src now (w.parse cron_line)

  all_gauges : ℤ → Result Bytes (List CollectionSourceRow) → List SourceGauges
  all_gauges now (err e) = []
  all_gauges now (ok rs) = map (source_gauges now) rs

  -- refreshCollectionSources
  unfoldable pub refresh_collection_sources : Collation → ℤ → Db → List SourceGauges × Db
  unfolding all_gauges
  refresh_collection_sources c now d =
      let (r, d') = list_collection_sources c [] d in (all_gauges now r, d')

  all_ages : ℤ → Result Bytes (List HeartbeatRow) → List (Bytes × Float)
  all_ages now (err e) = []
  all_ages now (ok rs) =
      map (λ r. (r.service_name, heartbeat_age_seconds r.latest_heartbeat_unix_ms now)) rs

  -- refreshHeartbeats
  unfoldable pub refresh_heartbeats : Collation → ℤ → Db → List (Bytes × Float) × Db
  unfolding all_ages
  refresh_heartbeats c now d = let (r, d') = list_heartbeats c d in (all_ages now r, d')

  unfoldable pub since_success : ℤ → Option ℤ → ℤ
  since_success now none = pos 0
  since_success now (some s) =
      let n = w.whole (w.seconds (now -ℤ unix_milli s)) in if ltb_ℤ n (pos 0) then pos 0 else n

  unfoldable pub scheduled_stale : CollectionSourceRow → ℤ → ℤ → Option (ℤ → ℤ) → Bool
  scheduled_stale src now since none = true
  scheduled_stale src now since (some next) =
      source_is_stale src now (w.float since) (cron_interval next now)

  freshness_of : Option ℤ → ℤ
  freshness_of none = pos 0
  freshness_of (some age) = if ltb_ℤ age (pos 0) then pos 0 else age

  -- ComputePipelineHealth
  unfoldable pub compute_pipeline_health : CollectionSourceRow → Dict ℤ → ℤ → PipelineHealth
  unfolding since_success scheduled_stale freshness_of
  compute_pipeline_health src freshness now =
      let since = since_success now (last_success src) in
      let cron_line = trim_space src.cron_line in
      record {
        seconds_since_last_success = since;
        is_stale =
            if not src.enabled
            then false
            else if is_nil cron_line
            then is_none (last_success src)
            else scheduled_stale src now since (w.parse cron_line);
        entity_freshness_age_seconds = freshness_of (lookup src.collector_type freshness);
      }

  -- EntityFreshnessByCollector, with what the probe of the repositories' table finds
  unfoldable pub entity_freshness_by_collector : Option Float → Dict ℤ
  entity_freshness_by_collector none = []
  entity_freshness_by_collector (some age) =
      if w.negative age then [] else (codes "collector-github", w.whole age) ∷ []
