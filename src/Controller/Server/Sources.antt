-- ===== src/Controller/Server/Sources.antt =====
-- services/controller/main.go: the handlers of the collection sources and of their schemas.
pub mod Enqueue
pub mod Sent
pub mod Report
use ice_hive.Prelude.{
  ℕ, Bool, true, false, not, ◌||◌, List, [], ◌∷◌, ◌++◌, Option, none, some, if◌then◌else◌, Result,
  ok, err, map,
}
use ice_hive.Prelude.Int.{ℤ, pos}
use ice_hive.Text.{Bytes, codes, is_nil, trim_space}
use ice_hive.Dict.{Dict}
use ice_hive.Amqp.Names.{collection_request_key}
use ice_hive.Amqp.Client.{Client, Error, Outcome, publish_json}
use ice_hive.Controller.Activity.{record_enqueued, record_run}
use ice_hive.Controller.Db.{CollectionSourceRow, CollectorSourceSchemaRow, Db}
use ice_hive.Controller.Db.Sources.{
  list_collection_sources, get_collection_source_by_id, upsert_collection_source,
  delete_collection_source, report_collection_source_run,
}
use ice_hive.Controller.Db.Schemas.{list_collector_source_schemas}
use ice_hive.Controller.Health.{PipelineHealth, compute_pipeline_health}
use ice_hive.Controller.Server.{
  Environment, CollectionSource, Code, unavailable, invalid_argument, not_found, internal, Server,
  Handler, ConnectError, Cause, text, client, answer, refuse, ◌>>=◌, meta_db, on_db, always,
  source_code, now_ms, collector_freshness,
}

-- nullInt64OrZero, nullStringOrEmpty
abbrev pub null_or_zero : Option ℤ → ℤ
null_or_zero none = pos 0
null_or_zero (some n) = n

abbrev pub null_or_empty : Option Bytes → Bytes
null_or_empty none = []
null_or_empty (some e) = e

-- The target of an EnqueueCollectionRequest; a message of an unknown kind does not arise.
pub data Target : Type 0 where
  collection_source_id : Bytes → Target
  ephemeral_collection : Option CollectionSource → Target
  no_target : Target

-- The row of a request to save a source.
unfoldable pub row_of : CollectionSource → CollectionSourceRow
row_of src = record {
  id = src.id;
  collector_type = src.collector_type;
  source_spec = src.source_spec;
  cron_line = src.cron_line;
  enabled = src.enabled;
  last_run_unix_ms = none;
  last_success_unix_ms = none;
  last_error = none;
  next_due_unix_ms = none;
  created_at = pos 0;
  updated_at = pos 0;
}

module _ (env : Environment) where
  -- collectionSourceToProto
  unfoldable pub collection_source_to_proto :
      CollectionSourceRow → PipelineHealth env.clockwork → CollectionSource
  collection_source_to_proto r h = record {
    id = r.id;
    collector_type = r.collector_type;
    source_spec = r.source_spec;
    cron_line = r.cron_line;
    enabled = r.enabled;
    created_unix_ms = r.created_at;
    updated_unix_ms = r.updated_at;
    last_run_unix_ms = null_or_zero r.last_run_unix_ms;
    last_success_unix_ms = null_or_zero r.last_success_unix_ms;
    last_error = null_or_empty r.last_error;
    next_due_unix_ms = null_or_zero r.next_due_unix_ms;
    seconds_since_last_success = h.seconds_since_last_success;
    is_stale = h.is_stale;
    entity_freshness_age_seconds = h.entity_freshness_age_seconds;
  }

  -- A row with its health at the time of the request
  unfoldable pub with_health : Server env → CollectionSourceRow → CollectionSource
  with_health s r =
      collection_source_to_proto r
        (compute_pipeline_health env.clockwork r (collector_freshness env s) s.now)

  -- ListCollectionSources
  unfoldable pub list_sources : Bytes → Handler env (List CollectionSource)
  list_sources collector_type = ◌>>=◌ env (meta_db env) (λ _.
      ◌>>=◌ env (on_db env (always internal) (list_collection_sources env.collation collector_type))
        (λ rs s. answer env (map (with_health s) rs) s))

  -- ListCollectorSourceSchemas; the message has the fields of the row
  unfoldable pub list_schemas : Bytes → Handler env (List CollectorSourceSchemaRow)
  list_schemas collector_type = ◌>>=◌ env (meta_db env) (λ _.
      on_db env (always internal) (list_collector_source_schemas env.collation collector_type))

  -- UpsertCollectionSource, with what randomID returns
  unfoldable pub upsert_source_request :
      Result Bytes Bytes → Option CollectionSource → Handler env CollectionSource
  upsert_source_request random none = refuse env invalid_argument (codes "missing source")
  upsert_source_request random (some src) = ◌>>=◌ env (meta_db env) (λ _.
      ◌>>=◌ env
        (on_db env (always invalid_argument)
          (upsert_collection_source env.collation env.cron_error random (row_of src)))
        (λ saved s. answer env (with_health s saved) s))

  -- DeleteCollectionSource
  unfoldable pub delete_source_request : Bytes → Handler env (Unit {0})
  delete_source_request s =
      let id = trim_space s in
      if is_nil id
      then refuse env invalid_argument (codes "empty id")
      else ◌>>=◌ env (meta_db env)
          (λ _. on_db env source_code (delete_collection_source env.collation id))

  unfoldable pub published :
      Server env
      → env.broker.World
      → Client env.broker
      → Option (Error env.broker)
      → Result (ConnectError env) (Unit {0}) × Server env
  published s w cl none = answer env tt (record s { world = w; amqp_client = some cl })
  published s w cl (some e) = (
    err (record { code = internal; cause = client e }),
    record s { world = w; amqp_client = some cl },
  )

  -- PublishJSON of what Marshal returns
  unfoldable pub publish_request :
      Client env.broker → Bytes → Result Bytes Bytes → Handler env (Unit {0})
  unfolding published
  publish_request cl key (err e) s = refuse env internal e s
  publish_request cl key (ok body) s =
      let r = publish_json env.broker s.world cl key body in published s r.world r.client r.error

  -- RecordCollectionEnqueued
  unfoldable pub note_enqueued : Bytes → Bytes → Bytes → Handler env (Unit {0})
  note_enqueued collector_type id spec s =
      answer env tt
        (record s { activity = record_enqueued (now_ms env s) s.activity collector_type id spec })

  unfoldable pub enqueue_row : Client env.broker → CollectionSourceRow → Handler env (Unit {0})
  enqueue_row cl row s =
      ◌>>=◌ env
        (publish_request cl (collection_request_key row.collector_type)
          (env.marshal (with_health s row)))
        (λ _. note_enqueued row.collector_type row.id row.source_spec) s

  unfoldable pub enqueue_target : Client env.broker → Target → Handler env (Unit {0})
  unfolding enqueue_row
  enqueue_target cl no_target =
      refuse env invalid_argument (codes "specify collection_source_id or ephemeral_collection")
  enqueue_target cl (collection_source_id s) =
      let id = trim_space s in
      if is_nil id
      then refuse env invalid_argument (codes "empty collection_source_id")
      else ◌>>=◌ env (meta_db env) (λ _.
        ◌>>=◌ env (on_db env source_code (get_collection_source_by_id env.collation id))
          (enqueue_row cl))
  enqueue_target cl (ephemeral_collection none) =
      refuse env invalid_argument (codes "ephemeral_collection is empty")
  enqueue_target cl (ephemeral_collection (some src)) =
      let type = trim_space src.collector_type in
      let spec = trim_space src.source_spec in
      if is_nil type || is_nil spec
      then refuse env invalid_argument
          (codes "ephemeral_collection requires collector_type and source_spec")
      else ◌>>=◌ env
          (publish_request cl (collection_request_key type) (env.marshal (record src { id = [] })))
          (λ _. note_enqueued type [] spec)

  unfoldable pub with_client : Option (Client env.broker) → Target → Handler env (Unit {0})
  with_client none t = refuse env unavailable (codes "AMQP not connected yet")
  with_client (some cl) t = enqueue_target cl t

  -- EnqueueCollectionRequest
  unfoldable pub enqueue_collection_request : Target → Handler env (Unit {0})
  unfolding with_client
  enqueue_collection_request target s = with_client s.amqp_client target s

  unfoldable pub type_or_empty : Result Bytes CollectionSourceRow → Bytes
  type_or_empty (ok r) = r.collector_type
  type_or_empty (err e) = []

  -- The type of the source for the activity, and RecordCollectionRun
  unfoldable pub note_run : Bytes → Bool → Bytes → Handler env (Unit {0})
  unfolding type_or_empty
  note_run id success error s =
      let (r, d) = get_collection_source_by_id env.collation id s.db in
      answer env tt (record s {
        db = d;
        activity = record_run (now_ms env s) s.activity id (type_or_empty r) success error;
      })

  -- ReportCollectionSourceRun
  unfoldable pub report_run_request : Bytes → ℤ → Bool → Bytes → ℤ → Handler env (Unit {0})
  report_run_request s run success error next_due =
      let id = trim_space s in
      if is_nil id
      then refuse env invalid_argument (codes "empty id")
      else ◌>>=◌ env (meta_db env) (λ _.
        ◌>>=◌ env
          (on_db env source_code
            (report_collection_source_run env.collation id run success error next_due))
          (λ _. note_run id success error))
