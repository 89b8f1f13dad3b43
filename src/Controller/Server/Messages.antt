-- ===== src/Controller/Server/Messages.antt =====
-- services/controller/main.go and source_schema_handle.go: what the controller does with the
-- heartbeats and the documents that it consumes.
use ice_hive.Prelude.{not, ◌||◌, Option, none, some, if◌then◌else◌, Result, ok, err}
use ice_hive.Prelude.Int.{ℤ}
use ice_hive.Text.{Bytes, is_nil, trim_space, str_eq}
use ice_hive.Controller.Activity.{record_heartbeat, unix_ms_or_now}
use ice_hive.Controller.Db.{Db}
use ice_hive.Controller.Db.Meta.{upsert_heartbeat}
use ice_hive.Controller.Db.Schemas.{upsert_collector_source_schema}
use ice_hive.SourceSchema.{schema_kind}
use ice_hive.Controller.Server.{Environment, Server, now_ms}

-- The ping of a control event, with its source and its version
pub record Ping : Type 0 where
  pub source_service : Bytes
  pub version : Bytes

module _ (env : Environment) where
  beat_stored :
      Server env → Ping → ℤ → Result Bytes (Unit {0}) × Db → Result Bytes (Unit {0}) × Server env
  beat_stored s p ts (err e, d) = (err e, record s { db = d })
  beat_stored s p ts (ok u, d) = (
    ok tt,
    record s {
      db = d;
      activity =
          record_heartbeat (now_ms env s) (now_ms env s) s.activity p.source_service p.version ts;
    },
  )

  -- The handler of the heartbeat consumer
  unfoldable pub handle_heartbeat :
      Option Ping → ℤ → Server env → Result Bytes (Unit {0}) × Server env
  unfolding beat_stored
  handle_heartbeat none created s = (ok tt, s)
  handle_heartbeat (some p) created s =
      let ts = unix_ms_or_now (now_ms env s) created in
      if is_nil (trim_space p.source_service)
      then (ok tt, s)
      else beat_stored s p ts (upsert_heartbeat env.collation p.source_service ts p.version s.db)

  store_document :
      Bytes → Option (Bytes × Bytes × Bytes) → Server env → Result Bytes (Unit {0}) × Server env
  store_document body none s = (ok tt, s)
  store_document body (some (kind, version, type)) s =
      let ct = trim_space type in
      let sv = trim_space version in
      let (r, d) =
        upsert_collector_source_schema env.collation env.valid ct sv body (now_ms env s) s.db in
      if not (str_eq (trim_space kind) schema_kind)
      then (ok tt, s)
      else if is_nil ct || is_nil sv
      then (ok tt, s)
      else if not (env.valid body)
      then (ok tt, s)
      else (r, record s { db = d })

  -- handleCollectorSourceSchemaMessage
  unfoldable pub handle_source_schema : Bytes → Server env → Result Bytes (Unit {0}) × Server env
  unfolding store_document
  handle_source_schema body s = store_document body (env.header body) s
