-- ===== src/Controller/Server/Config.antt =====
-- services/controller/main.go: the handlers of the settings, the services and the activity.
pub mod Shown
use ice_hive.Prelude.{
  ℕ, Bool, true, false, not, ◌||◌, List, [], ◌∷◌, ◌++◌, Option, none, some, if◌then◌else◌, Result,
  ok, err, map,
}
use ice_hive.Prelude.Int.{ℤ, pos, leb_ℤ, ◌-ℤ◌}
use ice_hive.Text.{Bytes, codes, is_nil, trim_space, to_lower, contains, equal_fold}
use ice_hive.Amqp.Names.{default_control_exchange, routing_key_control_events}
use ice_hive.Controller.Activity.{Event, list_events}
use ice_hive.Controller.Db.{MetaRow, HeartbeatRow, Fault, Db, Action, later, next_fault}
use ice_hive.Controller.Db.Meta.{
  AmqpBootstrapSettings, PersisterMysqlSettings, load_amqp_bootstrap_settings,
  load_persister_mysql_settings, list_meta, get_meta, set_meta, list_heartbeats,
}
use ice_hive.Controller.Health.{Koanf, configured_settings}
use ice_hive.Controller.Server.{
  Environment, Code, unavailable, failed_precondition, invalid_argument, internal, Server, Handler,
  ConnectError, text, answer, refuse, ◌>>=◌, meta_db, on_db, always, now_ms, int32,
}

pub record ConfigVar : Type 0 where
  pub key : Bytes
  pub value : Bytes
  pub redacted : Bool

pub record ServiceStatus : Type 0 where
  pub service_name : Bytes
  pub latest_heartbeat_unix_ms : ℤ
  pub status : Bytes
  pub version : Bytes

pub record WorkerBootstrapResponse : Type 0 where
  pub amqp : AmqpBootstrapSettings
  pub mysql : Option PersisterMysqlSettings

-- configKeyRedacted
unfoldable pub config_key_redacted : Bytes → Bool
config_key_redacted key =
    let k = to_lower key in
    contains k (codes "password") || (contains k (codes "secret") || contains k (codes "token"))

-- configVarFromMeta
unfoldable pub config_var_from_meta : Bytes → Bytes → ConfigVar
config_var_from_meta key raw =
    let redacted = config_key_redacted key in
    record { key = key; value = if redacted then [] else raw; redacted = redacted }

-- heartbeatStatus
unfoldable pub heartbeat_status : ℤ → ℤ → Bytes
heartbeat_status now latest =
    if leb_ℤ latest (pos 0)
    then codes "unknown"
    else if leb_ℤ (now -ℤ latest) (pos 30000)
    then codes "healthy"
    else codes "stale"

service_status : ℤ → HeartbeatRow → ServiceStatus
service_status now r = record {
  service_name = r.service_name;
  latest_heartbeat_unix_ms = r.latest_heartbeat_unix_ms;
  status = heartbeat_status now r.latest_heartbeat_unix_ms;
  version = r.version;
}

-- The settings with the defaults of the exchange and of the routing key
unfoldable pub amqp_response : AmqpBootstrapSettings → AmqpBootstrapSettings
amqp_response a =
    let ex = trim_space a.exchange in
    let rk = trim_space a.routing_key_control_events in
    record {
      url = trim_space a.url;
      exchange = if is_nil ex then default_control_exchange else ex;
      routing_key_control_events = if is_nil rk then routing_key_control_events else rk;
    }

with_int32 : PersisterMysqlSettings → PersisterMysqlSettings
with_int32 s = record s { port = int32 s.port }

-- persisterMySQLSettingsFromConfig
unfoldable pub settings_from_config : Option Koanf → Option PersisterMysqlSettings
settings_from_config none = none
settings_from_config (some k) =
    if k.is_set (codes "persister_mysql.host") then some (configured_settings k) else none

module _ (env : Environment) where
  pinged : Server env → Option Fault → Result (ConnectError env) Bytes × Server env
  pinged s none =
      answer env (codes "ok") (record s { db = record s.db { faults = later s.db.faults } })
  pinged s (some e) =
      refuse env unavailable e.message
        (record s { db = record s.db { faults = later s.db.faults } })

  -- Health
  unfoldable pub health : Handler env Bytes
  unfolding pinged
  health = ◌>>=◌ env (meta_db env) (λ _ s. pinged s (next_fault s.db.faults))

  chosen_settings :
      Option PersisterMysqlSettings
      → Server env
      → Result Bytes PersisterMysqlSettings × Db
      → Result (ConnectError env) PersisterMysqlSettings × Server env
  chosen_settings fallback s (ok m, d) = answer env m (record s { db = d })
  chosen_settings none s (err e, d) = refuse env failed_precondition e (record s { db = d })
  chosen_settings (some m) s (err e, d) = answer env m (record s { db = d })

  persister_settings_or_file : Handler env PersisterMysqlSettings
  unfolding chosen_settings
  persister_settings_or_file s =
      chosen_settings (settings_from_config s.k) s
        (load_persister_mysql_settings env.collation s.db)

  -- WorkerBootstrap
  unfoldable pub worker_bootstrap : Bytes → Handler env WorkerBootstrapResponse
  unfolding with_int32 persister_settings_or_file
  worker_bootstrap worker_kind = ◌>>=◌ env (meta_db env) (λ _.
      ◌>>=◌ env
        (on_db env (always failed_precondition)
          (load_amqp_bootstrap_settings env.collation env.urls))
        (λ a.
          if equal_fold (trim_space worker_kind) (codes "persister")
          then ◌>>=◌ env persister_settings_or_file
              (λ m. answer env (record { amqp = amqp_response a; mysql = some (with_int32 m) }))
          else answer env (record { amqp = amqp_response a; mysql = none })))

  -- ListConfig
  unfoldable pub list_config : Handler env (List ConfigVar)
  list_config = ◌>>=◌ env (meta_db env) (λ _.
      ◌>>=◌ env (on_db env (always internal) (list_meta env.collation))
        (λ rs. answer env (map (λ r. config_var_from_meta r.k r.v) rs)))

  unfoldable pub value_or_create : Bytes → Option Bytes → Handler env Bytes
  value_or_create key (some v) = answer env v
  value_or_create key none =
      ◌>>=◌ env (on_db env (always internal) (set_meta env.collation key [])) (λ _. answer env [])

  -- GetConfig
  unfoldable pub get_config : Bytes → Handler env ConfigVar
  unfolding value_or_create
  get_config s =
      let key = trim_space s in
      if is_nil key
      then refuse env invalid_argument (codes "empty config key")
      else ◌>>=◌ env (meta_db env) (λ _.
        ◌>>=◌ env (on_db env (always internal) (get_meta env.collation key)) (λ found.
          ◌>>=◌ env (value_or_create key found) (λ v.
            answer env (record { key = key; value = v; redacted = config_key_redacted key }))))

  -- SetConfig
  unfoldable pub set_config : Bytes → Bytes → Handler env (Unit {0})
  set_config s value =
      let key = trim_space s in
      if is_nil key
      then refuse env invalid_argument (codes "empty config key")
      else ◌>>=◌ env (meta_db env)
          (λ _. on_db env (always internal) (set_meta env.collation key value))

  -- ListServices
  unfoldable pub list_services : Handler env (List ServiceStatus)
  unfolding service_status
  list_services = ◌>>=◌ env (meta_db env) (λ _.
      ◌>>=◌ env (on_db env (always internal) (list_heartbeats env.collation))
        (λ rs s. answer env (map (service_status (now_ms env s)) rs) s))

  -- ListActivity; the event of the response has the fields of the ring's
  unfoldable pub list_activity : ℤ → Handler env (List Event)
  list_activity limit s = answer env (list_events s.activity limit) s
