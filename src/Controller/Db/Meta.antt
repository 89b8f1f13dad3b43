-- ===== src/Controller/Db/Meta.antt =====
-- services/controller/internal/db/meta.go: the settings and the heartbeats.
pub mod Sorting
use ice_hive.Prelude.{
  ℕ, Bool, true, false, ◌&&◌, ◌||◌, not, List, [], ◌∷◌, ◌++◌, Option, none, some, if◌then◌else◌,
  Result, ok, err, ltb, ◌==◌,
}
use ice_hive.Prelude.Int.{ℤ, pos, leb_ℤ}
use ice_hive.Text.{Bytes, codes, is_nil, trim_space, less}
use ice_hive.Sorting.{sort_with}
use ice_hive.Dict.{Dict, lookup, insert}
use ice_hive.Bootstrap.{atoi, clean_vhost}
use ice_hive.Controller.Db.{
  Collation, MetaRow, HeartbeatRow, Tables, Db, Action, pure, raise, ◌>>=◌, call, query, iterate,
  rows,
}

-- sort.Slice by a text. Equal texts do not occur in the tables that are sorted.
abbrev pub sort_by {ℓ} : {A : Type ℓ} → (A → Bytes) → List A → List A
sort_by key = sort_with (λ a b. less (key a) (key b))

-- The Go map that the loop over the rows fills.
unfoldable pub values_of : List MetaRow → Dict Bytes → Dict Bytes
values_of [] m = m
values_of (r ∷ rs) m = values_of rs (insert r.k (trim_space r.v) m)

-- The zero value where the map has no such key.
or_empty : Option Bytes → Bytes
or_empty none = []
or_empty (some v) = v

unfoldable pub at : Bytes → Dict Bytes → Bytes
unfolding or_empty
at k m = or_empty (lookup k m)

unfoldable pub select_like : (MetaRow → Bool) → List MetaRow → List MetaRow
select_like p [] = []
select_like p (r ∷ rs) = let rest = select_like p rs in if p r then r ∷ rest else rest

pub record AmqpBootstrapSettings : Type 0 where
  pub url : Bytes
  pub exchange : Bytes
  pub routing_key_control_events : Bytes

pub record PersisterMysqlSettings : Type 0 where
  pub host : Bytes
  pub user : Bytes
  pub password : Bytes
  pub database : Bytes
  pub port : ℤ

-- What is used of net/url: String() of a URL with the scheme amqp, and PathEscape.
pub record UrlText : Type 0 where
  pub amqp_url_text : Bytes → Option (Bytes × Bytes) → Bytes → Bytes
  pub path_escape : Bytes → Bytes

-- The part of LoadAMQPBootstrapSettings behind the map.
assembled : UrlText → Dict Bytes → Bytes
assembled u vals =
    let port = at (codes "amqp.port") vals in
    let vhost = clean_vhost (at (codes "amqp.vhost") vals) in
    let user = at (codes "amqp.user") vals in
    let path = path_of vhost in
    u.amqp_url_text
      (at (codes "amqp.host") vals ++ (b':' ∷ (if is_nil port then codes "5672" else port)))
      (if is_nil user then none else some (user, at (codes "amqp.password") vals)) path
  where
    path_of : Bytes → Bytes
    path_of [] = b'/' ∷ u.path_escape []
    path_of (c ∷ s) = if c == b'/' && is_nil s then b'/' ∷ [] else b'/' ∷ u.path_escape (c ∷ s)

unfoldable pub amqp_settings : UrlText → Dict Bytes → Action AmqpBootstrapSettings
unfolding assembled
amqp_settings u vals =
    let url = at (codes "amqp.url") vals in
    if is_nil url && is_nil (at (codes "amqp.host") vals)
    then raise (codes "missing amqp.url or amqp.host in icehive_meta")
    else pure (record {
      url = if is_nil url then assembled u vals else url;
      exchange = at (codes "amqp.exchange") vals;
      routing_key_control_events = at (codes "amqp.routing_key_control_events") vals;
    })

unfoldable pub persister_settings : Dict Bytes → Option ℤ → Action PersisterMysqlSettings
persister_settings vals none =
    raise (codes "invalid persister_mysql.port " ++ at (codes "persister_mysql.port") vals)
persister_settings vals (some port) =
    let host = at (codes "persister_mysql.host") vals in
    let user = at (codes "persister_mysql.user") vals in
    let database = at (codes "persister_mysql.database") vals in
    if is_nil host || (is_nil user || is_nil database)
    then raise (codes "missing persister_mysql settings in icehive_meta")
    else pure (record {
      host = host;
      user = user;
      password = at (codes "persister_mysql.password") vals;
      database = database;
      port = port;
    })

-- 3306 where no port is set, `none` where it is no number
persister_port : Dict Bytes → Option ℤ
persister_port vals =
    let p = at (codes "persister_mysql.port") vals in if is_nil p then some (pos 3306) else atoi p

-- heartbeatArgs
unfoldable pub heartbeat_args : Bytes → ℤ → Action Bytes
heartbeat_args service_name latest =
    let name = trim_space service_name in
    if is_nil name
    then raise (codes "empty service name")
    else if leb_ℤ latest (pos 0)
    then raise (codes "invalid heartbeat timestamp")
    else pure name

module _ (c : Collation) where
  -- LoadAMQPBootstrapSettings
  unfoldable pub load_amqp_bootstrap_settings : UrlText → Action AmqpBootstrapSettings
  load_amqp_bootstrap_settings u =
      query (codes "query icehive_meta amqp keys")
        (λ t. select_like (λ r. c.starts r.k (codes "amqp.")) (rows t.meta))
      >>= iterate (codes "iterate icehive_meta rows")
      >>= λ rs. amqp_settings u (values_of rs [])

  -- LoadPersisterMySQLSettings
  unfoldable pub load_persister_mysql_settings : Action PersisterMysqlSettings
  unfolding persister_port
  load_persister_mysql_settings =
      query (codes "query icehive_meta persister mysql keys")
        (λ t. select_like (λ r. c.starts r.k (codes "persister_mysql.")) (rows t.meta))
      >>= iterate (codes "iterate icehive_meta rows")
      >>= λ rs. persister_settings (values_of rs []) (persister_port (values_of rs []))

  -- INSERT … ON DUPLICATE KEY UPDATE v: a key that is there keeps its spelling.
  unfoldable pub upsert_row : Bytes → Bytes → Option MetaRow → MetaRow
  upsert_row key value none = record { k = key; v = value }
  upsert_row key value (some r) = record r { v = value }

  unfoldable pub upsert_meta : Bytes → Bytes → Tables → Unit {0} × Tables
  unfolding upsert_row
  upsert_meta key value t =
      let row = upsert_row key value (lookup (c.fold key) t.meta) in
      (tt, record t { meta = insert (c.fold key) row t.meta })

  -- SetMeta
  unfoldable pub set_meta : Bytes → Bytes → Action (Unit {0})
  set_meta key value =
      if is_nil (trim_space key)
      then raise (codes "empty meta key")
      else call (codes "upsert icehive_meta " ++ key) (upsert_meta key value)

  -- ListMeta
  unfoldable pub list_meta : Action (List MetaRow)
  list_meta =
      query (codes "query icehive_meta") (λ t. rows t.meta)
      >>= iterate (codes "iterate icehive_meta rows")
      >>= λ rs. pure (sort_by (λ r. r.k) rs)

  unfoldable pub value_of : Option MetaRow → Option Bytes
  value_of none = none
  value_of (some r) = some r.v

  -- GetMeta; `none` where there is no such key
  unfoldable pub get_meta : Bytes → Action (Option Bytes)
  unfolding value_of
  get_meta key =
      let k = trim_space key in
      if is_nil k
      then raise (codes "empty meta key")
      else query (codes "query icehive_meta " ++ k) (λ t. value_of (lookup (c.fold k) t.meta))

  beat_row : Bytes → ℤ → Bytes → Option HeartbeatRow → HeartbeatRow
  beat_row name latest version none = record {
    service_name = name;
    version = version;
    latest_heartbeat_unix_ms = latest;
  }
  beat_row name latest version (some r) = record r {
    version = version;
    latest_heartbeat_unix_ms = latest;
  }

  unfoldable pub upsert_beat : Bytes → ℤ → Bytes → Tables → Unit {0} × Tables
  unfolding beat_row
  upsert_beat name latest version t =
      let row = beat_row name latest version (lookup (c.fold name) t.heartbeats) in
      (tt, record t { heartbeats = insert (c.fold name) row t.heartbeats })

  -- UpsertHeartbeat
  unfoldable pub upsert_heartbeat : Bytes → ℤ → Bytes → Action (Unit {0})
  upsert_heartbeat service_name latest version = heartbeat_args service_name latest >>= λ name.
      call (codes "upsert heartbeat " ++ name) (upsert_beat name latest (trim_space version))

  -- ListHeartbeats
  unfoldable pub list_heartbeats : Action (List HeartbeatRow)
  list_heartbeats =
      query (codes "query heartbeats") (λ t. rows t.heartbeats)
      >>= iterate (codes "iterate heartbeat rows")
      >>= λ rs. pure (sort_by (λ r. r.service_name) rs)
