-- ===== src/Controller/Server.antt =====
-- services/controller/main.go: the controller's state and what its handlers share. A request sees
-- one time, and logging is left out.
pub mod Config
pub mod Sources
pub mod Messages
pub mod Steps
pub mod Opening
mod Tests
use ice_hive.Prelude.{
  ℕ, ◌+◌, ◌-◌, ◌%◌, ◌^◌, Bool, true, false, not, List, [], ◌∷◌, ◌++◌, Option, none, some, ltb,
  if◌then◌else◌, Result, ok, err,
}
use ice_hive.Prelude.Int.{ℤ, pos, negsuc, quot}
use ice_hive.Text.{Bytes, codes, contains}
use ice_hive.Dict.{Dict}
use ice_hive.Amqp.Broker.{Broker}
use ice_hive.Amqp.Client.{Client, Error}
use ice_hive.Controller.Activity.{Ring}
use ice_hive.Controller.Db.{Collation, Db, Action, later, next_fault}
use ice_hive.Controller.Db.Meta.{UrlText}
use ice_hive.Controller.Health.{Clockwork, Koanf, entity_freshness_by_collector}

-- connect.Code
pub data Code : Type 0 where
  unavailable failed_precondition invalid_argument not_found internal : Code

-- icehive.v1.CollectionSource
pub record CollectionSource : Type 0 where
  pub id : Bytes
  pub collector_type : Bytes
  pub source_spec : Bytes
  pub cron_line : Bytes
  pub enabled : Bool
  pub created_unix_ms : ℤ
  pub updated_unix_ms : ℤ
  pub last_run_unix_ms : ℤ
  pub last_success_unix_ms : ℤ
  pub last_error : Bytes
  pub next_due_unix_ms : ℤ
  pub seconds_since_last_success : ℤ
  pub is_stale : Bool
  pub entity_freshness_age_seconds : ℤ

-- What the controller uses of other code.
pub record Environment : Type 1 where
  pub broker : Broker
  pub clockwork : Clockwork
  pub collation : Collation
  pub urls : UrlText
  -- protojson.Marshal of a CollectionRequest with this source
  pub marshal : CollectionSource → Result Bytes Bytes
  -- the text of the error of the cron library's parser, if it has one
  pub cron_error : Bytes → Option Bytes
  -- json.Valid, and json.Unmarshal into the header of a document: kind, schema version, type
  pub valid : Bytes → Bool
  pub header : Bytes → Option (Bytes × Bytes × Bytes)

-- int32(n)
unfoldable pub int32 : ℤ → ℤ
int32 (pos n) = let m = n % 2 ^ 32 in if ltb m (2 ^ 31) then pos m else negsuc (2 ^ 32 - m - 1)
int32 (negsuc n) = let m = n % 2 ^ 32 in if ltb m (2 ^ 31) then negsuc m else pos (2 ^ 32 - m - 1)

module _ (env : Environment) where
  -- The error that a connect.Error wraps.
  pub data Cause : Type 0 where
    text : Bytes → Cause
    client : Error env.broker → Cause

  pub record ConnectError : Type 0 where
    pub code : Code
    pub cause : Cause

  -- controllerSrv, with its database and its broker. `now` is in nanoseconds; `probe` is the age
  -- that the refresher reads from the sink, if there is a refresher and it reads one.
  pub record Server : Type 0 where
    pub db : Db
    pub has_db : Bool
    pub k : Option Koanf
    pub amqp_client : Option (Client env.broker)
    pub world : env.broker.World
    pub probe : Option env.clockwork.Float
    pub activity : Ring
    pub startup_warnings : List Bytes
    pub now : ℤ

  abbrev pub Handler {ℓ} : Type ℓ → Type ℓ
  Handler A = Server → Result ConnectError A × Server

  abbrev pub answer {ℓ} : {A : Type ℓ} → A → Handler A
  answer a s = (ok a, s)

  abbrev pub refuse {ℓ} : {A : Type ℓ} → Code → Bytes → Handler A
  refuse code e s = (err (record { code = code; cause = text e }), s)

  infixl 5 ◌>>=◌
  abbrev pub ◌>>=◌ {ℓ κ} : {A : Type ℓ} {B : Type κ} → Handler A → (A → Handler B) → Handler B
  ◌>>=◌ m f s = let (r, s') = m s in elim r [ ok a ↦ f a s' | err e ↦ (err e, s') ]

  unfoldable pub now_ms : Server → ℤ
  now_ms s = quot 1000000 s.now

  -- metaDB
  unfoldable pub meta_db : Handler (Unit {0})
  meta_db s =
      if s.has_db
      then answer tt s
      else refuse unavailable
          (codes
            "metadata database not connected yet; configure mysql in config.yaml and ensure the database is reachable")
          s

  unfoldable pub db_answer {ℓ} :
      {A : Type ℓ} → (Bytes → Code) → Server → Result Bytes A × Db → Result ConnectError A × Server
  db_answer code s (ok a, d) = answer a (record s { db = d })
  db_answer code s (err e, d) = refuse (code e) e (record s { db = d })

  -- A function of the package db, whose error is returned with a code.
  unfoldable pub on_db {ℓ} : {A : Type ℓ} → (Bytes → Code) → Action A → Handler A
  unfolding db_answer
  on_db code m s = db_answer code s (m s.db)

  -- collectorFreshness
  unfoldable pub collector_freshness : Server → Dict ℤ
  collector_freshness s = entity_freshness_by_collector env.clockwork s.probe

-- mapCollectionSourceErr
unfoldable pub source_code : Bytes → Code
source_code e = if contains e (codes "not found") then not_found else internal

abbrev pub always : Code → Bytes → Code
always code e = code
