-- ===== src/Controller/Db.antt =====
-- services/controller/internal/db: the controller's database. The tables are those that
-- services/controller/migrations makes; a statement of the sources is written as what it does to
-- them. A `*sql.DB` that is nil is not modelled: its callers test for it.
pub mod Inversion
pub mod Meta
pub mod Sources
pub mod Schemas
pub mod Migrations
mod Tests
use ice_hive.Prelude.{
  ℕ, Bool, true, false, ◌&&◌, List, [], ◌∷◌, ◌++◌, Option, none, some, ◌==◌, Result, ok, err,
  if◌then◌else◌,
}
use ice_hive.Prelude.Int.{ℤ}
use ice_hive.Text.{Bytes, codes}
use ice_hive.Dict.{Dict}

-- How the server compares texts, and what it keeps of JSON. Two keys are one when `fold` makes one text of them; `starts` is
-- LIKE with a pattern of a text and a last `%`, the pattern's text last.
pub record Collation : Type 0 where
  pub fold : Bytes → Bytes
  pub starts : Bytes → Bytes → Bool
  -- the text that a column of type JSON gives back for a document
  pub json_text : Bytes → Bytes

-- icehive_meta
pub record MetaRow : Type 0 where
  pub k : Bytes
  pub v : Bytes

-- icehive_heartbeats
pub record HeartbeatRow : Type 0 where
  pub service_name : Bytes
  pub version : Bytes
  pub latest_heartbeat_unix_ms : ℤ

-- icehive_collector_source_schemas
pub record CollectorSourceSchemaRow : Type 0 where
  pub collector_type : Bytes
  pub schema_version : Bytes
  pub body_json : Bytes
  pub updated_unix_ms : ℤ

-- icehive_collection_sources; `none` is NULL, the times of the server are in milliseconds
pub record CollectionSourceRow : Type 0 where
  pub id : Bytes
  pub collector_type : Bytes
  pub source_spec : Bytes
  pub cron_line : Bytes
  pub enabled : Bool
  pub last_run_unix_ms : Option ℤ
  pub last_success_unix_ms : Option ℤ
  pub last_error : Option Bytes
  pub next_due_unix_ms : Option ℤ
  pub created_at : ℤ
  pub updated_at : ℤ

-- Each table by its primary key, folded.
pub record Tables : Type 0 where
  pub meta : Dict MetaRow
  pub heartbeats : Dict HeartbeatRow
  pub sources : Dict CollectionSourceRow
  pub schemas : Dict CollectorSourceSchemaRow

-- A call of the driver that returns an error: the error's text, and whether the server has run the
-- statement all the same, as where its answer was lost or the context ended behind it.
pub record Fault : Type 0 where
  pub message : Bytes
  pub has_run : Bool

-- The database, its clock, and for the calls to come the fault, if one fails; behind the end of the
-- list calls succeed.
pub record Db : Type 0 where
  pub tables : Tables
  pub clock : ℤ
  pub faults : List (Option Fault)

-- A Go function on the database. An error is its text.
abbrev pub Action {ℓ} : Type ℓ → Type ℓ
Action A = Db → Result Bytes A × Db

module _ {ℓ} {A : Type ℓ} where
  abbrev pub pure : A → Action A
  pure a d = (ok a, d)

  abbrev pub raise : Bytes → Action A
  raise e d = (err e, d)

infixl 5 ◌>>=◌
abbrev pub ◌>>=◌ {ℓ κ} : {A : Type ℓ} {B : Type κ} → Action A → (A → Action B) → Action B
◌>>=◌ m f d = let (r, d') = m d in elim r [ ok a ↦ f a d' | err e ↦ raise e d' ]

unfoldable pub next_fault : List (Option Fault) → Option Fault
next_fault [] = none
next_fault (f ∷ fs) = f

unfoldable pub later : List (Option Fault) → List (Option Fault)
later [] = []
later (f ∷ fs) = fs

-- One call of the driver, whose error is wrapped with a label.
abbrev pub answer {ℓ} : {A : Type ℓ} → Bytes → A × Tables → Db → Option Fault → Result Bytes A × Db
answer label (a, t) d none = (ok a, record d { tables = t; faults = later d.faults })
answer label (a, t) d (some e) = (
  err (label ++ (codes ": " ++ e.message)),
  record d { tables = if e.has_run then t else d.tables; faults = later d.faults },
)

abbrev pub call {ℓ} : {A : Type ℓ} → Bytes → (Tables → A × Tables) → Action A
call label f d = answer label (f d.tables) d (next_fault d.faults)

-- A query changes no table.
abbrev pub query {ℓ} : {A : Type ℓ} → Bytes → (Tables → A) → Action A
query label f = call label (λ t. (f t, t))

-- Reading the rows of a result to their end can fail too.
abbrev pub iterate {ℓ} : {A : Type ℓ} → Bytes → A → Action A
iterate label a = query label (λ t. a)

-- The rows of a table.
abbrev pub rows {ℓ} : {V : Type ℓ} → Dict V → List V
rows [] = []
rows ((k, v) ∷ t) = v ∷ rows t
