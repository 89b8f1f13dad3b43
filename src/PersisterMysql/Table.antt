-- ===== src/PersisterMysql/Table.antt =====
-- services/persister-mysql/main.go: mysqlPersister, over a database. The mutex makes ensureTable
-- one step. Structures are maps in the source: the lists here stand for any order of their entries.
pub mod Columns
mod Tests
use ice_hive.Prelude.{
  Bool, true, false, not, ◌&&◌, ◌||◌, List, [], ◌∷◌, ◌++◌, Option, none, some, map, if◌then◌else◌,
  Result, ok, err,
}
use ice_hive.Prelude.Int.{ℤ}
use ice_hive.Text.{Bytes, codes, str_eq, is_nil}
use ice_hive.Dict.{Dict, lookup}
use ice_hive.PersisterMysql.Names.{sink_table_name, entity_column_name}
use ice_hive.PersisterMysql.Sql.{
  Field, Statement, create_table, add_column, upsert, send, has, sql_type, field_columns, names,
  metadata_columns, SqlValue, text, int, null, json, Database,
}

pub record Metadata : Type 0 where
  pub recollect_spec : Option Bytes
  pub hash_value : Bytes
  pub entity_type : Bytes
  pub source_system : Bytes
  pub source_collector_type : Bytes
  pub source_unique_id : Bytes
  pub observed_unix_ms : ℤ

pub record Message (V : Type 0) : Type 0 where
  pub structure : List Field
  pub values : Dict V
  pub type : Bytes
  pub schema_version : Bytes
  pub metadata : Metadata

module _ {V : Type 0} (d : Database V) where
  open d use {World, Failure}

  pub data Error : Type 0 where
    unsupported_envelope empty_entity_type : Error
    query_failed create_failed alter_failed upsert_failed : Failure → Error

  abbrev pub Outcome : Type 0
  Outcome = World × Option Error

  fail_with : (Failure → Error) → World × Option Failure → Outcome
  fail_with f (w, none) = (w, none)
  fail_with f (w, some e) = (w, some (f e))

  unfoldable pub create_table_for : World → Bytes → List Field → Outcome
  unfolding fail_with
  create_table_for w table structure =
      fail_with create_failed (d.exec w (send (create_table table (field_columns structure))) [])

  -- Goes on where the statement succeeded.
  and_then : Outcome → (World → Outcome) → Outcome
  and_then (w, none) k = k w
  and_then (w, some e) k = (w, some e)

  add_one : World → Bytes → Bytes → Bytes → Outcome
  unfolding fail_with
  add_one w table col type = fail_with alter_failed (d.exec w (send (add_column table col type)) [])

  -- The loop over the structure. The set of columns is not added to on the way.
  unfoldable pub add_columns : Bytes → List Bytes → List Field → World → Outcome
  unfolding add_one and_then
  add_columns table existing [] w = (w, none)
  add_columns table existing ((field, type) ∷ fs) w =
      let col = entity_column_name field in
      let skip = add_columns table existing fs w in
      let alter = and_then (add_one w table col (sql_type type)) (add_columns table existing fs) in
      if is_nil col || has existing col then skip else alter

  unfoldable pub add_recollect_spec : World → Bytes → List Bytes → Outcome
  unfolding add_one
  add_recollect_spec w table existing =
      if has existing (codes "recollect_spec")
      then (w, none)
      else add_one w table (codes "recollect_spec") (codes "TEXT")

  with_columns : World → Bytes → List Field → List Bytes → Outcome
  unfolding and_then
  with_columns w table structure [] = create_table_for w table structure
  with_columns w table structure (c ∷ cs) =
      and_then (add_recollect_spec w table (c ∷ cs))
        (add_columns table (codes "recollect_spec" ∷ c ∷ cs) structure)

  read_columns : World → Bytes → List Field → Result Failure (List Bytes) → Outcome
  unfolding with_columns
  read_columns w table structure (err e) = (w, some (query_failed e))
  read_columns w table structure (ok existing) = with_columns w table structure existing

  unfoldable pub ensure_table : World → Bytes → List Field → Outcome
  unfolding read_columns
  ensure_table w table structure = read_columns w table structure (d.table_columns w table)

  -- The columns and the values that upsertEntity collects.
  unfoldable pub upsert_columns : List Field → List Bytes
  upsert_columns structure = metadata_columns ++ names (field_columns structure)

  value_or_null : Option V → SqlValue V
  value_or_null none = null
  value_or_null (some v) = json v

  unfoldable pub field_values : List Field → Dict V → List (SqlValue V)
  unfolding value_or_null
  field_values [] values = []
  field_values ((field, type) ∷ fs) values =
      let rest = field_values fs values in
      if is_nil (entity_column_name field) then rest else value_or_null (lookup field values) ∷ rest

  recollect_value : Option Bytes → SqlValue V
  recollect_value none = null
  recollect_value (some s) = text s

  unfoldable pub upsert_values : Message V → List (SqlValue V)
  unfolding recollect_value
  upsert_values m =
      (text m.metadata.hash_value
        ∷ text m.metadata.source_unique_id
        ∷ text m.metadata.source_collector_type
        ∷ text m.metadata.source_system
        ∷ int m.metadata.observed_unix_ms
        ∷ recollect_value m.metadata.recollect_spec
        ∷ [])
      ++ field_values m.structure m.values

  unfoldable pub upsert_entity : World → Bytes → Message V → Outcome
  unfolding fail_with
  upsert_entity w table m =
      fail_with upsert_failed
        (d.exec w (send (upsert table (upsert_columns m.structure))) (upsert_values m))

  unfoldable pub persist_entity : World → Message V → Outcome
  unfolding and_then
  persist_entity w m =
      let table = sink_table_name m.metadata.entity_type in
      if not (str_eq m.type (codes "Entity")) || not (str_eq m.schema_version (codes "v1"))
      then (w, some unsupported_envelope)
      else if is_nil table
      then (w, some empty_entity_type)
      else and_then (ensure_table w table m.structure) (λ w'. upsert_entity w' table m)
