-- ===== src/PersisterMysql/Table/Tests.antt =====
-- A database of one table that keeps its columns in a list, and the persister run on it.
use ice_hive.Prelude.{
  ◌≡◌, refl, ap, inr, Bool, true, false, List, [], ◌∷◌, ◌++◌, Option, none, arith, ok, ◌||◌,
}
use mathlib.Core.Path.{subst}
use ice_hive.Prelude.Int.{pos}
use ice_hive.Text.{
  Bytes, codes, str_eq, trim_space, to_lower, trim, trim_left, trim_right, is_space, lower,
}
use ice_hive.Text.Trim.{str_eq_refl}
use ice_hive.PersisterMysql.Names.{
  quoted_names, IsIdent, sink_table_name, quote_ident, entity_column_name, is_reserved,
  safe_column_name, keep_ident, is_ident,
}
use ice_hive.PersisterMysql.Sql.{
  Statement, Field, sql_type, create_table, add_column, upsert, has, names, metadata_columns,
  Database, Laws,
}
use ice_hive.PersisterMysql.Table.{
  Message, ensure_table, upsert_columns, read_columns, with_columns, add_recollect_spec, add_one,
  add_columns, fail_with, and_then,
}
use ice_hive.PersisterMysql.Table.Columns.{ensure_table-HasAll, HasAll, first_columns}

abbrev run : List Bytes → Statement → List Bytes × Option Bool
run cs (create_table t fs) = (metadata_columns ++ names fs, none)
run cs (add_column t c type) = (c ∷ cs, none)
run cs (upsert t us) = (cs, none)

abbrev toy : Database Bool
toy = record {
  World = List Bytes;
  Failure = Bool;
  table_columns = λ w t. ok w;
  exec = λ w sent vs. run w sent.statement;
}

toy_laws : Laws toy
unfolding has
toy_laws = record {
  cols = λ w t. w;
  read_lem = λ w t cs h. ground arith;
  create_lem = λ w t fs vs w' c e h k. ground (arith, h, k);
  add_lem = λ w t c type vs w' h.
      subst (λ v. has v c ≡ true) (ap (λ p. p.0) h) (ap (λ b. b || has w c) (str_eq_refl c));
  add_keeps =
      λ w t c type vs w' x h k. subst (λ v. has v x ≡ true) (ap (λ p. p.0) h) (ground (arith, k));
}

structure : List Field
structure =
    (codes "Title", codes "string")
    ∷ (codes "observed_unix_ms", codes "int64")
    ∷ (codes "created_at", codes "string")
    ∷ (codes "due-in", codes "int64")
    ∷ []

after : List Bytes
after = codes "due_in" ∷ codes "title" ∷ codes "recollect_spec" ∷ first_columns

ensures : ensure_table toy first_columns (codes "issues") structure ≡ (after, none)
unfolding structure after ensure_table read_columns with_columns add_recollect_spec add_one
    add_columns fail_with and_then has sql_type entity_column_name safe_column_name keep_ident
    is_ident trim_space to_lower trim trim_left trim_right str_eq is_space lower
ensures = refl

ensure_table-HasAll_example :
    HasAll toy toy_laws after (codes "issues") (upsert_columns toy structure)
unfolding toy_laws
ensure_table-HasAll_example =
    ensure_table-HasAll toy toy_laws first_columns after (codes "issues") structure (inr (λ c h. h))
      ensures

quoted_names_example :
    IsIdent (sink_table_name (codes "Pull`Request"))
    × (quote_ident (sink_table_name (codes "Pull`Request"))
        ≡ 96 ∷ (sink_table_name (codes "Pull`Request") ++ 96 ∷ []))
    × IsIdent (entity_column_name (codes "due-in"))
    × (quote_ident (entity_column_name (codes "due-in"))
        ≡ 96 ∷ (entity_column_name (codes "due-in") ++ 96 ∷ []))
    × (is_reserved (entity_column_name (codes "due-in")) ≡ false)
quoted_names_example = quoted_names (codes "Pull`Request") (codes "due-in")

message : Message Bool
message = record {
  structure = (codes "Title", codes "string") ∷ (codes "created_at", codes "string") ∷ [];
  values = (codes "Title", true) ∷ [];
  type = codes "Entity";
  schema_version = codes "v1";
  metadata = record {
    recollect_spec = none;
    hash_value = codes "ff";
    entity_type = codes "issue";
    source_system = codes "github";
    source_collector_type = codes "collector-github";
    source_unique_id = codes "a/b#1";
    observed_unix_ms = pos 7;
  };
}
