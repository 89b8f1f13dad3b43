-- ===== src/Controller/Db/Schemas.antt =====
-- services/controller/internal/db/source_schemas.go: the documents that collectors announce.
use ice_hive.Prelude.{Bool, not, ◌||◌, List, [], ◌∷◌, Option, none, some, if◌then◌else◌}
use ice_hive.Prelude.Int.{ℤ, pos, leb_ℤ}
use ice_hive.Text.{Bytes, codes, is_nil, str_eq, trim_space}
use ice_hive.Dict.{lookup, insert}
use ice_hive.Controller.Db.{
  Collation, CollectorSourceSchemaRow, Tables, Action, raise, ◌>>=◌, call, query, iterate, rows,
}
use ice_hive.Controller.Db.Meta.{sort_by}

unfoldable pub select_schemas :
    (Bytes → Bool) → List CollectorSourceSchemaRow → List CollectorSourceSchemaRow
select_schemas p [] = []
select_schemas p (r ∷ rs) =
    let rest = select_schemas p rs in if p r.collector_type then r ∷ rest else rest

module _ (c : Collation) where
  replaced : CollectorSourceSchemaRow → Option CollectorSourceSchemaRow → CollectorSourceSchemaRow
  replaced r none = r
  replaced r (some old) = record old {
    schema_version = r.schema_version;
    body_json = r.body_json;
    updated_unix_ms = r.updated_unix_ms;
  }

  unfoldable pub upsert_schema : CollectorSourceSchemaRow → Tables → Unit {0} × Tables
  unfolding replaced
  upsert_schema r t =
      let key = c.fold r.collector_type in
      (tt, record t { schemas = insert key (replaced r (lookup key t.schemas)) t.schemas })

  -- UpsertCollectorSourceSchema; `valid` is json.Valid
  unfoldable pub upsert_collector_source_schema :
      (Bytes → Bool) → Bytes → Bytes → Bytes → ℤ → Action (Unit {0})
  upsert_collector_source_schema valid collector_type schema_version body now =
      let type = trim_space collector_type in
      let version = trim_space schema_version in
      if is_nil type
      then raise (codes "empty collector_type")
      else if is_nil version
      then raise (codes "empty schema_version")
      else if is_nil body
      then raise (codes "empty body_json")
      else if not (valid body)
      then raise (codes "body_json is not valid JSON")
      else if leb_ℤ now (pos 0)
      then raise (codes "invalid updated_unix_ms")
      else call (codes "upsert collector source schema") (
          upsert_schema (record {
            collector_type = type;
            schema_version = version;
            body_json = c.json_text body;
            updated_unix_ms = now;
          }))

  -- ListCollectorSourceSchemas
  unfoldable pub list_collector_source_schemas : Bytes → Action (List CollectorSourceSchemaRow)
  list_collector_source_schemas collector_type =
      let type = trim_space collector_type in
      let wanted = λ (x : Bytes). is_nil type || str_eq (c.fold x) (c.fold type) in
      query (codes "list collector source schemas")
        (λ t. sort_by (λ r. c.fold r.collector_type) (select_schemas wanted (rows t.schemas)))
      >>= iterate (codes "iterate collector source schemas")
