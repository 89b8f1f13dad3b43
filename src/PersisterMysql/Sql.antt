-- ===== src/PersisterMysql/Sql.antt =====
-- The statements of services/persister-mysql/main.go, the text that each is sent as, and the
-- database, which is an interface.
use ice_hive.Prelude.{
  ◌≡◌, Bool, true, false, ◌||◌, List, [], ◌∷◌, ◌++◌, Option, none, map, if◌then◌else◌, Result, ok,
}
use ice_hive.Prelude.Int.{ℤ}
use ice_hive.Text.{Bytes, codes, str_eq, is_nil}
use ice_hive.PersisterMysql.Names.{quote_ident, entity_column_name}

-- A field of an entity's structure: its name and the type it is declared with.
abbrev pub Field : Type 0
Field = Bytes × Bytes

unfoldable pub sql_type : Bytes → Bytes
sql_type t =
    if str_eq t (codes "int64")
    then codes "BIGINT"
    else if str_eq t (codes "float64")
    then codes "DOUBLE"
    else if str_eq t (codes "bool")
    then codes "BOOLEAN"
    else codes "TEXT"

-- strings.Join(parts, ",")
unfoldable pub join_comma : List Bytes → Bytes
join_comma [] = []
join_comma (p ∷ []) = p
join_comma (p ∷ q ∷ ps) = p ++ b',' ∷ join_comma (q ∷ ps)

-- The loop over the structure that collects the columns, with their types.
unfoldable pub field_columns : List Field → List Field
field_columns [] = []
field_columns ((field, type) ∷ fs) =
    let col = entity_column_name field in
    let rest = field_columns fs in if is_nil col then rest else (col, type) ∷ rest

-- The columns that createTable declares before and behind those of the structure.
abbrev pub metadata_columns : List Bytes
metadata_columns =
    codes "source_hash_value"
    ∷ codes "source_unique_id"
    ∷ codes "source_collector_type"
    ∷ codes "source_system"
    ∷ codes "observed_unix_ms"
    ∷ codes "recollect_spec"
    ∷ []

abbrev pub names : List Field → List Bytes
names [] = []
names ((c, t) ∷ fs) = c ∷ names fs

pub data Statement : Type 0 where
  create_table : Bytes → List Field → Statement
  add_column : Bytes → Bytes → Bytes → Statement
  upsert : Bytes → List Bytes → Statement

declared : Field → Bytes
declared (c, t) = quote_ident c ++ (codes " " ++ (sql_type t ++ codes " NULL"))

create_text : Bytes → List Field → Bytes
unfolding declared
create_text table fs =
    let cols =
      (codes "`source_hash_value` CHAR(64) NOT NULL"
        ∷ codes "`source_unique_id` TEXT NOT NULL"
        ∷ codes "`source_collector_type` VARCHAR(255) NOT NULL"
        ∷ codes "`source_system` VARCHAR(255) NOT NULL"
        ∷ codes "`observed_unix_ms` BIGINT NOT NULL"
        ∷ codes "`recollect_spec` TEXT NULL"
        ∷ [])
      ++ (map declared fs
          ++ (codes "`created_at` TIMESTAMP NOT NULL DEFAULT CURRENT_TIMESTAMP"
              ∷ codes
                  "`updated_at` TIMESTAMP NOT NULL DEFAULT CURRENT_TIMESTAMP ON UPDATE CURRENT_TIMESTAMP"
              ∷ codes "UNIQUE KEY `uq_source_hash_value` (`source_hash_value`)"
              ∷ [])) in
    codes "CREATE TABLE IF NOT EXISTS "
    ++ (quote_ident table ++ (codes " (" ++ (join_comma cols ++ codes ")")))

-- The assignments of the update part: every column but the key.
unfoldable pub updates : List Bytes → List Bytes
updates [] = []
updates (c ∷ cs) =
    let rest = updates cs in
    if str_eq c (codes "source_hash_value")
    then rest
    else (quote_ident c ++ (codes "=VALUES(" ++ (quote_ident c ++ codes ")"))) ∷ rest

placeholders : List Bytes → List Bytes
placeholders cs = map (λ c. codes "?") cs

upsert_text : Bytes → List Bytes → Bytes
unfolding placeholders updates
upsert_text table cs =
    codes "INSERT INTO "
    ++ (quote_ident table
        ++ (codes " ("
            ++ (join_comma (map quote_ident cs)
                ++ (codes ") VALUES ("
                    ++ (join_comma (placeholders cs)
                        ++ (codes ") ON DUPLICATE KEY UPDATE " ++ join_comma (updates cs)))))))

-- The text that goes to the database. (The column recollect_spec is added as TEXT.)
unfoldable pub render : Statement → Bytes
unfolding create_text upsert_text
render (create_table table fs) = create_text table fs
render (add_column table c type) =
    codes "ALTER TABLE "
    ++ (quote_ident table
        ++ (codes " ADD COLUMN " ++ (quote_ident c ++ (codes " " ++ (type ++ codes " NULL")))))
render (upsert table cs) = upsert_text table cs

-- A parameter of a statement. `V` is what a decoded JSON value is.
pub data SqlValue (V : Type 0) : Type 0 where
  text : Bytes → SqlValue V
  int : ℤ → SqlValue V
  null : SqlValue V
  json : V → SqlValue V

-- A statement and the text that is sent for it.
pub record Sent : Type 0 where
  pub statement : Statement
  pub sql : Bytes

abbrev pub send : Statement → Sent
send st = record { statement = st; sql = render st }

-- The column stands in the list.
unfoldable pub has : List Bytes → Bytes → Bool
has [] c = false
has (d ∷ ds) c = str_eq d c || has ds c

-- database/sql with the MySQL driver.
pub record Database (V : Type 0) : Type 1 where
  pub World : Type 0
  pub Failure : Type 0
  -- the column names of information_schema for a table, in the current schema
  pub table_columns : World → Bytes → Result Failure (List Bytes)
  pub exec : World → Sent → List (SqlValue V) → World × Option Failure

-- What the persister relies on: the schema is read as it is, and a statement that succeeds has made
-- the columns that it names and taken none away.
pub record Laws {V : Type 0} (d : Database V) : Type 0 where
  pub cols : d.World → Bytes → List Bytes
  pub read_lem :
      (w : d.World) (t : Bytes) (cs : List Bytes) → d.table_columns w t ≡ ok cs → cs ≡ cols w t
  pub create_lem :
      (w : d.World) (t : Bytes) (fs : List Field) (vs : List (SqlValue V)) (w' : d.World)
      (c : Bytes)
      → cols w t ≡ []
      → d.exec w (send (create_table t fs)) vs ≡ (w', none)
      → has (metadata_columns ++ names fs) c ≡ true
      → has (cols w' t) c ≡ true
  pub add_lem :
      (w : d.World) (t c type : Bytes) (vs : List (SqlValue V)) (w' : d.World)
      → d.exec w (send (add_column t c type)) vs ≡ (w', none)
      → has (cols w' t) c ≡ true
  pub add_keeps :
      (w : d.World) (t c type : Bytes) (vs : List (SqlValue V)) (w' : d.World) (x : Bytes)
      → d.exec w (send (add_column t c type)) vs ≡ (w', none)
      → has (cols w t) x ≡ true
      → has (cols w' t) x ≡ true
