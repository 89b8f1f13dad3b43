-- ===== src/Controller/Db/Migrations.antt =====
-- services/controller/internal/db/migrate.go: which migrations are applied, and in which order. The
-- library golang-migrate is an interface, and so is the directory's list of files.
pub mod Order
mod Tests
use ice_hive.Prelude.{
  ℕ, ◌^◌, Bool, true, false, not, ◌&&◌, List, [], ◌∷◌, ◌++◌, Option, none, some, ltb, leb,
  if◌then◌else◌, Result, ok, err,
}
use ice_hive.Text.{Bytes, codes, is_nil, has_suffix, split_two}
use ice_hive.Bootstrap.{read_number}

-- What m.Migrate returns; ErrNoChange is not an error for the caller.
pub data Migrated : Type 0 where
  changed no_change : Migrated
  failed : Bytes → Migrated

-- migrate.Migrate: the version and whether it is dirty, `none` for ErrNilVersion
pub record Library : Type 1 where
  pub World : Type 0
  pub version : World → Result Bytes (Option (ℕ × Bool))
  pub migrate : World → ℕ → Migrated × World

-- The calls of a MigrationReporter
pub data Event : Type 0 where
  current_version was_final : ℕ → Bool → Event
  applied : ℕ → Event

-- strconv.ParseUint(s, 10, 32)
unfoldable pub parse_uint32 : Bytes → Option ℕ
parse_uint32 s = small (if is_nil s then none else read_number (some 0) s)
  where
    small : Option ℕ → Option ℕ
    small none = none
    small (some n) = if ltb n (2 ^ 32) then some n else none

abbrev pub first_half : Option (Bytes × Bytes) → Option ℕ
first_half none = none
first_half (some (p, q)) = parse_uint32 p

-- The version in a file's name, if it is one of a migration
unfoldable pub version_of : Bytes → Bool → Option ℕ
version_of name is_dir =
    if is_dir
    then none
    else if not (has_suffix name (codes ".up.sql"))
    then none
    else first_half (split_two name b'_')

abbrev pub cons_some : Option ℕ → List ℕ → List ℕ
cons_some none ns = ns
cons_some (some n) ns = n ∷ ns

unfoldable pub insert_version : ℕ → List ℕ → List ℕ
insert_version n [] = n ∷ []
insert_version n (m ∷ ms) =
    let rest = insert_version n ms in if leb n m then n ∷ m ∷ ms else m ∷ rest

unfoldable pub sort_versions : List ℕ → List ℕ
sort_versions [] = []
sort_versions (n ∷ ns) = insert_version n (sort_versions ns)

-- The loop over the directory's entries
unfoldable pub versions_in : List (Bytes × Bool) → List ℕ
versions_in [] = []
versions_in ((name, is_dir) ∷ es) = cons_some (version_of name is_dir) (versions_in es)

-- availableUpVersions, on the entries that os.ReadDir returns
unfoldable pub available_up_versions : List (Bytes × Bool) → List ℕ
available_up_versions es = sort_versions (versions_in es)

module _ (m : Library) where
  open m use {World}

  nil_version : Result Bytes (Option (ℕ × Bool)) → Result Bytes (ℕ × Bool)
  nil_version (err e) = err e
  nil_version (ok none) = ok (0, false)
  nil_version (ok (some v)) = ok v

  -- readMigrationVersion
  unfoldable pub read_migration_version : World → Result Bytes (ℕ × Bool)
  unfolding nil_version
  read_migration_version w = nil_version (m.version w)

  pub record Run : Type 0 where
    pub result : Result Bytes (Unit {0})
    pub world : World
    pub events : List Event

  abbrev pub noting : Event → Run → Run
  noting e r = record r { events = e ∷ r.events }

  unfoldable pub read_final : World → Result Bytes (ℕ × Bool) → Run
  read_final w (err e) = record {
    result = err (codes "read final migration version: " ++ e);
    world = w;
    events = [];
  }
  read_final w (ok (v, dirty)) = record {
    result = ok tt;
    world = w;
    events = was_final v dirty ∷ [];
  }

  -- What comes of m.Migrate, with what the rest of the loop would do
  unfoldable pub after_migrate : ℕ → Migrated → World → Run → Run
  after_migrate target changed w rest = noting (applied target) rest
  after_migrate target no_change w rest = noting (applied target) rest
  after_migrate target (failed e) w rest = record {
    result = err (codes "migrate to version: " ++ e);
    world = w;
    events = [];
  }

  -- The loop over the known versions, and what follows it
  unfoldable pub apply_above : World → ℕ → List ℕ → Run
  unfolding read_final
  apply_above w current [] = read_final w (read_migration_version w)
  apply_above w current (target ∷ ts) =
      let skipped = apply_above w current ts in
      let (x, w') = m.migrate w target in
      let rest = apply_above w' target ts in
      if leb target current then skipped else after_migrate target x w' rest

  unfoldable pub after_current : World → List (Bytes × Bool) → Result Bytes (ℕ × Bool) → Run
  after_current w entries (err e) = record {
    result = err (codes "read current migration version: " ++ e);
    world = w;
    events = [];
  }
  after_current w entries (ok (current, dirty)) =
      noting (current_version current dirty) (apply_above w current (available_up_versions entries))

  -- RunMigrations, on a library that is opened and a directory that can be read
  unfoldable pub run_migrations : World → List (Bytes × Bool) → Run
  unfolding after_current
  run_migrations w entries = after_current w entries (read_migration_version w)
