-- ===== src/Controller/Db/Migrations/Tests.antt =====
-- A database at version 1, and a directory with three migrations.
use ice_hive.Prelude.{Bool, ℕ, ◌≡◌, refl, false, List, [], ◌∷◌, some, ok}
use ice_hive.Text.{Bytes, codes, has_suffix, split_two, has_prefix, str_eq}
use ice_hive.Bootstrap.{read_number}
use ice_hive.Controller.Db.Migrations.{
  Library, changed, parse_uint32, version_of, versions_in, insert_version, sort_versions,
  available_up_versions, read_migration_version, read_final, apply_above, after_migrate,
  after_current, run_migrations,
}
use ice_hive.Controller.Db.Migrations.Order.{applied_in, Applies, run_migrations-Applies}

abbrev toy : Library
toy = record { World = ℕ; version = λ w. ok (some (w, false)); migrate = λ w n. (changed, n) }

abbrev directory : List (Bytes × Bool)
directory =
    (codes "0010_more.up.sql", false)
    ∷ (codes "0001_first.up.sql", false)
    ∷ (codes "0001_first.down.sql", false)
    ∷ (codes "0002_next.up.sql", false)
    ∷ []

at_one : read_migration_version toy 1 ≡ ok (1, false)
unfolding read_migration_version
at_one = refl

runs : (run_migrations toy 1 directory).result ≡ ok tt
unfolding run_migrations after_current apply_above after_migrate read_final read_migration_version
    available_up_versions versions_in version_of parse_uint32 insert_version sort_versions
    has_suffix has_prefix split_two read_number str_eq
runs = refl

two_applied : applied_in (run_migrations toy 1 directory).events ≡ 2 ∷ 10 ∷ []
unfolding run_migrations after_current apply_above after_migrate read_final read_migration_version
    available_up_versions versions_in version_of parse_uint32 insert_version sort_versions
    has_suffix has_prefix split_two read_number str_eq
two_applied = refl

run_migrations-Applies_example :
    Applies toy 1 1 (versions_in directory) (run_migrations toy 1 directory)
run_migrations-Applies_example = run_migrations-Applies toy 1 directory 1 false at_one runs
