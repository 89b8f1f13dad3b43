-- ===== src/Github/Packages/Repo.antt =====
-- services/collector-github/packages.go with repoOwnerLogin of dependabot.go: the packages of a
-- repository, taken from those of its namespace, which are listed once.
pub mod Capped
use ice_hive.Prelude.{
  ℕ, Bool, true, false, not, ◌||◌, List, [], ◌∷◌, ◌++◌, Option, none, some, ltb, leb, ◌==◌,
  if◌then◌else◌, Result, ok, err, length, take,
}
use ice_hive.Text.{Bytes, codes, is_nil, trim_space, split_two}
use ice_hive.Dict.{Dict, lookup, insert}
use ice_hive.Github.IssueCache.{Time}
use ice_hive.Github.Packages.{
  Api, GhPackageOwner, GhRepoPackage, GhPackageVersion, RepoPackageSummary, PackagesSnapshot,
  NamespacePackagesEntry, Repository, max_packages_fetch, max_packages_in_entity,
  namespace_cache_key, namespace_path, package_belongs_to_repo, repo_owner_type,
  latest_package_version, package_owner_login_and_type, Loaded, load_namespace_packages,
}

before_slash : Option (Bytes × Bytes) → Bytes
before_slash none = []
before_slash (some (owner, name)) = owner

login_of : Option GhPackageOwner → Bytes
login_of none = []
login_of (some o) = o.login

unfoldable pub repo_owner_login : Option Repository → Bytes
unfolding before_slash login_of
repo_owner_login none = []
repo_owner_login (some repo) =
    let login = login_of repo.owner in
    if is_nil login then before_slash (split_two repo.full_name b'/') else login

-- The login and the type of the owner, or the text of an error
unfoldable pub namespace_identity : Option Repository → Result Bytes (Bytes × Bytes)
namespace_identity none = err (codes "nil repository")
namespace_identity (some repo) =
    let login = repo_owner_login (some repo) in
    if is_nil login
    then err (codes "repository has no owner login")
    else ok (login, repo_owner_type (some repo))

abbrev pub Cache : Type 0
Cache = Dict NamespacePackagesEntry

unfoldable pub newer_summary : Bool → Time → Time → Bool
newer_summary found at best_at = not found || ltb best_at at

unfoldable pub packages_for_entity : List RepoPackageSummary → Bool → List RepoPackageSummary × Bool
packages_for_entity list fetch_capped =
    if leb (length list) max_packages_in_entity
    then (list, fetch_capped)
    else (take max_packages_in_entity list, true)

abbrev pub full_name_of : Option Repository → Bytes
full_name_of none = []
full_name_of (some repo) = repo.full_name

module _ (api : Api) where
  open api use {Failure}

  -- packageVersionsPath
  unfoldable pub package_versions_path : Bytes → Bytes → Bytes → Bytes → Bytes
  package_versions_path owner_login owner_type package_type package_name =
      namespace_path owner_login owner_type
      ++ (b'/'
          ∷ (trim_space package_type
              ++ (b'/' ∷ (api.path_escape (trim_space package_name) ++ codes "/versions"))))

  entry_of : Result Failure (List GhRepoPackage) → NamespacePackagesEntry
  entry_of (err e) = record { err = api.message e; packages = [] }
  entry_of (ok pkgs) = record { err = []; packages = pkgs }

  loaded_entry : Bytes → Cache → Loaded api → Option (NamespacePackagesEntry × Cache)
  unfolding entry_of
  loaded_entry key cache none = none
  loaded_entry key cache (some r) = some (entry_of r, insert key (entry_of r) cache)

  cached_entry :
      ℕ
      → Bytes
      → Bytes
      → Cache
      → Option NamespacePackagesEntry
      → Option (NamespacePackagesEntry × Cache)
  unfolding loaded_entry
  cached_entry fuel login type cache (some ent) = some (ent, cache)
  cached_entry fuel login type cache none =
      loaded_entry (namespace_cache_key login type) cache
        (load_namespace_packages api fuel login type)

  entry_for : ℕ → Cache → Result Bytes (Bytes × Bytes) → Option (NamespacePackagesEntry × Cache)
  unfolding cached_entry
  entry_for fuel cache (err e) = some (record { err = e; packages = [] }, cache)
  entry_for fuel cache (ok (login, type)) =
      cached_entry fuel login type cache (lookup (namespace_cache_key login type) cache)

  -- namespacePackagesFromCache, on fuel for a listing
  unfoldable pub namespace_packages_from_cache :
      ℕ → Option Repository → Cache → Option (NamespacePackagesEntry × Cache)
  unfolding entry_for
  namespace_packages_from_cache fuel repo cache = entry_for fuel cache (namespace_identity repo)

  unfoldable pub version_text : Time → Bytes
  version_text at = if at == 0 then [] else api.format at

  unfoldable pub summary_of : GhRepoPackage → List GhPackageVersion → RepoPackageSummary
  summary_of pkg versions =
      let (name, at) = latest_package_version versions in
      record {
        package_type = trim_space pkg.package_type;
        name = trim_space pkg.name;
        latest_version = name;
        html_url = trim_space pkg.html_url;
        version_updated_at = version_text at;
      }

  after_versions :
      (RepoPackageSummary → PackagesSnapshot)
      → GhRepoPackage
      → Result Failure (List GhPackageVersion)
      → PackagesSnapshot
  after_versions k pkg (err e) = record { err = api.message e; packages = []; fetch_capped = false }
  after_versions k pkg (ok versions) = k (summary_of pkg versions)

  -- The loop of summarizePackagesForRepo
  unfoldable pub summarize_from :
      Bytes → Bytes → Bytes → List RepoPackageSummary → List GhRepoPackage → PackagesSnapshot
  unfolding after_versions
  summarize_from full login type summaries [] = record {
    err = [];
    packages = summaries;
    fetch_capped = false;
  }
  summarize_from full login type summaries (pkg ∷ pkgs) =
      let skip = summarize_from full login type summaries pkgs in
      let (owner_login, owner_type) = package_owner_login_and_type pkg login type in
      let path =
        package_versions_path owner_login owner_type (trim_space pkg.package_type)
          (trim_space pkg.name) in
      let listed =
        after_versions (λ s. summarize_from full login type (summaries ++ (s ∷ [])) pkgs) pkg
          (api.list_versions path) in
      if not (package_belongs_to_repo pkg full)
      then skip
      else if leb max_packages_fetch (length summaries)
      then record { err = []; packages = summaries; fetch_capped = true }
      else if is_nil (trim_space pkg.name) || is_nil (trim_space pkg.package_type)
      then skip
      else listed

  unfoldable pub summarize_packages_for_repo :
      Option Repository → List GhRepoPackage → Bytes → Bytes → PackagesSnapshot
  summarize_packages_for_repo repo namespace_pkgs login type =
      summarize_from (trim_space (full_name_of repo)) login type [] namespace_pkgs

  snapshot_from : Option Repository → NamespacePackagesEntry → PackagesSnapshot
  snapshot_from repo ent =
      if not (is_nil ent.err)
      then record { err = ent.err; packages = []; fetch_capped = false }
      else summarize_packages_for_repo repo ent.packages (repo_owner_login repo)
          (repo_owner_type repo)

  fetched :
      Option Repository
      → Option (NamespacePackagesEntry × Cache)
      → Option (PackagesSnapshot × Cache)
  unfolding snapshot_from
  fetched repo none = none
  fetched repo (some (ent, cache)) = some (snapshot_from repo ent, cache)

  unfoldable pub fetch_packages_for_repo :
      ℕ → Option Repository → Cache → Option (PackagesSnapshot × Cache)
  unfolding fetched
  fetch_packages_for_repo fuel repo cache =
      fetched repo (namespace_packages_from_cache fuel repo cache)

  time_or_zero : Option Time → Time
  time_or_zero none = 0
  time_or_zero (some t) = t

  -- The loop of newestPackageSummary; `best` and its time, if one was found
  unfoldable pub newest_from :
      Option (RepoPackageSummary × Time)
      → List RepoPackageSummary
      → Option (RepoPackageSummary × Time)
  unfolding time_or_zero
  newest_from best [] = best
  newest_from best (p ∷ list) =
      let at = time_or_zero (api.parse p.version_updated_at) in
      newest_from
        (if is_nil (trim_space p.latest_version)
          then best
          else if newer_than at best
          then some (p, at)
          else best)
        list
    where
      newer_than : Time → Option (RepoPackageSummary × Time) → Bool
      newer_than at none = newer_summary false at 0
      newer_than at (some (q, best_at)) = newer_summary true at best_at

  -- newestPackageSummary
  unfoldable pub newest_package_summary :
      List RepoPackageSummary → Option (RepoPackageSummary × Time)
  newest_package_summary list = newest_from none list
