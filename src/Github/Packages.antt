-- ===== src/Github/Packages.antt =====
-- services/collector-github/packages.go: the packages of a namespace, page by page, and those of a
-- repository. A time is as in issues_cache.go. The API answers one call in one way during a run.
pub mod Repo
pub mod Loading
pub mod Listing
mod Tests
use ice_hive.Prelude.{
  ℕ, zero, suc, ◌+◌, ◌-◌, Bool, true, false, not, ◌&&◌, ◌||◌, List, [], ◌∷◌, ◌++◌, Option, none,
  some, ltb, leb, ◌==◌, if◌then◌else◌, Result, ok, err, length, take,
}
use ice_hive.Text.{Bytes, codes, is_nil, trim_space, to_lower, equal_fold}
use ice_hive.Dict.{Dict, lookup, insert}
use ice_hive.Github.IssueCache.{Time}

abbrev pub max_packages_fetch : ℕ
max_packages_fetch = 100

abbrev pub max_packages_in_entity : ℕ
max_packages_in_entity = 50

abbrev pub github_package_types : List Bytes
github_package_types =
    codes "container"
    ∷ codes "docker"
    ∷ codes "npm"
    ∷ codes "maven"
    ∷ codes "rubygems"
    ∷ codes "nuget"
    ∷ []

pub record GhPackageOwner : Type 0 where
  pub login : Bytes
  pub type : Bytes

-- ghRepoPackage; of the repository, its full name
pub record GhRepoPackage : Type 0 where
  pub owner : Option GhPackageOwner
  pub repository : Option Bytes
  pub name : Bytes
  pub package_type : Bytes
  pub html_url : Bytes

pub record GhPackageVersion : Type 0 where
  pub created_at : Option Time
  pub updated_at : Option Time
  pub name : Bytes

pub record RepoPackageSummary : Type 0 where
  pub package_type : Bytes
  pub name : Bytes
  pub latest_version : Bytes
  pub html_url : Bytes
  pub version_updated_at : Bytes

pub record PackagesSnapshot : Type 0 where
  pub err : Bytes
  pub packages : List RepoPackageSummary
  pub fetch_capped : Bool

pub record NamespacePackagesEntry : Type 0 where
  pub err : Bytes
  pub packages : List GhRepoPackage

-- The owner of a repository of go-github, and its full name.
pub record Repository : Type 0 where
  pub owner : Option GhPackageOwner
  pub full_name : Bytes

-- go-github and net/url. `list` is given the path, the type and the number of a page, and gives its
-- packages and NextPage, with no response as `none`; `list_versions` gives the first page of 30.
pub record Api : Type 1 where
  pub Failure : Type 0
  pub list : Bytes → Bytes → ℕ → Result Failure (List GhRepoPackage × Option ℕ)
  pub list_versions : Bytes → Result Failure (List GhPackageVersion)
  -- the status of a github.ErrorResponse with a response, and Error()
  pub status : Failure → Option ℕ
  pub message : Failure → Bytes
  pub path_escape : Bytes → Bytes
  -- the text of time.RFC3339
  pub format : Time → Bytes
  pub parse : Bytes → Option Time

unfoldable pub namespace_cache_key : Bytes → Bytes → Bytes
namespace_cache_key owner_login owner_type =
    to_lower (trim_space owner_type) ++ (0 ∷ to_lower (trim_space owner_login))

unfoldable pub is_organization : Bytes → Bool
is_organization type = equal_fold (trim_space type) (codes "Organization")

owner_type_of : Option GhPackageOwner → Bytes
owner_type_of none = codes "User"
owner_type_of (some o) = if is_organization o.type then codes "Organization" else codes "User"

unfoldable pub repo_owner_type : Option Repository → Bytes
unfolding owner_type_of
repo_owner_type none = codes "User"
repo_owner_type (some repo) = owner_type_of repo.owner

is_named : Option Bytes → Bytes → Bool
is_named none full = false
is_named (some name) full = equal_fold (trim_space name) full

unfoldable pub package_belongs_to_repo : GhRepoPackage → Bytes → Bool
unfolding is_named
package_belongs_to_repo pkg repo_full_name =
    let full = trim_space repo_full_name in
    if is_nil full then false else is_named pkg.repository full

unfoldable pub namespace_path : Bytes → Bytes → Bytes
namespace_path owner_login owner_type =
    (if is_organization owner_type then codes "orgs/" else codes "users/")
    ++ (trim_space owner_login ++ codes "/packages")

-- namespacePackagesPath
unfoldable pub namespace_packages_path : Bytes → Bytes → Bytes
namespace_packages_path owner_login owner_type = namespace_path owner_login owner_type

unfoldable pub prefer_package_version : Bytes → Time → Time → Bool
prefer_package_version name candidate_at updated_at = is_nil name || ltb updated_at candidate_at

-- nonZeroUTC: the zero time is 0
unfoldable pub non_zero_utc : Option Time → Time × Bool
non_zero_utc none = (0, false)
non_zero_utc (some t) = if t == 0 then (0, false) else (t, true)

unfoldable pub version_timestamp : GhPackageVersion → Time
version_timestamp v =
    let (at, given) = non_zero_utc v.updated_at in
    if given then at else (non_zero_utc v.created_at).0

-- The loop of latestPackageVersion
unfoldable pub latest_from : Bytes → Time → List GhPackageVersion → Bytes × Time
latest_from name updated_at [] = (name, updated_at)
latest_from name updated_at (v ∷ versions) =
    let ver_name = trim_space v.name in
    let candidate_at = version_timestamp v in
    let better = not (is_nil ver_name) && prefer_package_version name candidate_at updated_at in
    latest_from (if better then ver_name else name) (if better then candidate_at else updated_at)
      versions

unfoldable pub latest_package_version : List GhPackageVersion → Bytes × Time
latest_package_version versions = latest_from [] 0 versions

unfoldable pub first_non_empty : List Bytes → Bytes
first_non_empty [] = []
first_non_empty (v ∷ values) =
    let rest = first_non_empty values in let t = trim_space v in if is_nil t then rest else t

owner_or_empty : Option GhPackageOwner → GhPackageOwner
owner_or_empty none = record { login = []; type = [] }
owner_or_empty (some o) = o

unfoldable pub package_owner_login_and_type : GhRepoPackage → Bytes → Bytes → Bytes × Bytes
unfolding owner_or_empty
package_owner_login_and_type pkg namespace_login namespace_type =
    let o = owner_or_empty pkg.owner in
    (
      first_non_empty (o.login ∷ namespace_login ∷ []),
      first_non_empty (o.type ∷ namespace_type ∷ codes "User" ∷ []),
    )

has_code : Option ℕ → ℕ → Bool
has_code none code = false
has_code (some status) code = status == code

unfoldable pub has_next_page : Option ℕ → Bool
has_next_page none = false
has_next_page (some next) = not (next == 0)

-- capPackages
unfoldable pub cap_packages : List GhRepoPackage → List GhRepoPackage
cap_packages all = if ltb max_packages_fetch (length all) then take max_packages_fetch all else all

module _ (api : Api) where
  open api use {Failure}

  unfoldable pub is_github_http_status : Failure → ℕ → Bool
  unfolding has_code
  is_github_http_status e code = has_code (api.status e) code

  unfoldable pub packages_unavailable : Failure → Bool
  packages_unavailable e = is_github_http_status e 404 || is_github_http_status e 403

  read_page :
      Result Failure (List GhRepoPackage × Option ℕ) → Result Failure (List GhRepoPackage × Bool)
  read_page (err e) = if packages_unavailable e then ok ([], false) else err e
  read_page (ok (pkgs, next)) = ok (pkgs, has_next_page next)

  -- The packages of a page and whether there are more
  unfoldable pub list_namespace_packages_page :
      Bytes → Bytes → Bytes → ℕ → Result Failure (List GhRepoPackage × Bool)
  unfolding read_page
  list_namespace_packages_page owner_login owner_type pkg_type page =
      read_page (api.list (namespace_packages_path owner_login owner_type) pkg_type page)

  abbrev pub Loaded : Type 0
  Loaded = Option (Result Failure (List GhRepoPackage))

  -- Behind a page: `k` goes on with the next one.
  pub after_page :
      (List GhRepoPackage → Loaded)
      → List GhRepoPackage
      → Result Failure (List GhRepoPackage × Bool)
      → Loaded
  after_page k out (err e) = some (err e)
  after_page k out (ok (pkgs, more)) =
      let rest = k (out ++ pkgs) in if more then rest else some (ok (out ++ pkgs))

  -- The loop over the pages of one type, on fuel
  unfoldable pub load_pages :
      (ℕ → Result Failure (List GhRepoPackage × Bool)) → ℕ → ℕ → ℕ → List GhRepoPackage → Loaded
  unfolding after_page
  load_pages pages limit zero page out = none
  load_pages pages limit (suc n) page out =
      let next = after_page (load_pages pages limit n (page + 1)) out (pages page) in
      if ltb (length out) limit then next else some (ok out)

  unfoldable pub load_namespace_packages_of_type : ℕ → Bytes → Bytes → Bytes → ℕ → Loaded
  load_namespace_packages_of_type fuel owner_login owner_type pkg_type limit =
      load_pages (list_namespace_packages_page owner_login owner_type pkg_type) limit fuel 1 []

  pub after_type : (List GhRepoPackage → Loaded) → List GhRepoPackage → Loaded → Loaded
  after_type k all none = none
  after_type k all (some (err e)) = some (err e)
  after_type k all (some (ok pkgs)) = k (all ++ pkgs)

  -- The loop over the types
  unfoldable pub load_types : ℕ → Bytes → Bytes → List Bytes → List GhRepoPackage → Loaded
  unfolding after_type
  load_types fuel owner_login owner_type [] all = some (ok all)
  load_types fuel owner_login owner_type (t ∷ types) all =
      let next = after_type (load_types fuel owner_login owner_type types) all (
        load_namespace_packages_of_type fuel owner_login owner_type t
          (max_packages_fetch - length all)) in
      if leb max_packages_fetch (length all) then some (ok all) else next

  pub capped : Loaded → Loaded
  capped none = none
  capped (some (err e)) = some (err e)
  capped (some (ok all)) = some (ok (cap_packages all))

  unfoldable pub load_namespace_packages : ℕ → Bytes → Bytes → Loaded
  unfolding capped
  load_namespace_packages fuel owner_login owner_type =
      capped (load_types fuel owner_login owner_type github_package_types [])
