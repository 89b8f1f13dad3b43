-- ===== src/Github/Packages/Tests.antt =====
-- A user with two pages of containers.
use ice_hive.Prelude.{
  ℕ, ◌<◌, length, Bool, Bool-cases, inl, inr, ap, ◌≡◌, refl, true, ◌==◌, List, [], ◌∷◌, Option,
  none, some, Result, ok, err, take, arith, if◌then◌else◌,
}
use ice_hive.Text.{Bytes, codes, str_eq}
use ice_hive.Github.Packages.{
  Api, GhRepoPackage, max_packages_fetch, github_package_types, list_namespace_packages_page,
  load_namespace_packages,
}
use ice_hive.Dict.{lookup}
use ice_hive.Github.Packages.{Repository}
use ice_hive.Github.Packages.Repo.{fetch_packages_for_repo}
use ice_hive.Github.Packages.Repo.Capped.{NeverCapped, fetch_packages_for_repo-NeverCapped}
use ice_hive.Github.Packages.Loading.{Ends, load_namespace_packages-Ends}
use ice_hive.Github.Packages.Listing.{packages_of, load_namespace_packages_lem}

abbrev pkg : Bytes → GhRepoPackage
pkg name = record {
  owner = none;
  repository = none;
  name = name;
  package_type = codes "container";
  html_url = [];
}

abbrev first : Bytes → List GhRepoPackage
first t = if str_eq t (codes "container") then pkg (codes "p") ∷ [] else []

abbrev others : Bytes → List (List GhRepoPackage)
others t = if str_eq t (codes "container") then (pkg (codes "q") ∷ []) ∷ [] else []

abbrev api : Api
api = record {
  Failure = ℕ;
  list = λ path t page.
      if str_eq t (codes "container")
      then if page == 1
        then ok (pkg (codes "p") ∷ [], some 2)
        else ok (pkg (codes "q") ∷ [], some 0)
      else err 404;
  list_versions = λ path. ok [];
  status = λ e. some e;
  message = λ e. [];
  path_escape = λ s. s;
  format = λ t. [];
  parse = λ s. none;
}

load_namespace_packages_lem_example :
    load_namespace_packages api 2 (codes "u") (codes "User")
    ≡ some (
        ok (
          take max_packages_fetch
            (packages_of api (codes "u") (codes "User") first others github_package_types)))
unfolding str_eq list_namespace_packages_page ice_hive.Github.Packages.has_next_page
    ice_hive.Github.Packages.packages_unavailable ice_hive.Github.Packages.is_github_http_status
load_namespace_packages_lem_example =
    load_namespace_packages_lem api (codes "u") (codes "User") first others 2 (
      ((refl, refl), omega arith),
      (
        (refl, omega arith),
        (
          (refl, omega arith),
          ((refl, omega arith), ((refl, omega arith), ((refl, omega arith), tt))),
        ),
      ),
    )

productive :
    (t : Bytes) (page : ℕ) (pkgs : List GhRepoPackage)
    → list_namespace_packages_page api (codes "u") (codes "User") t page ≡ ok (pkgs, true)
    → 0 < length pkgs
unfolding list_namespace_packages_page ice_hive.Github.Packages.has_next_page
    ice_hive.Github.Packages.packages_unavailable ice_hive.Github.Packages.is_github_http_status
productive t page pkgs e = elim (Bool-cases (str_eq t (codes "container"))) [
  | inl c ↦ elim (Bool-cases (page == 1)) [
    | inl p ↦ omega (arith, ap pages_length (rw (c, p) at e))
    | inr p ↦ absurd (ground (arith, rw (c, p) at e))
  ]
  | inr c ↦ absurd (ground (arith, rw c at e))
]
  where
    pages_length : Result ℕ (List GhRepoPackage × Bool) → ℕ
    pages_length (err e) = 0
    pages_length (ok (pkgs, more)) = length pkgs

load_namespace_packages-Ends_example :
    Ends api (load_namespace_packages api 101 (codes "u") (codes "User"))
load_namespace_packages-Ends_example =
    load_namespace_packages-Ends api (codes "u") (codes "User") productive 101 (omega arith)

abbrev repository : Option Repository
repository = some (record { owner = none; full_name = codes "u/r" })

fetch_packages_for_repo-NeverCapped_example :
    NeverCapped api (fetch_packages_for_repo api 2 repository [])
unfolding lookup
fetch_packages_for_repo-NeverCapped_example =
    fetch_packages_for_repo-NeverCapped api 2 repository []
      (λ key ent e. absurd (ground (arith, e)))
