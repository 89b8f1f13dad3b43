-- ===== src/Github/Packages/Repo/Capped.antt =====
-- No repository is ever marked as one with more packages than were fetched.
use ice_hive.Prelude.{
  ℕ, ◌+◌, ◌≤◌, ◌≡◌, refl, false, ◌||◌, List, [], ◌∷◌, ◌++◌, Option, none, some, leb, Bool-cases,
  inl, inr, arith, Result, ok, err, length, length-append,
}
use ice_hive.Text.{Bytes, is_nil, trim_space, str_eq}
use ice_hive.Dict.{lookup, insert, lookup-insert}
use ice_hive.Github.Packages.{
  Api, GhRepoPackage, GhPackageVersion, RepoPackageSummary, PackagesSnapshot,
  NamespacePackagesEntry, Repository, max_packages_fetch, namespace_cache_key,
  package_belongs_to_repo, Loaded, capped, load_namespace_packages,
}
use ice_hive.Github.Packages.Loading.{cap_packages-le}
use ice_hive.Github.Packages.Repo.{
  Cache, namespace_identity, entry_of, loaded_entry, cached_entry, entry_for,
  namespace_packages_from_cache, after_versions, summarize_from, summarize_packages_for_repo,
  snapshot_from, fetched, fetch_packages_for_repo,
}

-- Every entry of the cache has at most 100 packages.
abbrev pub IsBounded : Cache → Type 0
IsBounded cache =
    (key : Bytes) (ent : NamespacePackagesEntry)
    → lookup key cache ≡ some ent
    → length ent.packages ≤ max_packages_fetch

insert-IsBounded :
    (key : Bytes) (ent : NamespacePackagesEntry) (cache : Cache)
    → IsBounded cache
    → length ent.packages ≤ max_packages_fetch
    → IsBounded (insert key ent cache)
insert-IsBounded key ent cache h k j ent' e = elim (Bool-cases (str_eq key j)) [
  | inl s ↦ ground (arith, k, rw (lookup-insert key j ent cache, s) at e)
  | inr s ↦ h j ent' (rw (lookup-insert key j ent cache, s) at e)
]

module _ (api : Api) where
  open api use {Failure}

  -- No answer, or one that is within the bounds
  abbrev WithinEntry : Option (NamespacePackagesEntry × Cache) → Type 0
  WithinEntry none = Unit
  WithinEntry (some (ent, cache)) = (length ent.packages ≤ max_packages_fetch) × IsBounded cache

  abbrev WithinLoaded : Loaded api → Type 0
  WithinLoaded (some (ok all)) = length all ≤ max_packages_fetch
  WithinLoaded (some (err e)) = Unit
  WithinLoaded none = Unit

  load-WithinLoaded :
      (fuel : ℕ) (login type : Bytes) → WithinLoaded (load_namespace_packages api fuel login type)
  unfolding load_namespace_packages
  load-WithinLoaded fuel login type = within _
    where
      within : (y : Loaded api) → WithinLoaded (capped api y)
      within none = tt
      within (some (err e)) = tt
      within (some (ok all)) = cap_packages-le all

  loaded_entry-WithinEntry :
      (key : Bytes) (cache : Cache) (y : Loaded api)
      → IsBounded cache
      → WithinLoaded y
      → WithinEntry (loaded_entry api key cache y)
  unfolding loaded_entry entry_of
  loaded_entry-WithinEntry key cache none h k = tt
  loaded_entry-WithinEntry key cache (some (err e)) h k =
      (omega arith, insert-IsBounded key _ cache h (omega arith))
  loaded_entry-WithinEntry key cache (some (ok all)) h k = (k, insert-IsBounded key _ cache h k)

  cached_entry-WithinEntry :
      (fuel : ℕ) (login type : Bytes) (cache : Cache) (o : Option NamespacePackagesEntry)
      → IsBounded cache
      → lookup (namespace_cache_key login type) cache ≡ o
      → WithinEntry (cached_entry api fuel login type cache o)
  unfolding cached_entry
  cached_entry-WithinEntry fuel login type cache (some ent) h e =
      (h (namespace_cache_key login type) ent e, h)
  cached_entry-WithinEntry fuel login type cache none h e =
      loaded_entry-WithinEntry (namespace_cache_key login type) cache _ h
        (load-WithinLoaded fuel login type)

  entry_for-WithinEntry :
      (fuel : ℕ) (cache : Cache) (r : Result Bytes (Bytes × Bytes))
      → IsBounded cache
      → WithinEntry (entry_for api fuel cache r)
  unfolding entry_for
  entry_for-WithinEntry fuel cache (err e) h = (omega arith, h)
  entry_for-WithinEntry fuel cache (ok (login, type)) h =
      cached_entry-WithinEntry fuel login type cache _ h refl

  after_versions-NotCapped :
      (k : RepoPackageSummary → PackagesSnapshot) (pkg : GhRepoPackage)
      (y : Result Failure (List GhPackageVersion))
      → ((s : RepoPackageSummary) → (k s).fetch_capped ≡ false)
      → (after_versions api k pkg y).fetch_capped ≡ false
  unfolding after_versions
  after_versions-NotCapped k pkg (err e) h = refl
  after_versions-NotCapped k pkg (ok versions) h = h _

  summarize_from-NotCapped :
      (full login type : Bytes) (summaries : List RepoPackageSummary) (pkgs : List GhRepoPackage)
      → length summaries + length pkgs ≤ max_packages_fetch
      → (summarize_from api full login type summaries pkgs).fetch_capped ≡ false
  unfolding summarize_from
  summarize_from-NotCapped full login type summaries [] h = refl
  summarize_from-NotCapped full login type summaries (pkg ∷ pkgs) h =
      let skip = summarize_from-NotCapped full login type summaries pkgs (omega arith) in
      let below : leb max_packages_fetch (length summaries) ≡ false = ground (arith, h) in
      elim (Bool-cases (package_belongs_to_repo pkg full)) [
        | inr e ↦ rw e skip
        | inl e ↦
            elim (Bool-cases
              (is_nil (trim_space pkg.name) || is_nil (trim_space pkg.package_type))) [
                | inl q ↦ rw (e, below, q) skip
                | inr q ↦
                    rw (e, below, q)
                      (after_versions-NotCapped
                        (λ s. summarize_from api full login type (summaries ++ (s ∷ [])) pkgs) pkg _
                        (λ s.
                          summarize_from-NotCapped full login type (summaries ++ (s ∷ [])) pkgs
                            (omega (arith, length-append summaries (s ∷ [])))))
              ]
      ]

  -- The packages of a repository, if any were got, are not marked as cut off, and the cache is bounded.
  abbrev pub NeverCapped : Option (PackagesSnapshot × Cache) → Type 0
  NeverCapped none = Unit
  NeverCapped (some (snapshot, cache)) = (snapshot.fetch_capped ≡ false) × IsBounded cache

  fetched-NeverCapped :
      (repo : Option Repository) (o : Option (NamespacePackagesEntry × Cache))
      → WithinEntry o
      → NeverCapped (fetched api repo o)
  unfolding fetched snapshot_from summarize_packages_for_repo
  fetched-NeverCapped repo none h = tt
  fetched-NeverCapped repo (some (ent, cache)) (h, k) = (
    elim (Bool-cases (is_nil ent.err)) [
      | inl e ↦ rw e (summarize_from-NotCapped _ _ _ [] ent.packages (omega arith))
      | inr e ↦ rw e refl
    ],
    k,
  )

  -- On a cache whose entries have at most 100 packages each, as the empty one, the packages of a
  -- repository are never marked as cut off, however many the namespace has, and the entries of the
  -- cache have at most 100 packages afterwards.
  pub fetch_packages_for_repo-NeverCapped :
      (fuel : ℕ) (repo : Option Repository) (cache : Cache)
      → IsBounded cache
      → NeverCapped (fetch_packages_for_repo api fuel repo cache)
  unfolding fetch_packages_for_repo namespace_packages_from_cache
  fetch_packages_for_repo-NeverCapped fuel repo cache h =
      fetched-NeverCapped repo _ (entry_for-WithinEntry fuel cache (namespace_identity repo) h)
