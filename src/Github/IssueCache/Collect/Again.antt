-- ===== src/Github/IssueCache/Collect/Again.antt =====
-- A run of the collector that follows another one.
use ice_hive.Prelude.{
  ◌≡◌, refl, ap, ◌∙◌, true, [], Option, none, some, arith, inl, inr, Bool-cases, ok,
}
use mathlib.Core.Path.{subst}
use ice_hive.Text.{is_nil}
use ice_hive.Github.IssueCache.{Library, CacheFile, cached_issues}
use ice_hive.Github.IssueCache.Collect.{
  Run, merge_fetched, collect, collect_from, since, hit, usable_cache,
}
use ice_hive.Github.IssueCache.Publish.{OnceEach, news, merge_issue_cache_lem}

module _ (l : Library) where
  -- The run gets the cache and ends in one of two ways.
  collect_from-Saved :
      (r : Run l) (cache h : Option (CacheFile l)) (file : CacheFile l)
      → (collect_from l r cache h).1 ≡ some file
      → OnceEach l r.repo_uid (r.fetch (since l cache)).issues
      → news l r.repo_uid file.issues (r.fetch (since l cache)).issues ≡ []
  unfolding collect_from merge_fetched
  collect_from-Saved r cache (some c) file e o = absurd (ground (arith, e))
  collect_from-Saved r cache none file e o =
      elim (Bool-cases (is_nil (r.fetch (since l cache)).err)) [
        | inl n ↦
            let same = ap (λ c. cached_issues l c) (rw n at e) in
            subst (λ d. news l r.repo_uid d (r.fetch (since l cache)).issues ≡ []) same
              (merge_issue_cache_lem l r.repo_uid cache _ o).2
        | inr n ↦ absurd (ground (arith, rw n at e))
      ]

  collect_from-Quiet :
      (r : Run l) (cache h : Option (CacheFile l))
      → OnceEach l r.repo_uid (r.fetch (since l cache)).issues
      → news l r.repo_uid (cached_issues l cache) (r.fetch (since l cache)).issues ≡ []
      → (collect_from l r cache h).0.issues_to_publish ≡ []
  unfolding collect_from merge_fetched hit
  collect_from-Quiet r cache (some c) o n = refl
  collect_from-Quiet r cache none o n = elim (Bool-cases (is_nil (r.fetch (since l cache)).err)) [
    | inl e ↦ rw e ((merge_issue_cache_lem l r.repo_uid cache _ o).0 ∙ n)
    | inr e ↦ rw e refl
  ]

  collect-Quiet :
      (r : Run l) (file : CacheFile l)
      → r.enabled ≡ true
      → r.loaded ≡ ok (some file)
      → OnceEach l r.repo_uid (r.fetch (since l (some file))).issues
      → news l r.repo_uid file.issues (r.fetch (since l (some file))).issues ≡ []
      → (collect l r).0.issues_to_publish ≡ []
  unfolding collect merge_fetched
  collect-Quiet r file on loaded o n = rw (on, loaded) (collect_from-Quiet r (some file) _ o n)

  collect-Saved :
      (r : Run l) (file : CacheFile l)
      → (collect l r).1 ≡ some file
      → OnceEach l r.repo_uid (r.fetch (since l (usable_cache l r.loaded))).issues
      → news l r.repo_uid file.issues (r.fetch (since l (usable_cache l r.loaded))).issues ≡ []
  unfolding collect merge_fetched
  collect-Saved r file e o = elim (Bool-cases r.enabled) [
    | inl on ↦ collect_from-Saved r (usable_cache l r.loaded) _ file (rw on at e) o
    | inr off ↦ absurd (ground (arith, rw off at e))
  ]

  -- When a run has saved its cache, a later run for the same repository that loads this cache and
  -- fetches the same issues, each once, publishes nothing.
  pub collect-twice :
      (first second : Run l) (file : CacheFile l)
      → (collect l first).1 ≡ some file
      → second.enabled ≡ true
      → second.loaded ≡ ok (some file)
      → second.repo_uid ≡ first.repo_uid
      → (second.fetch (since l (some file))).issues
        ≡ (first.fetch (since l (usable_cache l first.loaded))).issues
      → OnceEach l first.repo_uid (first.fetch (since l (usable_cache l first.loaded))).issues
      → (collect l second).0.issues_to_publish ≡ []
  collect-twice first second file saved on loaded same fetched o =
      collect-Quiet second file on loaded (rw (same, fetched) o)
        (rw (same, fetched) (collect-Saved first file saved o))
