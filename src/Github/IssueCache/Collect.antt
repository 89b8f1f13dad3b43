-- ===== src/Github/IssueCache/Collect.antt =====
-- services/collector-github/issues_cache.go: a run of the collector, from the probe to what it saves.
pub mod Again
mod Tests
use ice_hive.Prelude.{
  ℕ, ◌-◌, Bool, true, false, not, ◌&&◌, ◌||◌, List, [], ◌∷◌, Option, none, some, ◌==◌,
  if◌then◌else◌, Result, ok, err, length,
}
use ice_hive.Text.{Bytes, is_nil, str_eq}
use ice_hive.Github.IssueCache.{
  Library, Time, issue_cache_overlap, CacheFile, latest_updated_time, merge_issue_cache,
}

module _ (l : Library) where
  open l use {Issue}

  -- issueListUnchanged, on a cache that is there
  unfoldable pub issue_list_unchanged : CacheFile l → Issue → Bool
  issue_list_unchanged c probe =
      let probe_id = l.nfc (l.node_id probe) in
      if is_nil probe_id || not (str_eq probe_id c.latest_issue_id)
      then false
      else same_time (latest_updated_time l c)
    where
      same_time : Option Time → Bool
      same_time none = false
      same_time (some t) = l.updated_at probe == t

  -- issuesSnapshot
  pub record Snapshot : Type 0 where
    pub err : Bytes
    pub issues : List (Option Issue)
    pub fetch_capped : Bool

  -- issuesCollectionResult
  pub record Collected : Type 0 where
    pub err : Bytes
    pub issues_to_publish : List Issue
    pub cache_hit : Bool
    pub fetch_capped : Bool
    pub fetched_count : ℕ
    pub unchanged_skipped : ℕ

  -- What a run of `Collect` is given: the setting, the cache that `load` returns, the issue that
  -- the probe returns, and the fetch since a time.
  pub record Run : Type 0 where
    pub enabled : Bool
    pub repo_uid : Bytes
    pub full_name : Bytes
    pub loaded : Result Bytes (Option (CacheFile l))
    pub probe : Result Bytes Issue
    pub fetch : Time → Snapshot

  -- The source passes the issues on as they are; a nil one, which the fetch never gives, is left out
  -- here.
  without_cache : Snapshot → Collected
  without_cache s = record {
    err = s.err;
    issues_to_publish = present s.issues;
    cache_hit = false;
    fetch_capped = s.fetch_capped;
    fetched_count = length s.issues;
    unchanged_skipped = 0;
  }
    where
      present : List (Option Issue) → List Issue
      present [] = []
      present (none ∷ fs) = present fs
      present (some i ∷ fs) = i ∷ present fs

  hit : CacheFile l → Collected
  hit c = record {
    err = [];
    issues_to_publish = [];
    cache_hit = true;
    fetch_capped = false;
    fetched_count = 0;
    unchanged_skipped = length c.issues;
  }

  -- A cache that cannot be loaded counts as none.
  abbrev pub usable_cache : Result Bytes (Option (CacheFile l)) → Option (CacheFile l)
  usable_cache (err e) = none
  usable_cache (ok c) = c

  -- The cache is there, is not empty, and the probe says that nothing has changed.
  cache_hit_of : Option (CacheFile l) → Result Bytes Issue → Option (CacheFile l)
  cache_hit_of none probe = none
  cache_hit_of (some c) (err e) = none
  cache_hit_of (some c) (ok i) =
      if not (length c.issues == 0) && issue_list_unchanged c i then some c else none

  -- The cache's time less the overlap. (Go goes below the zero time here; no GitHub time does.)
  unfoldable pub since : Option (CacheFile l) → Time
  since none = 0
  since (some c) = before (latest_updated_time l c)
    where
      before : Option Time → Time
      before none = 0
      before (some t) = t - issue_cache_overlap

  -- The part behind the fetch, with what is saved.
  unfoldable pub merge_fetched :
      Run → Option (CacheFile l) → Snapshot → Collected × Option (CacheFile l)
  merge_fetched r cache s =
      let m = merge_issue_cache l cache s.issues r.repo_uid in
      if is_nil s.err
      then (
        record {
          err = [];
          issues_to_publish = m.0;
          cache_hit = false;
          fetch_capped = s.fetch_capped;
          fetched_count = length s.issues;
          unchanged_skipped = m.2;
        },
        some (record m.1 { repo_full_name = r.full_name }),
      )
      else (
        record {
          err = s.err;
          issues_to_publish = [];
          cache_hit = false;
          fetch_capped = s.fetch_capped;
          fetched_count = 0;
          unchanged_skipped = 0;
        },
        none,
      )

  -- `Collect`, behind the probe: a hit saves nothing.
  collect_from :
      Run → Option (CacheFile l) → Option (CacheFile l) → Collected × Option (CacheFile l)
  unfolding hit
  collect_from r cache (some c) = (hit c, none)
  collect_from r cache none = merge_fetched r cache (r.fetch (since cache))

  unfoldable pub collect : Run → Collected × Option (CacheFile l)
  unfolding without_cache cache_hit_of collect_from
  collect r =
      let cache = usable_cache r.loaded in
      if r.enabled
      then collect_from r cache (cache_hit_of cache r.probe)
      else (without_cache (r.fetch 0), none)
