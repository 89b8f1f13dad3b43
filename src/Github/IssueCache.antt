-- ===== src/Github/IssueCache.antt =====
-- services/collector-github/issues_cache.go: what is published of a repository's issues. A time is
-- the number of whole seconds since Go's zero time, which is 0; GitHub's times have no finer part.
-- The context, the log and the files are left out: a run gets what was loaded and returns what it
-- saves.
pub mod Publish
pub mod Collect
use ice_hive.Prelude.{
  ℕ, ◌+◌, ◌-◌, ◌≡◌, Bool, true, false, not, ◌&&◌, ◌||◌, List, [], ◌∷◌, ◌++◌, Option, none, some,
  ltb, ◌==◌, if◌then◌else◌, Result, ok, err, length,
}
use ice_hive.Prelude.Int.{ℤ, pos, negsuc}
use ice_hive.Text.{Bytes, codes, is_nil, str_eq, trim_space}
use ice_hive.Text.Decimal.{decimal}
use ice_hive.Dict.{Dict, lookup, insert}

abbrev pub Time : Type 0
Time = ℕ

abbrev pub issue_cache_version : ℕ
issue_cache_version = 1

-- issueCacheOverlap, in seconds
abbrev pub issue_cache_overlap : ℕ
issue_cache_overlap = 120

-- What the collector uses of go-github, of encoding/json, of x/text and of sha256, and time's
-- RFC 3339 texts.
pub record Library : Type 1 where
  pub Issue : Type 0
  pub Raw : Type 0
  pub node_id : Issue → Bytes
  pub number : Issue → ℤ
  pub html_url : Issue → Bytes
  pub is_pull_request : Issue → Bool
  pub updated_at : Issue → Time
  pub marshal : Issue → Option Raw
  pub nfc : Bytes → Bytes
  -- the first twelve bytes of the hash, in hexadecimal digits
  pub sha256_hex : Bytes → Bytes
  pub format : Time → Bytes
  pub parse : Bytes → Option Time

print_int : ℤ → Bytes
print_int (pos n) = decimal n
print_int (negsuc n) = b'-' ∷ decimal (n + 1)

module _ (l : Library) where
  open l use {Issue, Raw}

  pub record Entry : Type 0 where
    pub updated_at : Bytes
    pub issue : Raw

  pub record CacheFile : Type 0 where
    pub repo_full_name : Bytes
    pub latest_issue_id : Bytes
    pub issues : Dict Entry
    pub latest_updated_at : Bytes
    pub version : ℕ

  -- githubIssueSourceUniqueID, for an issue without a node id
  id_in_repo : Bytes → Issue → Bytes
  unfolding print_int
  id_in_repo repo_uid i =
      let repo = l.nfc (trim_space repo_uid) in
      let url = l.nfc (trim_space (l.html_url i)) in
      let by_number = l.nfc (repo ++ (codes ":issue:" ++ print_int (l.number i))) in
      let by_url =
        l.nfc (repo ++ (codes ":issue:url:" ++ l.sha256_hex (repo ++ (codes ":" ++ url)))) in
      if is_nil repo
      then []
      else if is_zero (l.number i)
      then if is_nil url then [] else by_url
      else by_number
    where
      is_zero : ℤ → Bool
      is_zero (pos n) = n == 0
      is_zero (negsuc n) = false

  unfoldable pub source_unique_id : Bytes → Issue → Bytes
  unfolding id_in_repo
  source_unique_id repo_uid i =
      let nid = l.nfc (trim_space (l.node_id i)) in
      if is_nil nid then id_in_repo repo_uid i else nid

  -- issueUpdatedAtRFC3339
  unfoldable pub updated_at_text : Issue → Bytes
  updated_at_text i = if l.updated_at i == 0 then [] else l.format (l.updated_at i)

  -- The loop's variables.
  pub record Merge : Type 0 where
    pub to_publish : List Issue
    pub issues : Dict Entry
    pub skipped : ℕ

  unfoldable pub is_current : Option Entry → Bytes → Bool
  is_current none updated = false
  is_current (some e) updated = str_eq e.updated_at updated

  unfoldable pub merge_new : Merge → Issue → Bytes → Bytes → Option Raw → Merge
  merge_new m i id updated none = m
  merge_new m i id updated (some raw) = record m {
    issues = insert id (record { updated_at = updated; issue = raw }) m.issues;
    to_publish = m.to_publish ++ (i ∷ []);
  }

  unfoldable pub merge_known : Merge → Issue → Bytes → Bytes → Merge
  unfolding merge_new is_current
  merge_known m i id updated =
      if is_nil id
      then m
      else if is_current (lookup id m.issues) updated
      then record m { skipped = m.skipped + 1 }
      else merge_new m i id updated (l.marshal i)

  -- One turn of the loop; `none` is a nil issue.
  unfoldable pub merge_one : Bytes → Merge → Option Issue → Merge
  unfolding merge_known
  merge_one repo_uid m none = m
  merge_one repo_uid m (some i) =
      if l.is_pull_request i
      then m
      else merge_known m i (source_unique_id repo_uid i) (updated_at_text i)

  unfoldable pub merge_all : Bytes → Merge → List (Option Issue) → Merge
  merge_all repo_uid m [] = m
  merge_all repo_uid m (f ∷ fs) = merge_all repo_uid (merge_one repo_uid m f) fs

  -- The loop of refreshLatestIssueMarker, over the entries in any order.
  later : Bytes → Time → Bytes → Option Time → Bytes × Time
  later latest_id latest_at id none = (latest_id, latest_at)
  later latest_id latest_at id (some t) =
      if is_nil latest_id || ltb latest_at t then (id, t) else (latest_id, latest_at)

  unfoldable pub latest_of : Bytes → Time → Dict Entry → Bytes × Time
  unfolding later
  latest_of latest_id latest_at [] = (latest_id, latest_at)
  latest_of latest_id latest_at ((id, e) ∷ es) =
      let (id', at') = later latest_id latest_at id (l.parse e.updated_at) in latest_of id' at' es

  with_marker : CacheFile → Bytes × Time → CacheFile
  with_marker c (id, t) = record c {
    latest_issue_id = id;
    latest_updated_at = if t == 0 then c.latest_updated_at else l.format t;
  }

  unfoldable pub refresh_latest_issue_marker : CacheFile → CacheFile
  unfolding with_marker
  refresh_latest_issue_marker c =
      if length c.issues == 0 then c else with_marker c (latest_of [] 0 c.issues)

  abbrev pub cached_issues : Option CacheFile → Dict Entry
  cached_issues none = []
  cached_issues (some c) = c.issues

  cached_name : Option CacheFile → Bytes
  cached_name none = []
  cached_name (some c) = c.repo_full_name

  -- mergeIssueCache
  unfoldable pub merge_issue_cache :
      Option CacheFile → List (Option Issue) → Bytes → List Issue × CacheFile × ℕ
  unfolding cached_name
  merge_issue_cache cache fetched repo_uid =
      let start : Merge = record { to_publish = []; issues = cached_issues cache; skipped = 0 } in
      let m = merge_all repo_uid start fetched in
      let out : CacheFile = record {
        repo_full_name = cached_name cache;
        latest_issue_id = [];
        issues = m.issues;
        latest_updated_at = [];
        version = issue_cache_version;
      } in
      (m.to_publish, refresh_latest_issue_marker out, m.skipped)

  -- latestUpdatedTime
  unfoldable pub latest_updated_time : CacheFile → Option Time
  latest_updated_time c =
      if is_nil (trim_space c.latest_updated_at) then none else l.parse c.latest_updated_at
