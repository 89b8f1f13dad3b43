-- ===== src/Github/IssueCache/Collect/Tests.antt =====
-- The cache of issues on a small library of two kinds of issue.
use ice_hive.Prelude.{ℕ, ◌≡◌, refl, Bool, true, false, List, [], ◌∷◌, Option, none, some, ok}
use ice_hive.Prelude.Int.{pos}
use ice_hive.Text.{Bytes, codes, trim_space, trim, trim_left, trim_right, is_space, str_eq}
use ice_hive.Dict.{lookup, insert}
use ice_hive.Github.IssueCache.{
  Library, latest_of, later, with_marker, latest_updated_time, cached_name, CacheFile,
  merge_issue_cache, source_unique_id, updated_at_text, merge_all, merge_one, merge_known,
  merge_new, is_current, cached_issues, refresh_latest_issue_marker,
}
use ice_hive.Github.IssueCache.Collect.{
  issue_list_unchanged, cache_hit_of, collect_from, Run, collect, since, merge_fetched,
}
use ice_hive.Github.IssueCache.Publish.{OnceEach, news, is_news, known, merge_issue_cache_lem}
use ice_hive.Github.IssueCache.Collect.Again.{collect-twice}

abbrev toy : Library
toy = record {
  Issue = Bytes × ℕ;
  Raw = Bool;
  node_id = λ i. i.0;
  number = λ i. pos 1;
  html_url = λ i. [];
  is_pull_request = λ i. false;
  updated_at = λ i. i.1;
  marshal = λ i. some true;
  nfc = λ s. s;
  sha256_hex = λ s. s;
  format = λ t. 1 ∷ t ∷ [];
  parse = λ s. none;
}

abbrev fetched : List (Option (Bytes × ℕ))
fetched = some (codes "A", 5) ∷ none ∷ some (codes "B", 6) ∷ []

abbrev cache : CacheFile toy
cache = record {
  repo_full_name = codes "o/r";
  latest_issue_id = codes "A";
  issues = (codes "A", record { updated_at = 1 ∷ 5 ∷ []; issue = false }) ∷ [];
  latest_updated_at = [];
  version = 1;
}

once_each : OnceEach toy (codes "R") fetched
unfolding source_unique_id trim_space trim trim_left trim_right is_space str_eq
once_each = ((refl, (refl, tt)), ((refl, tt), (tt, tt)))

merge_issue_cache_lem_example :
    ((merge_issue_cache toy (some cache) fetched (codes "R")).0
      ≡ news toy (codes "R") (cached_issues toy (some cache)) fetched)
    × ((merge_issue_cache toy (some cache) fetched (codes "R")).2
        ≡ known toy (codes "R") (cached_issues toy (some cache)) fetched)
    × (news toy
          (codes "R")
          (merge_issue_cache toy (some cache) fetched (codes "R")).1.issues
          fetched
        ≡ [])
merge_issue_cache_lem_example = merge_issue_cache_lem toy (codes "R") (some cache) fetched once_each

news_of_example : news toy (codes "R") cache.issues fetched ≡ (codes "B", 6) ∷ []
unfolding news is_news source_unique_id updated_at_text is_current lookup trim_space trim trim_left
    trim_right is_space str_eq
news_of_example = refl

first : Run toy
first = record {
  enabled = true;
  repo_uid = codes "R";
  full_name = codes "o/r";
  loaded = ok (some cache);
  probe = ok (codes "B", 6);
  fetch = λ t. record { err = []; issues = fetched; fetch_capped = false };
}

saved : CacheFile toy
saved = record {
  repo_full_name = codes "o/r";
  latest_issue_id = [];
  issues =
      (codes "A", record { updated_at = 1 ∷ 5 ∷ []; issue = false })
      ∷ (codes "B", record { updated_at = 1 ∷ 6 ∷ []; issue = true })
      ∷ [];
  latest_updated_at = [];
  version = 1;
}

second : Run toy
unfolding first saved
second = record first { loaded = ok (some saved) }

saves : (collect toy first).1 ≡ some saved
unfolding first saved collect issue_list_unchanged str_eq merge_fetched merge_issue_cache
    refresh_latest_issue_marker merge_all merge_one source_unique_id trim_space trim trim_right
    trim_left is_space lookup updated_at_text insert latest_of later merge_known merge_new
    is_current with_marker cache_hit_of collect_from latest_updated_time cached_name since
saves = refl

collect-twice_example : (collect toy second).0.issues_to_publish ≡ []
unfolding second first saved
collect-twice_example = collect-twice toy first second saved saves refl refl refl refl once_each
