-- ===== src/Github/IssueList/Tests.antt =====
-- Two pages of issues.
use ice_hive.Prelude.{
  inl, ℕ, ◌≡◌, refl, Bool, true, false, List, [], ◌∷◌, Option, none, some, Result, ok, arith,
}
use ice_hive.Prelude.Int.{pos}
use ice_hive.Text.{Bytes, codes}
use ice_hive.Github.IssueCache.{Library}
use ice_hive.Github.IssueList.{
  Cursor, after, page, Options, Page, max_issues_fetch, fetch_issues_for_repo_since,
}
use ice_hive.Github.IssueList.Pages.{
  Chain, last, by_token, snapshot_of, capped_to, all_issues, fetch_issues_for_repo_since_lem,
}

abbrev toy : Library
toy = record {
  Issue = ℕ;
  Raw = Bool;
  node_id = λ i. i ∷ [];
  number = λ i. pos i;
  html_url = λ i. [];
  is_pull_request = λ i. false;
  updated_at = λ i. i;
  marshal = λ i. some true;
  nfc = λ s. s;
  sha256_hex = λ s. s;
  format = λ t. t ∷ [];
  parse = λ s. none;
}

abbrev page_at : Cursor → Result Bytes (Page toy)
page_at (page n) = ok (record { issues = some 3 ∷ none ∷ []; response = some (codes "next", 0) })
page_at (after c) = ok (record { issues = some 4 ∷ []; response = none })

abbrev api : Options → Result Bytes (Page toy)
api o = page_at o.cursor

abbrev pages : List (List (Option ℕ))
pages = (some 3 ∷ none ∷ []) ∷ (some 4 ∷ []) ∷ []

chain : Chain toy api (record { since = 0; cursor = page 1 }) pages
chain =
    by_token (record { since = 0; cursor = page 1 })
      (record { issues = some 3 ∷ none ∷ []; response = some (codes "next", 0) }) 110
      (101 ∷ 120 ∷ 116 ∷ []) 0 ((some 4 ∷ []) ∷ []) refl refl
      (last (record { since = 0; cursor = after (codes "next") })
        (record { issues = some 4 ∷ []; response = none }) refl (inl refl))

fetch_issues_for_repo_since_lem_example :
    fetch_issues_for_repo_since toy api 2 0
    ≡ some (snapshot_of toy (capped_to toy max_issues_fetch (all_issues toy pages)))
fetch_issues_for_repo_since_lem_example =
    fetch_issues_for_repo_since_lem toy api 2 0 pages chain (omega arith)
