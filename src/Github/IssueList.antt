-- ===== src/Github/IssueList.antt =====
-- services/collector-github/issues.go: listing a repository's issues page by page, up to a cap.
pub mod Pages
mod Tests
use ice_hive.Prelude.{
  ℕ, zero, suc, Bool, true, false, List, [], ◌∷◌, ◌++◌, map, Option, none, some, leb, ◌==◌,
  if◌then◌else◌, Result, ok, err, length,
}
use ice_hive.Text.{Bytes, is_nil}
use ice_hive.Github.IssueCache.{Library, Time}
use ice_hive.Github.IssueCache.Collect.{Snapshot}

abbrev pub max_issues_fetch : ℕ
max_issues_fetch = 500

-- Where a page is found: behind a cursor, or by its number.
pub data Cursor : Type 0 where
  after : Bytes → Cursor
  page : ℕ → Cursor

-- issueListByRepoOpts, without its constants; the time 0 asks for all issues.
pub record Options : Type 0 where
  pub since : Time
  pub cursor : Cursor

module _ (l : Library) where
  open l use {Issue}

  -- The issues of a page, and the cursor and the number of the next page; no response is `none`.
  pub record Page : Type 0 where
    pub issues : List (Option Issue)
    pub response : Option (Bytes × ℕ)

  -- The next page to ask for.
  unfoldable pub next_cursor : Option (Bytes × ℕ) → Option Cursor
  next_cursor none = none
  next_cursor (some (token, next_page)) =
      if is_nil token
      then if next_page == 0 then none else some (page next_page)
      else some (after token)

  -- The loop over a page, and whether it stopped at the cap.
  unfoldable pub add_issues : List Issue → List (Option Issue) → List Issue × Bool
  add_issues all [] = (all, false)
  add_issues all (none ∷ fs) = add_issues all fs
  add_issues all (some i ∷ fs) =
      let skip = add_issues all fs in
      let more = add_issues (all ++ i ∷ []) fs in
      if l.is_pull_request i
      then skip
      else if leb max_issues_fetch (length (all ++ i ∷ []))
      then (all ++ i ∷ [], true)
      else more

  abbrev pub listed : List Issue → Bool → Snapshot l
  listed all capped = record { err = []; issues = map some all; fetch_capped = capped }

  abbrev Continue : Type 0
  Continue = Options → List Issue → Option (Snapshot l)

  after_response : Continue → Options → List Issue → Option Cursor → Option (Snapshot l)
  after_response k o all none = some (listed all false)
  after_response k o all (some c) = k (record o { cursor = c }) all

  after_page : Continue → Options → Option Cursor → List Issue × Bool → Option (Snapshot l)
  unfolding after_response
  after_page k o next (all, true) = some (listed all true)
  after_page k o next (all, false) = after_response k o all next

  after_call : Continue → Options → List Issue → Result Bytes Page → Option (Snapshot l)
  unfolding after_page
  after_call k o all (err e) = some (record { err = e; issues = []; fetch_capped = false })
  after_call k o all (ok p) = after_page k o (next_cursor p.response) (add_issues all p.issues)

  -- The loop over the pages, on fuel, against what the API answers.
  unfoldable pub fetch_pages :
      (Options → Result Bytes Page) → ℕ → Options → List Issue → Option (Snapshot l)
  unfolding after_call
  fetch_pages api zero o all = none
  fetch_pages api (suc n) o all =
      let k = fetch_pages api n in
      if leb max_issues_fetch (length all)
      then some (listed all true)
      else after_call k o all (api o)

  -- fetchIssuesForRepoSince
  unfoldable pub fetch_issues_for_repo_since :
      (Options → Result Bytes Page) → ℕ → Time → Option (Snapshot l)
  fetch_issues_for_repo_since api fuel since =
      fetch_pages api fuel (record { since = since; cursor = page 1 }) []
