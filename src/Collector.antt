-- ===== src/Collector.antt =====
-- services/collector-github/main.go, services/collector-rss/main.go and
-- services/collector-jmap/main.go: when a collection source is run, and when it is due again. The
-- three files have the same functions.
pub mod Due
use ice_hive.Prelude.{
  ℕ, Bool, true, false, not, ◌&&◌, ◌||◌, List, [], ◌∷◌, Option, none, some, ltb, if◌then◌else◌,
  length, take, Result, ok, err,
}
use ice_hive.Prelude.Int.{ℤ, pos, leb_ℤ, quot}
use ice_hive.Text.{Bytes, is_nil, trim_space}
use ice_hive.Controller.Health.{unix_milli}
use ice_hive.Controller.Server.{CollectionSource}

abbrev pub max_report_err_len : ℕ
max_report_err_len = 2048

-- collectionSourceRunNowOnly
unfoldable pub collection_source_run_now_only : CollectionSource → Bool
collection_source_run_now_only src = is_nil (trim_space src.cron_line)

-- collectionSourceDue; `now` is in nanoseconds
unfoldable pub collection_source_due : CollectionSource → ℤ → Bool
collection_source_due src now =
    if collection_source_run_now_only src
    then false
    else if leb_ℤ src.next_due_unix_ms (pos 0)
    then true
    else leb_ℤ (unix_milli src.next_due_unix_ms) now

-- nextDueForReport, with Next of the schedule, for times behind 1970
unfoldable pub next_due_for_report : (ℤ → ℤ) → ℤ → Bool → ℤ
next_due_for_report next after run_now_only =
    if run_now_only then pos 0 else quot 1000000 (next after)

-- truncateErr, on the text of the error
unfoldable pub truncate_err : Bytes → Bytes
truncate_err e = if ltb max_report_err_len (length e) then take max_report_err_len e else e

-- The loop of a poll: the sources that it runs, in their order
unfoldable pub due_sources : List CollectionSource → ℤ → List CollectionSource
due_sources [] now = []
due_sources (src ∷ srcs) now =
    let rest = due_sources srcs now in
    if not src.enabled
    then rest
    else if collection_source_run_now_only src
    then rest
    else if not (collection_source_due src now)
    then rest
    else src ∷ rest

-- runRssPoll, on what the controller answers; runGithubPoll and runJmapPoll read their credentials before
-- it
unfoldable pub poll :
    Result Bytes (List CollectionSource) → ℤ → Result Bytes (List CollectionSource)
poll (err e) now = err e
poll (ok srcs) now = ok (due_sources srcs now)
