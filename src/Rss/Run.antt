-- ===== src/Rss/Run.antt =====
-- services/collector-rss/main.go and collection_requests.go: the run of a source, from its row to the
-- report to the controller. What the controller answers to a report is only logged.

pub mod Publishing
pub mod Outcome
pub mod Reports
pub mod Poll
mod Tests
use ice_hive.Prelude.{
  Bool, true, false, not, List, [], ◌∷◌, ◌++◌, Option, none, some, if◌then◌else◌, Result, ok, err,
  length,
}
use ice_hive.Prelude.Int.{ℤ, pos, quot}
use ice_hive.Text.{Bytes, codes, is_nil, str_eq, trim_space}
use ice_hive.Amqp.Names.{routing_key_collector_entities}
use ice_hive.Amqp.Broker.{Broker}
use ice_hive.Amqp.Client.{Client, Error, publish_json}
use ice_hive.Controller.Server.{CollectionSource}
use ice_hive.Collector.{
  collection_source_run_now_only, next_due_for_report, truncate_err, due_sources,
}
use ice_hive.Rss.Spec as SpecLibrary
use ice_hive.Rss.Spec.{RssSourceSpec, parse_rss_source_spec}
use ice_hive.Rss.Items.{Library, Item, selected_items}
use ice_hive.Rss.Entity.{
  EntityMessage, Feed, collector_rss_type, build_rss_feed_entity, build_rss_article_entity,
}

-- What a run uses of other code. `clock` is the time in nanoseconds, `parse_cron` gives Next of the
-- schedule or the text of an error, `fetch` gives the feed at a URL or the text of an error.
pub record Environment : Type 1 where
  pub broker : Broker
  pub items : Library
  pub specs : SpecLibrary.Library
  pub spec_error : SpecLibrary.Error specs → Bytes
  pub publish_error : Error broker → Bytes
  pub clock : broker.World → ℤ
  pub parse_cron : Bytes → Result Bytes (ℤ → ℤ)
  pub fetch : broker.World → Bytes → broker.World × Result Bytes (Feed items)
  pub marshal : EntityMessage → Result Bytes Bytes
  -- protojson.Unmarshal of a CollectionRequest: its source
  pub unmarshal : Bytes → Result Bytes (Option CollectionSource)

-- A ReportCollectionSourceRunRequest.
pub record Report : Type 0 where
  pub id : Bytes
  pub run_unix_ms : ℤ
  pub success : Bool
  pub error : Bytes
  pub next_due_unix_ms : ℤ

unfoldable pub feed_format : Bytes → Bytes
feed_format s = let t = trim_space s in if is_nil t then codes "unknown" else t

module _ (env : Environment) where
  open env use {broker}

  -- The collector, with the reports that it has sent.
  pub record Process : Type 0 where
    pub world : broker.World
    pub client : Client broker
    pub reports : List Report

  pub data Ended : Type 0 where
    published : Ended
    marshal_failed publish_failed : Bytes → Ended

  abbrev pub now_ms : Process → ℤ
  now_ms p = quot 1000000 (env.clock p.world)

  abbrev pub report_at : Process → Bytes → Bool → Bytes → ℤ → Report
  report_at p id success error next_due = record {
    id = id;
    run_unix_ms = now_ms p;
    success = success;
    error = error;
    next_due_unix_ms = next_due;
  }

  unfoldable pub report_collection_source_run : Process → Bytes → Bool → Bytes → ℤ → Process
  report_collection_source_run p id success error next_due =
      if is_nil (trim_space id)
      then p
      else record p { reports = p.reports ++ (report_at p id success error next_due ∷ []) }

  publish_ended : Option (Error broker) → Ended
  publish_ended none = published
  publish_ended (some e) = publish_failed (env.publish_error e)

  -- amqpClient.PublishJSON of what Marshal returns
  unfoldable pub publish_body : Process → Result Bytes Bytes → Process × Ended
  unfolding publish_ended
  publish_body p (err e) = (p, marshal_failed e)
  publish_body p (ok body) =
      let r = publish_json broker p.world p.client routing_key_collector_entities body in
      (record p { world = r.world; client = r.client }, publish_ended r.error)

  pub after_entity : (Process → Process × Ended) → Process × Ended → Process × Ended
  after_entity rest (p, published) = rest p
  after_entity rest (p, marshal_failed e) = (p, marshal_failed e)
  after_entity rest (p, publish_failed e) = (p, publish_failed e)

  -- An item that is turned into no entity is skipped.
  pub publish_entity :
      (Process → Process × Ended) → Option EntityMessage → Process → Process × Ended
  unfolding after_entity
  publish_entity rest none p = rest p
  publish_entity rest (some entity) p = after_entity rest (publish_body p (env.marshal entity))

  -- The loop over the items
  unfoldable pub publish_articles :
      (ℤ → Option (Item env.items) → Option EntityMessage)
      → List (Option (Item env.items))
      → Process
      → Process × Ended
  unfolding publish_entity
  publish_articles build [] p = (p, published)
  publish_articles build (it ∷ items) p =
      publish_entity (λ p'. publish_articles build items p') (build (now_ms p) it) p

  -- The report behind the publishing; `next_due` gives the next time behind another.
  unfoldable pub report_ended : Bytes → (ℤ → ℤ) → ℤ → Process × Ended → Process
  report_ended id next_due now (p, published) =
      report_collection_source_run p id true [] (next_due (env.clock p.world))
  report_ended id next_due now (p, marshal_failed e) =
      report_collection_source_run p id false (truncate_err e) (next_due now)
  report_ended id next_due now (p, publish_failed e) =
      report_collection_source_run p id false (truncate_err e) (next_due (env.clock p.world))

  run_built :
      (ℤ → ℤ)
      → ℤ
      → Bytes
      → Bytes
      → Feed env.items
      → List (Option (Item env.items))
      → Option EntityMessage
      → Process
      → Process
  unfolding after_entity
  run_built next_due now id url feed items none p =
      report_collection_source_run p id false (codes "rss: could not build RssFeed entity")
        (next_due now)
  run_built next_due now id url feed items (some entity) p =
      let build = λ (at : ℤ).
        build_rss_article_entity env.items at id url (trim_space feed.title)
          (feed_format feed.feed_type) in
      report_ended id next_due now
        (after_entity (publish_articles build items) (publish_body p (env.marshal entity)))

  run_fetched :
      (ℤ → ℤ)
      → ℤ
      → ℤ
      → Bytes
      → RssSourceSpec
      → Process
      → broker.World × Result Bytes (Feed env.items)
      → Process
  unfolding run_built
  run_fetched next_due now items_max id spec p (w, err e) =
      report_collection_source_run (record p { world = w }) id false (truncate_err e) (next_due now)
  run_fetched next_due now items_max id spec p (w, ok feed) =
      let p' = record p { world = w } in
      let items = selected_items env.items spec items_max feed.items in
      run_built next_due now id spec.feed_url feed items
        (build_rss_feed_entity env.items (now_ms p') id spec.feed_url (some feed)
          (feed_format feed.feed_type) (length items))
        p'

  run_parsed :
      (ℤ → ℤ)
      → ℤ
      → ℤ
      → Bytes
      → Result (SpecLibrary.Error env.specs) RssSourceSpec
      → Process
      → Process
  unfolding run_fetched
  run_parsed next_due now items_max id (err e) p =
      report_collection_source_run p id false (truncate_err (env.spec_error e)) (next_due now)
  run_parsed next_due now items_max id (ok spec) p =
      run_fetched next_due now items_max id spec p (env.fetch p.world spec.feed_url)

  run_scheduled : CollectionSource → ℤ → ℤ → Result Bytes (ℤ → ℤ) → Process → Process
  unfolding run_parsed
  run_scheduled src now items_max (err e) p =
      report_collection_source_run p src.id false (truncate_err e) (pos 0)
  run_scheduled src now items_max (ok next) p =
      run_parsed (λ after. next_due_for_report next after (collection_source_run_now_only src)) now
        items_max src.id (parse_rss_source_spec env.specs src.source_spec) p

  -- runOneRssSource. A source with no cron line has no schedule, and none is asked for.
  unfoldable pub run_one_rss_source : CollectionSource → ℤ → ℤ → Process → Process
  unfolding run_scheduled
  run_one_rss_source src now items_max p =
      run_scheduled src now items_max
        (if collection_source_run_now_only src
          then ok (λ t. t)
          else env.parse_cron (trim_space src.cron_line))
        p

  pub run_all : List CollectionSource → ℤ → ℤ → Process → Process
  run_all [] now items_max p = p
  run_all (src ∷ srcs) now items_max p =
      run_all srcs now items_max (run_one_rss_source src now items_max p)

  -- runRssPoll, on what the controller answers
  unfoldable pub run_rss_poll :
      Result Bytes (List CollectionSource) → ℤ → Process → Result Bytes (Unit {0}) × Process
  unfolding run_all
  run_rss_poll (err e) items_max p = (err e, p)
  run_rss_poll (ok sources) items_max p =
      let now = env.clock p.world in (ok tt, run_all (due_sources sources now) now items_max p)

  handle_source : Option CollectionSource → ℤ → Process → Process
  handle_source none items_max p = p
  handle_source (some src) items_max p =
      if str_eq src.collector_type collector_rss_type
      then run_one_rss_source src (env.clock p.world) items_max p
      else p

  handle_decoded : Result Bytes (Option CollectionSource) → ℤ → Process → Process
  unfolding handle_source
  handle_decoded (err e) items_max p = p
  handle_decoded (ok source) items_max p = handle_source source items_max p

  -- handleRSSCollectionRequest, which returns no error
  unfoldable pub handle_rss_collection_request : Bytes → ℤ → Process → Process
  unfolding handle_decoded
  handle_rss_collection_request body items_max p = handle_decoded (env.unmarshal body) items_max p
