-- ===== src/Rss/Run/Outcome.antt =====
-- What is said of a run: what it was to publish, why it failed, and what was reported.
use ice_hive.Prelude.{◌≤◌, ◌≡◌, true, false, List, [], ◌∷◌, ◌++◌, map, ok, err, length}
use ice_hive.Prelude.Int.{ℤ, pos}
use ice_hive.Text.{Bytes, is_nil, trim_space}
use ice_hive.Controller.Server.{CollectionSource}
use ice_hive.Collector.{collection_source_run_now_only, truncate_err}
use ice_hive.Rss.Spec as SpecLibrary
use ice_hive.Rss.Spec.{RssSourceSpec, parse_rss_source_spec}
use ice_hive.Rss.Items.{selected_items}
use ice_hive.Rss.Entity.{EntityMessage, Feed, rss_feed_source_unique_id}
use ice_hive.Rss.Run.{Environment, Report, Process}
use ice_hive.Rss.Run.Publishing.{unique_id, Delivered, Unmarshalled, Refused, Stopped, item_ids}

module _ (env : Environment) where
  open env use {broker}

  -- The source_spec is parsed, and the feed is fetched; `w` is the world behind it.
  abbrev pub IsFetched :
      CollectionSource → Process env → RssSourceSpec → Feed env.items → broker.World → Type 0
  IsFetched src p spec feed w =
      (parse_rss_source_spec env.specs src.source_spec ≡ ok spec)
      × (env.fetch p.world spec.feed_url ≡ (w, ok feed))

  -- The identities of the feed and of the newest of its items
  abbrev pub expected_ids : CollectionSource → ℤ → RssSourceSpec → Feed env.items → List Bytes
  expected_ids src items_max spec feed =
      rss_feed_source_unique_id env.items src.id spec.feed_url
      ∷ item_ids env src.id spec.feed_url (selected_items env.items spec items_max feed.items)

  -- Why a run fails, with the text that is reported.
  pub data Obstacle (src : CollectionSource) (items_max : ℤ) (p : Process env) (text : Bytes)
      : Type 0 where
    invalid_cron :
        (e : Bytes)
        → env.parse_cron (trim_space src.cron_line) ≡ err e
        → text ≡ truncate_err e
        → Obstacle src items_max p text
    invalid_spec :
        (e : SpecLibrary.Error env.specs)
        → parse_rss_source_spec env.specs src.source_spec ≡ err e
        → text ≡ truncate_err (env.spec_error e)
        → Obstacle src items_max p text
    fetch_failed :
        (spec : RssSourceSpec) (e : Bytes)
        → parse_rss_source_spec env.specs src.source_spec ≡ ok spec
        → (env.fetch p.world spec.feed_url).1 ≡ err e
        → text ≡ truncate_err e
        → Obstacle src items_max p text
    no_identity :
        (spec : RssSourceSpec)
        → parse_rss_source_spec env.specs src.source_spec ≡ ok spec
        → is_nil (rss_feed_source_unique_id env.items src.id spec.feed_url) ≡ true
        → Obstacle src items_max p text
    unmarshalled :
        (spec : RssSourceSpec) (feed : Feed env.items) (w : broker.World) (e : Bytes)
        → IsFetched src p spec feed w
        → Stopped env (expected_ids src items_max spec feed) (Unmarshalled env e) w p.client
        → text ≡ truncate_err e
        → Obstacle src items_max p text
    unpublished :
        (spec : RssSourceSpec) (feed : Feed env.items) (w : broker.World) (e : Bytes)
        → IsFetched src p spec feed w
        → Stopped env (expected_ids src items_max spec feed) (Refused env e) w p.client
        → text ≡ truncate_err e
        → Obstacle src items_max p text

  -- The feed and the newest of its items were published, and nothing else.
  pub record Complete (src : CollectionSource) (items_max : ℤ) (p p' : Process env) : Type 0 where
    pub spec : RssSourceSpec
    pub feed : Feed env.items
    pub world : broker.World
    pub is_fetched : IsFetched src p spec feed world
    pub entities : List EntityMessage
    pub ids : map unique_id entities ≡ expected_ids src items_max spec feed
    pub delivered : Delivered env entities world p.client p'.world p'.client

  pub record Reported (src : CollectionSource) (items_max : ℤ) (p p' : Process env) : Type 0 where
    pub report : Report
    pub one : p'.reports ≡ p.reports ++ (report ∷ [])
    pub of_source : report.id ≡ src.id
    pub short : length report.error ≤ 2048
    pub run_now : collection_source_run_now_only src ≡ true → report.next_due_unix_ms ≡ pos 0
    pub success : report.success ≡ true → Complete src items_max p p'
    pub failure : report.success ≡ false → Obstacle src items_max p report.error
