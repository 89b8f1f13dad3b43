-- ===== src/Rss/Run/Reports.antt =====
-- A run is reported exactly once, and as a success exactly when all its entities were published.
use ice_hive.Prelude.{
  ℕ, ◌≤◌, ltb, ◌≡◌, refl, ap, true, false, List, [], ◌∷◌, ◌++◌, some, Result, ok, err, Bool-cases,
  inl, inr, length, arith, length-take,
}
use ice_hive.Prelude.Int.{ℤ, pos}
use ice_hive.Text.{Bytes, is_nil, trim_space}
use ice_hive.Controller.Server.{CollectionSource}
use ice_hive.Collector.{collection_source_run_now_only, next_due_for_report, truncate_err}
use ice_hive.Rss.Spec as SpecLibrary
use ice_hive.Rss.Spec.{RssSourceSpec, parse_rss_source_spec}
use ice_hive.Rss.Items.{selected_items}
use ice_hive.Rss.Entity.{
  EntityMessage, Feed, build_rss_feed_entity, build_rss_article_entity, feed_entry_source_unique_id,
  rss_feed_source_unique_id,
}
use ice_hive.Rss.Run.{
  Environment, Report, Process, Ended, published, marshal_failed, publish_failed, report_at,
  report_collection_source_run, report_ended, feed_format, run_built, run_fetched, run_parsed,
  run_scheduled, run_one_rss_source,
}
use ice_hive.Rss.Run.Publishing.{item_ids, Looped, entity-Looped, publish_articles-Looped}
use ice_hive.Rss.Run.Outcome.{
  IsFetched, expected_ids, Obstacle, invalid_cron, invalid_spec, fetch_failed, no_identity,
  unmarshalled, unpublished, Complete, Reported,
}

truncate_err-short : (e : Bytes) → length (truncate_err e) ≤ 2048
unfolding truncate_err
truncate_err-short e = elim (Bool-cases (ltb 2048 (length e))) [
  | inl h ↦ rw h (omega (arith, length-take 2048 e))
  | inr h ↦ rw h (ground (arith, h))
]

module _ (env : Environment) where
  open env use {broker}

  module _ (src : CollectionSource) (items_max : ℤ) (p : Process env)
      (named : is_nil (trim_space src.id) ≡ false) where
    fail-Reported :
        (p1 : Process env) (text : Bytes) (due : ℤ)
        → p1.reports ≡ p.reports
        → length text ≤ 2048
        → (collection_source_run_now_only src ≡ true → due ≡ pos 0)
        → Obstacle env src items_max p text
        → Reported env src items_max p (report_collection_source_run env p1 src.id false text due)
    unfolding report_collection_source_run
    fail-Reported p1 text due h short z o = rw named (record {
      report = report_at env p1 src.id false text due;
      one = ap (λ rs. rs ++ (report_at env p1 src.id false text due ∷ [])) h;
      of_source = refl;
      short = short;
      run_now = z;
      success = λ e. absurd (ground (arith, e));
      failure = λ e. o;
    })

    pass-Reported :
        (p1 : Process env) (due : ℤ)
        → p1.reports ≡ p.reports
        → (collection_source_run_now_only src ≡ true → due ≡ pos 0)
        → ((rs : List Report) → Complete env src items_max p (record p1 { reports = rs }))
        → Reported env src items_max p (report_collection_source_run env p1 src.id true [] due)
    unfolding report_collection_source_run
    pass-Reported p1 due h z o = rw named (record {
      report = report_at env p1 src.id true [] due;
      one = ap (λ rs. rs ++ (report_at env p1 src.id true [] due ∷ [])) h;
      of_source = refl;
      short = omega arith;
      run_now = z;
      success = λ e. o _;
      failure = λ e. absurd (ground (arith, e));
    })

    module _ (next_due : ℤ → ℤ) (now : ℤ)
        (z : (after : ℤ) → collection_source_run_now_only src ≡ true → next_due after ≡ pos 0) where
      ended-Reported :
          (spec : RssSourceSpec) (feed : Feed env.items) (w : broker.World)
          (y : Process env × Ended env)
          → IsFetched env src p spec feed w
          → Looped env (expected_ids env src items_max spec feed) (record p { world = w }) y
          → Reported env src items_max p (report_ended env src.id next_due now y)
      unfolding report_ended
      ended-Reported spec feed w (p', published) f (h, (ms, is, d)) =
          pass-Reported p' _ h (z _) (λ rs. record {
            spec = spec;
            feed = feed;
            world = w;
            is_fetched = f;
            entities = ms;
            ids = is;
            delivered = d;
          })
      ended-Reported spec feed w (p', marshal_failed e) f (h, s) =
          fail-Reported p' (truncate_err e) _ h (truncate_err-short e) (z _)
            (unmarshalled spec feed w e f s refl)
      ended-Reported spec feed w (p', publish_failed e) f (h, s) =
          fail-Reported p' (truncate_err e) _ h (truncate_err-short e) (z _)
            (unpublished spec feed w e f s refl)

      built-Reported :
          (spec : RssSourceSpec) (feed : Feed env.items) (w : broker.World)
          → parse_rss_source_spec env.specs src.source_spec ≡ ok spec
          → env.fetch p.world spec.feed_url ≡ (w, ok feed)
          → (at : ℤ) (count : ℕ)
          → let p1 = record p { world = w } in
            Reported env src items_max p (
              run_built env next_due now src.id spec.feed_url feed
                (selected_items env.items spec items_max feed.items)
                (build_rss_feed_entity env.items at src.id spec.feed_url
                  (some feed)
                  (feed_format feed.feed_type)
                  count)
                p1)
      unfolding run_built build_rss_feed_entity ice_hive.Rss.Entity.entity_message
      built-Reported spec feed w parsed fetched at count =
          let p1 = record p { world = w } in
          let url = spec.feed_url in
          let uid = rss_feed_source_unique_id env.items src.id url in
          let items = selected_items env.items spec items_max feed.items in
          elim (Bool-cases (is_nil uid)) [
            | inl e ↦ rw e (
                fail-Reported p1 _ (next_due now) refl (omega arith) (z now)
                  (no_identity spec parsed e))
            | inr e ↦ rw e (
                ended-Reported spec feed w _ (parsed, fetched)
                  (entity-Looped env _ (item_ids env src.id url items) p1 _ (
                    publish_articles-Looped env src.id url (trim_space feed.title)
                      (feed_format feed.feed_type) items)))
          ]

      fetched-Reported :
          (spec : RssSourceSpec) (y : broker.World × Result Bytes (Feed env.items))
          → parse_rss_source_spec env.specs src.source_spec ≡ ok spec
          → env.fetch p.world spec.feed_url ≡ y
          → Reported env src items_max p (run_fetched env next_due now items_max src.id spec p y)
      unfolding run_fetched
      fetched-Reported spec (w, err e) parsed fetched =
          fail-Reported (record p { world = w }) _ (next_due now) refl (truncate_err-short e)
            (z now) (fetch_failed spec e parsed (ap (λ r. r.1) fetched) refl)
      fetched-Reported spec (w, ok feed) parsed fetched =
          built-Reported spec feed w parsed fetched _ _

      parsed-Reported :
          (r : Result (SpecLibrary.Error env.specs) RssSourceSpec)
          → parse_rss_source_spec env.specs src.source_spec ≡ r
          → Reported env src items_max p (run_parsed env next_due now items_max src.id r p)
      unfolding run_parsed
      parsed-Reported (err e) parsed =
          fail-Reported p _ (next_due now) refl (truncate_err-short (env.spec_error e)) (z now)
            (invalid_spec e parsed refl)
      parsed-Reported (ok spec) parsed = fetched-Reported spec _ parsed refl

    with_next-Reported :
        (now : ℤ) (next : ℤ → ℤ)
        → Reported env src items_max p (run_scheduled env src now items_max (ok next) p)
    unfolding run_scheduled next_due_for_report
    with_next-Reported now next =
        parsed-Reported
          (λ after. next_due_for_report next after (collection_source_run_now_only src)) now
          (λ after run_now. rw run_now refl) _ refl

    scheduled-Reported :
        (now : ℤ) (r : Result Bytes (ℤ → ℤ))
        → env.parse_cron (trim_space src.cron_line) ≡ r
        → Reported env src items_max p (run_scheduled env src now items_max r p)
    unfolding run_scheduled
    scheduled-Reported now (err e) k =
        fail-Reported p _ (pos 0) refl (truncate_err-short e) (λ _. refl) (invalid_cron e k refl)
    scheduled-Reported now (ok next) k = with_next-Reported now next

    -- A run of a source with an id is reported exactly once, under that id, with a text of at most 2048
    -- bytes, and with no next time if the source has no cron line. If the report says success, then the
    -- feed's entity and those of its newest items, as many as the source allows and all that have an
    -- identity, were published in this order and nothing else. If it says failure, then the text is that
    -- of the error of the cron line, of the source_spec, of the fetch, or of the first of these entities
    -- that could not be marshalled or published, or the feed has no identity.
    pub run_one-Reported :
        (now : ℤ) → Reported env src items_max p (run_one_rss_source env src now items_max p)
    unfolding run_one_rss_source
    run_one-Reported now = elim (Bool-cases (collection_source_run_now_only src)) [
      | inl e ↦ rw e (with_next-Reported now (λ t. t))
      | inr e ↦ rw e (scheduled-Reported now _ refl)
    ]
