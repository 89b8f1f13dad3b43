-- ===== src/Rss/Spec/Tests.antt =====
-- A library that takes every URL for one of http.
use ice_hive.Prelude.{Bool, [], some, ok}
use ice_hive.Prelude.Int.{pos}
use ice_hive.Text.{codes}
use ice_hive.Rss.Spec.{Library, parse_rss_source_spec}
use ice_hive.Rss.Spec.Sound.{Accepts, parse_rss_source_spec-Accepts}

abbrev toy : Library
toy = record {
  Failure = Bool;
  parse_url = λ s. ok (record { scheme = codes "http"; host = codes "h"; text = s });
  decode =
      λ s. ok (record { articles_max = some (pos 50); feed = codes "http://h"; feed_url = [] });
  nfc = λ s. s;
}

parse_rss_source_spec-Accepts_example :
    Accepts toy (codes " feed: http://h") (parse_rss_source_spec toy (codes " feed: http://h"))
parse_rss_source_spec-Accepts_example = parse_rss_source_spec-Accepts toy (codes " feed: http://h")
