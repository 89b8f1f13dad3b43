-- ===== src/Rss/Run/Tests.antt =====
-- A feed of three entries, of which two are published; another source is not due.
use ice_hive.Prelude.{refl, Bool, true, false, List, [], ◌∷◌, Option, none, some, ok, err}
use ice_hive.Prelude.Int.{ℤ, pos}
use ice_hive.Text.{Bytes, codes}
use ice_hive.Amqp.Calm.{calm}
use ice_hive.Amqp.Client.{Client}
use ice_hive.Controller.Server.{CollectionSource}
use ice_hive.Rss.Spec as SpecLibrary
use ice_hive.Rss.Items.{Library, Item}
use ice_hive.Rss.Entity.{Feed}
use ice_hive.Rss.Run.{Environment, Process, run_one_rss_source, run_rss_poll}
use ice_hive.Rss.Run.Outcome.{Reported}
use ice_hive.Rss.Run.Reports.{run_one-Reported}
use ice_hive.Rss.Run.Poll.{Once, Picks, IsDue, run_rss_poll-Once}

abbrev items : Library
items = record {
  Time = ℤ;
  unix_ms = λ t. t;
  format_utc = λ t. codes "t";
  nfc = λ s. s;
  sha256_hex = λ s. s;
}

abbrev specs : SpecLibrary.Library
specs = record {
  Failure = Bool;
  parse_url = λ s. ok (record { scheme = codes "http"; host = codes "h"; text = s });
  decode = λ s. err false;
  nfc = λ s. s;
}

abbrev entry : Bytes → ℤ → Option (Item items)
entry url time = some (record {
  title = url;
  description = [];
  content = [];
  guid = url;
  link = url;
  links = [];
  author = none;
  authors = [];
  categories = [];
  published = [];
  published_parsed = some time;
  updated_parsed = none;
})

abbrev feed : Feed items
feed = record {
  title = codes "News";
  description = [];
  link = [];
  feed_link = [];
  links = [];
  updated_parsed = none;
  language = [];
  feed_type = codes "rss";
  items = entry (codes "b") (pos 7) ∷ entry (codes "c") (pos 9) ∷ entry (codes "a") (pos 8) ∷ [];
}

abbrev env : Environment
env = record {
  broker = calm;
  items = items;
  specs = specs;
  spec_error = λ e. [];
  publish_error = λ e. [];
  clock = λ w. pos 5000000000;
  parse_cron = λ s. ok (λ t. pos 9000000000);
  fetch = λ w url. (w, ok feed);
  marshal = λ m. ok (codes "{}");
  unmarshal = λ s. err [];
}

abbrev source : Bytes → ℤ → CollectionSource
source id due = record {
  id = id;
  collector_type = codes "collector-rss";
  source_spec = codes "feed:http://h";
  cron_line = codes "@hourly";
  enabled = true;
  created_unix_ms = pos 0;
  updated_unix_ms = pos 0;
  last_run_unix_ms = pos 0;
  last_success_unix_ms = pos 0;
  last_error = [];
  next_due_unix_ms = due;
  seconds_since_last_success = pos 0;
  is_stale = false;
  entity_freshness_age_seconds = pos 0;
}

abbrev client : Client calm
client = record {
  conn = some 0;
  pub_ch = some 0;
  cfg = record { url = codes "amqp://h"; exchange = []; connection_name = [] };
  exchange = codes "icehive";
  closed = false;
}

abbrev start : Process env
start = record { world = 0; client = client; reports = [] }

run_one-Reported_example :
    Reported env
      (source (codes "s1") (pos 0))
      (pos 2)
      start
      (run_one_rss_source env (source (codes "s1") (pos 0)) (pos 5000000000) (pos 2) start)
unfolding ice_hive.Text.trim_space ice_hive.Text.trim ice_hive.Text.trim_right
    ice_hive.Text.trim_left ice_hive.Text.is_space
run_one-Reported_example =
    run_one-Reported env (source (codes "s1") (pos 0)) (pos 2) start refl (pos 5000000000)

abbrev two_sources : List CollectionSource
two_sources = source (codes "s1") (pos 0) ∷ source (codes "s2") (pos 6000) ∷ []

run_rss_poll-Once_example :
    (chosen : List CollectionSource) × Picks (IsDue (pos 5000000000)) two_sources chosen
    × Once env chosen start (run_rss_poll env (ok two_sources) (pos 2) start).1
unfolding ice_hive.Text.trim_space ice_hive.Text.trim ice_hive.Text.trim_right
    ice_hive.Text.trim_left ice_hive.Text.is_space
run_rss_poll-Once_example = run_rss_poll-Once env two_sources (pos 2) start (refl, (refl, tt))
