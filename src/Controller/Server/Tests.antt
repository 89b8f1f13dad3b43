-- ===== src/Controller/Server/Tests.antt =====
-- The controller with one source, two settings and a broker that takes everything.
use ice_hive.Collector.{collection_source_due}
use ice_hive.Collector.Due.{reported_next_due}
use ice_hive.Controller.Server.Sources.{collection_source_to_proto}
use ice_hive.Controller.Health.{PipelineHealth, unix_milli}
use ice_hive.Prelude.Int.{leb_ℤ}
use ice_hive.Text.{Bytes, is_nil}
use ice_hive.Prelude.{
  if◌then◌else◌, ◌≡◌, refl, ap, true, false, List, [], ◌∷◌, none, some, Result, ok, err,
}
use mathlib.Core.List.{Perm}
use ice_hive.Sorting.{sort_with, insert_in_order}
use ice_hive.Text.{less}
use ice_hive.Prelude.Int.{ℤ, pos, ltb_ℤ, scale, quot}
use ice_hive.Text.{
  codes, trim_space, trim, trim_left, trim_right, is_space, has_prefix, str_eq, to_lower, lower,
  contains,
}
use ice_hive.Dict.{lookup, insert}
use ice_hive.Amqp.Calm.{calm}
use ice_hive.Amqp.Client.{Client, publish_json, publish_locked, ensure_connected_locked}
use ice_hive.Controller.Activity.{new_ring}
use ice_hive.Controller.Db.{MetaRow, CollectionSourceRow, Tables, Db, rows, next_fault, later}
use ice_hive.Controller.Db.Meta.{list_meta, set_meta, upsert_meta, upsert_row}
use ice_hive.Controller.Db.Meta.Sorting.{Sorted}
use ice_hive.Controller.Db.Sources.{
  same_row, touch, affected, reported, update_found, update_run, save_run,
  report_collection_source_run, require_collection_source_id, found_or, get_collection_source_by_id,
}
use ice_hive.Controller.Activity.Slots.{new_ring-IsValid}
use ice_hive.Controller.Health.{Clockwork}
use ice_hive.Controller.Server.{
  Environment, Server, ConnectError, unavailable, text, meta_db, on_db, db_answer,
}
use ice_hive.Controller.Server.Config.{
  ConfigVar, config_key_redacted, config_var_from_meta, list_config, get_config, set_config,
}
use ice_hive.Controller.Server.Config.Shown.{ShowsAll, list_config-Shown, set_config-get}
use ice_hive.Controller.Server.Sources.{
  collection_source_id, enqueue_collection_request, enqueue_target, enqueue_row, with_client,
  publish_request, published, note_enqueued, note_run, report_run_request,
}
use ice_hive.Controller.Server.Sources.Enqueue.{failed_enqueue}
use ice_hive.Controller.Server.Sources.Sent.{Sent, enqueue-Sent}
use ice_hive.Controller.Server.Sources.Report.{Reported, report_request-Recorded}

abbrev clockwork : Clockwork
clockwork = record {
  Float = ℤ;
  float = λ n. scale 1000000000 n;
  seconds = λ d. d;
  negative = λ x. ltb_ℤ x (pos 0);
  whole = λ x. quot 1000000000 x;
  duration = λ x. x;
  parse = λ s. none;
}

abbrev env : Environment
env = record {
  broker = calm;
  clockwork = clockwork;
  collation = record { fold = λ s. s; starts = has_prefix; json_text = λ s. s };
  urls = record { amqp_url_text = λ host login path. host; path_escape = λ s. s };
  marshal = λ s. ok (codes "{}");
  cron_error = λ s. none;
  valid = λ s. true;
  header = λ s. none;
}

abbrev feed : CollectionSourceRow
feed = record {
  id = codes "s1";
  collector_type = codes "collector-rss";
  source_spec = codes "rss:news";
  cron_line = codes "0 * * * *";
  enabled = true;
  last_run_unix_ms = none;
  last_success_unix_ms = none;
  last_error = none;
  next_due_unix_ms = none;
  created_at = pos 1;
  updated_at = pos 1;
}

abbrev tables : Tables
tables = record {
  meta =
      (codes "x.token", record { k = codes "x.token"; v = codes "t" })
      ∷ (codes "amqp.url", record { k = codes "amqp.url"; v = codes "amqp://b/" })
      ∷ [];
  heartbeats = [];
  sources = (codes "s1", feed) ∷ [];
  schemas = [];
}

abbrev client_of : Client calm
client_of = record {
  conn = some 0;
  pub_ch = some 0;
  cfg = record { url = codes "amqp://b/"; exchange = []; connection_name = [] };
  exchange = codes "ex_icehive";
  closed = false;
}

abbrev server : Server env
server = record {
  db = record { tables = tables; clock = pos 5000; faults = [] };
  has_db = true;
  k = none;
  amqp_client = some client_of;
  world = 0;
  probe = none;
  activity = new_ring (pos 2);
  startup_warnings = [];
  now = pos 5000000000;
}

succeeded {ℓ} :
    {A : Type ℓ} (a : A) (x : Result (ConnectError env) A × Server env)
    → x.0 ≡ ok a
    → x ≡ (ok a, x.1)
succeeded a x h = ap (λ r. (r, x.1)) h

abbrev listed : Result (ConnectError env) (List ConfigVar) × Server env
listed = list_config env server

abbrev vars : List ConfigVar
vars =
    (record { key = codes "amqp.url"; value = codes "amqp://b/"; redacted = false })
    ∷ (record { key = codes "x.token"; value = []; redacted = true })
    ∷ []

listed_ok : listed.0 ≡ ok vars
unfolding list_config list_meta meta_db on_db db_answer config_var_from_meta config_key_redacted
    to_lower lower contains has_prefix sort_with insert_in_order less next_fault later
listed_ok = refl

list_config-Shown_example :
    (rs : List MetaRow) × Perm rs (rows tables.meta) × Sorted (λ r. r.k) rs × ShowsAll rs vars
list_config-Shown_example =
    list_config-Shown env server listed.1 vars (succeeded vars listed listed_ok)

abbrev setting : Result (ConnectError env) (Unit {0}) × Server env
setting = set_config env (codes " x.token") (codes "new") server

setting_ok : setting.0 ≡ ok tt
unfolding set_config set_meta upsert_meta upsert_row meta_db on_db db_answer trim_space trim
    trim_left trim_right is_space lookup insert str_eq next_fault later
setting_ok = refl

no_fault_left : next_fault setting.1.db.faults ≡ none
unfolding set_config set_meta upsert_meta upsert_row meta_db on_db db_answer trim_space trim
    trim_left trim_right is_space lookup insert str_eq next_fault later
no_fault_left = refl

set_config-get_example :
    (get_config env (codes " x.token") setting.1).0
    ≡ ok (record {
      key = trim_space (codes " x.token");
      value = codes "new";
      redacted = config_key_redacted (trim_space (codes " x.token"));
    })
set_config-get_example =
    set_config-get env server setting.1 (codes " x.token") (codes "new")
      (succeeded tt setting setting_ok) no_fault_left

abbrev sending : Result (ConnectError env) (Unit {0}) × Server env
sending = enqueue_collection_request env (collection_source_id (codes "s1")) server

sending_ok : sending.0 ≡ ok tt
unfolding enqueue_collection_request with_client enqueue_target enqueue_row publish_request
    published note_enqueued publish_json publish_locked ensure_connected_locked meta_db on_db
    db_answer get_collection_source_by_id require_collection_source_id found_or trim_space trim
    trim_left trim_right is_space lookup str_eq next_fault later
sending_ok = refl

enqueue-Sent_example :
    (cl : Client calm) × (row : CollectionSourceRow) × (server.amqp_client ≡ some cl)
    × (lookup (trim_space (codes "s1")) tables.sources ≡ some row)
    × Sent env cl row server sending.1
enqueue-Sent_example =
    enqueue-Sent env (codes "s1") server sending.1 (succeeded tt sending sending_ok)

abbrev offline : Server env
offline = record server { amqp_client = none }

abbrev not_connected : ConnectError env
not_connected = record { code = unavailable; cause = text (codes "AMQP not connected yet") }

abbrev refused : Result (ConnectError env) (Unit {0}) × Server env
refused = enqueue_collection_request env (collection_source_id (codes "s1")) offline

refused_err : refused.0 ≡ err not_connected
unfolding enqueue_collection_request with_client
refused_err = refl

failed_enqueue_example :
    (refused.1.activity ≡ offline.activity) × (refused.1.db.tables ≡ offline.db.tables)
failed_enqueue_example =
    failed_enqueue env (collection_source_id (codes "s1")) offline refused.1 not_connected
      (ap (λ r. (r, refused.1)) refused_err)

abbrev reporting : Result (ConnectError env) (Unit {0}) × Server env
reporting = report_run_request env (codes "s1") (pos 4000) true [] (pos 0) server

reporting_ok : reporting.0 ≡ ok tt
unfolding report_run_request note_run meta_db on_db db_answer report_collection_source_run save_run
    update_run update_found affected reported same_row touch trim_space trim trim_left trim_right
    is_space str_eq lookup insert next_fault later
reporting_ok = refl

report_request-Recorded_example :
    Reported env (trim_space (codes "s1")) (pos 4000) true [] (pos 0) server reporting.1
report_request-Recorded_example =
    report_request-Recorded env (codes "s1") (pos 4000) true [] (pos 0) server reporting.1
      (new_ring-IsValid (pos 2)) (succeeded tt reporting reporting_ok)

abbrev run_reported : Result Bytes (Unit {0}) × Db
run_reported =
    report_collection_source_run env.collation (codes "s1") (pos 4000) true [] (pos 9000) server.db

run_reported_ok : run_reported.0 ≡ ok tt
unfolding report_collection_source_run save_run update_run update_found affected reported same_row
    touch trim_space trim trim_left trim_right is_space str_eq lookup insert next_fault later
run_reported_ok = refl

abbrev fresh : PipelineHealth clockwork
fresh = record {
  seconds_since_last_success = pos 0;
  is_stale = false;
  entity_freshness_age_seconds = pos 0;
}

reported_next_due_example :
    (row : CollectionSourceRow) × (lookup (trim_space (codes "s1")) run_reported.1.tables.sources
      ≡ some row)
    × (collection_source_due (collection_source_to_proto env row fresh) (pos 9000000000) ≡ (
        if is_nil (trim_space row.cron_line)
        then false
        else leb_ℤ (unix_milli (pos 9000)) (pos 9000000000)))
reported_next_due_example =
    reported_next_due env (codes "s1") (pos 4000) true [] (pos 9000) (pos 9000000000) server.db
      run_reported.1 fresh refl (ap (λ r. (r, run_reported.1)) run_reported_ok)
