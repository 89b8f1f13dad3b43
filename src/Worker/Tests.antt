-- ===== src/Worker/Tests.antt =====
-- A worker whose controller does not answer at first, and whose broker then refuses the first dial.
use ice_hive.Prelude.{
  ℕ, suc, ◌+◌, ◌≡◌, refl, [], ◌++◌, false, ◌==◌, none, some, ok, err, if◌then◌else◌, Result,
}
use ice_hive.Prelude.Int.{pos}
use ice_hive.Text.{
  Bytes, codes, str_eq, trim_space, trim, trim_left, trim_right, is_space, equal_fold, to_lower,
  lower, contains, has_prefix,
}
use ice_hive.Amqp.Broker.{Broker}
use ice_hive.Amqp.Names.{exchange_name}
use ice_hive.Amqp.Client.{Client, connect, connect_locked, dial_failed}
use ice_hive.ControllerUrl.{trim_base, is_method_not_allowed, is_connect_unknown_405}
use ice_hive.Bootstrap.{
  WorkerRuntime, fetch, fetch_at, config_value, trim_value, finish_runtime, with_sink, after_first,
}
use ice_hive.Bootstrap as Bootstrap
use ice_hive.Worker.Retry.{ready}
use ice_hive.Worker.{Surroundings, or_default, broker_config, start_worker}
use ice_hive.Worker.Starts.{
  fetch_fails, no_fetch_failed, connect_fails, no_connect_failed, start_worker_ends,
}

-- The world is the number of waits that are over.
abbrev late : Broker
late = record {
  World = ℕ;
  Conn = ℕ;
  Chan = ℕ;
  Failure = ℕ;
  is_err_closed = λ e. false;
  message = λ e. [];
  dial = λ w url name. (w, if w == 1 then err 1 else ok 0);
  open_chan = λ w c. (w, ok 0);
  declare_exchange = λ w h x. (w, none);
  publish = λ w h x k p. (w, none);
  close_conn = λ w c. w;
  close_chan = λ w h. w;
  conn_closed = λ w c. false;
  chan_closed = λ w h. false;
}

answer : Bytes → Result ℕ Bytes
answer key = if str_eq key (codes "amqp.url") then ok (codes "amqp://b/") else ok []

abbrev around : Surroundings late
around = record {
  controller = λ w. record {
    Failure = ℕ;
    get_config = λ base key. if w == 0 then err 1 else answer key;
    as_connect = λ e. none;
    message = λ e. [];
    path_escape = λ s. s;
    amqp_url_text = λ host login path. host;
  };
  is_done = λ w. false;
  wait = λ w. suc w;
}

abbrev settings : WorkerRuntime
settings = record {
  amqp_url = codes "amqp://b/";
  amqp_exchange = codes "ex_icehive";
  routing_key_control_events = codes "control.events";
  mysql_host = [];
  mysql_user = [];
  mysql_password = [];
  mysql_database = [];
  mysql_port = pos 0;
}

no_answer :
    fetch
      (around.controller 0)
      (codes "http://h")
      (or_default [] (codes "collector"))
      (or_default [] (codes "rss"))
    ≡ err (Bootstrap.get_config_failed (codes "amqp.url") 1)
unfolding fetch fetch_at config_value trim_value finish_runtime with_sink after_first trim_base
    trim_space trim trim_left trim_right is_space equal_fold to_lower lower answer str_eq or_default
    contains has_prefix is_method_not_allowed is_connect_unknown_405
no_answer = refl

then_answers :
    fetch
      (around.controller 1)
      (codes "http://h")
      (or_default [] (codes "collector"))
      (or_default [] (codes "rss"))
    ≡ ok (settings, codes "http://h")
unfolding fetch fetch_at config_value trim_value finish_runtime with_sink after_first trim_base
    trim_space trim trim_left trim_right is_space equal_fold to_lower lower answer str_eq or_default
then_answers = refl

abbrev name : Bytes
name = codes "ih_collector_" ++ codes "rss"

refused : (connect late 1 (broker_config late around settings name)).error ≡ some (dial_failed 1)
unfolding connect connect_locked
refused = refl

then_connects : (connect late 2 (broker_config late around settings name)).error ≡ none
unfolding connect connect_locked
then_connects = refl

abbrev joined_client : Client late
joined_client = record {
  conn = some 0;
  pub_ch = some 0;
  cfg = record {
    url = codes "amqp://b/";
    exchange = codes "ex_icehive";
    connection_name = codes "ih_collector_rss";
  };
  exchange = codes "ex_icehive";
  closed = false;
}

the_client : (connect late 2 (broker_config late around settings name)).client ≡ joined_client
unfolding connect connect_locked exchange_name
the_client = refl

start_worker_ends_example :
    start_worker late around
      (codes "http://h")
      []
      []
      (codes "rss")
      (codes "ih_collector_")
      (suc (1 + 1 + 0))
      0
    ≡ (
      ready (settings, (connect late 2 (broker_config late around settings name)).client),
      (connect late 2 (broker_config late around settings name)).world,
    )
unfolding connect connect_locked
start_worker_ends_example =
    start_worker_ends late around (codes "http://h") [] [] (codes "rss") (codes "ih_collector_")
      (codes "http://h") 1 1 0 0 1 2 settings
      (fetch_fails 0 1 0 (Bootstrap.get_config_failed (codes "amqp.url") 1) no_answer refl
        (no_fetch_failed 1))
      then_answers (connect_fails 1 2 0 (dial_failed 1) refused refl (no_connect_failed 2))
      then_connects
