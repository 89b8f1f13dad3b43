-- ===== src/Bootstrap/Tests.antt =====
-- A controller behind the ingress, which only answers under the prefix.
use ice_hive.Prelude.{ℕ, ◌≡◌, refl, true, [], ◌++◌, some, if◌then◌else◌, Result, ok, err}
use ice_hive.Text.{
  Bytes, codes, str_eq, trim_space, trim, trim_left, trim_right, is_space, has_suffix, to_lower,
  lower, contains, has_prefix, equal_fold,
}
use ice_hive.ControllerUrl.{
  trim_base, with_api_prefix, has_api_prefix, is_method_not_allowed, is_connect_unknown_405,
}
use ice_hive.Bootstrap.{
  Controller, config_value, connect_error, error_text, finish_runtime, or_empty, trim_value,
  with_sink, Error, WorkerRuntime, fetch, fetch_at, after_first, retried,
}
use ice_hive.Bootstrap.Ready.{Arrives, fetch-Arrives}

answer : Bytes → Bytes → Result ℕ Bytes
unfolding str_eq
answer base key =
    if str_eq base (codes "http://h/api")
    then if str_eq key (codes "amqp.url") then ok (codes "amqp://b/") else ok []
    else err 405

toy : Controller
unfolding answer
toy = record {
  Failure = ℕ;
  get_config = answer;
  as_connect = λ e. some (record { code_unknown = true; message = codes "HTTP status 405" });
  message = λ e. codes "unknown: HTTP status 405";
  path_escape = λ s. s;
  amqp_url_text = λ host login path. host ++ path;
}

fetch-Arrives_example :
    Arrives toy
      (codes "http://h/")
      (codes "collector")
      (codes "c1")
      (fetch toy (codes "http://h/") (codes "collector") (codes "c1"))
fetch-Arrives_example = fetch-Arrives toy (codes "http://h/") (codes "collector") (codes "c1")

base_of : Result (Error toy) (WorkerRuntime × Bytes) → Bytes
base_of (ok (wr, base)) = base
base_of (err e) = []

fetch_under_prefix :
    base_of (fetch toy (codes "http://h/") (codes "collector") (codes "c1")) ≡ codes "http://h/api"
unfolding base_of fetch trim_base trim_right trim_space trim trim_left is_space fetch_at
    config_value toy is_method_not_allowed is_connect_unknown_405 contains to_lower has_prefix lower
    has_api_prefix answer after_first connect_error error_text finish_runtime or_empty retried
    trim_value with_sink with_api_prefix equal_fold has_suffix str_eq
fetch_under_prefix = refl
