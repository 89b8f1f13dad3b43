-- ===== src/Bootstrap.antt =====
-- services/common/pkg/bootstrap/bootstrap.go: the settings that a worker reads from the controller
-- when it starts. One fetch asks for each key at most once at each base, so what the controller
-- answers is a function of the two.
pub mod Ready
mod Tests
use ice_hive.Prelude.{
  ℕ, ◌+◌, ◌*◌, ◌-◌, ◌^◌, Bool, true, false, not, ◌&&◌, ◌||◌, [], ◌∷◌, ◌++◌, Option, none, some, ltb,
  leb, ◌==◌, if◌then◌else◌, Result, ok, err, ◌>>=◌,
}
use ice_hive.Prelude.Int.{ℤ, pos, negsuc}
use ice_hive.Text.{Bytes, codes, is_nil, trim_space, equal_fold, has_prefix}
use ice_hive.Amqp.Names.{default_control_exchange, routing_key_control_events}
use ice_hive.ControllerUrl.{
  ConnectError, trim_base, has_api_prefix, with_api_prefix, is_method_not_allowed,
}

-- GetConfig of the Connect client at a base URL, and what is used of net/url.
pub record Controller : Type 1 where
  pub Failure : Type 0
  -- the value, and the empty text when there is no such variable
  pub get_config : Bytes → Bytes → Result Failure Bytes
  pub as_connect : Failure → Option ConnectError
  pub message : Failure → Bytes
  -- url.PathEscape
  pub path_escape : Bytes → Bytes
  -- String() of a url.URL with the scheme amqp: host and port, user and password, path
  pub amqp_url_text : Bytes → Option (Bytes × Bytes) → Bytes → Bytes

pub record WorkerRuntime : Type 0 where
  pub amqp_url : Bytes
  pub amqp_exchange : Bytes
  pub routing_key_control_events : Bytes
  pub mysql_host : Bytes
  pub mysql_user : Bytes
  pub mysql_password : Bytes
  pub mysql_database : Bytes
  pub mysql_port : ℤ

-- strconv.Atoi on 64 bits
read_digit : Option ℕ → ℕ → Option ℕ
read_digit none c = none
read_digit (some n) c = if leb 48 c && leb c 57 then some (n * 10 + (c - 48)) else none

unfoldable pub read_number : Option ℕ → Bytes → Option ℕ
unfolding read_digit
read_number n [] = n
read_number n (c ∷ s) = read_number (read_digit n c) s

positive : Option ℕ → Option ℤ
positive none = none
positive (some n) = if ltb n (2 ^ 63) then some (pos n) else none

negative : Option ℕ → Option ℤ
negative none = none
negative (some n) =
    if n == 0 then some (pos 0) else if leb n (2 ^ 63) then some (negsuc (n - 1)) else none

digits_of : Bytes → Option ℕ
digits_of s = if is_nil s then none else read_number (some 0) s

unfoldable pub atoi : Bytes → Option ℤ
unfolding positive negative digits_of
atoi [] = none
atoi (c ∷ s) =
    if c == b'-'
    then negative (digits_of s)
    else if c == b'+'
    then positive (digits_of s)
    else positive (digits_of (c ∷ s))

-- Atoi of a port, 0 where it fails
unfoldable pub port_of : Bytes → ℤ
port_of s = zero_default (atoi s)
  where
    zero_default : Option ℤ → ℤ
    zero_default none = pos 0
    zero_default (some n) = n

-- strings.TrimPrefix(vhost, "/"), and "/" where nothing is left
unfoldable pub clean_vhost : Bytes → Bytes
clean_vhost [] = b'/' ∷ []
clean_vhost (c ∷ s) =
    let rest = if c == b'/' then s else c ∷ s in if is_nil rest then b'/' ∷ [] else rest

module _ (k : Controller) where
  open k use {Failure}

  pub data Error : Type 0 where
    empty_base kind_and_id_required empty_amqp_url : Error
    get_config_failed : Bytes → Failure → Error
    retry_failed : Error → Bytes → Error → Error

  -- getConfig
  unfoldable pub trim_value : Bytes → Result Failure Bytes → Result Error Bytes
  trim_value key (err e) = err (get_config_failed key e)
  trim_value key (ok v) = ok (trim_space v)

  unfoldable pub config_value : Bytes → Bytes → Result Error Bytes
  unfolding trim_value
  config_value base key = trim_value key (k.get_config base key)

  -- `v, _ := getConfig(key)`: an error counts as the empty text.
  or_empty : Result Error Bytes → Bytes
  or_empty (err e) = []
  or_empty (ok v) = v

  unfoldable pub optional_value : Bytes → Bytes → Bytes
  unfolding or_empty
  optional_value base key = or_empty (config_value base key)

  -- The URL from host, port, user, password and vhost, for controllers without amqp.url.
  unfoldable pub assembled_url : Bytes → Bytes
  assembled_url base =
      let host = optional_value base (codes "amqp.host") in
      let port = optional_value base (codes "amqp.port") in
      let user = optional_value base (codes "amqp.user") in
      let pass = optional_value base (codes "amqp.password") in
      let vhost = clean_vhost (optional_value base (codes "amqp.vhost")) in
      let port' = if is_nil port then codes "5672" else port in
      let path = if is_slash_text vhost then b'/' ∷ [] else b'/' ∷ k.path_escape vhost in
      let login = if is_nil user then none else some (user, pass) in
      if is_nil host then [] else k.amqp_url_text (host ++ (b':' ∷ port')) login path
    where
      is_slash_text : Bytes → Bool
      is_slash_text [] = false
      is_slash_text (c ∷ s) = c == b'/' && is_nil s

  abbrev bare_runtime : Bytes → Bytes → Bytes → WorkerRuntime
  bare_runtime url exchange key = record {
    amqp_url = url;
    amqp_exchange = exchange;
    routing_key_control_events = key;
    mysql_host = [];
    mysql_user = [];
    mysql_password = [];
    mysql_database = [];
    mysql_port = pos 0;
  }

  unfoldable pub with_sink : Bytes → WorkerRuntime → WorkerRuntime
  with_sink base wr = record wr {
    mysql_host = optional_value base (codes "persister_mysql.host");
    mysql_port = port_of (optional_value base (codes "persister_mysql.port"));
    mysql_user = optional_value base (codes "persister_mysql.user");
    mysql_password = optional_value base (codes "persister_mysql.password");
    mysql_database = optional_value base (codes "persister_mysql.database");
  }

  abbrev or_else : Bytes → Bytes → Bytes
  or_else v default = if is_nil v then default else v

  -- The part of fetchAt behind the three keys that have to be read.
  unfoldable pub finish_runtime : Bytes → Bytes → Bytes → Bytes → Bytes → Result Error WorkerRuntime
  unfolding with_sink
  finish_runtime base kind url exchange key =
      let url' = if is_nil url then assembled_url base else url in
      let bare =
        bare_runtime url' (or_else exchange default_control_exchange)
          (or_else key routing_key_control_events) in
      let is_persister = equal_fold (trim_space kind) (codes "persister") in
      if is_nil url'
      then err empty_amqp_url
      else ok (if is_persister then with_sink base bare else bare)

  -- fetchAt
  unfoldable pub fetch_at : Bytes → Bytes → Result Error WorkerRuntime
  fetch_at base kind = config_value base (codes "amqp.url") >>= λ url.
      config_value base (codes "amqp.exchange") >>= λ exchange.
      config_value base (codes "amqp.routing_key_control_events") >>= λ key.
      finish_runtime base kind url exchange key

  -- The error's text, for those that fetchAt makes.
  error_text : Error → Bytes
  error_text (get_config_failed key e) =
      codes "get config \"" ++ (key ++ (codes "\": " ++ k.message e))
  error_text empty_amqp_url = codes "bootstrap: controller returned empty amqp url"
  error_text empty_base = codes "bootstrap: empty controller base URL"
  error_text kind_and_id_required = codes "bootstrap: kind and id are required"
  error_text (retry_failed e base f) = []

  connect_error : Error → Option ConnectError
  connect_error (get_config_failed key e) = k.as_connect e
  connect_error empty_amqp_url = none
  connect_error empty_base = none
  connect_error kind_and_id_required = none
  connect_error (retry_failed e base f) = none

  -- What `Fetch` returns: the settings and the base that worked, or the error.
  abbrev pub Fetched : Type 0
  Fetched = Result Error (WorkerRuntime × Bytes)

  retried : Error → Bytes → Result Error WorkerRuntime → Fetched
  retried e api_base (ok wr) = ok (wr, api_base)
  retried e api_base (err f) = err (retry_failed e api_base f)

  unfoldable pub after_first : Bytes → Bytes → Result Error WorkerRuntime → Fetched
  unfolding error_text connect_error retried
  after_first base kind (ok wr) = ok (wr, base)
  after_first base kind (err e) =
      if is_method_not_allowed (connect_error e) (error_text e) && not (has_api_prefix base)
      then retried e (with_api_prefix base) (fetch_at (with_api_prefix base) kind)
      else err e

  -- Fetch
  unfoldable pub fetch : Bytes → Bytes → Bytes → Fetched
  unfolding after_first
  fetch base_url kind id =
      let base = trim_base base_url in
      if is_nil base
      then err empty_base
      else if is_nil (trim_space kind) || is_nil (trim_space id)
      then err kind_and_id_required
      else after_first base kind (fetch_at base kind)
