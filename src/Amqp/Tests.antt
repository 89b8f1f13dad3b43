-- ===== src/Amqp/Tests.antt =====
-- A small broker that meets the laws, and the theorems at it.
use ice_hive.Prelude.{
  ℕ, ◌+◌, ◌≡◌, refl, inr, Bool, true, false, not, ◌&&◌, List, [], ◌∷◌, none, some, arith, ◌==◌,
  if◌then◌else◌, ok,
}
use ice_hive.Text.{Bytes, codes, has_prefix, trim_space, trim, trim_left, trim_right, is_space}
use ice_hive.Amqp.Names.{Config, queue_name, exchange_name}
use ice_hive.Amqp.Broker.{Broker, Laws}
use ice_hive.Amqp.Client.{
  Client, connect_locked, connect, ensure_connected_locked, publish_locked, publish_json,
  content_type_json, persistent, fresh_client, close, failed, client_closed,
}
use ice_hive.Amqp.Client.Locked.{Idle}
use ice_hive.Amqp.Client.Owns.{here, next, publishes_json, connect-no_leak, close-Idle}
use ice_hive.Amqp.Client.Publish.{Delivers, publish_json-Delivers}
use ice_hive.Amqp.Consume.{Delivery, acked, nacked, consume_json}
use ice_hive.Amqp.Consume.Settle.{SettlesRun, json_verdict, consume_json-Settles}

-- The last connection handed out, and whether it is open; connections are numbered.
abbrev toy_closed : ℕ × Bool → ℕ → Bool
toy_closed w d = not (w.0 == d && w.1)

abbrev toy_close : ℕ × Bool → ℕ → ℕ × Bool
toy_close w c = if w.0 == c then (w.0, false) else w

abbrev toy : Broker
toy = record {
  World = ℕ × Bool;
  Conn = ℕ;
  Chan = ℕ;
  Failure = ℕ;
  is_err_closed = λ e. e == 0;
  message = λ e. codes "refused";
  dial = λ w url name. ((w.0 + 1, true), ok (w.0 + 1));
  open_chan = λ w c. (w, ok c);
  declare_exchange = λ w h x. (w, none);
  publish = λ w h x k p. (w, none);
  close_conn = toy_close;
  close_chan = λ w h. w;
  conn_closed = toy_closed;
  chan_closed = λ w h. false;
}

toy_laws : Laws toy
toy_laws = record {
  dial_opens = λ w url name w' c e. ground arith;
  dial_one = λ w url name w' c d e h. inr (ground arith);
  dial_none = λ w url name w' e d q h. cc;
  open_chan_keeps = λ w c d h. h;
  declare_keeps = λ w h x d g. g;
  publish_keeps = λ w h x k p d g. g;
  close_conn_closes = λ w c. ground arith;
  close_conn_keeps = λ w c d h. ground arith;
  close_chan_keeps = λ w h d g. g;
  declare_open = λ w h x w' e. refl;
}

abbrev cfg : Config
cfg = record { url = codes "amqp://localhost/"; exchange = []; connection_name = [] }

toy-Idle : Idle toy toy_laws (0, false)
toy-Idle = λ d h. ground arith

connected_client : Client toy
unfolding exchange_name
connected_client = record (fresh_client toy cfg) { conn = some 1; pub_ch = some 1 }

connect-no_leak_example :
    (publish_json toy
      (connect toy (0, false) cfg).world
      (connect toy (0, false) cfg).client
      (codes "k")
      (codes "{}")).client.conn
    ≡ some 1
unfolding publish_json publish_locked ensure_connected_locked connect connect_locked
connect-no_leak_example =
    connect-no_leak toy toy_laws (0, false) cfg toy-Idle
      (next here (publishes_json (codes "k") (codes "{}"))) 1 refl

close-Idle_example :
    Idle toy toy_laws (close toy (1, true) connected_client).0
    × (publish_locked toy
          (close toy (1, true) connected_client).0
          (close toy (1, true) connected_client).1
          (codes "k")
          (record { delivery_mode = persistent; content_type = []; body = codes "{}" })
        ≡ failed toy
            (close toy (1, true) connected_client).0
            (close toy (1, true) connected_client).1
            client_closed)
unfolding connected_client
close-Idle_example =
    close-Idle toy toy_laws (1, true) connected_client (codes "k")
      (record { delivery_mode = persistent; content_type = []; body = codes "{}" })
      (λ d h. ground arith)

publish_json-Delivers_example :
    Delivers toy
      (codes "ex_icehive")
      (codes "k")
      (record { delivery_mode = persistent; content_type = content_type_json; body = codes "{}" })
      (publish_json toy (1, true) connected_client (codes "k") (codes "{}")).world
      (publish_json toy (1, true) connected_client (codes "k") (codes "{}")).error
unfolding connected_client exchange_name
publish_json-Delivers_example =
    publish_json-Delivers toy (1, true) connected_client (codes "k") (codes "{}")

named : queue_name (codes " jobs ") ≡ codes "ih_jobs"
unfolding queue_name has_prefix trim_space trim trim_left trim_right is_space
named = refl

-- A handler that counts, and refuses a body that starts with `x`.
count : ℕ → Bytes → ℕ × Bool
count n s = (n + 1, not (has_prefix s (codes "x")))

abbrev mail : List Delivery
mail =
    (record { body = codes "a"; ack_works = true })
    ∷ (record { body = []; ack_works = true })
    ∷ (record { body = codes "xy"; ack_works = true })
    ∷ []

mail_run :
    consume_json count 0 mail
    ≡ record { state = 2; settled = acked ∷ nacked ∷ nacked ∷ []; stopped = false }
unfolding consume_json count has_prefix
mail_run = refl

consume_json-Settles_example : SettlesRun (json_verdict count) 0 mail (consume_json count 0 mail)
consume_json-Settles_example = consume_json-Settles count 0 mail
