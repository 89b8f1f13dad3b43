-- ===== src/Controller/Server/Opening.antt =====
-- services/controller/main.go: the loops that open the database and the broker. The attempt on the
-- database, which runs the migrations, is a parameter; both loops also ask for the context's end
-- before each attempt.
use ice_hive.Prelude.{ℕ, Bool, Option, none, some, if◌then◌else◌, Result, ok, err}
use ice_hive.Text.{Bytes, codes, trim_space}
use ice_hive.Amqp.Broker.{Broker}
use ice_hive.Amqp.Client.{Client, Error, connect}
use ice_hive.Controller.Db.{Collation, Db}
use ice_hive.Controller.Db.Meta.{AmqpBootstrapSettings, UrlText, load_amqp_bootstrap_settings}
use ice_hive.Worker.Retry.{Ended, ready, stopped, running, retry}

module _ {ℓ κ} {A : Type ℓ} {S : Type κ} (is_done : S → Bool) (wait : S → S) where
  tried : Result Bytes A × S → Ended A × S
  tried (ok a, s) = (ready a, s)
  tried (err e, s) = if is_done s then (stopped, s) else (running, wait s)

  unfoldable pub open_round : (S → Result Bytes A × S) → S → Ended A × S
  unfolding tried
  open_round attempt s = if is_done s then (stopped, s) else tried (attempt s)

  -- openMySQLUntilReady, with openMySQLAndMigrate as the attempt, for a number of rounds
  unfoldable pub open_mysql_until_ready : (S → Result Bytes A × S) → ℕ → S → Ended A × S
  open_mysql_until_ready attempt = retry (open_round attempt)

module _ (b : Broker) (c : Collation) (u : UrlText) where
  opened : Db → b.World → Client b → Option (Error b) → Result Bytes (Client b) × (Db × b.World)
  opened d w cl none = (ok cl, (d, w))
  opened d w cl (some e) = (err (codes "connect failed"), (d, w))

  connected :
      b.World → Result Bytes AmqpBootstrapSettings × Db → Result Bytes (Client b) × (Db × b.World)
  unfolding opened
  connected w (err e, d) = (err e, (d, w))
  connected w (ok a, d) =
      let r = connect b w (record {
        url = trim_space a.url;
        exchange = trim_space a.exchange;
        connection_name = codes "ih_controller";
      }) in
      opened d r.world r.client r.error

  -- An attempt of openAMQUntilReady: the settings from the database, and the connection; the text of
  -- the error is only logged.
  unfoldable pub amqp_attempt : Db × b.World → Result Bytes (Client b) × (Db × b.World)
  unfolding connected
  amqp_attempt (d, w) = connected w (load_amqp_bootstrap_settings c u d)

  -- openAMQUntilReady, for a number of rounds
  unfoldable pub open_amq_until_ready :
      (Db × b.World → Bool)
      → (Db × b.World → Db × b.World)
      → ℕ
      → Db × b.World
      → Ended (Client b) × (Db × b.World)
  open_amq_until_ready is_done wait = retry (open_round is_done wait amqp_attempt)
