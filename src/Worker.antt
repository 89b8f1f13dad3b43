-- ===== src/Worker.antt =====
-- services/common/pkg/collector/run.go and services/common/pkg/persist/run.go: how a worker starts.
-- The two files have the same loops. The world moves while a loop waits; where the end of the
-- context and the end of the wait come together, either may be seen.
pub mod Retry
pub mod Starts
mod Tests
use ice_hive.Prelude.{
  ℕ, Bool, true, false, [], ◌∷◌, ◌++◌, Option, none, some, if◌then◌else◌, Result, ok, err,
}
use ice_hive.Text.{Bytes, codes, is_nil, trim_space}
use ice_hive.Amqp.Names.{Config}
use ice_hive.Amqp.Broker.{Broker}
use ice_hive.Amqp.Client.{Client, Error, Outcome, connect}
use ice_hive.Bootstrap.{Controller, WorkerRuntime, Fetched, fetch}
use ice_hive.Bootstrap as Bootstrap
use ice_hive.Worker.Retry.{Ended, ready, stopped, running, retry}

-- The worker's surroundings: the controller it reaches, whether the context is done when a loop
-- comes to its wait, and what ten seconds make of the world.
pub record Surroundings (b : Broker) : Type 1 where
  pub controller : b.World → Controller
  pub is_done : b.World → Bool
  pub wait : b.World → b.World

-- The kind and the id that are sent, from the binary's configuration
unfoldable pub or_default : Bytes → Bytes → Bytes
or_default s default = let t = trim_space s in if is_nil t then default else t

module _ (b : Broker) (around : Surroundings b) where
  open b use {World}

  -- retryWait behind a failed attempt
  abbrev waited {ℓ} : {A : Type ℓ} → World → Ended A × World
  waited w = if around.is_done w then (stopped, w) else (running, around.wait w)

  unfoldable pub fetched :
      (w : World) → Fetched (around.controller w) → Ended (WorkerRuntime × Bytes) × World
  fetched w (ok r) = (ready r, w)
  fetched w (err e) = waited w

  -- A round of fetchBootstrapWithRetry; a fetch does not change the broker.
  unfoldable pub fetch_round : Bytes → Bytes → Bytes → World → Ended (WorkerRuntime × Bytes) × World
  unfolding fetched
  fetch_round base kind id w = fetched w (fetch (around.controller w) base kind id)

  -- fetchBootstrapWithRetry, for a number of rounds
  unfoldable pub fetch_bootstrap_with_retry :
      Bytes → Bytes → Bytes → ℕ → World → Ended (WorkerRuntime × Bytes) × World
  fetch_bootstrap_with_retry base kind id = retry (fetch_round base kind id)

  unfoldable pub connected : World → Client b → Option (Error b) → Ended (Client b) × World
  connected w c none = (ready c, w)
  connected w c (some e) = waited w

  abbrev pub broker_config : WorkerRuntime → Bytes → Config
  broker_config boot connection_name = record {
    url = boot.amqp_url;
    exchange = boot.amqp_exchange;
    connection_name = connection_name;
  }

  -- A round of waitForAMQPConnect
  unfoldable pub connect_round : WorkerRuntime → Bytes → World → Ended (Client b) × World
  unfolding connected
  connect_round boot connection_name w =
      let r = connect b w (broker_config boot connection_name) in connected r.world r.client r.error

  -- waitForAMQPConnect, for a number of rounds
  unfoldable pub wait_for_amqp_connect :
      WorkerRuntime → Bytes → ℕ → World → Ended (Client b) × World
  wait_for_amqp_connect boot connection_name = retry (connect_round boot connection_name)

  unfoldable pub joined :
      WorkerRuntime → Ended (Client b) × World → Ended (WorkerRuntime × Client b) × World
  joined boot (stopped, w) = (stopped, w)
  joined boot (running, w) = (running, w)
  joined boot (ready c, w) = (ready (boot, c), w)

  unfoldable pub booted :
      Bytes → ℕ → Ended (WorkerRuntime × Bytes) × World → Ended (WorkerRuntime × Client b) × World
  unfolding joined
  booted name n (stopped, w) = (stopped, w)
  booted name n (running, w) = (running, w)
  booted name n (ready (boot, base), w) = joined boot (wait_for_amqp_connect boot name n w)

  -- The part of collector.Main that makes the worker's settings and its client, each loop for a
  -- number of rounds; persist.Main does the same with another name and another default kind.
  unfoldable pub start_worker :
      Bytes → Bytes → Bytes → Bytes → Bytes → ℕ → World → Ended (WorkerRuntime × Client b) × World
  unfolding booted
  start_worker base worker_kind worker_id id prefix n w = booted (prefix ++ id) n (
      fetch_bootstrap_with_retry base (or_default worker_kind (codes "collector"))
        (or_default worker_id id) n w)
