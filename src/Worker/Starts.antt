-- ===== src/Worker/Starts.antt =====
-- services/common/pkg/collector/run.go: a worker starts as soon as its surroundings let it.
use ice_hive.Prelude.{ℕ, suc, ◌+◌, ◌≡◌, refl, ap, ◌∙◌, ◌++◌, arith, false, none, some, ok, err}
use ice_hive.Text.{Bytes, codes}
use ice_hive.Amqp.Broker.{Broker}
use ice_hive.Amqp.Client.{Error, connect}
use ice_hive.Bootstrap.{WorkerRuntime, fetch}
use ice_hive.Bootstrap as Bootstrap
use ice_hive.Worker.Retry.{ready, retry, Rounds, none_yet, one_more, retry_ends}
use ice_hive.Worker.{
  Surroundings, or_default, fetched, fetch_round, fetch_bootstrap_with_retry, connected,
  broker_config, connect_round, wait_for_amqp_connect, joined, booted, start_worker,
}

module _ (b : Broker) (around : Surroundings b) where
  open b use {World}

  -- So many fetches fail, one behind each wait, and the context is not done at any of the waits.
  pub data FetchesFail (base kind id : Bytes) : ℕ → World → World → Type 0 where
    no_fetch_failed : (w : World) → FetchesFail base kind id 0 w w
    fetch_fails :
        (w t : World) (n : ℕ) (e : Bootstrap.Error (around.controller w))
        → fetch (around.controller w) base kind id ≡ err e
        → around.is_done w ≡ false
        → FetchesFail base kind id n (around.wait w) t
        → FetchesFail base kind id (suc n) w t

  -- So many attempts to connect fail, each in the world that the one before it and the wait leave, and
  -- the context is not done at any of the waits.
  pub data ConnectsFail (boot : WorkerRuntime) (name : Bytes) : ℕ → World → World → Type 0 where
    no_connect_failed : (w : World) → ConnectsFail boot name 0 w w
    connect_fails :
        (w t : World) (n : ℕ) (e : Error b)
        → (connect b w (broker_config b around boot name)).error ≡ some e
        → around.is_done (connect b w (broker_config b around boot name)).world ≡ false
        → ConnectsFail boot name n
            (around.wait (connect b w (broker_config b around boot name)).world)
            t
        → ConnectsFail boot name (suc n) w t

  FetchesFail-Rounds :
      (base kind id : Bytes) (n : ℕ) (w t : World)
      → FetchesFail base kind id n w t
      → Rounds (fetch_round b around base kind id) n w t
  unfolding fetch_round fetched
  FetchesFail-Rounds base kind id n w t (no_fetch_failed x) = none_yet x
  FetchesFail-Rounds base kind id n w t (fetch_fails x y m e q d r) =
      one_more x (around.wait x) y m (rw (q, d) refl)
        (FetchesFail-Rounds base kind id m (around.wait x) y r)

  ConnectsFail-Rounds :
      (boot : WorkerRuntime) (name : Bytes) (n : ℕ) (w t : World)
      → ConnectsFail boot name n w t
      → Rounds (connect_round b around boot name) n w t
  unfolding connect_round connected
  ConnectsFail-Rounds boot name n w t (no_connect_failed x) = none_yet x
  ConnectsFail-Rounds boot name n w t (connect_fails x y m e q d r) =
      one_more x _ y m (rw (q, d) refl) (ConnectsFail-Rounds boot name m _ y r)

  last_fetch :
      (base kind id effective : Bytes) (w : World) (boot : WorkerRuntime)
      → fetch (around.controller w) base kind id ≡ ok (boot, effective)
      → fetch_round b around base kind id w ≡ (ready (boot, effective), w)
  unfolding fetch_round fetched
  last_fetch base kind id effective w boot q = rw q refl

  last_connect :
      (boot : WorkerRuntime) (name : Bytes) (w : World)
      → (connect b w (broker_config b around boot name)).error ≡ none
      → connect_round b around boot name w ≡ (
        ready (connect b w (broker_config b around boot name)).client,
        (connect b w (broker_config b around boot name)).world,
      )
  unfolding connect_round connected
  last_connect boot name w q = rw q refl

  -- A worker whose fetches of the bootstrap fail some times before the controller answers, and whose
  -- attempts to connect then fail some times before the broker accepts one, starts with the settings
  -- of that answer and the client of that connection, in the world they leave, when the context is
  -- not done at a wait between them and each loop is given more rounds than all the failures.
  pub start_worker_ends :
      (base worker_kind worker_id id prefix effective : Bytes) (n m k : ℕ) (w t u : World)
      (boot : WorkerRuntime)
      → FetchesFail base
          (or_default worker_kind (codes "collector"))
          (or_default worker_id id)
          n
          w
          t
      → fetch
          (around.controller t)
          base
          (or_default worker_kind (codes "collector"))
          (or_default worker_id id)
        ≡ ok (boot, effective)
      → ConnectsFail boot (prefix ++ id) m t u
      → (connect b u (broker_config b around boot (prefix ++ id))).error ≡ none
      → start_worker b around base worker_kind worker_id id prefix (suc (n + m + k)) w ≡ (
        ready (boot, (connect b u (broker_config b around boot (prefix ++ id))).client),
        (connect b u (broker_config b around boot (prefix ++ id))).world,
      )
  unfolding start_worker booted joined fetch_bootstrap_with_retry wait_for_amqp_connect
  start_worker_ends base worker_kind worker_id id prefix effective n m k w t u boot fs f cs c =
      let kind = or_default worker_kind (codes "collector") in
      let wid = or_default worker_id id in
      let name = prefix ++ id in
      let r = connect b u (broker_config b around boot name) in
      let answered =
        ap (λ i. retry (fetch_round b around base kind wid) i w) (omega arith)
        ∙ retry_ends (fetch_round b around base kind wid) n (m + k) w t t (ready (boot, effective))
            (FetchesFail-Rounds base kind wid n w t fs)
            (last_fetch base kind wid effective t boot f) refl in
      let accepted =
        ap (λ i. retry (connect_round b around boot name) i t) (omega arith)
        ∙ retry_ends (connect_round b around boot name) m (n + k) t u r.world (ready r.client)
            (ConnectsFail-Rounds boot name m t u cs) (last_connect boot name u c) refl in
      ap (booted b around name (suc (n + m + k))) answered ∙ ap (joined b around boot) accepted
