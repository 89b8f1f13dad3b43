-- ===== src/Amqp/Calm.antt =====
-- A broker that takes everything, for tests.
use ice_hive.Prelude.{ℕ, false, [], none, ok}
use ice_hive.Amqp.Broker.{Broker}

abbrev pub calm : Broker
calm = record {
  World = ℕ;
  Conn = ℕ;
  Chan = ℕ;
  Failure = ℕ;
  is_err_closed = λ e. false;
  message = λ e. [];
  dial = λ w url name. (w, ok 0);
  open_chan = λ w c. (w, ok 0);
  declare_exchange = λ w h x. (w, none);
  publish = λ w h x k p. (w, none);
  close_conn = λ w c. w;
  close_chan = λ w h. w;
  conn_closed = λ w c. false;
  chan_closed = λ w h. false;
}
