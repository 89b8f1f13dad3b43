-- ===== src/Amqp/Broker.antt =====
-- What the client calls of the package github.com/rabbitmq/amqp091-go, as an interface: the
-- program does not implement it. A call returns the broker's new state beside its result.
use ice_hive.Prelude.{ℕ, ◌≡◌, ◌⊎◌, Bool, true, false, Option, none, Result, ok, err}
use ice_hive.Text.{Bytes}

-- amqp091.Publishing
pub record Publishing : Type 0 where
  pub delivery_mode : ℕ
  pub content_type : Bytes
  pub body : Bytes

pub record Broker : Type 1 where
  -- The broker and the network.
  pub World : Type 0
  pub Conn : Type 0
  pub Chan : Type 0
  pub Failure : Type 0
  -- errors.Is(err, amqp091.ErrClosed), and err.Error()
  pub is_err_closed : Failure → Bool
  pub message : Failure → Bytes
  -- amqp091.DialConfig: the url and the connection name
  pub dial : World → Bytes → Bytes → World × Result Failure Conn
  -- Connection.Channel, Channel.ExchangeDeclare, Channel.PublishWithContext
  pub open_chan : World → Conn → World × Result Failure Chan
  pub declare_exchange : World → Chan → Bytes → World × Option Failure
  pub publish : World → Chan → Bytes → Bytes → Publishing → World × Option Failure
  -- Connection.Close, Channel.Close, Connection.IsClosed, Channel.IsClosed
  pub close_conn : World → Conn → World
  pub close_chan : World → Chan → World
  pub conn_closed : World → Conn → Bool
  pub chan_closed : World → Chan → Bool

-- What the client relies on: a connection is opened by a dial that succeeds and by nothing else, a
-- fresh handle is open, and a closed connection is closed.
pub record Laws (b : Broker) : Type 0 where
  pub dial_opens :
      (w : b.World) (url name : Bytes) (w' : b.World) (c : b.Conn)
      → b.dial w url name ≡ (w', ok c)
      → b.conn_closed w' c ≡ false
  pub dial_one :
      (w : b.World) (url name : Bytes) (w' : b.World) (c d : b.Conn)
      → b.dial w url name ≡ (w', ok c)
      → b.conn_closed w' d ≡ false
      → (b.conn_closed w d ≡ false) ⊎ (c ≡ d)
  pub dial_none :
      (w : b.World) (url name : Bytes) (w' : b.World) (e : b.Failure) (d : b.Conn)
      → b.dial w url name ≡ (w', err e)
      → b.conn_closed w' d ≡ false
      → b.conn_closed w d ≡ false
  pub open_chan_keeps :
      (w : b.World) (c d : b.Conn)
      → b.conn_closed (b.open_chan w c).0 d ≡ false
      → b.conn_closed w d ≡ false
  pub declare_keeps :
      (w : b.World) (h : b.Chan) (x : Bytes) (d : b.Conn)
      → b.conn_closed (b.declare_exchange w h x).0 d ≡ false
      → b.conn_closed w d ≡ false
  pub publish_keeps :
      (w : b.World) (h : b.Chan) (x k : Bytes) (p : Publishing) (d : b.Conn)
      → b.conn_closed (b.publish w h x k p).0 d ≡ false
      → b.conn_closed w d ≡ false
  pub close_conn_closes : (w : b.World) (c : b.Conn) → b.conn_closed (b.close_conn w c) c ≡ true
  pub close_conn_keeps :
      (w : b.World) (c d : b.Conn)
      → b.conn_closed (b.close_conn w c) d ≡ false
      → b.conn_closed w d ≡ false
  pub close_chan_keeps :
      (w : b.World) (h : b.Chan) (d : b.Conn)
      → b.conn_closed (b.close_chan w h) d ≡ false
      → b.conn_closed w d ≡ false
  pub declare_open :
      (w : b.World) (h : b.Chan) (x : Bytes) (w' : b.World)
      → b.declare_exchange w h x ≡ (w', none)
      → b.chan_closed w' h ≡ false
