-- ===== src/Amqp/Client.antt =====
-- services/common/pkg/amqpctl/client.go: connecting, publishing and closing. A method that the
-- mutex guards runs as one step; logging is left out.
pub mod Locked
pub mod Owns
pub mod Publish
use mathlib.Core.Option
use ice_hive.Prelude.{
  ℕ, Bool, true, false, not, ◌&&◌, ◌||◌, Option, none, some, if◌then◌else◌, Result, ok, err,
}
use ice_hive.Text.{Bytes, codes, is_nil, trim_space, contains}
use ice_hive.Amqp.Names.{Config, exchange_name}
use ice_hive.Amqp.Broker.{Broker, Publishing}

-- amqp.Persistent
abbrev pub persistent : ℕ
persistent = 2

abbrev pub content_type_protobuf : Bytes
content_type_protobuf = codes "application/x-protobuf"

abbrev pub content_type_json : Bytes
content_type_json = codes "application/json"

unfoldable pub client_connection_name : Bytes → Bytes
client_connection_name s =
    let name = trim_space s in if is_nil name then codes "ih_icehive" else name

module _ (b : Broker) where
  open b use {World, Conn, Chan, Failure}

  pub data Error : Type 0 where
    empty_url client_closed empty_body nil_channel marshal_failed : Error
    dial_failed channel_failed declare_failed publish_failed : Failure → Error
    reconnect_failed : Error → Error

  pub record Client : Type 0 where
    pub conn : Option Conn
    pub pub_ch : Option Chan
    pub cfg : Config
    pub exchange : Bytes
    pub closed : Bool

  -- A step's outcome: the broker, the client and the error, `none` for nil.
  pub record Outcome : Type 0 where
    pub world : World
    pub client : Client
    pub error : Option Error

  abbrev pub done : World → Client → Outcome
  done w c = record { world = w; client = c; error = none }

  abbrev pub failed : World → Client → Error → Outcome
  failed w c e = record { world = w; client = c; error = some e }

  -- connectLocked, behind the declaration of the exchange
  connect_declared : Client → Conn → Chan → World × Option Failure → Outcome
  connect_declared c conn ch (w, some e) =
      failed (b.close_conn (b.close_chan w ch) conn) c (declare_failed e)
  connect_declared c conn ch (w, none) = done w (record c { conn = some conn; pub_ch = some ch })

  -- connectLocked, behind the opening of the channel
  connect_opened : Client → Conn → World × Result Failure Chan → Outcome
  unfolding connect_declared
  connect_opened c conn (w, err e) = failed (b.close_conn w conn) c (channel_failed e)
  connect_opened c conn (w, ok ch) = connect_declared c conn ch (b.declare_exchange w ch c.exchange)

  -- connectLocked, behind the dial
  connect_dialed : Client → World × Result Failure Conn → Outcome
  unfolding connect_opened
  connect_dialed c (w, err e) = failed w c (dial_failed e)
  connect_dialed c (w, ok conn) = connect_opened c conn (b.open_chan w conn)

  unfoldable pub connect_locked : World → Client → Outcome
  unfolding connect_dialed
  connect_locked w c =
      connect_dialed c (b.dial w c.cfg.url (client_connection_name c.cfg.connection_name))

  abbrev pub fresh_client : Config → Client
  fresh_client cfg = record {
    conn = none;
    pub_ch = none;
    cfg = cfg;
    exchange = exchange_name cfg;
    closed = false;
  }

  -- `Connect`
  unfoldable pub connect : World → Config → Outcome
  connect w cfg =
      if is_nil cfg.url
      then failed w (fresh_client cfg) empty_url
      else connect_locked w (fresh_client cfg)

  close_pub_ch : World → Option Chan → World
  close_pub_ch w none = w
  close_pub_ch w (some h) = b.close_chan w h

  close_own_conn : World → Option Conn → World
  close_own_conn w none = w
  close_own_conn w (some c) = b.close_conn w c

  -- closeConnLocked
  unfoldable pub close_conn_locked : World → Client → World × Client
  unfolding close_pub_ch close_own_conn
  close_conn_locked w c =
      (close_own_conn (close_pub_ch w c.pub_ch) c.conn, record c { conn = none; pub_ch = none })

  reset_declared : Client → Chan → World × Option Failure → Outcome
  reset_declared c ch (w, some e) =
      let (w', c') = close_conn_locked (b.close_chan w ch) c in failed w' c' (declare_failed e)
  reset_declared c ch (w, none) = done w (record c { pub_ch = some ch })

  reset_opened : Client → World × Result Failure Chan → Outcome
  unfolding reset_declared
  reset_opened c (w, err e) =
      let (w', c') = close_conn_locked w c in failed w' c' (channel_failed e)
  reset_opened c (w, ok ch) = reset_declared c ch (b.declare_exchange w ch c.exchange)

  -- resetPubChLocked, on a connection that is there
  unfoldable pub reset_pub_ch_locked : World → Client → Conn → Outcome
  unfolding reset_opened close_pub_ch
  reset_pub_ch_locked w c conn =
      reset_opened (record c { pub_ch = none }) (b.open_chan (close_pub_ch w c.pub_ch) conn)

  chan_open : World → Option Chan → Bool
  chan_open w none = false
  chan_open w (some h) = not (b.chan_closed w h)

  pub reconnect : World × Client → Outcome
  reconnect (w, c) = connect_locked w c

  ensure_conn : World → Client → Option Conn → Outcome
  unfolding chan_open reconnect
  ensure_conn w c none = reconnect (close_conn_locked w c)
  ensure_conn w c (some conn) =
      if b.conn_closed w conn
      then reconnect (close_conn_locked w c)
      else if chan_open w c.pub_ch
      then done w c
      else reset_pub_ch_locked w c conn

  unfoldable pub ensure_connected_locked : World → Client → Outcome
  unfolding ensure_conn
  ensure_connected_locked w c =
      if c.closed then failed w c client_closed else ensure_conn w c c.conn

  unfoldable pub is_amqp_gone : Failure → Bool
  is_amqp_gone e =
      b.is_err_closed e
      || contains (b.message e) (codes "channel/connection is not open")
      || contains (b.message e) (codes "Exception (504)")

  -- Goes on where there was no error.
  abbrev pub and_then : Outcome → (World → Client → Outcome) → Outcome
  and_then r k = elim r.error [ none ↦ k r.world r.client | some e ↦ failed r.world r.client e ]

  abbrev pub wrap_error : (Error → Error) → Outcome → Outcome
  wrap_error f r = record r { error = Option.map f r.error }

  last_answer : Client → World × Option Failure → Outcome
  last_answer c (w, none) = done w c
  last_answer c (w, some e) = failed w c (publish_failed e)

  -- The second c.pubCh.PublishWithContext. A publish through a nil channel would panic.
  last_publish : Bytes → Publishing → World → Client → Option Chan → Outcome
  unfolding last_answer
  last_publish key p w c none = failed w c nil_channel
  last_publish key p w c (some h) = last_answer c (b.publish w h c.exchange key p)

  first_answer : Bytes → Publishing → Client → World × Option Failure → Outcome
  unfolding last_publish reconnect
  first_answer key p c (w, none) = done w c
  first_answer key p c (w, some e) =
      if is_amqp_gone e
      then and_then (wrap_error reconnect_failed (reconnect (close_conn_locked w c)))
          (λ w' c'. last_publish key p w' c' c'.pub_ch)
      else failed w c (publish_failed e)

  -- The first c.pubCh.PublishWithContext.
  first_publish : Bytes → Publishing → World → Client → Option Chan → Outcome
  unfolding first_answer
  first_publish key p w c none = failed w c nil_channel
  first_publish key p w c (some h) = first_answer key p c (b.publish w h c.exchange key p)

  unfoldable pub publish_locked : World → Client → Bytes → Publishing → Outcome
  unfolding first_publish
  publish_locked w c key p =
      and_then (ensure_connected_locked w c) (λ w' c'. first_publish key p w' c' c'.pub_ch)

  -- PublishJSON
  unfoldable pub publish_json : World → Client → Bytes → Bytes → Outcome
  publish_json w c key body =
      if is_nil body
      then failed w c empty_body
      else publish_locked w c key
          (record { delivery_mode = persistent; content_type = content_type_json; body = body })

  -- PublishControl, on what proto.Marshal makes of the event
  unfoldable pub publish_control : World → Client → Bytes → Option Bytes → Outcome
  publish_control w c key none = failed w c marshal_failed
  publish_control w c key (some body) =
      publish_locked w c key
        (record { delivery_mode = persistent; content_type = content_type_protobuf; body = body })

  -- Close
  unfoldable pub close : World → Client → World × Client
  close w c = close_conn_locked w (record c { closed = true })

  -- The part of consumeLoop that holds the mutex, after the wait.
  unfoldable pub renew : World → Client → World × Client
  unfolding reconnect
  renew w c =
      let r = reconnect (close_conn_locked w c) in if c.closed then (w, c) else (r.world, r.client)
