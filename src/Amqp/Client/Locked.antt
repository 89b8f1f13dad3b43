-- ===== src/Amqp/Client/Locked.antt =====
-- Opening, closing and renewing the client's connection: each leaves at most its own one open.
use ice_hive.Prelude.{
  ◌≡◌, ◌⊎◌, refl, ap, inl, inr, false, Option, none, some, if_both, Result, ok, err,
}
use ice_hive.Text.{Bytes}
use ice_hive.Amqp.Broker.{Broker, Laws}
use ice_hive.Amqp.Client.{
  Client, Outcome, chan_open, connect_declared, connect_opened, connect_dialed, connect_locked,
  close_pub_ch, close_own_conn, close_conn_locked, reset_declared, reset_opened,
  reset_pub_ch_locked, reconnect, ensure_conn, ensure_connected_locked, client_connection_name,
}

module _ (b : Broker) (laws : Laws b) where
  open b use {World, Conn, Chan, Failure}

  -- No connection is open.
  abbrev pub Idle : World → Type 0
  Idle w = (d : Conn) → b.conn_closed w d ≡ false → ⊥

  -- Every open connection is the client's own.
  abbrev pub Owns : World → Client b → Type 0
  Owns w c = (d : Conn) → b.conn_closed w d ≡ false → c.conn ≡ some d

  abbrev pub OwnsAfter : Outcome b → Type 0
  OwnsAfter r = Owns r.world r.client

  close_conn-Idle :
      (w : World) (c : Conn)
      → ((d : Conn) → b.conn_closed w d ≡ false → c ≡ d)
      → Idle (b.close_conn w c)
  close_conn-Idle w c own d h = cc (
    ap (b.conn_closed (b.close_conn w c)) (own d (laws.close_conn_keeps w c d h)),
    laws.close_conn_closes w c,
  )

  connect_declared-Owns :
      (c : Client b) (conn : Conn) (ch : Chan) (x : World × Option Failure)
      → ((d : Conn) → b.conn_closed x.0 d ≡ false → conn ≡ d)
      → OwnsAfter (connect_declared b c conn ch x)
  unfolding connect_declared
  connect_declared-Owns c conn ch (w, none) own = λ d h. ap some (own d h)
  connect_declared-Owns c conn ch (w, some e) own = λ d h.
      absurd (
        close_conn-Idle (b.close_chan w ch) conn (λ k g. own k (laws.close_chan_keeps w ch k g)) d
          h)

  -- Behind a failure that closed the connection, nothing is open.
  pub Idle-Owns : (w : World) (c : Client b) → Idle w → Owns w c
  Idle-Owns w c idle = λ d h. absurd (idle d h)

  connect_opened-Owns :
      (c : Client b) (conn : Conn) (x : World × Result Failure Chan)
      → ((d : Conn) → b.conn_closed x.0 d ≡ false → conn ≡ d)
      → OwnsAfter (connect_opened b c conn x)
  unfolding connect_opened
  connect_opened-Owns c conn (w, err e) own =
      Idle-Owns (b.close_conn w conn) c (close_conn-Idle w conn own)
  connect_opened-Owns c conn (w, ok ch) own =
      connect_declared-Owns c conn ch (b.declare_exchange w ch c.exchange)
        (λ d h. own d (laws.declare_keeps w ch c.exchange d h))

  connect_dialed-Owns :
      (w : World) (c : Client b) (name : Bytes) (x : World × Result Failure Conn)
      → b.dial w c.cfg.url name ≡ x
      → Idle w
      → OwnsAfter (connect_dialed b c x)
  unfolding connect_dialed
  connect_dialed-Owns w c name (w', err e) q idle =
      Idle-Owns w' c (λ d h. idle d (laws.dial_none w c.cfg.url name w' e d q h))
  connect_dialed-Owns w c name (w', ok conn) q idle =
      connect_opened-Owns c conn (b.open_chan w' conn) (λ d h.
        only d (laws.dial_one w c.cfg.url name w' conn d q (laws.open_chan_keeps w' conn d h)))
    where
      only : (d : Conn) → (b.conn_closed w d ≡ false) ⊎ (conn ≡ d) → conn ≡ d
      only d (inl g) = absurd (idle d g)
      only d (inr g) = g

  pub connect_locked-Owns : (w : World) (c : Client b) → Idle w → OwnsAfter (connect_locked b w c)
  unfolding connect_locked
  connect_locked-Owns w c idle =
      connect_dialed-Owns w c (client_connection_name c.cfg.connection_name) _ refl idle

  close_pub_ch-keeps :
      (w : World) (o : Option Chan) (d : Conn)
      → b.conn_closed (close_pub_ch b w o) d ≡ false
      → b.conn_closed w d ≡ false
  unfolding close_pub_ch
  close_pub_ch-keeps w none d h = h
  close_pub_ch-keeps w (some ch) d h = laws.close_chan_keeps w ch d h

  close_own_conn-Idle :
      (w : World) (o : Option Conn)
      → ((d : Conn) → b.conn_closed w d ≡ false → o ≡ some d)
      → Idle (close_own_conn b w o)
  unfolding close_own_conn
  close_own_conn-Idle w none own = λ d h. cc (own d h)
  close_own_conn-Idle w (some c) own = close_conn-Idle w c (λ d h. cc (own d h))

  -- closeConnLocked closes all that the client has open.
  pub close_conn_locked-Idle :
      (w : World) (c : Client b) → Owns w c → Idle (close_conn_locked b w c).0
  unfolding close_conn_locked
  close_conn_locked-Idle w c own =
      close_own_conn-Idle (close_pub_ch b w c.pub_ch) c.conn
        (λ d h. own d (close_pub_ch-keeps w c.pub_ch d h))

  reset_declared-Owns :
      (c : Client b) (ch : Chan) (x : World × Option Failure)
      → Owns x.0 c
      → OwnsAfter (reset_declared b c ch x)
  unfolding reset_declared
  reset_declared-Owns c ch (w, none) own = own
  reset_declared-Owns c ch (w, some e) own =
      Idle-Owns (close_conn_locked b (b.close_chan w ch) c).0
        (close_conn_locked b (b.close_chan w ch) c).1
        (close_conn_locked-Idle (b.close_chan w ch) c
          (λ d h. own d (laws.close_chan_keeps w ch d h)))

  reset_opened-Owns :
      (c : Client b) (x : World × Result Failure Chan) → Owns x.0 c → OwnsAfter (reset_opened b c x)
  unfolding reset_opened
  reset_opened-Owns c (w, err e) own =
      Idle-Owns (close_conn_locked b w c).0 (close_conn_locked b w c).1
        (close_conn_locked-Idle w c own)
  reset_opened-Owns c (w, ok ch) own =
      reset_declared-Owns c ch (b.declare_exchange w ch c.exchange)
        (λ d h. own d (laws.declare_keeps w ch c.exchange d h))

  reset_pub_ch_locked-Owns :
      (w : World) (c : Client b) (conn : Conn)
      → Owns w c
      → OwnsAfter (reset_pub_ch_locked b w c conn)
  unfolding reset_pub_ch_locked
  reset_pub_ch_locked-Owns w c conn own =
      reset_opened-Owns (record c { pub_ch = none }) (b.open_chan (close_pub_ch b w c.pub_ch) conn)
        (λ d h. own d (
          close_pub_ch-keeps w c.pub_ch d
            (laws.open_chan_keeps (close_pub_ch b w c.pub_ch) conn d h)))

  pub reconnect-Owns :
      (w : World) (c : Client b) → Owns w c → OwnsAfter (reconnect b (close_conn_locked b w c))
  unfolding reconnect
  reconnect-Owns w c own =
      connect_locked-Owns (close_conn_locked b w c).0 (close_conn_locked b w c).1
        (close_conn_locked-Idle w c own)

  ensure_conn-Owns :
      (w : World) (c : Client b) (o : Option Conn) → Owns w c → OwnsAfter (ensure_conn b w c o)
  unfolding ensure_conn
  ensure_conn-Owns w c none own = reconnect-Owns w c own
  ensure_conn-Owns w c (some conn) own =
      if_both OwnsAfter (b.conn_closed w conn) (reconnect-Owns w c own)
        (if_both OwnsAfter (chan_open b w c.pub_ch) own (reset_pub_ch_locked-Owns w c conn own))

  pub ensure_connected_locked-Owns :
      (w : World) (c : Client b) → Owns w c → OwnsAfter (ensure_connected_locked b w c)
  unfolding ensure_connected_locked
  ensure_connected_locked-Owns w c own =
      if_both OwnsAfter c.closed own (ensure_conn-Owns w c c.conn own)
