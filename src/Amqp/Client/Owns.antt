-- ===== src/Amqp/Client/Owns.antt =====
-- The client leaks no connection.
use ice_hive.Prelude.{◌≡◌, refl, true, false, Option, none, some, if_both}
use ice_hive.Text.{Bytes, is_nil}
use ice_hive.Amqp.Names.{Config}
use ice_hive.Amqp.Broker.{Broker, Laws, Publishing}
use ice_hive.Amqp.Client.{
  Client, Outcome, and_then, wrap_error, reconnect_failed, fresh_client, client_closed,
  is_amqp_gone, failed, connect, close_conn_locked, reconnect, ensure_connected_locked,
  publish_locked, publish_json, publish_control, close, renew, last_answer, last_publish,
  first_answer, first_publish,
}
use ice_hive.Amqp.Client.Locked.{
  Idle, Owns, OwnsAfter, Idle-Owns, connect_locked-Owns, close_conn_locked-Idle, reconnect-Owns,
  ensure_connected_locked-Owns,
}

module _ (b : Broker) (laws : Laws b) where
  open b use {World, Conn, Chan, Failure}

  last_answer-Owns :
      (c : Client b) (x : World × Option Failure)
      → Owns b laws x.0 c
      → OwnsAfter b laws (last_answer b c x)
  unfolding last_answer
  last_answer-Owns c (w, none) own = own
  last_answer-Owns c (w, some e) own = own

  and_then-Owns :
      (r : Outcome b) (k : World → Client b → Outcome b)
      → OwnsAfter b laws r
      → ((w : World) (c : Client b) → Owns b laws w c → OwnsAfter b laws (k w c))
      → OwnsAfter b laws (and_then b r k)
  and_then-Owns r k own next =
      elim r.error
        as (λ e.
          OwnsAfter b laws
            (elim e [ none ↦ k r.world r.client | some x ↦ failed b r.world r.client x ])) [
              | none ↦ next r.world r.client own
              | some x ↦ own
            ]

  last_publish-Owns :
      (key : Bytes) (p : Publishing) (w : World) (c : Client b) (o : Option Chan)
      → Owns b laws w c
      → OwnsAfter b laws (last_publish b key p w c o)
  unfolding last_publish
  last_publish-Owns key p w c none own = own
  last_publish-Owns key p w c (some h) own =
      last_answer-Owns c (b.publish w h c.exchange key p)
        (λ d g. own d (laws.publish_keeps w h c.exchange key p d g))

  first_answer-Owns :
      (key : Bytes) (p : Publishing) (c : Client b) (x : World × Option Failure)
      → Owns b laws x.0 c
      → OwnsAfter b laws (first_answer b key p c x)
  unfolding first_answer
  first_answer-Owns key p c (w, none) own = own
  first_answer-Owns key p c (w, some e) own =
      if_both (OwnsAfter b laws) (is_amqp_gone b e)
        (and_then-Owns (wrap_error b reconnect_failed (reconnect b (close_conn_locked b w c)))
          (λ w' c'. last_publish b key p w' c' c'.pub_ch) (reconnect-Owns b laws w c own)
          (λ w' c' own'. last_publish-Owns key p w' c' c'.pub_ch own'))
        own

  first_publish-Owns :
      (key : Bytes) (p : Publishing) (w : World) (c : Client b) (o : Option Chan)
      → Owns b laws w c
      → OwnsAfter b laws (first_publish b key p w c o)
  unfolding first_publish
  first_publish-Owns key p w c none own = own
  first_publish-Owns key p w c (some h) own =
      first_answer-Owns key p c (b.publish w h c.exchange key p)
        (λ d g. own d (laws.publish_keeps w h c.exchange key p d g))

  publish_locked-Owns :
      (w : World) (c : Client b) (key : Bytes) (p : Publishing)
      → Owns b laws w c
      → OwnsAfter b laws (publish_locked b w c key p)
  unfolding publish_locked
  publish_locked-Owns w c key p own =
      and_then-Owns (ensure_connected_locked b w c) (λ w' c'. first_publish b key p w' c' c'.pub_ch)
        (ensure_connected_locked-Owns b laws w c own)
        (λ w' c' own'. first_publish-Owns key p w' c' c'.pub_ch own')

  -- What a service does with its client, and the broker dropping connections.
  pub data Step (w : World) (c : Client b) : World → Client b → Type 0 where
    publishes_json :
        (key body : Bytes)
        → Step w c (publish_json b w c key body).world (publish_json b w c key body).client
    publishes_event :
        (key : Bytes) (body : Option Bytes)
        → Step w c (publish_control b w c key body).world (publish_control b w c key body).client
    ensures : Step w c (ensure_connected_locked b w c).world (ensure_connected_locked b w c).client
    renews : Step w c (renew b w c).0 (renew b w c).1
    closes : Step w c (close b w c).0 (close b w c).1
    drops :
        (w' : World)
        → ((d : Conn) → b.conn_closed w' d ≡ false → b.conn_closed w d ≡ false)
        → Step w c w' c

  -- Any number of steps.
  pub data Steps (w : World) (c : Client b) : World → Client b → Type 0 where
    here : Steps w c w c
    next :
        {w' w'' : World} {c' c'' : Client b}
        → Steps w c w' c'
        → Step w' c' w'' c''
        → Steps w c w'' c''

  publish_control-Owns :
      (w : World) (c : Client b) (key : Bytes) (body : Option Bytes)
      → Owns b laws w c
      → OwnsAfter b laws (publish_control b w c key body)
  unfolding publish_control
  publish_control-Owns w c key none own = own
  publish_control-Owns w c key (some body) own = publish_locked-Owns w c key _ own

  renew-Owns :
      (w : World) (c : Client b) → Owns b laws w c → Owns b laws (renew b w c).0 (renew b w c).1
  unfolding renew
  renew-Owns w c own =
      if_both (λ (p : World × Client b). Owns b laws p.0 p.1) c.closed own
        (reconnect-Owns b laws w c own)

  Step-Owns :
      {w : World} {c : Client b} {w' : World} {c' : Client b}
      → Step w c w' c'
      → Owns b laws w c
      → Owns b laws w' c'
  unfolding publish_json close
  Step-Owns {w} {c = c} (publishes_json key body) own =
      if_both (OwnsAfter b laws) (is_nil body) own (publish_locked-Owns w c key _ own)
  Step-Owns {w} {c = c} (publishes_event key body) own = publish_control-Owns w c key body own
  Step-Owns {w} {c = c} ensures own = ensure_connected_locked-Owns b laws w c own
  Step-Owns {w} {c = c} renews own = renew-Owns w c own
  Step-Owns {w} {c = c} closes own =
      Idle-Owns b laws (close b w c).0 (close b w c).1
        (close_conn_locked-Idle b laws w (record c { closed = true }) own)
  Step-Owns (drops w' keeps) own = λ d h. own d (keeps d h)

  Steps-Owns :
      {w : World} {c : Client b} {w' : World} {c' : Client b}
      → Steps w c w' c'
      → Owns b laws w c
      → Owns b laws w' c'
  Steps-Owns here own = own
  Steps-Owns (next r st) own = Step-Owns st (Steps-Owns r own)

  -- From `Connect` in a world with no open connection on, whatever a service does with its client
  -- and whatever connections are lost meanwhile, every open connection is the one that the client
  -- holds: none is leaked.
  pub connect-no_leak :
      (w : World) (cfg : Config)
      → Idle b laws w
      → {w' : World} {c' : Client b} → Steps (connect b w cfg).world (connect b w cfg).client w' c'
      → (d : Conn) → b.conn_closed w' d ≡ false
      → c'.conn ≡ some d
  unfolding connect
  connect-no_leak w cfg idle steps = Steps-Owns steps (
      if_both (OwnsAfter b laws) (is_nil cfg.url) (Idle-Owns b laws w (fresh_client b cfg) idle)
        (connect_locked-Owns b laws w (fresh_client b cfg) idle))

  -- `Close` leaves no connection open that the client owned, and the client refuses to publish
  -- from then on without dialling again: the broker is not called.
  pub close-Idle :
      (w : World) (c : Client b) (key : Bytes) (p : Publishing)
      → Owns b laws w c
      → let (w', c') = close b w c in
        Idle b laws w' × (publish_locked b w' c' key p ≡ failed b w' c' client_closed)
  unfolding close publish_locked ensure_connected_locked close_conn_locked
  close-Idle w c key p own =
      (close_conn_locked-Idle b laws w (record c { closed = true }) own, refl)
