-- ===== src/Amqp/Client/Publish.antt =====
-- What a publish that returns no error has done.
use ice_hive.Prelude.{
  ◌≡◌, ◌≢◌, refl, inl, inr, true, Option, none, some, if◌then◌else◌, if_both, Bool-cases, Result,
  ok, err,
}
use mathlib.Core.Path.{subst}
use mathlib.Core.Option
use ice_hive.Text.{Bytes, is_nil}
use ice_hive.Amqp.Broker.{Broker, Publishing}
use ice_hive.Amqp.Client.{
  Error, nil_channel, reconnect_failed, empty_body, Client, Outcome, failed, and_then, wrap_error,
  content_type_json, persistent, connect_declared, connect_opened, connect_dialed, connect_locked,
  close_conn_locked, reset_declared, reset_opened, reset_pub_ch_locked, chan_open, reconnect,
  ensure_conn, ensure_connected_locked, is_amqp_gone, last_answer, last_publish, first_answer,
  first_publish, publish_locked, publish_json,
}

module _ (b : Broker) where
  open b use {World, Conn, Chan, Failure}

  -- Behind a step with no error there is a publish channel; an error is not the one that stands
  -- for a panic.
  abbrev Ready : Option (Error b) → Option Chan → Type 0
  Ready (some e) o = e ≢ nil_channel
  Ready none none = ⊥
  Ready none (some h) = Unit

  -- The step keeps the exchange and is ready.
  abbrev ReadyAfter : Bytes → Outcome b → Type 0
  ReadyAfter x r = (r.client.exchange ≡ x) × Ready r.error r.client.pub_ch

  connect_declared-Ready :
      (c : Client b) (conn : Conn) (ch : Chan) (y : World × Option Failure)
      → ReadyAfter c.exchange (connect_declared b c conn ch y)
  unfolding connect_declared
  connect_declared-Ready c conn ch (w, none) = (refl, tt)
  connect_declared-Ready c conn ch (w, some e) = (refl, λ h. cc)

  connect_opened-Ready :
      (c : Client b) (conn : Conn) (y : World × Result Failure Chan)
      → ReadyAfter c.exchange (connect_opened b c conn y)
  unfolding connect_opened
  connect_opened-Ready c conn (w, err e) = (refl, λ h. cc)
  connect_opened-Ready c conn (w, ok ch) =
      connect_declared-Ready c conn ch (b.declare_exchange w ch c.exchange)

  connect_dialed-Ready :
      (c : Client b) (y : World × Result Failure Conn)
      → ReadyAfter c.exchange (connect_dialed b c y)
  unfolding connect_dialed
  connect_dialed-Ready c (w, err e) = (refl, λ h. cc)
  connect_dialed-Ready c (w, ok conn) = connect_opened-Ready c conn (b.open_chan w conn)

  reconnect-Ready :
      (w : World) (c : Client b) → ReadyAfter c.exchange (reconnect b (close_conn_locked b w c))
  unfolding reconnect connect_locked close_conn_locked
  reconnect-Ready w c = connect_dialed-Ready (record c { conn = none; pub_ch = none }) _

  reset_declared-Ready :
      (c : Client b) (ch : Chan) (y : World × Option Failure)
      → ReadyAfter c.exchange (reset_declared b c ch y)
  unfolding reset_declared close_conn_locked
  reset_declared-Ready c ch (w, none) = (refl, tt)
  reset_declared-Ready c ch (w, some e) = (refl, λ h. cc)

  reset_opened-Ready :
      (c : Client b) (y : World × Result Failure Chan) → ReadyAfter c.exchange (reset_opened b c y)
  unfolding reset_opened close_conn_locked
  reset_opened-Ready c (w, err e) = (refl, λ h. cc)
  reset_opened-Ready c (w, ok ch) = reset_declared-Ready c ch (b.declare_exchange w ch c.exchange)

  open_chan-Ready :
      (w : World) (c : Client b) (o : Option Chan) → chan_open b w o ≡ true → Ready none o
  unfolding chan_open
  open_chan-Ready w c none h = cc
  open_chan-Ready w c (some ch) h = tt

  ensure_conn-Ready :
      (w : World) (c : Client b) (o : Option Conn) → ReadyAfter c.exchange (ensure_conn b w c o)
  unfolding ensure_conn
  ensure_conn-Ready w c none = reconnect-Ready w c
  ensure_conn-Ready w c (some conn) =
      if_both (ReadyAfter c.exchange) (b.conn_closed w conn) (reconnect-Ready w c)
        (elim (Bool-cases (chan_open b w c.pub_ch)) [
          | inl e ↦ rw e (refl, open_chan-Ready w c c.pub_ch e)
          | inr e ↦
              rw e (unfold reset_pub_ch_locked in reset_opened-Ready (record c { pub_ch = none }) _)
        ])

  ensure_connected-Ready :
      (w : World) (c : Client b) → ReadyAfter c.exchange (ensure_connected_locked b w c)
  unfolding ensure_connected_locked
  ensure_connected-Ready w c =
      if_both (ReadyAfter c.exchange) c.closed (refl, λ h. cc) (ensure_conn-Ready w c c.conn)

  -- The broker took the message on the exchange, under the routing key, by the last call made.
  abbrev pub Sent : Bytes → Bytes → Publishing → World → Type 0
  Sent x key p w = (w0 : World) × (h : Chan) × (b.publish w0 h x key p ≡ (w, none))

  abbrev pub Delivers : Bytes → Bytes → Publishing → World → Option (Error b) → Type 0
  Delivers x key p w none = Sent x key p w
  Delivers x key p w (some e) = e ≢ nil_channel

  abbrev DeliversAfter : Bytes → Bytes → Publishing → Outcome b → Type 0
  DeliversAfter x key p r = Delivers x key p r.world r.error

  and_then-Delivers :
      (x key : Bytes) (p : Publishing) (r : Outcome b) (k : World → Client b → Outcome b)
      → ReadyAfter x r
      → ((w : World) (c : Client b)
          → (c.exchange ≡ x)
          → Ready none c.pub_ch
          → DeliversAfter x key p (k w c))
      → DeliversAfter x key p (and_then b r k)
  and_then-Delivers x key p r k (ex, ready) next = go r.error ready
    where
      go :
          (e : Option (Error b))
          → Ready e r.client.pub_ch
          → DeliversAfter x key p
              (elim e [ none ↦ k r.world r.client | some y ↦ failed b r.world r.client y ])
      go none h = next r.world r.client ex h
      go (some y) h = h

  last_answer-Delivers :
      (key : Bytes) (p : Publishing) (w : World) (c : Client b) (h : Chan)
      (y : World × Option Failure)
      → b.publish w h c.exchange key p ≡ y
      → DeliversAfter c.exchange key p (last_answer b c y)
  unfolding last_answer
  last_answer-Delivers key p w c h (w', none) q = (w, h, q)
  last_answer-Delivers key p w c h (w', some e) q = λ k. cc

  last_publish-Delivers :
      (key : Bytes) (p : Publishing) (w : World) (c : Client b) (o : Option Chan)
      → Ready none o
      → DeliversAfter c.exchange key p (last_publish b key p w c o)
  unfolding last_publish
  last_publish-Delivers key p w c none h = absurd h
  last_publish-Delivers key p w c (some ch) h = last_answer-Delivers key p w c ch _ refl

  wrap-Ready :
      (x : Bytes) (r : Outcome b) → ReadyAfter x r → ReadyAfter x (wrap_error b reconnect_failed r)
  wrap-Ready x r (ex, ready) = (ex, go r.error r.client.pub_ch ready)
    where
      go :
          (e : Option (Error b)) (o : Option Chan)
          → Ready e o
          → Ready (Option.map reconnect_failed e) o
      go none o h = h
      go (some e) o h = λ k. cc

  first_answer-Delivers :
      (key : Bytes) (p : Publishing) (w : World) (c : Client b) (h : Chan)
      (y : World × Option Failure)
      → b.publish w h c.exchange key p ≡ y
      → DeliversAfter c.exchange key p (first_answer b key p c y)
  unfolding first_answer
  first_answer-Delivers key p w c h (w', none) q = (w, h, q)
  first_answer-Delivers key p w c h (w', some e) q =
      if_both (DeliversAfter c.exchange key p) (is_amqp_gone b e)
        (and_then-Delivers c.exchange key p
          (wrap_error b reconnect_failed (reconnect b (close_conn_locked b w' c)))
          (λ w2 c2. last_publish b key p w2 c2 c2.pub_ch)
          (wrap-Ready c.exchange (reconnect b (close_conn_locked b w' c)) (reconnect-Ready w' c))
          (λ w2 c2 ex ready.
            subst (λ x. DeliversAfter x key p (last_publish b key p w2 c2 c2.pub_ch)) ex
              (last_publish-Delivers key p w2 c2 c2.pub_ch ready)))
        (λ k. cc)

  first_publish-Delivers :
      (key : Bytes) (p : Publishing) (w : World) (c : Client b) (o : Option Chan)
      → Ready none o
      → DeliversAfter c.exchange key p (first_publish b key p w c o)
  unfolding first_publish
  first_publish-Delivers key p w c none h = absurd h
  first_publish-Delivers key p w c (some ch) h = first_answer-Delivers key p w c ch _ refl

  publish_locked-Delivers :
      (w : World) (c : Client b) (key : Bytes) (p : Publishing)
      → DeliversAfter c.exchange key p (publish_locked b w c key p)
  unfolding publish_locked
  publish_locked-Delivers w c key p =
      and_then-Delivers c.exchange key p (ensure_connected_locked b w c)
        (λ w' c'. first_publish b key p w' c' c'.pub_ch) (ensure_connected-Ready w c)
        (λ w' c' ex ready.
          subst (λ x. DeliversAfter x key p (first_publish b key p w' c' c'.pub_ch)) ex
            (first_publish-Delivers key p w' c' c'.pub_ch ready))

  -- A publish of JSON that returns no error ended with the broker taking that body, marked as JSON,
  -- on the client's exchange under the routing key; one that returns an error never came to a nil
  -- channel. An empty body is refused before the broker is called.
  pub publish_json-Delivers :
      (w : World) (c : Client b) (key body : Bytes)
      → let r = publish_json b w c key body in
        if is_nil body
        then r ≡ failed b w c empty_body
        else Delivers c.exchange key
            (record { delivery_mode = persistent; content_type = content_type_json; body = body })
            r.world
            r.error
  unfolding publish_json
  publish_json-Delivers w c key body = elim (Bool-cases (is_nil body)) [
    | inl e ↦ rw e refl
    | inr e ↦ rw e (publish_locked-Delivers w c key _)
  ]
