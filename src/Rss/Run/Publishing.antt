-- ===== src/Rss/Run/Publishing.antt =====
-- What the loop over a feed's items publishes.
use ice_hive.Prelude.{
  ◌≡◌, refl, sym, ap, true, false, List, [], ◌∷◌, ◌++◌, Option, none, some, map, if◌then◌else◌, ok,
  err, Bool-cases, Result-cases, Option-cases, inl, inr,
}
use mathlib.Core.Path.{subst}
use ice_hive.Prelude.Int.{ℤ}
use ice_hive.Text.{Bytes, is_nil}
use ice_hive.Amqp.Names.{routing_key_collector_entities}
use ice_hive.Amqp.Client.{Client, Error, publish_json}
use ice_hive.Rss.Items.{Item}
use ice_hive.Rss.Entity.{
  EntityMessage, Feed, build_rss_feed_entity, build_rss_article_entity, feed_entry_source_unique_id,
  rss_feed_source_unique_id,
}
use ice_hive.Rss.Run.{
  Environment, Process, Ended, published, marshal_failed, publish_failed, now_ms, publish_ended,
  publish_body, after_entity, publish_entity, publish_articles,
}

abbrev pub unique_id : EntityMessage → Bytes
unique_id m = m.metadata.source_unique_id

module _ (env : Environment) where
  open env use {broker}

  -- The entities were handed to the broker one behind the other, and none was refused.
  abbrev pub Delivered :
      List EntityMessage → broker.World → Client broker → broker.World → Client broker → Type 0
  Delivered [] w c w' c' = (w ≡ w') × (c ≡ c')
  Delivered (m ∷ ms) w c w' c' =
      (body : Bytes) × (env.marshal m ≡ ok body)
      × ((publish_json broker w c routing_key_collector_entities body).error ≡ none)
      × (let r = publish_json broker w c routing_key_collector_entities body in
          Delivered ms r.world r.client w' c')

  -- An entity that JSON cannot hold, and one whose publish was refused with the error of this text.
  abbrev pub Unmarshalled : Bytes → EntityMessage → broker.World → Client broker → Type 0
  Unmarshalled text m w c = env.marshal m ≡ err text

  abbrev pub Refused : Bytes → EntityMessage → broker.World → Client broker → Type 0
  Refused text m w c =
      (body : Bytes) × (e : Error broker) × (env.marshal m ≡ ok body)
      × ((publish_json broker w c routing_key_collector_entities body).error ≡ some e)
      × (text ≡ env.publish_error e)

  -- Of the entities with these identities the first ones were published, and the next one failed.
  abbrev pub Stopped :
      List Bytes
      → (EntityMessage → broker.World → Client broker → Type 0)
      → broker.World
      → Client broker
      → Type 0
  Stopped ids Fails w c =
      (ms : List EntityMessage) × (m : EntityMessage) × (rest : List Bytes) × (ids
        ≡ map unique_id ms ++ (unique_id m ∷ rest))
      × (w' : broker.World) × (c' : Client broker) × Delivered ms w c w' c'
      × Fails m w' c'

  -- The identities of the items that have one
  abbrev pub item_ids : Bytes → Bytes → List (Option (Item env.items)) → List Bytes
  item_ids id url [] = []
  item_ids id url (it ∷ items) =
      let rest = item_ids id url items in
      let u = feed_entry_source_unique_id env.items id url it in if is_nil u then rest else u ∷ rest

  -- What stands for the identity `u`: its entity, or nothing if `u` is empty.
  abbrev IsEntityOf : Bytes → Option EntityMessage → Type 0
  IsEntityOf u none = is_nil u ≡ true
  IsEntityOf u (some m) = (is_nil u ≡ false) × (unique_id m ≡ u)

  build-IsEntityOf :
      (at : ℤ) (id url title format : Bytes) (it : Option (Item env.items))
      → IsEntityOf
          (feed_entry_source_unique_id env.items id url it)
          (build_rss_article_entity env.items at id url title format it)
  unfolding build_rss_article_entity ice_hive.Rss.Entity.entity_message feed_entry_source_unique_id
  build-IsEntityOf at id url title format none = refl
  build-IsEntityOf at id url title format (some it) =
      elim (Bool-cases (is_nil (feed_entry_source_unique_id env.items id url (some it)))) [
        | inl e ↦ rw e e
        | inr e ↦ rw e (e, refl)
      ]

  -- What publishing from `p` on has done, if it was to publish the entities of these identities.
  abbrev pub Looped : List Bytes → Process env → Process env × Ended env → Type 0
  Looped ids p (p', published) =
      (p'.reports ≡ p.reports)
      × ((ms : List EntityMessage) × (map unique_id ms ≡ ids)
          × Delivered ms p.world p.client p'.world p'.client)
  Looped ids p (p', marshal_failed e) =
      (p'.reports ≡ p.reports) × Stopped ids (Unmarshalled e) p.world p.client
  Looped ids p (p', publish_failed e) =
      (p'.reports ≡ p.reports) × Stopped ids (Refused e) p.world p.client

  -- `p` with one message published
  abbrev behind : Process env → Bytes → Process env
  behind p body =
      let r = publish_json broker p.world p.client routing_key_collector_entities body in
      record p { world = r.world; client = r.client }

  cons-Stopped :
      (Fails : EntityMessage → broker.World → Client broker → Type 0) (m : EntityMessage)
      (body : Bytes) (ids : List Bytes) (p : Process env)
      → env.marshal m ≡ ok body
      → (publish_json broker p.world p.client routing_key_collector_entities body).error ≡ none
      → (let r = publish_json broker p.world p.client routing_key_collector_entities body in
          Stopped ids Fails r.world r.client)
      → Stopped (unique_id m ∷ ids) Fails p.world p.client
  cons-Stopped Fails m body ids p q e (ms, m', rest, is, w, c, d, f) =
      (m ∷ ms, m', rest, ap (◌∷◌ (unique_id m)) is, w, c, (body, q, e, d), f)

  cons-Looped :
      (m : EntityMessage) (body : Bytes) (ids : List Bytes) (p : Process env)
      (y : Process env × Ended env)
      → env.marshal m ≡ ok body
      → (publish_json broker p.world p.client routing_key_collector_entities body).error ≡ none
      → Looped ids (behind p body) y
      → Looped (unique_id m ∷ ids) p y
  cons-Looped m body ids p (p', published) q e (h, (ms, is, d)) =
      (h, (m ∷ ms, ap (◌∷◌ (unique_id m)) is, (body, q, e, d)))
  cons-Looped m body ids p (p', marshal_failed x) q e (h, s) =
      (h, cons-Stopped (Unmarshalled x) m body ids p q e s)
  cons-Looped m body ids p (p', publish_failed x) q e (h, s) =
      (h, cons-Stopped (Refused x) m body ids p q e s)

  pub entity-Looped :
      (m : EntityMessage) (ids : List Bytes) (p : Process env)
      (rest : Process env → Process env × Ended env)
      → ((p' : Process env) → Looped ids p' (rest p'))
      → Looped (unique_id m ∷ ids) p (after_entity env rest (publish_body env p (env.marshal m)))
  unfolding after_entity publish_body publish_ended
  entity-Looped m ids p rest k = elim (Result-cases (env.marshal m)) [
    | inr (e, q) ↦
        subst (λ x. Looped (unique_id m ∷ ids) p (after_entity env rest (publish_body env p x)))
          (sym q) (refl, ([], m, ids, refl, p.world, p.client, (refl, refl), q))
    | inl (body, q) ↦
        subst (λ x. Looped (unique_id m ∷ ids) p (after_entity env rest (publish_body env p x)))
          (sym q)
          (let r = publish_json broker p.world p.client routing_key_collector_entities body in
            elim (Option-cases r.error) [
              | inl e ↦
                  subst
                    (λ x.
                      Looped (unique_id m ∷ ids) p
                        (after_entity env rest (behind p body, publish_ended env x)))
                    (sym e)
                    (cons-Looped m body ids p (rest (behind p body)) q e (k (behind p body)))
              | inr (x, e) ↦
                  subst
                    (λ x.
                      Looped (unique_id m ∷ ids) p
                        (after_entity env rest (behind p body, publish_ended env x)))
                    (sym e)
                    (
                      refl,
                      ([], m, ids, refl, p.world, p.client, (refl, refl), (body, x, q, e, refl)),
                    )
            ])
  ]

  item-Looped :
      (u : Bytes) (o : Option EntityMessage) (ids : List Bytes) (p : Process env)
      (rest : Process env → Process env × Ended env)
      → IsEntityOf u o
      → ((p' : Process env) → Looped ids p' (rest p'))
      → Looped (if is_nil u then ids else u ∷ ids) p (publish_entity env rest o p)
  unfolding publish_entity
  item-Looped u none ids p rest h k = rw h (k p)
  item-Looped u (some m) ids p rest (h, e) k = rw h (
      subst (λ v. Looped (v ∷ ids) p (after_entity env rest (publish_body env p (env.marshal m)))) e
        (entity-Looped m ids p rest k))

  pub publish_articles-Looped :
      (id url title format : Bytes) (items : List (Option (Item env.items))) (p : Process env)
      → Looped (item_ids id url items) p (
          publish_articles env
            (λ at. build_rss_article_entity env.items at id url title format)
            items
            p)
  unfolding publish_articles
  publish_articles-Looped id url title format [] p = (refl, ([], refl, (refl, refl)))
  publish_articles-Looped id url title format (it ∷ items) p =
      item-Looped (feed_entry_source_unique_id env.items id url it)
        (build_rss_article_entity env.items (now_ms env p) id url title format it)
        (item_ids id url items) p _ (build-IsEntityOf (now_ms env p) id url title format it)
        (λ p'. publish_articles-Looped id url title format items p')
