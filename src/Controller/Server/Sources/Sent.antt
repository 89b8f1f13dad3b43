-- ===== src/Controller/Server/Sources/Sent.antt =====
-- services/controller/main.go: what a request to collect now has done when it returns no error.
use ice_hive.Prelude.{
  ◌≡◌, refl, sym, ap, ◌∙◌, Option, none, some, arith, Result, ok, err, Bool-cases, inl, inr,
}
use mathlib.Core.Path.{subst}
use ice_hive.Text.{Bytes, is_nil, trim_space}
use ice_hive.Text.Trim.{trim_space_idem}
use ice_hive.Dict.{lookup}
use ice_hive.Amqp.Names.{collection_request_key}
use ice_hive.Amqp.Client.{Client, Error, publish_json}
use ice_hive.Controller.Activity.{record_enqueued}
use ice_hive.Controller.Db.{CollectionSourceRow, Db}
use ice_hive.Controller.Db.Sources.{get_collection_source_by_id}
use ice_hive.Controller.Db.Sources.Steps.{get-ok}
use ice_hive.Controller.Server.{
  Environment, Server, ◌>>=◌, meta_db, on_db, source_code, now_ms, collector_freshness,
}
use ice_hive.Controller.Server.Steps.{bind-ok, meta_db-ok, on_db-ok, db_after}
use ice_hive.Controller.Server.Sources.{
  collection_source_id, with_health, published, publish_request, note_enqueued, enqueue_row,
  enqueue_target, with_client, enqueue_collection_request,
}

module _ (env : Environment) where
  -- The message of a source's row was published by the client on the key of the row's type, and only
  -- then shown in the activity; the tables are as they were.
  pub record Sent (cl : Client env.broker) (row : CollectionSourceRow) (s s' : Server env)
      : Type 0 where
    pub body : Bytes
    pub marshalled : env.marshal (with_health env s row) ≡ ok body
    pub confirmed :
        (publish_json env.broker s.world cl (collection_request_key row.collector_type) body).error
        ≡ none
    pub broker_after :
        s'.world
        ≡ (publish_json env.broker s.world cl
            (collection_request_key row.collector_type)
            body).world
    pub shown :
        s'.activity
        ≡ record_enqueued (now_ms env s) s.activity row.collector_type row.id row.source_spec
    pub kept : s'.db.tables ≡ s.db.tables

  published-ok :
      (s s1 : Server env) (w : env.broker.World) (cl : Client env.broker)
      (e : Option (Error env.broker)) (u : Unit {0})
      → published env s w cl e ≡ (ok u, s1)
      → (e ≡ none) × (s1 ≡ record s { world = w; amqp_client = some cl })
  unfolding published
  published-ok s s1 w cl none u h = (refl, sym (ap (λ p. p.1) h))
  published-ok s s1 w cl (some e) u h = absurd (ground (arith, h))

  row-Sent :
      (cl : Client env.broker) (row : CollectionSourceRow) (s s' : Server env)
      (m : Result Bytes Bytes)
      → env.marshal (with_health env s row) ≡ m
      → ◌>>=◌ env
          (publish_request env cl (collection_request_key row.collector_type) m)
          (λ _. note_enqueued env row.collector_type row.id row.source_spec)
          s
        ≡ (ok tt, s')
      → Sent cl row s s'
  unfolding publish_request note_enqueued now_ms
  row-Sent cl row s s' (err x) e h = absurd (ground (arith, h))
  row-Sent cl row s s' (ok body) e h =
      let key = collection_request_key row.collector_type in
      let r = publish_json env.broker s.world cl key body in
      let note = λ (u : Unit {0}). note_enqueued env row.collector_type row.id row.source_spec in
      let (u, s1, a1, b1) = bind-ok env (publish_request env cl key (ok body)) note s s' tt h in
      let (no_error, after) = published-ok s s1 r.world r.client r.error u a1 in
      let end = sym (ap (λ p. p.1) b1) in
      record {
        body = body;
        marshalled = e;
        confirmed = no_error;
        broker_after = ap (λ x. x.world) end ∙ ap (λ x. x.world) after;
        shown =
            ap (λ x. x.activity) end
            ∙ ap
                (λ x.
                  record_enqueued (now_ms env x) x.activity row.collector_type row.id
                    row.source_spec)
                after;
        kept = ap (λ x. x.db.tables) end ∙ ap (λ x. x.db.tables) after;
      }

  -- What the request read from the database is not part of it.
  Sent_before :
      (cl : Client env.broker) (row : CollectionSourceRow) (s s' : Server env) (d : Db)
      → d.tables ≡ s.db.tables
      → Sent cl row (record s { db = d }) s'
      → Sent cl row s s'
  unfolding with_health collector_freshness now_ms
  Sent_before cl row s s' d e v = record {
    body = v.body;
    marshalled = v.marshalled;
    confirmed = v.confirmed;
    broker_after = v.broker_after;
    shown = v.shown;
    kept = v.kept ∙ e;
  }

  source-Sent :
      (cl : Client env.broker) (i : Bytes) (s s' : Server env)
      → enqueue_target env cl (collection_source_id i) s ≡ (ok tt, s')
      → (row : CollectionSourceRow) × (lookup
            (env.collation.fold (trim_space i))
            s.db.tables.sources
          ≡ some row)
        × Sent cl row s s'
  unfolding enqueue_target enqueue_row
  source-Sent cl i s s' h = elim (Bool-cases (is_nil (trim_space i))) [
    | inl e ↦ absurd (ground (arith, rw e at h))
    | inr e ↦
        let id = trim_space i in
        let get = on_db env source_code (get_collection_source_by_id env.collation id) in
        let (u, s1, a1, b1) =
          bind-ok env (meta_db env) (λ _. ◌>>=◌ env get (enqueue_row env cl)) s s' tt (rw e at h) in
        let (row, s2, a2, b2) = bind-ok env get (enqueue_row env cl) s1 s' tt b1 in
        let (has, same) = meta_db-ok env s s1 u a1 in
        let (d, gets, after) =
          on_db-ok env source_code (get_collection_source_by_id env.collation id) s1 s2 row a2 in
        let (still, found) = get-ok env.collation id s1.db d row gets in
        let sent = row-Sent cl row s2 s' (env.marshal (with_health env s2 row)) refl b2 in
        let here = db_after env s s1 s2 d same after in
        (
          row,
          sym (ap (λ x. lookup (env.collation.fold (trim_space i)) x.db.tables.sources) same)
              ∙ sym
                  (ap (λ x. lookup (env.collation.fold x) s1.db.tables.sources) (trim_space_idem i))
              ∙ found,
          Sent_before cl row s s' d (still ∙ ap (λ x. x.db.tables) same)
              (subst (λ x. Sent cl row x s') here sent),
        )
  ]

  client-Sent :
      (o : Option (Client env.broker)) (i : Bytes) (s s' : Server env)
      → s.amqp_client ≡ o
      → with_client env o (collection_source_id i) s ≡ (ok tt, s')
      → (cl : Client env.broker) × (row : CollectionSourceRow) × (s.amqp_client ≡ some cl)
        × (lookup (env.collation.fold (trim_space i)) s.db.tables.sources ≡ some row)
        × Sent cl row s s'
  unfolding with_client
  client-Sent none i s s' e h = absurd (ground (arith, h))
  client-Sent (some cl) i s s' e h =
      let (row, found, sent) = source-Sent cl i s s' h in (cl, row, e, found, sent)

  -- A request to collect a source now that returns no error: there is a client, the source has a
  -- row, and its message, marshalled, was published without an error on the key of the row's type;
  -- the activity shows it, and the tables are as they were.
  pub enqueue-Sent :
      (i : Bytes) (s s' : Server env)
      → enqueue_collection_request env (collection_source_id i) s ≡ (ok tt, s')
      → (cl : Client env.broker) × (row : CollectionSourceRow) × (s.amqp_client ≡ some cl)
        × (lookup (env.collation.fold (trim_space i)) s.db.tables.sources ≡ some row)
        × Sent cl row s s'
  unfolding enqueue_collection_request
  enqueue-Sent i s s' h = client-Sent s.amqp_client i s s' refl h
