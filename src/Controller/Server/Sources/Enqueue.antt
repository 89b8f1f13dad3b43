-- ===== src/Controller/Server/Sources/Enqueue.antt =====
-- services/controller/main.go: a request to collect now, from the database to the broker and the
-- activity.
use ice_hive.Prelude.{
  ◌≡◌, refl, sym, ap, ◌∙◌, ◌||◌, [], Option, none, some, arith, if_both, Result, ok, err,
  Bool-cases, inl, inr,
}
use ice_hive.Text.{Bytes, codes, is_nil, trim_space}
use ice_hive.Dict.{lookup}
use ice_hive.Amqp.Names.{collection_request_key}
use ice_hive.Amqp.Client.{Client, Error, publish_json}
use ice_hive.Controller.Db.{Collation, CollectionSourceRow, Fault, Db, Action, answer, next_fault}
use ice_hive.Controller.Db as Db
use ice_hive.Controller.Db.Inversion.{if_same}
use ice_hive.Controller.Db.Sources.{
  get_collection_source_by_id, require_collection_source_id, found_or,
}
use ice_hive.Controller.Server.{
  Environment, Server, Handler, ConnectError, Code, ◌>>=◌, meta_db, on_db, db_answer, refuse,
  source_code, invalid_argument, unavailable,
}
use ice_hive.Controller.Server.Sources.{
  Target, collection_source_id, ephemeral_collection, no_target, with_health, published,
  publish_request, note_enqueued, enqueue_row, enqueue_target, with_client,
  enqueue_collection_request,
}

-- A read leaves the tables alone, with an error too.
found_or-still :
    (id : Bytes) (o : Option CollectionSourceRow) (d : Db) → (found_or id o d).1.tables ≡ d.tables
unfolding found_or
found_or-still id none d = refl
found_or-still id (some r) d = refl

answer-still :
    (label id : Bytes) (o : Option CollectionSourceRow) (d : Db) (f : Option Fault)
    → (let (r, d1) = answer label (o, d.tables) d f in
        elim r as (λ _. Result Bytes CollectionSourceRow × Db) [
          | ok a ↦ found_or id a d1
          | err x ↦ Db.raise x d1
        ]).1.tables
      ≡ d.tables
answer-still label id o d none = found_or-still id o _
answer-still label id o d (some e) = if_same e.has_run d.tables

get-still :
    (c : Collation) (s : Bytes) (d : Db) → (get_collection_source_by_id c s d).1.tables ≡ d.tables
unfolding get_collection_source_by_id require_collection_source_id
get-still c s d = elim (Bool-cases (is_nil (trim_space s))) [
  | inl e ↦ rw e refl
  | inr e ↦ rw e (
      answer-still (codes "get collection source") (trim_space s)
        (lookup (c.fold (trim_space s)) d.tables.sources) d (next_fault d.faults))
]

module _ (env : Environment) where
  -- The activity and the tables are the same.
  abbrev Same : Server env → Server env → Type 0
  Same s s' = (s'.activity ≡ s.activity) × (s'.db.tables ≡ s.db.tables)

  same : (s : Server env) → Same s s
  same s = (refl, refl)

  module _ {ℓ} {A : Type ℓ} where
    abbrev Calm : Handler env A → Type 0
    Calm m = (s : Server env) → Same s (m s).1

    abbrev Quiet : Handler env A → Type ℓ
    Quiet m = (s s' : Server env) (e : ConnectError env) → m s ≡ (err e, s') → Same s s'

    refuse-Quiet : (code : Code) (e : Bytes) → Quiet (refuse env code e)
    refuse-Quiet code e s s' x h = (sym (ap (λ p. p.1.activity) h), sym (ap (λ p. p.1.db.tables) h))

    db_answer-Calm :
        (code : Bytes → Code) (s : Server env) (x : Result Bytes A × Db)
        → x.1.tables ≡ s.db.tables
        → Same s (db_answer env code s x).1
    unfolding db_answer
    db_answer-Calm code s (ok a, d) h = (refl, h)
    db_answer-Calm code s (err e, d) h = (refl, h)

  module _ {ℓ κ} {A : Type ℓ} {B : Type κ} where
    went :
        (f : A → Handler env B)
        → ((a : A) → Quiet (f a))
        → (s s' : Server env) (e : ConnectError env) (x : Result (ConnectError env) A × Server env)
        → Same s x.1
        → (let (r, s1) = x in elim r [ ok a ↦ f a s1 | err z ↦ (err z, s1) ]) ≡ (err e, s')
        → Same s s'
    went f q s s' e (ok a, s1) (k, l) h = let (m, n) = q a s1 s' e h in (m ∙ k, n ∙ l)
    went f q s s' e (err z, s1) (k, l) h =
        (sym (ap (λ p. p.1.activity) h) ∙ k, sym (ap (λ p. p.1.db.tables) h) ∙ l)

    bind-Quiet :
        (m : Handler env A) (f : A → Handler env B)
        → Calm m
        → ((a : A) → Quiet (f a))
        → Quiet (◌>>=◌ env m f)
    bind-Quiet m f c q s s' e h = went f q s s' e (m s) (c s) h

  meta_db-Calm : Calm (meta_db env)
  unfolding meta_db
  meta_db-Calm s =
      if_both {A = Result (ConnectError env) (Unit {0}) × Server env} (λ x. Same s x.1) s.has_db
        (same s) (same s)

  get-Calm :
      (id : Bytes) → Calm (on_db env source_code (get_collection_source_by_id env.collation id))
  unfolding on_db
  get-Calm id s =
      db_answer-Calm source_code s (get_collection_source_by_id env.collation id s.db)
        (get-still env.collation id s.db)

  published-Same :
      (s : Server env) (w : env.broker.World) (cl : Client env.broker)
      (e : Option (Error env.broker))
      → Same s (published env s w cl e).1
  unfolding published
  published-Same s w cl none = same s
  published-Same s w cl (some e) = same s

  publish-Calm :
      (cl : Client env.broker) (key : Bytes) (m : Result Bytes Bytes)
      → Calm (publish_request env cl key m)
  unfolding publish_request
  publish-Calm cl key (err e) s = same s
  publish-Calm cl key (ok body) s =
      let r = publish_json env.broker s.world cl key body in
      published-Same s r.world r.client r.error

  note-Quiet : (type id spec : Bytes) → Quiet (note_enqueued env type id spec)
  unfolding note_enqueued
  note-Quiet type id spec s s' e h = absurd (ground (arith, h))

  row-Quiet : (cl : Client env.broker) (row : CollectionSourceRow) → Quiet (enqueue_row env cl row)
  unfolding enqueue_row
  row-Quiet cl row s s' e h =
      bind-Quiet
        (publish_request env cl (collection_request_key row.collector_type)
          (env.marshal (with_health env s row)))
        (λ _. note_enqueued env row.collector_type row.id row.source_spec) (publish-Calm cl _ _)
        (λ _. note-Quiet _ _ _) s s' e h

  target-Quiet : (cl : Client env.broker) (t : Target) → Quiet (enqueue_target env cl t)
  unfolding enqueue_target
  target-Quiet cl no_target = refuse-Quiet invalid_argument _
  target-Quiet cl (ephemeral_collection none) = refuse-Quiet invalid_argument _
  target-Quiet cl (collection_source_id i) =
      let id = trim_space i in
      let get = on_db env source_code (get_collection_source_by_id env.collation id) in
      if_both Quiet (is_nil id) (refuse-Quiet invalid_argument (codes "empty collection_source_id"))
        (bind-Quiet (meta_db env) (λ _. ◌>>=◌ env get (enqueue_row env cl)) meta_db-Calm
          (λ _. bind-Quiet get (enqueue_row env cl) (get-Calm id) (row-Quiet cl)))
  target-Quiet cl (ephemeral_collection (some src)) =
      let type = trim_space src.collector_type in
      let spec = trim_space src.source_spec in
      let send =
        publish_request env cl (collection_request_key type)
          (env.marshal (record src { id = [] })) in
      if_both Quiet (is_nil type || is_nil spec)
        (refuse-Quiet invalid_argument
          (codes "ephemeral_collection requires collector_type and source_spec"))
        (bind-Quiet send (λ _. note_enqueued env type [] spec) (publish-Calm cl _ _)
          (λ _. note-Quiet type [] spec))

  client-Quiet : (o : Option (Client env.broker)) (t : Target) → Quiet (with_client env o t)
  unfolding with_client
  client-Quiet none t = refuse-Quiet unavailable _
  client-Quiet (some cl) t = target-Quiet cl t

  -- A request to collect now that returns an error has left the activity and the tables as they
  -- were: nothing is shown as published that was not.
  pub failed_enqueue :
      (t : Target) (s s' : Server env) (e : ConnectError env)
      → enqueue_collection_request env t s ≡ (err e, s')
      → (s'.activity ≡ s.activity) × (s'.db.tables ≡ s.db.tables)
  unfolding enqueue_collection_request
  failed_enqueue t s s' e h = client-Quiet s.amqp_client t s s' e h
