-- ===== src/Controller/Server/Steps.antt =====
-- services/controller/main.go: what a handler that succeeded did.
use ice_hive.Prelude.{◌≡◌, refl, sym, ap, ◌∙◌, true, arith, Result, ok, err, Bool-cases, inl, inr}
use ice_hive.Text.{Bytes}
use ice_hive.Controller.Db.{Db, Action}
use ice_hive.Controller.Server.{
  Environment, Server, Handler, ConnectError, Code, ◌>>=◌, meta_db, on_db, db_answer,
}

module _ (env : Environment) where
  module _ {ℓ κ} {A : Type ℓ} {B : Type κ} where
    go_on :
        (f : A → Handler env B) (s' : Server env) (b : B)
        (x : Result (ConnectError env) A × Server env)
        → (let (r, s1) = x in elim r [ ok a ↦ f a s1 | err e ↦ (err e, s1) ]) ≡ (ok b, s')
        → (a : A) × (s1 : Server env) × (x ≡ (ok a, s1)) × (f a s1 ≡ (ok b, s'))
    go_on f s' b (ok a, s1) h = (a, s1, refl, h)
    go_on f s' b (err e, s1) h = absurd (ground (arith, h))

    pub bind-ok :
        (m : Handler env A) (f : A → Handler env B) (s s' : Server env) (b : B)
        → ◌>>=◌ env m f s ≡ (ok b, s')
        → (a : A) × (s1 : Server env) × (m s ≡ (ok a, s1)) × (f a s1 ≡ (ok b, s'))
    bind-ok m f s s' b h = go_on f s' b (m s) h

    pub bind-step :
        (m : Handler env A) (f : A → Handler env B) (s s1 : Server env) (a : A)
        → m s ≡ (ok a, s1)
        → ◌>>=◌ env m f s ≡ f a s1
    bind-step m f s s1 a e =
        ap (λ x. let (r, y) = x in elim r [ ok b ↦ f b y | err z ↦ (err z, y) ]) e

  pub meta_db-ok :
      (s s' : Server env) (u : Unit {0}) → meta_db env s ≡ (ok u, s') → (s.has_db ≡ true) × (s' ≡ s)
  unfolding meta_db
  meta_db-ok s s' u h = elim (Bool-cases s.has_db) [
    | inl e ↦ (e, sym (ap (λ p. p.1) (simp e at h)))
    | inr e ↦ absurd (ground (arith, rw e at h))
  ]

  pub db_stays :
      (s s1 s2 : Server env) (d : Db)
      → s1 ≡ s
      → s2 ≡ record s1 { db = d }
      → s.has_db ≡ true
      → (s2.has_db ≡ true) × (s2.db ≡ d)
  db_stays s s1 s2 d same after has =
      (ap (λ x. x.has_db) after ∙ ap (λ x. x.has_db) same ∙ has, ap (λ x. x.db) after)

  pub db_after :
      (s s1 s2 : Server env) (d : Db)
      → s1 ≡ s
      → s2 ≡ record s1 { db = d }
      → s2 ≡ record s { db = d }
  db_after s s1 s2 d same after =
      let put : Server env → Server env = λ x. record x { db = d } in after ∙ ap put same

  pub meta_db-step : (s : Server env) → s.has_db ≡ true → meta_db env s ≡ (ok tt, s)
  unfolding meta_db
  meta_db-step s e = simp e

  module _ {ℓ} {A : Type ℓ} where
    db_answer-ok :
        (code : Bytes → Code) (s s' : Server env) (a : A) (x : Result Bytes A × Db)
        → db_answer env code s x ≡ (ok a, s')
        → (d : Db) × (x ≡ (ok a, d)) × (s' ≡ record s { db = d })
    unfolding db_answer
    db_answer-ok code s s' a (ok b, d) h =
        let same : b ≡ a = ground (arith, h) in (d, ap (λ y. (ok y, d)) same, sym (ap (λ p. p.1) h))
    db_answer-ok code s s' a (err e, d) h = absurd (ground (arith, h))

    pub on_db-ok :
        (code : Bytes → Code) (m : Action A) (s s' : Server env) (a : A)
        → on_db env code m s ≡ (ok a, s')
        → (d : Db) × (m s.db ≡ (ok a, d)) × (s' ≡ record s { db = d })
    unfolding on_db
    on_db-ok code m s s' a h = db_answer-ok code s s' a (m s.db) h

    pub on_db-step :
        (code : Bytes → Code) (m : Action A) (s : Server env) (d : Db) (a : A)
        → m s.db ≡ (ok a, d)
        → on_db env code m s ≡ (ok a, record s { db = d })
    unfolding on_db db_answer
    on_db-step code m s d a e = ap (db_answer env code s) e
