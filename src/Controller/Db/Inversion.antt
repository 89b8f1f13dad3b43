-- ===== src/Controller/Db/Inversion.antt =====
-- What an action that succeeded did.
use ice_hive.Prelude.{
  Bool, true, false, if◌then◌else◌, ◌≡◌, ap, sym, refl, Option, none, some, Result, ok, err, arith,
}
use ice_hive.Text.{Bytes}
use ice_hive.Controller.Db.{
  Fault, Tables, Db, Action, pure, raise, ◌>>=◌, answer, call, next_fault, later,
}

module _ {ℓ κ} {A : Type ℓ} {B : Type κ} where
  go_on :
      (f : A → Action B) (d' : Db) (b : B) (x : Result Bytes A × Db)
      → (let (r, d1) = x in elim r [ ok a ↦ f a d1 | err e ↦ raise e d1 ]) ≡ (ok b, d')
      → (a : A) × (d1 : Db) × (x ≡ (ok a, d1)) × (f a d1 ≡ (ok b, d'))
  go_on f d' b (ok a, d1) h = (a, d1, refl, h)
  go_on f d' b (err e, d1) h = absurd (ground (arith, h))

  pub bind-ok :
      (m : Action A) (f : A → Action B) (d d' : Db) (b : B)
      → (m >>= f) d ≡ (ok b, d')
      → (a : A) × (d1 : Db) × (m d ≡ (ok a, d1)) × (f a d1 ≡ (ok b, d'))
  bind-ok m f d d' b h = go_on f d' b (m d) h

  pub bind-step :
      (m : Action A) (f : A → Action B) (d d1 : Db) (a : A)
      → m d ≡ (ok a, d1)
      → (m >>= f) d ≡ f a d1
  bind-step m f d d1 a e = ap (λ x. let (r, y) = x in elim r [ ok b ↦ f b y | err z ↦ raise z y ]) e

-- A query leaves the tables alone whether the server has run it or not.
pub if_same : (b : Bool) (t : Tables) → (if b then t else t) ≡ t
if_same true t = refl
if_same false t = refl

-- The state behind a call that succeeded.
abbrev pub done : Db → Tables → Db
done d t = record d { tables = t; faults = later d.faults }

module _ {ℓ} {A : Type ℓ} where
  answer-ok :
      (label : Bytes) (r : A × Tables) (d d' : Db) (a : A) (f : Option Fault)
      → answer label r d f ≡ (ok a, d')
      → (a ≡ r.0) × (d' ≡ done d r.1)
  answer-ok label r d d' a none h = (ground (arith, h), ground (arith, h))
  answer-ok label r d d' a (some e) h = absurd (ground (arith, h))

  pub call-ok :
      (label : Bytes) (f : Tables → A × Tables) (d d' : Db) (a : A)
      → call label f d ≡ (ok a, d')
      → (a ≡ (f d.tables).0) × (d' ≡ done d (f d.tables).1)
  call-ok label f d d' a h = answer-ok label (f d.tables) d d' a (next_fault d.faults) h

module _ {ℓ} {A : Type ℓ} where
  -- An action that leaves the database alone where it succeeds.
  abbrev pub Still : Action A → Type ℓ
  Still m = (d d' : Db) (a : A) → m d ≡ (ok a, d') → d' ≡ d

  pub pure-Still : (a : A) → Still (pure a)
  pure-Still a d d' b h = sym (ap (λ p. p.1) h)

  pub raise-Still : (e : Bytes) → Still (raise e)
  raise-Still e d d' b h = absurd (ground (arith, h))
