-- ===== src/Controller/Db/Sources/Steps.antt =====
-- The steps of the operations on the sources.
use ice_hive.Prelude.{
  ℕ, ◌==◌, ◌≡◌, sym, ap, ◌∙◌, inl, inr, false, Option, none, some, arith, if_both, Bool-cases,
  Result, ok, err, ltb, length,
}
use ice_hive.Text.{Bytes, codes, is_nil, trim_space}
use ice_hive.Dict.{lookup}
use ice_hive.Controller.Db.{Collation, CollectionSourceRow, Db, Action, query, ◌>>=◌}
use ice_hive.Controller.Db.Inversion.{bind-ok, call-ok, done, Still, pure-Still, raise-Still}
use ice_hive.Controller.Db.Sources.{
  check_row, checked, generated, validate_cron_line, given_id, get_collection_source_by_id,
  require_collection_source_id, found_or, affected,
}

-- The checks leave the database alone.
pub check_row-Still : (r : CollectionSourceRow) → Still (check_row r)
unfolding check_row
check_row-Still r =
    if_both Still (is_nil r.collector_type) (raise-Still _)
      (if_both Still (is_nil r.source_spec) (raise-Still _) (pure-Still tt))

pub checked-Still : (e : Option Bytes) → Still (checked e)
unfolding checked
checked-Still none = pure-Still tt
checked-Still (some e) = raise-Still _

pub validate_cron_line-Still :
    (parse : Bytes → Option Bytes) (s : Bytes) → Still (validate_cron_line parse s)
unfolding validate_cron_line
validate_cron_line-Still parse s = if_both Still (is_nil (trim_space s)) (pure-Still tt) (
    if_both Still (ltb 256 (length (trim_space s))) (raise-Still _)
      (checked-Still (parse (trim_space s))))

pub generated-Still : (random : Result Bytes Bytes) → Still (generated random)
unfolding generated
generated-Still (ok s) = pure-Still s
generated-Still (err e) = raise-Still _

pub given_id-Still : (id : Bytes) (random : Result Bytes Bytes) → Still (given_id id random)
unfolding given_id
given_id-Still id random = if_both Still (is_nil id) (generated-Still random) (pure-Still id)

pub found_or-ok :
    (id : Bytes) (o : Option CollectionSourceRow) (d d' : Db) (r : CollectionSourceRow)
    → found_or id o d ≡ (ok r, d')
    → (o ≡ some r) × (d' ≡ d)
unfolding found_or
found_or-ok id none d d' r h = absurd (ground (arith, h))
found_or-ok id (some x) d d' r h = (ground (arith, h), sym (ap (λ p. p.1) h))

pub require_id-ok :
    (s id : Bytes) (d d' : Db)
    → require_collection_source_id s d ≡ (ok id, d')
    → (id ≡ trim_space s) × (d' ≡ d)
unfolding require_collection_source_id
require_id-ok s id d d' h = elim (Bool-cases (is_nil (trim_space s))) [
  | inl e ↦ absurd (ground (arith, rw e at h))
  | inr e ↦ (ground (arith, rw e at h), sym (ap (λ p. p.1) (rw e at h)))
]

pub affected-ok :
    (id : Bytes) (n : ℕ) (d d' : Db) (u : Unit {0})
    → affected id n d ≡ (ok u, d')
    → ((n == 0) ≡ false) × (d' ≡ d)
unfolding affected
affected-ok id n d d' u h = elim (Bool-cases (n == 0)) [
  | inl e ↦ absurd (ground (arith, rw e at h))
  | inr e ↦ (e, sym (ap (λ p. p.1) (rw e at h)))
]

module _ (c : Collation) where
  find : Bytes → Action (Option CollectionSourceRow)
  find id = query (codes "get collection source") (λ t. lookup (c.fold id) t.sources)

  pub get-ok :
      (s : Bytes) (d d' : Db) (r : CollectionSourceRow)
      → get_collection_source_by_id c s d ≡ (ok r, d')
      → (d'.tables ≡ d.tables) × (lookup (c.fold (trim_space s)) d.tables.sources ≡ some r)
  unfolding get_collection_source_by_id find
  get-ok s d d' r h =
      let (id, d1, a, b) =
        bind-ok (require_collection_source_id s) (λ id. find id >>= found_or id) d d' r h in
      let (o, d2, x, y) = bind-ok (find id) (found_or id) d1 d' r b in
      let (same, still) = require_id-ok s id d d1 a in
      let (q, at) =
        call-ok (codes "get collection source") (λ t. (lookup (c.fold id) t.sources, t)) d1 d2 o
          x in
      let (is, end) = found_or-ok id o d2 d' r y in
      (
        ap (λ z. z.tables) (end ∙ at ∙ ap (λ z. done z z.tables) still),
        sym (ap (λ z. lookup (c.fold z) d.tables.sources) same)
            ∙ sym (ap (λ z. lookup (c.fold id) z.tables.sources) still)
            ∙ sym q
            ∙ is,
      )
