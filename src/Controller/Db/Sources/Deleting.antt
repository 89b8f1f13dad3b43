-- ===== src/Controller/Db/Sources/Deleting.antt =====
-- Deleting a source.
use ice_hive.Prelude.{
  ℕ, ◌==◌, ◌≡◌, refl, ap, ◌∙◌, false, Option, none, some, arith, if◌then◌else◌, ok,
}
use mathlib.Core.Path.{subst}
use ice_hive.Text.{Bytes, codes, trim_space, str_eq}
use ice_hive.Dict.{lookup, lookup-remove}
use ice_hive.Controller.Db.{Collation, CollectionSourceRow, Db, call, ◌>>=◌}
use ice_hive.Controller.Db.Inversion.{bind-ok, call-ok, done}
use ice_hive.Controller.Db.Sources.{
  require_collection_source_id, delete_source, delete_collection_source, affected, count_found,
}
use ice_hive.Controller.Db.Sources.Steps.{require_id-ok, affected-ok}

count_found-some :
    (o : Option CollectionSourceRow)
    → (count_found o == 0) ≡ false
    → (r : CollectionSourceRow) × (o ≡ some r)
count_found-some none h = absurd (ground (arith, h))
count_found-some (some r) h = (r, refl)

module _ (c : Collation) where
  gone :
      (s id : Bytes) (n : ℕ) (d d1 d' : Db)
      → id ≡ trim_space s
      → d1 ≡ d
      → n ≡ (delete_source c id d1.tables).0
      → d' ≡ done d1 (delete_source c id d1.tables).1
      → (n == 0) ≡ false
      → let key = c.fold (trim_space s) in
        ((r : CollectionSourceRow) × (lookup key d.tables.sources ≡ some r))
        × ((j : Bytes)
            → lookup j d'.tables.sources
              ≡ (if str_eq key j then none else lookup j d.tables.sources))
  unfolding delete_source
  gone s id n d d1 d' same still q made z =
      let key = c.fold (trim_space s) in
      let left =
        made
        ∙ ap (λ x. done x (delete_source c id x.tables).1) still
        ∙ ap (λ x. done d (delete_source c x d.tables).1) same in
      let is =
        q
        ∙ ap (λ x. (delete_source c id x.tables).0) still
        ∙ ap (λ x. (delete_source c x d.tables).0) same in
      let after = λ (j : Bytes).
        ap (λ x. lookup j x.tables.sources) left ∙ lookup-remove key j d.tables.sources in
      (count_found-some _ (subst (λ m. (m == 0) ≡ false) is z), λ j. after j)

  -- A source that is deleted without an error was there and is gone; no other source has changed.
  pub delete-Gone :
      (s : Bytes) (d d' : Db)
      → delete_collection_source c s d ≡ (ok tt, d')
      → let key = c.fold (trim_space s) in
        ((r : CollectionSourceRow) × (lookup key d.tables.sources ≡ some r))
        × ((j : Bytes)
            → lookup j d'.tables.sources
              ≡ (if str_eq key j then none else lookup j d.tables.sources))
  unfolding delete_collection_source
  delete-Gone s d d' h =
      let delete = λ (id : Bytes). call (codes "delete collection source") (delete_source c id) in
      let (id, d1, a1, b1) =
        bind-ok (require_collection_source_id s) (λ id. delete id >>= affected id) d d' tt h in
      let (n, d2, a2, b2) = bind-ok (delete id) (affected id) d1 d' tt b1 in
      let (same, still) = require_id-ok s id d d1 a1 in
      let (q, made) = call-ok (codes "delete collection source") (delete_source c id) d1 d2 n a2 in
      let (some_row, end) = affected-ok id n d2 d' tt b2 in
      gone s id n d d1 d' same still q (end ∙ made) some_row
