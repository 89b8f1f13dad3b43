-- ===== src/PersisterMysql/Table/Columns.antt =====
-- The columns that a row is written to are there.
use Prim.Native.Nat.{suc}
use ice_hive.Prelude.{
  ◌≡◌, ◌⊎◌, refl, sym, ap, ◌∙◌, inl, inr, true, false, ◌||◌, List, [], ◌∷◌, ◌++◌, Option, none,
  some, arith, Bool-cases, Result-cases, length,
}
use mathlib.Core.Path.{subst}
use ice_hive.Text.{Bytes, codes, str_eq, is_nil}
use ice_hive.Text.Trim.{str_eq→eq}
use ice_hive.Dict.{Dict}
use ice_hive.PersisterMysql.Names.{entity_column_name}
use ice_hive.PersisterMysql.Sql.{
  Field, send, add_column, has, sql_type, field_columns, names, metadata_columns, Database, Laws,
}
use ice_hive.PersisterMysql.Table.{
  Message, Error, Outcome, fail_with, alter_failed, create_failed, create_table_for, and_then,
  add_one, add_columns, add_recollect_spec, with_columns, read_columns, ensure_table,
  upsert_columns, upsert_values, field_values,
}

has-append : (xs ys : List Bytes) (c : Bytes) → has (xs ++ ys) c ≡ (has xs c || has ys c)
unfolding has
has-append [] ys c = refl
has-append (x ∷ xs) ys c = ground (arith, has-append xs ys c)

has_right : (xs ys : List Bytes) (c : Bytes) → has xs c ≡ false → has (xs ++ ys) c ≡ has ys c
has_right xs ys c h = has-append xs ys c ∙ ap (λ b. b || has ys c) h

has-cons :
    (d : Bytes) (ds : List Bytes) (c : Bytes) → has (d ∷ ds) c ≡ true → (d ≡ c) ⊎ (has ds c ≡ true)
unfolding has
has-cons d ds c h = elim (Bool-cases (str_eq d c)) [
  | inl e ↦ inl (str_eq→eq d c e)
  | inr e ↦ inr (rw e at h)
]

-- The columns of a table that this program made before it knew of recollect_spec.
abbrev pub first_columns : List Bytes
first_columns =
    codes "source_hash_value"
    ∷ codes "source_unique_id"
    ∷ codes "source_collector_type"
    ∷ codes "source_system"
    ∷ codes "observed_unix_ms"
    ∷ []

module _ {V : Type 0} (d : Database V) where
  length-field_values :
      (fs : List Field) (values : Dict V)
      → length (field_values d fs values) ≡ length (names (field_columns fs))
  unfolding field_values field_columns
  length-field_values [] values = refl
  length-field_values ((f, ty) ∷ fs) values = elim (Bool-cases (is_nil (entity_column_name f))) [
    | inl e ↦ rw e (length-field_values fs values)
    | inr e ↦ rw e (ap suc (length-field_values fs values))
  ]

  -- The upsert of an entity has exactly one value for each column that it names.
  pub length-upsert_values :
      (m : Message V) → length (upsert_values d m) ≡ length (upsert_columns d m.structure)
  unfolding upsert_values upsert_columns
  length-upsert_values m =
      ap (λ n. suc (suc (suc (suc (suc (suc n)))))) (length-field_values m.structure m.values)

module _ {V : Type 0} (d : Database V) (laws : Laws d) where
  open d use {World, Failure}

  abbrev pub Has : World → Bytes → Bytes → Type 0
  Has w t c = has (laws.cols w t) c ≡ true

  -- All columns of the list are in the table.
  abbrev pub HasAll : World → Bytes → List Bytes → Type 0
  HasAll w t cs = (c : Bytes) → has cs c ≡ true → Has w t c

  fail_with-ok :
      (f : Failure → Error d) (x : World × Option Failure) (w' : World)
      → fail_with d f x ≡ (w', none)
      → x ≡ (w', none)
  unfolding fail_with
  fail_with-ok f (w, none) w' h = ground arith
  fail_with-ok f (w, some e) w' h = ground arith

  and_then-ok :
      (r : Outcome d) (k : World → Outcome d) (w' : World)
      → and_then d r k ≡ (w', none)
      → (w1 : World) × (r ≡ (w1, none)) × (k w1 ≡ (w', none))
  unfolding and_then
  and_then-ok (w, none) k w' h = (w, refl, h)
  and_then-ok (w, some e) k w' h = absurd (ground arith)

  add_one-Has :
      (w : World) (t c type : Bytes) (w' : World)
      → add_one d w t c type ≡ (w', none)
      → Has w' t c × ((x : Bytes) → Has w t x → Has w' t x)
  unfolding add_one
  add_one-Has w t c type w' h =
      let e = fail_with-ok alter_failed (d.exec w (send (add_column t c type)) []) w' h in
      (laws.add_lem w t c type [] w' e, λ x k. laws.add_keeps w t c type [] w' x e k)

  -- What the loop over the structure has done when it ends without an error.
  record Added (t : Bytes) (fs : List Field) (w w' : World) : Type 0 where
    keeps : (x : Bytes) → Has w t x → Has w' t x
    adds : HasAll w' t (names (field_columns fs))

  -- One field that is not skipped: its column is added and kept, then the others.
  one_field :
      (t : Bytes) (existing : List Bytes) (f ty : Bytes) (fs : List Field) (w w1 w' : World)
      → add_one d w t (entity_column_name f) (sql_type ty) ≡ (w1, none)
      → HasAll w t existing
      → (HasAll w1 t existing → Added t fs w1 w')
      → Has w' t (entity_column_name f) × Added t fs w w'
  one_field t existing f ty fs w w1 w' e old rest =
      let (has_it, kept) = add_one-Has w t (entity_column_name f) (sql_type ty) w1 e in
      let r = rest (λ c k. kept c (old c k)) in
      (r.keeps _ has_it, record { keeps = λ x k. r.keeps x (kept x k); adds = r.adds })

  -- The field's own column together with those of the fields behind it.
  field_then_rest :
      (t : Bytes) (f ty : Bytes) (fs : List Field) (w w' : World)
      → (is_nil (entity_column_name f) ≡ false → Has w' t (entity_column_name f))
      → Added t fs w w'
      → Added t ((f, ty) ∷ fs) w w'
  unfolding field_columns
  field_then_rest t f ty fs w w' own r = elim (Bool-cases (is_nil (entity_column_name f))) [
    | inl e ↦ record { keeps = r.keeps; adds = λ c k. r.adds c (rw e at k) }
    | inr e ↦
        let both : HasAll w' t (names ((entity_column_name f, ty) ∷ field_columns fs)) = λ c k.
          elim (has-cons _ _ c k) [ inl p ↦ subst (Has w' t) p (own e) | inr q ↦ r.adds c q ] in
        record { keeps = r.keeps; adds = λ c k. both c (rw e at k) }
  ]

  -- A loop that ends without an error.
  add_columns-Added :
      (t : Bytes) (existing : List Bytes) (fs : List Field) (w w' : World)
      → HasAll w t existing
      → add_columns d t existing fs w ≡ (w', none)
      → Added t fs w w'
  unfolding add_columns field_columns has
  add_columns-Added t existing [] w w' old h =
      subst (λ v. Added t [] w v) (ground arith) (record { keeps = λ x k. k; adds = λ c k. cc })
  add_columns-Added t existing ((f, ty) ∷ fs) w w' old h =
      elim (Bool-cases (is_nil (entity_column_name f) || has existing (entity_column_name f))) [
        | inl e ↦
            let r = add_columns-Added t existing fs w w' old (rw e at h) in
            field_then_rest t f ty fs w w' (λ n. r.keeps _ (old _ (ground (arith, n, e)))) r
        | inr e ↦
            let (w1, eq, rest) = and_then-ok _ _ w' (rw e at h) in
            let (own, r) =
              one_field t existing f ty fs w w1 w' eq old
                (λ o. add_columns-Added t existing fs w1 w' o rest) in
            field_then_rest t f ty fs w w' (λ n. own) r
      ]

  -- The column for the spec is there, whether it was added or not.
  add_recollect_spec-Has :
      (t : Bytes) (existing : List Bytes) (w w' : World)
      → HasAll w t existing
      → add_recollect_spec d w t existing ≡ (w', none)
      → Has w' t (codes "recollect_spec") × ((x : Bytes) → Has w t x → Has w' t x)
  unfolding add_recollect_spec
  add_recollect_spec-Has t existing w w' old h =
      elim (Bool-cases (has existing (codes "recollect_spec"))) [
        | inl e ↦
            subst (λ v. Has v t (codes "recollect_spec") × ((x : Bytes) → Has w t x → Has v t x))
              (ground (arith, rw e at h)) (old _ e, λ x k. k)
        | inr e ↦ add_one-Has w t (codes "recollect_spec") (codes "TEXT") w' (rw e at h)
      ]

  -- The list of columns splits into the first ones, the spec's and those of the structure.
  all_columns :
      (w : World) (t : Bytes) (structure : List Field)
      → HasAll w t first_columns
      → Has w t (codes "recollect_spec")
      → HasAll w t (names (field_columns structure))
      → HasAll w t (upsert_columns d structure)
  unfolding upsert_columns has
  all_columns w t structure first spec own c h = elim (has-cons-append c h) [
    | inl k ↦ first c k
    | inr (inl k) ↦ subst (Has w t) k spec
    | inr (inr k) ↦ own c k
  ]
    where
      has-cons-append :
          (c : Bytes)
          → has (metadata_columns ++ names (field_columns structure)) c ≡ true
          → (has first_columns c ≡ true)
            ⊎ ((codes "recollect_spec" ≡ c) ⊎ (has (names (field_columns structure)) c ≡ true))
      has-cons-append c k = elim (Bool-cases (has first_columns c)) [
        | inl e ↦ inl e
        | inr e ↦ inr (
            has-cons (codes "recollect_spec") (names (field_columns structure)) c (
              sym (
                has_right first_columns (codes "recollect_spec" ∷ names (field_columns structure)) c
                  e)
              ∙ k))
      ]

  -- A table that had no columns, or had the first ones.
  abbrev pub Usable : World → Bytes → Type 0
  Usable w t = (laws.cols w t ≡ []) ⊎ HasAll w t first_columns

  old_and_new :
      (t : Bytes) (xs : List Bytes) (w w1 : World)
      → HasAll w t xs
      → Has w1 t (codes "recollect_spec")
      → ((x : Bytes) → Has w t x → Has w1 t x)
      → HasAll w1 t (codes "recollect_spec" ∷ xs)
  old_and_new t xs w w1 old spec kept c k = elim (has-cons (codes "recollect_spec") xs c k) [
    | inl p ↦ subst (Has w1 t) p spec
    | inr q ↦ kept c (old c q)
  ]

  with_columns-HasAll :
      (w w' : World) (t : Bytes) (structure : List Field) (existing : List Bytes)
      → existing ≡ laws.cols w t
      → Usable w t
      → with_columns d w t structure existing ≡ (w', none)
      → HasAll w' t (upsert_columns d structure)
  unfolding with_columns upsert_columns create_table_for
  with_columns-HasAll w w' t structure [] e u h = λ c k.
      laws.create_lem w t (field_columns structure) [] w' c (sym e)
        (fail_with-ok create_failed _ w' h) k
  with_columns-HasAll w w' t structure (x ∷ xs) e u h =
      let first : HasAll w t first_columns = elim u [
        | inl n ↦ absurd (ground (arith, e, n))
        | inr f ↦ f
      ] in
      let old : HasAll w t (x ∷ xs) = λ c k. subst (λ v. has v c ≡ true) e k in
      let (w1, eq, rest) = and_then-ok _ _ w' h in
      let (spec, kept) = add_recollect_spec-Has t (x ∷ xs) w w1 old eq in
      let r =
        add_columns-Added t _ structure w1 w' (old_and_new t (x ∷ xs) w w1 old spec kept) rest in
      all_columns w' t structure (λ c k. r.keeps c (kept c (first c k))) (r.keeps _ spec) r.adds

  -- If ensure_table ends without an error, on a table that had no columns or at least the five first
  -- ones, then the table has every column that the upsert of this structure writes.
  pub ensure_table-HasAll :
      (w w' : World) (t : Bytes) (structure : List Field)
      → Usable w t
      → ensure_table d w t structure ≡ (w', none)
      → HasAll w' t (upsert_columns d structure)
  unfolding ensure_table read_columns
  ensure_table-HasAll w w' t structure u h = elim (Result-cases (d.table_columns w t)) [
    | inl (cs, e) ↦ with_columns-HasAll w w' t structure cs (laws.read_lem w t cs e) u (rw e at h)
    | inr (f, e) ↦ absurd (ground (arith, rw e at h))
  ]
