-- ===== src/Controller/Db/Sources/Saving.antt =====
-- Saving and deleting a source.
use ice_hive.Prelude.{
  ◌≡◌, ◌⊎◌, refl, sym, ap, ◌∙◌, inl, inr, Bool, true, false, Option, none, some, arith,
  if◌then◌else◌, Bool-cases, Result, ok, err,
}
use mathlib.Core.Path.{subst}
use ice_hive.Prelude.Int.{ℤ}
use ice_hive.Text.{Bytes, codes, is_nil, trim_space, str_eq}
use ice_hive.Text.Trim.{str_eq_iff, trim_space_idem}
use ice_hive.Dict.{lookup, lookup-insert_self, lookup-insert}
use ice_hive.Controller.Db.{Collation, CollectionSourceRow, Db, ◌>>=◌}
use ice_hive.Controller.Db.Inversion.{bind-ok, call-ok}
use ice_hive.Controller.Db.Sources.{
  same_row, same_flag, touch, stored, trimmed, check_row, generated, validate_cron_line, given_id,
  save_row, upsert_source, upsert_collection_source, get_collection_source_by_id,
}
use ice_hive.Controller.Db.Sources.Steps.{
  check_row-Still, validate_cron_line-Still, given_id-Still, get-ok,
}

-- What a row holds of the request, and of the row that was there.
pub record Holds (r : CollectionSourceRow) (old : Option CollectionSourceRow)
    (row : CollectionSourceRow) : Type 0 where
  pub type : row.collector_type ≡ r.collector_type
  pub spec : row.source_spec ≡ r.source_spec
  pub cron : row.cron_line ≡ r.cron_line
  pub on : row.enabled ≡ r.enabled
  pub run : row.last_run_unix_ms ≡ (elim old [ none ↦ none | some o ↦ o.last_run_unix_ms ])
  pub success :
      row.last_success_unix_ms ≡ (elim old [ none ↦ none | some o ↦ o.last_success_unix_ms ])
  pub error : row.last_error ≡ (elim old [ none ↦ none | some o ↦ o.last_error ])
  pub due : row.next_due_unix_ms ≡ (elim old [ none ↦ none | some o ↦ o.next_due_unix_ms ])

-- The row of a duplicate key with the request's columns.
abbrev changed : CollectionSourceRow → CollectionSourceRow → CollectionSourceRow
changed r old = record old {
  collector_type = r.collector_type;
  source_spec = r.source_spec;
  cron_line = r.cron_line;
  enabled = r.enabled;
}

same_flag→eq : (a b : Bool) → same_flag a b ≡ true → a ≡ b
same_flag→eq true true h = refl
same_flag→eq true false h = sym h
same_flag→eq false true h = h
same_flag→eq false false h = refl

same_row→fields :
    (a b : CollectionSourceRow)
    → same_row a b ≡ true
    → (a.collector_type ≡ b.collector_type)
      × (a.source_spec ≡ b.source_spec)
      × (a.cron_line ≡ b.cron_line)
      × (a.enabled ≡ b.enabled)
unfolding same_row
same_row→fields a b h = (
  ground (arith, h, str_eq_iff a.collector_type b.collector_type),
  ground (arith, h, str_eq_iff a.source_spec b.source_spec),
  ground (arith, h, str_eq_iff a.cron_line b.cron_line),
  same_flag→eq a.enabled b.enabled (ground (arith, h)),
)

stored-Holds :
    (now : ℤ) (r : CollectionSourceRow) (old : Option CollectionSourceRow)
    → Holds r old (stored now r old)
unfolding stored touch
stored-Holds now r none = record {
  type = refl;
  spec = refl;
  cron = refl;
  on = refl;
  run = refl;
  success = refl;
  error = refl;
  due = refl;
}
stored-Holds now r (some old) = elim (Bool-cases (same_row old (changed r old))) [
  | inl e ↦
      let (a, b, x, y) = same_row→fields old (changed r old) e in
      rw e (record {
        type = a;
        spec = b;
        cron = x;
        on = y;
        run = refl;
        success = refl;
        error = refl;
        due = refl;
      })
  | inr e ↦ rw e (record {
    type = refl;
    spec = refl;
    cron = refl;
    on = refl;
    run = refl;
    success = refl;
    error = refl;
    due = refl;
  })
]

-- The id under which a request is saved.
abbrev pub IdOf : Bytes → Result Bytes Bytes → Bytes → Type 0
IdOf s random id =
    ((is_nil (trim_space s) ≡ false) × (id ≡ trim_space s))
    ⊎ ((is_nil (trim_space s) ≡ true) × (random ≡ ok id))

given_id-IdOf :
    (s : Bytes) (random : Result Bytes Bytes) (d d1 : Db) (id : Bytes)
    → given_id (trim_space s) random d ≡ (ok id, d1)
    → IdOf s random id
unfolding given_id generated
given_id-IdOf s (ok x) d d1 id h = elim (Bool-cases (is_nil (trim_space s))) [
  | inl e ↦ inr (e, ground (arith, rw e at h))
  | inr e ↦ inl (e, ground (arith, rw e at h))
]
given_id-IdOf s (err x) d d1 id h = elim (Bool-cases (is_nil (trim_space s))) [
  | inl e ↦ absurd (ground (arith, rw e at h))
  | inr e ↦ inl (e, ground (arith, rw e at h))
]

IdOf-trimmed :
    (s : Bytes) (random : Result Bytes Bytes) (id : Bytes)
    → ((x : Bytes) → random ≡ ok x → trim_space x ≡ x)
    → IdOf s random id
    → trim_space id ≡ id
IdOf-trimmed s random id clean (inl (e, q)) = ap trim_space q ∙ trim_space_idem s ∙ sym q
IdOf-trimmed s random id clean (inr (e, q)) = clean id q

module _ (c : Collation) where
  -- The source is saved under an id: its row holds the request's columns, trimmed, and keeps what is
  -- known of its runs; no other source has changed.
  pub record Saved (r : CollectionSourceRow) (id : Bytes) (d d' : Db) : Type 0 where
    pub row : CollectionSourceRow
    pub is : lookup (c.fold id) d'.tables.sources ≡ some row
    pub holds : Holds (trimmed r) (lookup (c.fold id) d.tables.sources) row
    pub others :
        (j : Bytes)
        → lookup j d'.tables.sources
          ≡ (if str_eq (c.fold id) j then some row else lookup j d.tables.sources)

  save_row-Saved :
      (r : CollectionSourceRow) (id : Bytes) (d d' : Db) (u : Unit {0})
      → save_row c (record (trimmed r) { id = id }) d ≡ (ok u, d')
      → Saved r id d d'
  unfolding save_row upsert_source
  save_row-Saved r id d d' u h =
      let new = record (trimmed r) { id = id } in
      let old = lookup (c.fold id) d.tables.sources in
      let (a, b) =
        call-ok (codes "upsert collection source") (upsert_source c d.clock new) d d' u h in
      let v = stored-Holds d.clock new old in
      subst (Saved r id d) (sym b) (record {
        row = stored d.clock new old;
        is = lookup-insert_self (c.fold id) _ d.tables.sources;
        holds = record {
          type = v.type;
          spec = v.spec;
          cron = v.cron;
          on = v.on;
          run = v.run;
          success = v.success;
          error = v.error;
          due = v.due;
        };
        others = λ j. lookup-insert (c.fold id) j _ d.tables.sources;
      })

  later_still :
      (r : CollectionSourceRow) (id : Bytes) (d a b : Db)
      → b.tables ≡ a.tables
      → Saved r id d a
      → Saved r id d b
  later_still r id d a b e v = record {
    row = v.row;
    is = ap (λ t. lookup (c.fold id) t.sources) e ∙ v.is;
    holds = v.holds;
    others = λ j. ap (λ t. lookup j t.sources) e ∙ v.others j;
  }

  returned_row :
      (row : CollectionSourceRow) (id : Bytes) (d a b : Db) (r : CollectionSourceRow)
      → b.tables ≡ a.tables
      → Saved row id d a
      → lookup (c.fold id) a.tables.sources ≡ some r
      → (v : Saved row id d b) × (v.row ≡ r)
  returned_row row id d a b r e v found =
      (later_still row id d a b e v, ground (arith, v.is, found))

  -- A source that is saved without an error stands under the id of the request, trimmed, or without
  -- one under the generated id, if that has no spaces around it: its row holds the request's type,
  -- spec, schedule (trimmed) and flag, and what was known of its runs; it is the row that is
  -- returned, and no other source has changed.
  pub upsert-Saved :
      (parse : Bytes → Option Bytes) (random : Result Bytes Bytes) (row r : CollectionSourceRow)
      (d d' : Db)
      → ((x : Bytes) → random ≡ ok x → trim_space x ≡ x)
      → upsert_collection_source c parse random row d ≡ (ok r, d')
      → (id : Bytes) × IdOf row.id random id × ((v : Saved row id d d') × (v.row ≡ r))
  unfolding upsert_collection_source
  upsert-Saved parse random row r d d' clean h =
      let t = trimmed row in
      let rest4 = λ (id : Bytes) (u : Unit {0}). get_collection_source_by_id c id in
      let rest3 = λ (id : Bytes). save_row c (record t { id = id }) >>= rest4 id in
      let rest2 = λ (u : Unit {0}). given_id (trim_space row.id) random >>= rest3 in
      let rest1 = λ (u : Unit {0}). validate_cron_line parse t.cron_line >>= rest2 in
      let (u1, d1, a1, b1) = bind-ok (check_row t) rest1 d d' r h in
      let (u2, d2, a2, b2) = bind-ok (validate_cron_line parse t.cron_line) rest2 d1 d' r b1 in
      let (id, d3, a3, b3) = bind-ok (given_id (trim_space row.id) random) rest3 d2 d' r b2 in
      let (u4, d4, a4, b4) = bind-ok (save_row c (record t { id = id })) (rest4 id) d3 d' r b3 in
      let still =
        given_id-Still (trim_space row.id) random d2 d3 id a3
        ∙ validate_cron_line-Still parse t.cron_line d1 d2 u2 a2
        ∙ check_row-Still t d d1 u1 a1 in
      let of = given_id-IdOf row.id random d2 d3 id a3 in
      let v = subst (λ x. Saved row id x d4) still (save_row-Saved row id d3 d4 u4 a4) in
      let (same, found) = get-ok c id d4 d' r b4 in
      let now =
        sym (ap (λ x. lookup (c.fold x) d4.tables.sources) (IdOf-trimmed row.id random id clean of))
        ∙ found in
      (id, of, returned_row row id d d4 d' r same v now)
