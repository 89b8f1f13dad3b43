-- ===== src/Controller/Server/Sources/Report.antt =====
-- services/controller/main.go: the report of a run, in the database and in the activity.
use ice_hive.Prelude.{
  ◌+◌, ◌-◌, ◌%◌, ◌^◌, ◌≡◌, refl, sym, ap, ◌∙◌, Bool, false, [], ◌∷◌, Option, none, some, arith,
  Result, ok, err, Bool-cases, inl, inr, take,
}
use mathlib.Core.Path.{subst}
use ice_hive.Prelude.Int.{ℤ}
use ice_hive.Text.{Bytes, codes, is_nil, trim_space}
use ice_hive.Text.Trim.{trim_space_idem}
use ice_hive.Dict.{lookup}
use ice_hive.Controller.Activity.{Event}
use ice_hive.Controller.Activity.Slots.{IsValid, view}
use ice_hive.Controller.Activity.Runs.{IsRunEvent, record_run-Shown}
use ice_hive.Controller.Db.{
  CollectionSourceRow, Tables, Fault, Db, next_fault, later, answer, query, raise,
}
use ice_hive.Controller.Db as Db
use ice_hive.Controller.Db.Inversion.{if_same}
use ice_hive.Controller.Db.Inversion
use ice_hive.Controller.Db.Sources.{
  found_or, require_collection_source_id, get_collection_source_by_id, report_collection_source_run,
  reported,
}
use ice_hive.Controller.Db.Sources.Runs.{Updated, report-Updated, Recorded, Updated-Recorded}
use ice_hive.Controller.Server.{Environment, Server, ◌>>=◌, meta_db, on_db, source_code, now_ms}
use ice_hive.Controller.Server.Steps.{bind-ok, meta_db-ok, on_db-ok, db_after}
use ice_hive.Controller.Server.Sources.{report_run_request, note_run, type_or_empty}

-- What the activity says of the type: the row's, or none where the row cannot be read again.
abbrev pub TypeShown : Option Fault → CollectionSourceRow → Bytes → Type 0
TypeShown none row type = type ≡ row.collector_type
TypeShown (some fault) row type = type ≡ []

module _ (env : Environment) where
  -- The report is in the tables and in the activity.
  pub record Reported (source_id : Bytes) (run : ℤ) (success : Bool) (error : Bytes) (next_due : ℤ)
      (s s' : Server env) : Type 0 where
    pub saved :
        Recorded
          (env.collation.fold source_id)
          run
          success
          error
          next_due
          s.db.clock
          s.db.tables
          s'.db.tables
    pub row : CollectionSourceRow
    pub row_is : lookup (env.collation.fold source_id) s'.db.tables.sources ≡ some row
    pub type : Bytes
    pub type_shown : TypeShown (next_fault (later s.db.faults)) row type
    pub event : Event
    pub shown : view s'.activity ≡ event ∷ take (s.activity.cap - 1) (view s.activity)
    pub is_run :
        IsRunEvent
          (now_ms env s)
          ((s.activity.seq + 1) % 2 ^ 64)
          source_id
          (trim_space type)
          success
          event

  -- Reading a row again that is there: the tables stay, and the type is the row's if the call answers.
  abbrev Rereads :
      CollectionSourceRow → Tables → Option Fault → Result Bytes CollectionSourceRow × Db → Type 0
  Rereads row t f (r, d) = TypeShown f row (type_or_empty env r) × (d.tables ≡ t)

  abbrev found :
      Bytes → Result Bytes (Option CollectionSourceRow) × Db → Result Bytes CollectionSourceRow × Db
  found id x = let (r, d) = x in elim r [ ok o ↦ found_or id o d | err e ↦ raise e d ]

  found-Rereads :
      (label id : Bytes) (row : CollectionSourceRow) (d : Db) (o : Option CollectionSourceRow)
      (f : Option Fault)
      → o ≡ some row
      → Rereads row d.tables f (found id (answer label (o, d.tables) d f))
  unfolding found_or type_or_empty
  found-Rereads label id row d o none q = rw q (refl, refl)
  found-Rereads label id row d o (some x) q = (refl, if_same x.has_run d.tables)

  reread :
      (id : Bytes) (row : CollectionSourceRow) (d : Db) (f : Option Fault)
      → is_nil (trim_space id) ≡ false
      → lookup (env.collation.fold (trim_space id)) d.tables.sources ≡ some row
      → next_fault d.faults ≡ f
      → Rereads row d.tables f (get_collection_source_by_id env.collation id d)
  unfolding get_collection_source_by_id require_collection_source_id
  reread id row d f e q g =
      let i = trim_space id in
      let o = lookup (env.collation.fold i) d.tables.sources in
      let label = codes "get collection source" in
      subst (Rereads row d.tables f)
        (sym (
          Inversion.bind-step (require_collection_source_id id)
            (λ j.
              Db.◌>>=◌ (query label (λ t. lookup (env.collation.fold j) t.sources)) (found_or j))
            d d i (rw e refl)
          ∙ ap (λ k. found i (answer label (o, d.tables) d k)) g))
        (found-Rereads label i row d o f q)

  noted-Reported :
      (id : Bytes) (run : ℤ) (success : Bool) (error : Bytes) (next_due : ℤ) (s : Server env)
      (d : Db)
      → is_nil id ≡ false
      → trim_space id ≡ id
      → IsValid s.activity
      → Updated env.collation (env.collation.fold id) (reported run success error next_due) s.db d
      → Reported id run success error next_due s
          (note_run env id success error (record s { db = d })).1
  unfolding note_run now_ms
  noted-Reported id run success error next_due s d given t v u =
      let r =
        Updated-Recorded env.collation (env.collation.fold id) run next_due success error s.db d
          u in
      let (x, d') = get_collection_source_by_id env.collation id d in
      let (shows, same) =
        reread id r.new d (next_fault (later s.db.faults)) (ap is_nil t ∙ given)
          (ap (λ i. lookup (env.collation.fold i) d.tables.sources) t ∙ r.is)
          (ap next_fault u.faults_left) in
      let (e, is, about) =
        record_run-Shown (now_ms env s) s.activity id (type_or_empty env x) success error v in
      record {
        saved =
            subst
              (Recorded (env.collation.fold id) run success error next_due s.db.clock s.db.tables)
              (sym same) r;
        row = r.new;
        row_is = ap (λ x. lookup (env.collation.fold id) x.sources) same ∙ r.is;
        type = type_or_empty env x;
        type_shown = shows;
        event = e;
        shown = is;
        is_run =
            subst
              (λ i.
                IsRunEvent (now_ms env s) ((s.activity.seq + 1) % 2 ^ 64) i
                  (trim_space (type_or_empty env x)) success e)
              t about;
      }

  -- A report that is accepted is recorded in the source's row and nowhere else in the tables: the
  -- time of the run, its outcome, the time of the next run. A reader of a valid activity finds one
  -- event more, before all that it showed: it names the source, says in its flag and its summary
  -- whether the run succeeded, has the time and the next number, and has the type of the row, or
  -- none where the row cannot be read again.
  pub report_request-Recorded :
      (i : Bytes) (run : ℤ) (success : Bool) (error : Bytes) (next_due : ℤ) (s s' : Server env)
      → IsValid s.activity
      → report_run_request env i run success error next_due s ≡ (ok tt, s')
      → Reported (trim_space i) run success error next_due s s'
  unfolding report_run_request
  report_request-Recorded i run success error next_due s s' v h =
      elim (Bool-cases (is_nil (trim_space i))) [
        | inl e ↦ absurd (ground (arith, rw e at h))
        | inr e ↦
            let id = trim_space i in
            let write = report_collection_source_run env.collation id run success error next_due in
            let save = on_db env source_code write in
            let note = λ (u : Unit {0}). note_run env id success error in
            let (u, s1, a1, b1) =
              bind-ok env (meta_db env) (λ _. ◌>>=◌ env save note) s s' tt (rw e at h) in
            let (u2, s2, a2, b2) = bind-ok env save note s1 s' tt b1 in
            let (has, same) = meta_db-ok env s s1 u a1 in
            let (d, writes, after) = on_db-ok env source_code write s1 s2 u2 a2 in
            let here = db_after env s s1 s2 d same after in
            let noted = subst (λ x. note_run env id success error x ≡ (ok tt, s')) here b2 in
            let wrote = subst (λ x. write x.db ≡ (ok tt, d)) same writes in
            let u = report-Updated env.collation id run success error next_due s.db d wrote in
            let t = trim_space_idem i in
            subst (Reported id run success error next_due s) (ap (λ p. p.1) noted) (
              noted-Reported id run success error next_due s d e t v (
                subst
                  (λ x.
                    Updated env.collation (env.collation.fold x)
                      (reported run success error next_due) s.db d)
                  t u))
      ]
