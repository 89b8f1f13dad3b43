-- ===== src/Controller/Db/Sources/Runs.antt =====
-- The report of a run.
use ice_hive.Prelude.{
  ℕ, ◌≡◌, refl, sym, ap, ◌∙◌, inl, inr, Bool, true, false, Option, none, some, arith, if◌then◌else◌,
  Bool-cases, ok, err, ◌==◌, ==_refl,
}
use mathlib.Core.Path.{subst}
use ice_hive.Prelude.Int.{ℤ, pos, leb_ℤ, pos_part, neg_part, ◌≤ℤ◌}
use ice_hive.Text.{Bytes, codes, is_nil, trim_space, str_eq}
use ice_hive.Text.Trim.{str_eq_refl}
use ice_hive.Dict.{lookup, lookup-insert_self, lookup-insert}
use ice_hive.Controller.Db.{Collation, CollectionSourceRow, Tables, Db, next_fault, later, answer}
use ice_hive.Controller.Db.Inversion.{bind-ok, bind-step, call-ok, done}
use ice_hive.Controller.Db.Sources.{
  same_row, same_text, same_number, same_flag, touch, reported, update_found, update_run, save_run,
  affected, not_found, report_collection_source_run,
}
use ice_hive.Controller.Db.Sources.Steps.{affected-ok}

same_text_refl : (a : Option Bytes) → same_text a a ≡ true
same_text_refl none = refl
same_text_refl (some a) = str_eq_refl a

same_number_refl : (a : Option ℤ) → same_number a a ≡ true
same_number_refl none = refl
same_number_refl (some a) = rw (==_refl (pos_part a), ==_refl (neg_part a)) refl

same_flag_refl : (a : Bool) → same_flag a a ≡ true
same_flag_refl true = refl
same_flag_refl false = refl

same_row_refl : (r : CollectionSourceRow) → same_row r r ≡ true
unfolding same_row
same_row_refl r =
    rw
      (
        str_eq_refl r.id,
        str_eq_refl r.collector_type,
        str_eq_refl r.source_spec,
        str_eq_refl r.cron_line,
        same_flag_refl r.enabled,
        same_number_refl r.last_run_unix_ms,
        same_number_refl r.last_success_unix_ms,
        same_text_refl r.last_error,
        same_number_refl r.next_due_unix_ms,
        ==_refl (pos_part r.created_at),
        ==_refl (neg_part r.created_at),
      )
      refl

-- The same report once more, on a row that has it.
reported_again :
    (run next_due now : ℤ) (success : Bool) (error : Bytes) (r : CollectionSourceRow)
    → let new = record (reported run success error next_due r) { updated_at = now } in
      same_row new (reported run success error next_due new) ≡ true
unfolding reported
reported_again run next_due now true error r = same_row_refl _
reported_again run next_due now false error r = same_row_refl _

-- What the row says of the last success and of the last error: a success is the last one and clears
-- the error, a failure keeps the last success and leaves its error.
abbrev pub Says : Bool → ℤ → Bytes → CollectionSourceRow → CollectionSourceRow → Type 0
Says true run error old new = (new.last_success_unix_ms ≡ some run) × (new.last_error ≡ none)
Says false run error old new =
    (new.last_success_unix_ms ≡ old.last_success_unix_ms) × (new.last_error ≡ some error)

-- NULL is written for a time of the next run that is not positive.
abbrev pub IsNextDue : ℤ → Option ℤ → Type 0
IsNextDue next_due none = next_due ≤ℤ pos 0
IsNextDue next_due (some n) = (pos 1 ≤ℤ next_due) × (n ≡ next_due)

-- The row with the report of a run.
pub record HasReport (run : ℤ) (success : Bool) (error : Bytes) (next_due clock : ℤ)
    (old new : CollectionSourceRow) : Type 0 where
  pub last_run : new.last_run_unix_ms ≡ some run
  pub outcome : Says success run error old new
  pub due : IsNextDue next_due new.next_due_unix_ms
  pub updated : new.updated_at ≡ clock
  pub id : new.id ≡ old.id
  pub collector_type : new.collector_type ≡ old.collector_type
  pub source_spec : new.source_spec ≡ old.source_spec
  pub cron_line : new.cron_line ≡ old.cron_line
  pub enabled : new.enabled ≡ old.enabled
  pub created : new.created_at ≡ old.created_at

-- One row is replaced by one that has the report; every other source and every other table is as it
-- was.
pub record Recorded (key : Bytes) (run : ℤ) (success : Bool) (error : Bytes) (next_due clock : ℤ)
    (t t' : Tables) : Type 0 where
  pub old : CollectionSourceRow
  pub new : CollectionSourceRow
  pub was : lookup key t.sources ≡ some old
  pub is : lookup key t'.sources ≡ some new
  pub values : HasReport run success error next_due clock old new
  pub others : (j : Bytes) → str_eq key j ≡ false → lookup j t'.sources ≡ lookup j t.sources
  pub meta : t'.meta ≡ t.meta
  pub heartbeats : t'.heartbeats ≡ t.heartbeats
  pub schemas : t'.schemas ≡ t.schemas

reported-Says :
    (run next_due now : ℤ) (success : Bool) (error : Bytes) (r : CollectionSourceRow)
    → Says success run error r (record (reported run success error next_due r) { updated_at = now })
unfolding reported
reported-Says run next_due now true error r = (refl, refl)
reported-Says run next_due now false error r = (refl, refl)

reported-IsNextDue :
    (run next_due : ℤ) (success : Bool) (error : Bytes) (r : CollectionSourceRow)
    → IsNextDue next_due (reported run success error next_due r).next_due_unix_ms
unfolding reported
reported-IsNextDue run next_due success error r = elim (Bool-cases (leb_ℤ next_due (pos 0))) [
  | inl e ↦ rw e (ground (arith, e))
  | inr e ↦ rw e (ground (arith, e), refl)
]

reported-HasReport :
    (run next_due now : ℤ) (success : Bool) (error : Bytes) (r : CollectionSourceRow)
    → HasReport run success error next_due now r
        (record (reported run success error next_due r) { updated_at = now })
unfolding reported
reported-HasReport run next_due now success error r = record {
  last_run = refl;
  outcome = reported-Says run next_due now success error r;
  due = reported-IsNextDue run next_due success error r;
  updated = refl;
  id = refl;
  collector_type = refl;
  source_spec = refl;
  cron_line = refl;
  enabled = refl;
  created = refl;
}

module _ (c : Collation) where
  -- The row of the key is rewritten, with the time of the update; no other source has changed, and no
  -- other table.
  pub record Updated (key : Bytes) (new : CollectionSourceRow → CollectionSourceRow) (d d' : Db)
      : Type 0 where
    pub row : CollectionSourceRow
    pub was : lookup key d.tables.sources ≡ some row
    pub is : lookup key d'.tables.sources ≡ some (record (new row) { updated_at = d.clock })
    pub changed : same_row row (new row) ≡ false
    pub others :
        (j : Bytes)
        → lookup j d'.tables.sources ≡ (
            if str_eq key j
            then some (record (new row) { updated_at = d.clock })
            else lookup j d.tables.sources)
    pub rest : d'.tables ≡ record d.tables { sources = d'.tables.sources }
    pub faults_left : d'.faults ≡ later d.faults

  update_found-Updated :
      (key : Bytes) (new : CollectionSourceRow → CollectionSourceRow) (d : Db)
      (o : Option CollectionSourceRow)
      → lookup key d.tables.sources ≡ o
      → ((update_found key d.clock new d.tables o).0 == 0) ≡ false
      → Updated key new d (done d (update_found key d.clock new d.tables o).1)
  unfolding update_found touch
  update_found-Updated key new d none e h = absurd (ground (arith, h))
  update_found-Updated key new d (some r) e h = elim (Bool-cases (same_row r (new r))) [
    | inl q ↦ absurd (ground (arith, rw q at h))
    | inr q ↦
        let made =
          lookup-insert_self key (record (new r) { updated_at = d.clock }) d.tables.sources in
        record {
          row = r;
          was = e;
          is = rw q made;
          changed = q;
          others = λ j. rw q (lookup-insert key j _ d.tables.sources);
          rest = rw q refl;
          faults_left = refl;
        }
  ]

  save_run-Updated :
      (id : Bytes) (new : CollectionSourceRow → CollectionSourceRow) (d d' : Db) (n : ℕ)
      → save_run c id new d ≡ (ok n, d')
      → (n == 0) ≡ false
      → Updated (c.fold id) new d d'
  unfolding save_run update_run
  save_run-Updated id new d d' n h z =
      let (a, b) =
        call-ok (codes "report collection source run") (update_run c id d.clock new) d d' n h in
      subst (Updated (c.fold id) new d) (sym b) (
        update_found-Updated (c.fold id) new d (lookup (c.fold id) d.tables.sources) refl
          (subst (λ m. (m == 0) ≡ false) a z))

  -- A report that returns no error has rewritten the row of its source.
  pub report-Updated :
      (s : Bytes) (run : ℤ) (success : Bool) (error : Bytes) (next_due : ℤ) (d d' : Db)
      → report_collection_source_run c s run success error next_due d ≡ (ok tt, d')
      → Updated (c.fold (trim_space s)) (reported run success error next_due) d d'
  unfolding report_collection_source_run
  report-Updated s run success error next_due d d' h = elim (Bool-cases (is_nil (trim_space s))) [
    | inl e ↦ absurd (ground (arith, rw e at h))
    | inr e ↦ elim (Bool-cases (leb_ℤ run (pos 0))) [
      | inl q ↦ absurd (ground (arith, rw (e, q) at h))
      | inr q ↦
          let (n, d1, saves, counts) =
            bind-ok (save_run c (trim_space s) (reported run success error next_due))
              (affected (trim_space s)) d d' tt (rw (e, q) at h) in
          let (z, same) = affected-ok (trim_space s) n d1 d' tt counts in
          subst (Updated (c.fold (trim_space s)) (reported run success error next_due) d) (sym same)
            (save_run-Updated (trim_space s) _ d d1 n saves z)
    ]
  ]

  pub Updated-Recorded :
      (key : Bytes) (run next_due : ℤ) (success : Bool) (error : Bytes) (d d' : Db)
      → Updated key (reported run success error next_due) d d'
      → Recorded key run success error next_due d.clock d.tables d'.tables
  Updated-Recorded key run next_due success error d d' u = record {
    old = u.row;
    new = record (reported run success error next_due u.row) { updated_at = d.clock };
    was = u.was;
    is = u.is;
    values = reported-HasReport run next_due d.clock success error u.row;
    others = λ j h. rw h at (u.others j);
    meta = ap (λ t. t.meta) u.rest;
    heartbeats = ap (λ t. t.heartbeats) u.rest;
    schemas = ap (λ t. t.schemas) u.rest;
  }

  -- A report that returns no error has found its source and has recorded the run in its row and
  -- nothing else: the time of the run; with a success that time as the last success, and no error;
  -- with a failure the error, and the last success as it was; when the next is due, if that is
  -- positive; the time of the update. Every other column of the row, every other source and every
  -- other table is as it was.
  pub report-Recorded :
      (s : Bytes) (run : ℤ) (success : Bool) (error : Bytes) (next_due : ℤ) (d d' : Db)
      → report_collection_source_run c s run success error next_due d ≡ (ok tt, d')
      → Recorded (c.fold (trim_space s)) run success error next_due d.clock d.tables d'.tables
  report-Recorded s run success error next_due d d' h =
      Updated-Recorded (c.fold (trim_space s)) run next_due success error d d'
        (report-Updated s run success error next_due d d' h)

  update_run_same :
      (id : Bytes) (new : CollectionSourceRow → CollectionSourceRow) (now : ℤ) (t : Tables)
      (r : CollectionSourceRow)
      → lookup (c.fold id) t.sources ≡ some r
      → same_row r (new r) ≡ true
      → update_run c id now new t ≡ (0, t)
  unfolding update_run update_found
  update_run_same id new now t r e q = rw (e, q) refl

  save_run_same :
      (id : Bytes) (new : CollectionSourceRow → CollectionSourceRow) (d : Db)
      (r : CollectionSourceRow)
      → lookup (c.fold id) d.tables.sources ≡ some r
      → same_row r (new r) ≡ true
      → next_fault d.faults ≡ none
      → save_run c id new d ≡ (ok 0, record d { faults = later d.faults })
  unfolding save_run
  save_run_same id new d r e q f =
      ap (λ x. answer (codes "report collection source run") x d (next_fault d.faults))
        (update_run_same id new d.clock d.tables r e q)
      ∙ ap (λ x. answer (codes "report collection source run") (0, d.tables) d x) f

  -- The same report once more is answered by an error that the source cannot be found, although its
  -- row is there: the statement changes no column, and so affects no row.
  pub report-again :
      (s : Bytes) (run : ℤ) (success : Bool) (error : Bytes) (next_due : ℤ) (d d' : Db)
      → report_collection_source_run c s run success error next_due d ≡ (ok tt, d')
      → next_fault d'.faults ≡ none
      → ((report_collection_source_run c s run success error next_due d').0
          ≡ err (not_found (trim_space s)))
        × ((r : CollectionSourceRow) × (lookup (c.fold (trim_space s)) d'.tables.sources ≡ some r))
  unfolding report_collection_source_run affected
  report-again s run success error next_due d d' h f =
      let r = report-Updated s run success error next_due d d' h in
      let new = record (reported run success error next_due r.row) { updated_at = d.clock } in
      let same = reported_again run next_due d.clock success error r.row in
      let saves =
        save_run_same (trim_space s) (reported run success error next_due) d' new r.is same f in
      elim (Bool-cases (is_nil (trim_space s))) [
        | inl e ↦ absurd (ground (arith, rw e at h))
        | inr e ↦ elim (Bool-cases (leb_ℤ run (pos 0))) [
          | inl q ↦ absurd (ground (arith, rw (e, q) at h))
          | inr q ↦ (
            rw (e, q)
                (ap (λ x. x.0)
                  (bind-step (save_run c (trim_space s) (reported run success error next_due))
                    (affected (trim_space s)) d' _ 0 saves)),
            (new, r.is),
          )
        ]
      ]
