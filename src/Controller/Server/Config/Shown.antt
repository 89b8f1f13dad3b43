-- ===== src/Controller/Server/Config/Shown.antt =====
-- services/controller/main.go: what the frontend sees of the settings, and reads back of one.
use ice_hive.Prelude.{
  ◌≡◌, ◌⊎◌, ◌||◌, refl, sym, ap, ◌∙◌, Bool, true, false, List, [], ◌∷◌, ◌++◌, Option, none, some,
  arith, ok, map, Bool-cases, inl, inr,
}
use mathlib.Core.Path.{subst}
use mathlib.Core.List.{Perm}
use ice_hive.Text.{Bytes, codes, is_nil, trim_space, to_lower, contains}
use ice_hive.Text.Within.{Within, contains-Within, Within-contains}
use ice_hive.Text.Trim.{trim_space_idem}
use ice_hive.Dict.{lookup, lookup-insert_self}
use ice_hive.Controller.Db.{
  Collation, MetaRow, Tables, Db, Action, call, query, iterate, rows, next_fault, later, pure,
}
use ice_hive.Controller.Db as Db
use ice_hive.Controller.Db.Inversion.{call-ok, done}
use ice_hive.Controller.Db.Inversion
use ice_hive.Controller.Db.Meta.{
  list_meta, sort_by, set_meta, get_meta, upsert_meta, upsert_row, value_of,
}
use ice_hive.Controller.Db.Meta.Sorting.{Sorted, sort_by-Sorted, sort_by-Perm}
use ice_hive.Controller.Server.{
  Environment, Server, Handler, meta_db, on_db, always, internal, answer, ◌>>=◌,
}
use ice_hive.Controller.Server.Steps.{
  bind-ok, bind-step, meta_db-ok, meta_db-step, on_db-ok, on_db-step, db_stays,
}
use ice_hive.Controller.Server.Config.{
  value_or_create, ConfigVar, config_key_redacted, config_var_from_meta, list_config, get_config,
  set_config,
}

or-true : (b : Bool) → (b || true) ≡ true
or-true true = refl
or-true false = refl

-- The key names a password, a secret or a token, in whatever case.
abbrev pub NamesSecret : Bytes → Type 0
NamesSecret key =
    Within (codes "password") key ⊎ (Within (codes "secret") key ⊎ Within (codes "token") key)

-- The variable of a row has its key. A secret is marked and has no value; any other variable is not
-- marked and has the row's value.
abbrev pub Hides : Bool → MetaRow → ConfigVar → Type 0
Hides true r v = NamesSecret r.k × (v.value ≡ [])
Hides false r v = ¬ (NamesSecret r.k) × (v.value ≡ r.v)

abbrev pub Shows : MetaRow → ConfigVar → Type 0
Shows r v = (v.key ≡ r.k) × Hides v.redacted r v

-- Each of the variables is that of the row at its place.
abbrev pub ShowsAll : List MetaRow → List ConfigVar → Type 0
ShowsAll [] [] = Unit
ShowsAll [] (v ∷ vs) = ⊥
ShowsAll (r ∷ rs) [] = ⊥
ShowsAll (r ∷ rs) (v ∷ vs) = Shows r v × ShowsAll rs vs

redacted-NamesSecret : (key : Bytes) → config_key_redacted key ≡ true → NamesSecret key
unfolding config_key_redacted
redacted-NamesSecret key h = elim (Bool-cases (contains (to_lower key) (codes "password"))) [
  | inl e ↦ inl (contains-Within key _ _ e)
  | inr e ↦ elim (Bool-cases (contains (to_lower key) (codes "secret"))) [
    | inl f ↦ inr (inl (contains-Within key _ _ f))
    | inr f ↦ inr (inr (contains-Within key _ _ (rw (e, f) at h)))
  ]
]

NamesSecret-redacted : (key : Bytes) → NamesSecret key → config_key_redacted key ≡ true
unfolding config_key_redacted
NamesSecret-redacted key (inl w) = rw (Within-contains (codes "password") key w) refl
NamesSecret-redacted key (inr (inl w)) = rw (Within-contains (codes "secret") key w) (or-true _)
NamesSecret-redacted key (inr (inr w)) =
    let p = contains (to_lower key) (codes "password") in
    let q = contains (to_lower key) (codes "secret") in
    rw (Within-contains (codes "token") key w) (ap (λ x. p || x) (or-true q) ∙ or-true p)

row-Shows : (r : MetaRow) → Shows r (config_var_from_meta r.k r.v)
unfolding config_var_from_meta
row-Shows r = elim (Bool-cases (config_key_redacted r.k)) [
  | inl e ↦ rw e (refl, (redacted-NamesSecret r.k e, refl))
  | inr e ↦ rw e (refl, ((λ n. absurd (ground (arith, e, NamesSecret-redacted r.k n))), refl))
]

rows-ShowsAll : (rs : List MetaRow) → ShowsAll rs (map (λ r. config_var_from_meta r.k r.v) rs)
rows-ShowsAll [] = tt
rows-ShowsAll (r ∷ rs) = (row-Shows r, rows-ShowsAll rs)

list_meta-rows :
    (c : Collation) (d d' : Db) (rs : List MetaRow)
    → list_meta c d ≡ (ok rs, d')
    → rs ≡ sort_by (λ r. r.k) (rows d.tables.meta)
unfolding list_meta
list_meta-rows c d d' rs h =
    let ask = query (codes "query icehive_meta") (λ t. rows t.meta) in
    let read = λ (l : List MetaRow). iterate (codes "iterate icehive_meta rows") l in
    let sorted = λ (l : List MetaRow). pure (sort_by (λ r. r.k) l) in
    let (l2, d2, a2, b2) = Inversion.bind-ok (λ x. Db.◌>>=◌ ask read x) sorted d d' rs h in
    let (l1, d1, a1, b1) = Inversion.bind-ok ask read d d2 l2 a2 in
    let (q1, e1) = call-ok (codes "query icehive_meta") (λ t. (rows t.meta, t)) d d1 l1 a1 in
    let (q2, e2) = call-ok (codes "iterate icehive_meta rows") (λ t. (l1, t)) d1 d2 l2 b1 in
    let out : sort_by (λ r. r.k) l2 ≡ rs = ground (arith, ap (λ p. p.0) b2) in
    sym out ∙ ap (λ l. sort_by (λ r. r.k) l) (q2 ∙ q1)

upsert_row-value :
    (c : Collation) (key value : Bytes) (o : Option MetaRow)
    → value_of c (some (upsert_row c key value o)) ≡ some value
unfolding value_of upsert_row
upsert_row-value c key value none = refl
upsert_row-value c key value (some r) = refl

get_meta_known :
    (c : Collation) (key v : Bytes) (d : Db)
    → is_nil (trim_space key) ≡ false
    → next_fault d.faults ≡ none
    → value_of c (lookup (c.fold (trim_space key)) d.tables.meta) ≡ some v
    → get_meta c key d ≡ (ok (some v), record d { faults = later d.faults })
unfolding get_meta
get_meta_known c key v d e f q = simp (e, f, q)

value_after :
    (c : Collation) (key value : Bytes) (d d' : Db) (u : Unit {0})
    → set_meta c key value d ≡ (ok u, d')
    → next_fault d'.faults ≡ none
    → trim_space key ≡ key
    → get_meta c key d' ≡ (ok (some value), record d' { faults = later d'.faults })
unfolding set_meta upsert_meta
value_after c key value d d' u h f t = elim (Bool-cases (is_nil (trim_space key))) [
  | inl e ↦ absurd (ground (arith, rw e at h))
  | inr e ↦
      let (a, b) =
        call-ok (codes "upsert icehive_meta " ++ key) (upsert_meta c key value) d d' u
          (rw e at h) in
      let row = upsert_row c key value (lookup (c.fold key) d.tables.meta) in
      let found =
        ap (λ k. value_of c (lookup (c.fold k) d'.tables.meta)) t
        ∙ ap (λ x. value_of c (lookup (c.fold key) x.tables.meta)) b
        ∙ ap (value_of c) (lookup-insert_self (c.fold key) row d.tables.meta)
        ∙ upsert_row-value c key value (lookup (c.fold key) d.tables.meta) in
      get_meta_known c key value d' e f found
]

module _ (env : Environment) where
  -- The frontend's list of the settings has one variable for each row of the table and no other, in
  -- the order of the keys. Where the key names a password, a secret or a token, in whatever case, the
  -- variable is marked and has no value; any other variable is not marked and has the row's value.
  pub list_config-Shown :
      (s s' : Server env) (vars : List ConfigVar)
      → list_config env s ≡ (ok vars, s')
      → (rs : List MetaRow) × Perm rs (rows s.db.tables.meta)
        × Sorted (λ r. r.k) rs
        × ShowsAll rs vars
  unfolding list_config
  list_config-Shown s s' vars h =
      let ask = on_db env (always internal) (list_meta env.collation) in
      let show = λ (rs : List MetaRow). answer env (map (λ r. config_var_from_meta r.k r.v) rs) in
      let (u, s1, a1, b1) = bind-ok env (meta_db env) (λ _. ◌>>=◌ env ask show) s s' vars h in
      let (rs, s2, a2, b2) = bind-ok env ask show s1 s' vars b1 in
      let (has, same) = meta_db-ok env s s1 u a1 in
      let (d, lists, after) =
        on_db-ok env (always internal) (list_meta env.collation) s1 s2 rs a2 in
      let is : rs ≡ sort_by (λ r. r.k) (rows s.db.tables.meta) =
        list_meta-rows env.collation s1.db d rs lists
        ∙ ap (λ x. sort_by (λ r. r.k) (rows x.db.tables.meta)) same in
      let out : map (λ r. config_var_from_meta r.k r.v) rs ≡ vars =
        ground (arith, ap (λ p. p.0) b2) in
      let all = rows s.db.tables.meta in
      (
        rs,
        subst (λ l. Perm l all) (sym is) (sort_by-Perm (λ r. r.k) all),
        subst (Sorted (λ r. r.k)) (sym is) (sort_by-Sorted (λ r. r.k) all),
        subst (ShowsAll rs) out (rows-ShowsAll rs),
      )

  shows : Bytes → Bytes → Handler env ConfigVar
  shows key v = answer env (record { key = key; value = v; redacted = config_key_redacted key })

  get_known :
      (s : Server env) (key value : Bytes)
      → is_nil (trim_space key) ≡ false
      → s.has_db ≡ true
      → get_meta env.collation (trim_space key) s.db
        ≡ (ok (some value), record s.db { faults = later s.db.faults })
      → (get_config env key s).0
        ≡ ok (record {
          key = trim_space key;
          value = value;
          redacted = config_key_redacted (trim_space key);
        })
  unfolding get_config value_or_create shows
  get_known s key value e has read =
      let k = trim_space key in
      let ask = on_db env (always internal) (get_meta env.collation k) in
      let rest = λ (found : Option Bytes). ◌>>=◌ env (value_or_create env k found) (shows k) in
      rw e (
        ap (λ p. p.0)
          (bind-step env (meta_db env) (λ _. ◌>>=◌ env ask rest) s s tt (meta_db-step env s has)
            ∙ bind-step env ask rest s _ (some value) (
                on_db-step env (always internal) (get_meta env.collation k) s _ (some value) read)))

  -- A setting that is set, and then asked for while the database answers, has the value that was
  -- set, under the trimmed key, a secret's too; it is marked as in the list.
  pub set_config-get :
      (s s' : Server env) (key value : Bytes)
      → set_config env key value s ≡ (ok tt, s')
      → next_fault s'.db.faults ≡ none
      → (get_config env key s').0
        ≡ ok (record {
          key = trim_space key;
          value = value;
          redacted = config_key_redacted (trim_space key);
        })
  unfolding set_config
  set_config-get s s' key value h f = elim (Bool-cases (is_nil (trim_space key))) [
    | inl e ↦ absurd (ground (arith, rw e at h))
    | inr e ↦
        let k = trim_space key in
        let write = on_db env (always internal) (set_meta env.collation k value) in
        let (u, s1, a1, b1) = bind-ok env (meta_db env) (λ _. write) s s' tt (rw e at h) in
        let (has, same) = meta_db-ok env s s1 u a1 in
        let (d, sets, after) =
          on_db-ok env (always internal) (set_meta env.collation k value) s1 s' tt b1 in
        let (has_still, there) = db_stays env s s1 s' d same after has in
        let still : next_fault d.faults ≡ none = subst (λ x. next_fault x.faults ≡ none) there f in
        let read = value_after env.collation k value s1.db d tt sets still (trim_space_idem key) in
        get_known s' key value e has_still (
          subst
            (λ x.
              get_meta env.collation k x ≡ (ok (some value), record x { faults = later x.faults }))
            (sym there) read)
  ]
