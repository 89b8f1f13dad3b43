-- ===== src/Controller/Db/Migrations/Order.antt =====
-- services/controller/internal/db/migrate.go: each missing migration is applied once, in order.
use ice_hive.Prelude.{
  ℕ, ◌<◌, ◌≤◌, ◌≡◌, refl, ap, ◌∙◌, Bool, true, false, ◌&&◌, ◌||◌, List, [], ◌∷◌, arith, ltb, leb,
  ◌==◌, Result, ok, err, Bool-cases, inl, inr,
}
use mathlib.Core.Path.{subst}
use ice_hive.Text.{Bytes}
use ice_hive.Controller.Db.Migrations.{
  Library, Migrated, changed, no_change, failed, Event, current_version, was_final, applied,
  insert_version, sort_versions, versions_in, available_up_versions, read_migration_version, Run,
  read_final, after_migrate, apply_above, after_current, run_migrations, noting,
}

abbrev pub has : ℕ → List ℕ → Bool
has v [] = false
has v (n ∷ ns) = n == v || has v ns

-- The versions that the reporter was told of as applied
abbrev pub applied_in : List Event → List ℕ
applied_in [] = []
applied_in (current_version v d ∷ es) = applied_in es
applied_in (was_final v d ∷ es) = applied_in es
applied_in (applied v ∷ es) = v ∷ applied_in es

-- Migrate returned no error, or ErrNoChange.
abbrev pub Succeeds : Migrated → Type 0
Succeeds changed = Unit
Succeeds no_change = Unit
Succeeds (failed e) = ⊥

-- Each is greater than the one before it, the first than the number.
abbrev pub Climbs : ℕ → List ℕ → Type 0
Climbs a [] = Unit
Climbs a (n ∷ ns) = (a < n) × Climbs n ns

-- Each is at least the one before it, the first at least the number.
abbrev Rises : ℕ → List ℕ → Type 0
Rises a [] = Unit
Rises a (n ∷ ns) = (a ≤ n) × Rises n ns

insert_version-Rises : (a n : ℕ) (ns : List ℕ) → a ≤ n → Rises a ns → Rises a (insert_version n ns)
unfolding insert_version
insert_version-Rises a n [] h r = (h, tt)
insert_version-Rises a n (m ∷ ns) h (k, r) = elim (Bool-cases (leb n m)) [
  | inl e ↦ rw e (h, (ground (arith, e), r))
  | inr e ↦ rw e (k, insert_version-Rises m n ns (ground (arith, e)) r)
]

sort_versions-Rises : (ns : List ℕ) → Rises 0 (sort_versions ns)
unfolding sort_versions
sort_versions-Rises [] = tt
sort_versions-Rises (n ∷ ns) =
    insert_version-Rises 0 n (sort_versions ns) (omega arith) (sort_versions-Rises ns)

has-insert : (v n : ℕ) (ns : List ℕ) → has v (insert_version n ns) ≡ (n == v || has v ns)
unfolding insert_version
has-insert v n [] = refl
has-insert v n (m ∷ ns) = ground (arith, has-insert v n ns)

has-sort : (v : ℕ) (ns : List ℕ) → has v (sort_versions ns) ≡ has v ns
unfolding sort_versions
has-sort v [] = refl
has-sort v (n ∷ ns) = has-insert v n (sort_versions ns) ∙ ap (λ b. n == v || b) (has-sort v ns)

not_below : (v a : ℕ) (ns : List ℕ) → Rises a ns → v < a → has v ns ≡ false
not_below v a [] r h = refl
not_below v a (n ∷ ns) (k, r) h = ground (arith, k, h, not_below v n ns r (ground (arith, k, h)))

module _ (m : Library) where
  -- From the one world to the other, the library is called to migrate to each of the versions, in
  -- this order and to no other, and no call returns an error.
  pub data Migrates : m.World → List ℕ → m.World → Type 0 where
    at_end : (w : m.World) → Migrates w [] w
    then_to :
        (w w1 w2 : m.World) (n : ℕ) (ns : List ℕ) (x : Migrated)
        → m.migrate w n ≡ (x, w1)
        → Succeeds x
        → Migrates w1 ns w2
        → Migrates w (n ∷ ns) w2

  -- The versions that the library migrates to are those of the list above the number, each once and
  -- in order, and they are the ones that the reporter is told of.
  pub record Applies (w : m.World) (current : ℕ) (known : List ℕ) (r : Run m) : Type 0 where
    pub calls : Migrates w (applied_in r.events) r.world
    pub in_order : Climbs current (applied_in r.events)
    pub all : (v : ℕ) → has v (applied_in r.events) ≡ (ltb current v && has v known)

  one_applied :
      (w w1 : m.World) (current target : ℕ) (ts : List ℕ) (rest : Run m) (x : Migrated)
      → m.migrate w target ≡ (x, w1)
      → Succeeds x
      → leb target current ≡ false
      → Rises target ts
      → Applies w1 target ts rest
      → Applies w current (target ∷ ts) (noting m (applied target) rest)
  one_applied w w1 current target ts rest x q g e r a = record {
    calls = then_to w w1 rest.world target (applied_in rest.events) x q g a.calls;
    in_order = (ground (arith, e), a.in_order);
    all = λ v.
        let below : v < target → has v ts ≡ false = not_below v target ts r in
        ground (arith, e, a.all v, below);
  }

  one_skipped :
      (w : m.World) (current target : ℕ) (ts : List ℕ) (r : Run m)
      → leb target current ≡ true
      → Applies w current ts r
      → Applies w current (target ∷ ts) r
  one_skipped w current target ts r e a = record {
    calls = a.calls;
    in_order = a.in_order;
    all = λ v. ground (arith, e, a.all v);
  }

  final-Applies :
      (w : m.World) (current : ℕ) (x : Result Bytes (ℕ × Bool))
      → Applies w current [] (read_final m w x)
  unfolding read_final
  final-Applies w current (ok (v, dirty)) = record {
    calls = at_end w;
    in_order = tt;
    all = λ v. ground arith;
  }
  final-Applies w current (err e) = record {
    calls = at_end w;
    in_order = tt;
    all = λ v. ground arith;
  }

  after_migrate-Applies :
      (w w1 : m.World) (current target : ℕ) (ts : List ℕ) (x : Migrated) (rest : Run m)
      → m.migrate w target ≡ (x, w1)
      → leb target current ≡ false
      → Rises target ts
      → (rest.result ≡ ok tt → Applies w1 target ts rest)
      → (after_migrate m target x w1 rest).result ≡ ok tt
      → Applies w current (target ∷ ts) (after_migrate m target x w1 rest)
  unfolding after_migrate
  after_migrate-Applies w w1 current target ts changed rest q e r f h =
      one_applied w w1 current target ts rest changed q tt e r (f h)
  after_migrate-Applies w w1 current target ts no_change rest q e r f h =
      one_applied w w1 current target ts rest no_change q tt e r (f h)
  after_migrate-Applies w w1 current target ts (failed x) rest q e r f h =
      absurd (ground (arith, h))

  apply_above-Applies :
      (w : m.World) (current : ℕ) (ts : List ℕ) (low : ℕ)
      → Rises low ts
      → (apply_above m w current ts).result ≡ ok tt
      → Applies w current ts (apply_above m w current ts)
  unfolding apply_above
  apply_above-Applies w current [] low r h = final-Applies w current (read_migration_version m w)
  apply_above-Applies w current (target ∷ ts) low (k, r) h =
      elim (Bool-cases (leb target current)) [
        | inl e ↦ rw e (
            one_skipped w current target ts (apply_above m w current ts) e
              (apply_above-Applies w current ts target r (rw e at h)))
        | inr e ↦
            let (x, w') = m.migrate w target in
            rw e (
              after_migrate-Applies w w' current target ts x (apply_above m w' target ts) refl e r
                (apply_above-Applies w' target ts target r) (rw e at h))
      ]

  found-Applies :
      (w : m.World) (entries : List (Bytes × Bool)) (current : ℕ) (dirty : Bool)
      (x : Result Bytes (ℕ × Bool))
      → x ≡ ok (current, dirty)
      → (after_current m w entries x).result ≡ ok tt
      → Applies w current (versions_in entries) (after_current m w entries x)
  unfolding after_current available_up_versions
  found-Applies w entries current dirty (err e) q h = absurd (ground (arith, q))
  found-Applies w entries current dirty (ok (v, d)) q h =
      let known = sort_versions (versions_in entries) in
      let same : v ≡ current = ground (arith, q) in
      let a = apply_above-Applies w v known 0 (sort_versions-Rises (versions_in entries)) h in
      subst
        (λ c.
          Applies w c (versions_in entries)
            (noting m (current_version v d) (apply_above m w v known)))
        same
        (record {
          calls = a.calls;
          in_order = a.in_order;
          all = λ u. a.all u ∙ ap (λ b. ltb v u && b) (has-sort u (versions_in entries));
        })

  -- When the migrations succeed on a database at a version, the library was called to migrate to the
  -- versions of the directory's files above it, in ascending order, to each once and to no other,
  -- however the files are listed; no call returned an error besides ErrNoChange, and the reporter
  -- was told of these versions as applied.
  pub run_migrations-Applies :
      (w : m.World) (entries : List (Bytes × Bool)) (current : ℕ) (dirty : Bool)
      → read_migration_version m w ≡ ok (current, dirty)
      → (run_migrations m w entries).result ≡ ok tt
      → Applies w current (versions_in entries) (run_migrations m w entries)
  unfolding run_migrations
  run_migrations-Applies w entries current dirty q h =
      found-Applies w entries current dirty (read_migration_version m w) q h
