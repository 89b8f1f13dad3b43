-- ===== src/Rss/Run/Poll.antt =====
-- A poll reports each of the due sources once, in their order.
use ice_hive.Prelude.{
  ◌≡◌, refl, sym, ap, ap₂, ◌∙◌, false, List, [], ◌∷◌, ◌++◌, map, append_assoc, append-nil, ok, All,
  arith, true, ◌⊎◌, inl, inr, Bool-cases,
}
use ice_hive.Prelude.Int.{ℤ, pos, leb_ℤ, ◌≤ℤ◌}
use ice_hive.Text.{Bytes, is_nil, trim_space}
use ice_hive.Controller.Server.{CollectionSource}
use ice_hive.Collector.{due_sources, collection_source_run_now_only, collection_source_due}
use ice_hive.Controller.Health.{unix_milli}
use ice_hive.Rss.Run.{Environment, Report, Process, run_all, run_one_rss_source, run_rss_poll}
use ice_hive.Rss.Run.Reports.{run_one-Reported}

abbrev pub IsNamed : CollectionSource → Type 0
IsNamed src = is_nil (trim_space src.id) ≡ false

abbrev pub report_id : Report → Bytes
report_id r = r.id

abbrev pub source_id : CollectionSource → Bytes
source_id src = src.id

-- The list is made of the members of the other that have the property, in their order.
pub data Picks {ℓ κ} {A : Type ℓ} (P : A → Type κ) : List A → List A → Type (ℓ ⊔ κ) where
  at_end : Picks P [] []
  taken : {x : A} {xs ys : List A} → P x → Picks P xs ys → Picks P (x ∷ xs) (x ∷ ys)
  passed : {x : A} {xs ys : List A} → ¬ (P x) → Picks P xs ys → Picks P (x ∷ xs) ys

Picks-All :
    (Q : CollectionSource → Type 0) {P : CollectionSource → Type 0} {xs ys : List CollectionSource}
    → Picks P xs ys
    → All Q xs
    → All Q ys
Picks-All Q at_end h = tt
Picks-All Q (taken x r) (h, hs) = (h, Picks-All Q r hs)
Picks-All Q (passed x r) (h, hs) = Picks-All Q r hs

-- An enabled source with a cron line, whose next run has no time or one that is not behind `now`
pub record IsDue (now : ℤ) (src : CollectionSource) : Type 0 where
  pub is_enabled : src.enabled ≡ true
  pub scheduled : is_nil (trim_space src.cron_line) ≡ false
  pub in_time : (src.next_due_unix_ms ≤ℤ pos 0) ⊎ (unix_milli src.next_due_unix_ms ≤ℤ now)

due_sources-Picks :
    (srcs : List CollectionSource) (now : ℤ) → Picks (IsDue now) srcs (due_sources srcs now)
unfolding due_sources collection_source_run_now_only collection_source_due
due_sources-Picks [] now = at_end
due_sources-Picks (src ∷ srcs) now = elim (Bool-cases src.enabled) [
  | inr e ↦
      simp (e) (passed (λ d. absurd (ground (arith, e, d.is_enabled))) (due_sources-Picks srcs now))
  | inl e ↦ elim (Bool-cases (is_nil (trim_space src.cron_line))) [
    | inl c ↦
        simp (e, c)
          (passed (λ d. absurd (ground (arith, c, d.scheduled))) (due_sources-Picks srcs now))
    | inr c ↦ elim (Bool-cases (leb_ℤ src.next_due_unix_ms (pos 0))) [
      | inl z ↦
          simp (e, c, z)
            (taken (record { is_enabled = e; scheduled = c; in_time = inl (ground (arith, z)) })
              (due_sources-Picks srcs now))
      | inr z ↦ elim (Bool-cases (leb_ℤ (unix_milli src.next_due_unix_ms) now)) [
        | inl t ↦
            simp (e, c, z, t)
              (taken (record { is_enabled = e; scheduled = c; in_time = inr (ground (arith, t)) })
                (due_sources-Picks srcs now))
        | inr t ↦
            simp (e, c, z, t)
              (passed (λ d. absurd (ground (arith, z, t, d.in_time))) (due_sources-Picks srcs now))
      ]
    ]
  ]
]

module _ (env : Environment) where
  -- The reports behind those of `p` are one for each source, in this order.
  abbrev pub Once : List CollectionSource → Process env → Process env → Type 0
  Once srcs p p' =
      (rs : List Report) × (p'.reports ≡ p.reports ++ rs) × (map report_id rs ≡ map source_id srcs)

  run_all-Once :
      (srcs : List CollectionSource) (now items_max : ℤ) (p : Process env)
      → All IsNamed srcs
      → Once srcs p (run_all env srcs now items_max p)
  unfolding run_all
  run_all-Once [] now items_max p h = ([], sym (append-nil p.reports), refl)
  run_all-Once (src ∷ srcs) now items_max p (h, hs) =
      let r = run_one-Reported env src items_max p h now in
      let (rs, e, is) =
        run_all-Once srcs now items_max (run_one_rss_source env src now items_max p) hs in
      (
        r.report ∷ rs,
        e ∙ ap (λ l. l ++ rs) r.one ∙ append_assoc p.reports (r.report ∷ []) rs,
        ap₂ (λ i is. i ∷ is) r.of_source is,
      )

  -- A poll that is answered with sources that have ids sends one report for each source that is
  -- enabled, has a cron line, and was never given a time of the next run or has reached it; in
  -- the order of the answer, and no other report.
  pub run_rss_poll-Once :
      (srcs : List CollectionSource) (items_max : ℤ) (p : Process env)
      → All IsNamed srcs
      → (chosen : List CollectionSource) × Picks (IsDue (env.clock p.world)) srcs chosen
        × Once chosen p (run_rss_poll env (ok srcs) items_max p).1
  unfolding run_rss_poll
  run_rss_poll-Once srcs items_max p h =
      let now = env.clock p.world in
      let picks = due_sources-Picks srcs now in
      (
        due_sources srcs now,
        picks,
        run_all-Once (due_sources srcs now) now items_max p (Picks-All IsNamed picks h),
      )
