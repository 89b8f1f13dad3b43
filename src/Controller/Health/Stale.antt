-- ===== src/Controller/Health/Stale.antt =====
-- When a source is stale.
use ice_hive.Prelude.{
  ◌≡◌, refl, Bool, true, false, ◌&&◌, ◌||◌, Option, none, some, arith, if◌then◌else◌,
}
use ice_hive.Prelude.Int.{ℤ, pos, negsuc, ◌-ℤ◌, leb_ℤ, ltb_ℤ, scale, quot, ◌≤ℤ◌}
use ice_hive.Text.{is_nil, trim_space}
use ice_hive.Dict.{Dict}
use ice_hive.Controller.Db.{CollectionSourceRow}
use ice_hive.Controller.Health.{
  Clockwork, last_success, last_run, unix_milli, cron_interval, source_is_stale, ran_since,
  success_age_seconds, age_of, source_gauges, scheduled_gauges, compute_pipeline_health,
  since_success, scheduled_stale,
}

cron_interval_positive : (next : ℤ → ℤ) (now : ℤ) → ltb_ℤ (pos 0) (cron_interval next now) ≡ true
unfolding cron_interval ◌-ℤ◌
cron_interval_positive next now = ground arith

-- Twice the interval, and half of that.
half_twice : (a : ℤ) → ltb_ℤ (pos 0) a ≡ true → quot 2 (scale 2 a) ≡ a
half_twice (pos n) h = ground arith
half_twice (negsuc n) h = absurd (ground arith)

age_of_run : (now s run : ℤ) → s ≤ℤ run → (now -ℤ unix_milli run) ≤ℤ (now -ℤ unix_milli s)
unfolding ◌-ℤ◌
age_of_run now s run h = ground arith

-- The order of the conditions.
stale_cases :
    (age run_age interval : ℤ)
    → ltb_ℤ (pos 0) interval ≡ true
    → run_age ≤ℤ age
    → (if ltb_ℤ age (pos 0)
        then true
        else if ltb_ℤ (scale 2 interval) age
        then true
        else leb_ℤ run_age (scale 2 interval) && ltb_ℤ interval age)
      ≡ (ltb_ℤ age (pos 0) || ltb_ℤ interval age)
stale_cases age run_age interval h le = ground arith

and_false : (a b : Bool) → b ≡ false → (a && b) ≡ false
and_false true b h = h
and_false false b h = refl

clamped : (n : ℤ) → leb_ℤ n (pos 0) ≡ true → (if ltb_ℤ n (pos 0) then pos 0 else n) ≡ pos 0
clamped (pos n) h = let n_zero : n ≡ 0 = ground (arith, h) in rw n_zero refl
clamped (negsuc n) h = ground (arith)

not_longer : (a : ℤ) → ltb_ℤ (pos 0) a ≡ true → ltb_ℤ (scale 2 a) (pos 0) ≡ false
not_longer a h = ground (arith, h)

module _ (w : Clockwork) where
  source_stale :
      (src : CollectionSourceRow) (now s run interval : ℤ)
      → last_success src ≡ some s
      → last_run src ≡ some run
      → s ≤ℤ run
      → ltb_ℤ (pos 0) interval ≡ true
      → let age = now -ℤ unix_milli s in
        w.negative (w.seconds age) ≡ ltb_ℤ age (pos 0)
        → w.duration (w.seconds age) ≡ age
        → source_is_stale w src now (w.seconds age) interval
          ≡ (ltb_ℤ age (pos 0) || ltb_ℤ interval age)
  unfolding source_is_stale ran_since
  source_stale src now s run interval ok_at ran order h sign same =
      rw (ok_at, ran, sign, same, half_twice interval h)
        (stale_cases (now -ℤ unix_milli s) (now -ℤ unix_milli run) interval h
          (age_of_run now s run order))

  -- The gauge of an enabled source with a schedule whose last run is not before its last success: it
  -- says stale exactly when the last success lies in the future, or longer ago than the time from
  -- the next run to the one behind it; the second such interval that the code allows is never
  -- granted. Where the age of the success is a float64 that keeps its sign and, converted back, its
  -- nanoseconds.
  pub gauge_stale_iff_late :
      (src : CollectionSourceRow) (now s run : ℤ) (next : ℤ → ℤ)
      → src.enabled ≡ true
      → is_nil (trim_space src.cron_line) ≡ false
      → w.parse (trim_space src.cron_line) ≡ some next
      → last_success src ≡ some s
      → last_run src ≡ some run
      → s ≤ℤ run
      → let age = now -ℤ unix_milli s in
        w.negative (w.seconds age) ≡ ltb_ℤ age (pos 0)
        → w.duration (w.seconds age) ≡ age
        → (source_gauges w now src).stale
          ≡ (ltb_ℤ age (pos 0) || ltb_ℤ (cron_interval next now) age)
  unfolding source_gauges scheduled_gauges success_age_seconds age_of
  gauge_stale_iff_late src now s run next on line parses ok_at ran order sign same =
      let fresh =
        source_stale src now s run (cron_interval next now) ok_at ran order
          (cron_interval_positive next now) sign same in
      simp (on, line, parses, ok_at, fresh)

  not_since :
      (last : Option ℤ) (now interval : ℤ)
      → ltb_ℤ (pos 0) interval ≡ true
      → ran_since w last now (pos 0) (scale 2 interval) ≡ false
  unfolding ran_since
  not_since none now interval h = refl
  not_since (some run) now interval h = rw (half_twice interval h) (
      and_false (leb_ℤ (now -ℤ unix_milli run) (scale 2 interval)) (ltb_ℤ interval (pos 0))
        (ground (arith, h)))

  -- An enabled source with a schedule whose last success lies in the future, as the clock of the
  -- collector and this one's can make it: its gauge says stale, the answer to the frontend says
  -- not. Where the conversions of float64 keep 0 and the sign of that age.
  pub future_success_differs :
      (src : CollectionSourceRow) (freshness : Dict ℤ) (now s : ℤ) (next : ℤ → ℤ)
      → src.enabled ≡ true
      → is_nil (trim_space src.cron_line) ≡ false
      → w.parse (trim_space src.cron_line) ≡ some next
      → last_success src ≡ some s
      → let age = w.seconds (now -ℤ unix_milli s) in
        w.negative age ≡ true
        → leb_ℤ (w.whole age) (pos 0) ≡ true
        → w.negative (w.float (pos 0)) ≡ false
        → w.duration (w.float (pos 0)) ≡ pos 0
        → ((source_gauges w now src).stale ≡ true)
          × ((compute_pipeline_health w src freshness now).is_stale ≡ false)
  unfolding source_gauges scheduled_gauges success_age_seconds age_of source_is_stale
      compute_pipeline_health since_success scheduled_stale
  future_success_differs src freshness now s next on line parses ok_at below past zero same =
      let none_left = clamped (w.whole (w.seconds (now -ℤ unix_milli s))) past in
      let positive = cron_interval_positive next now in
      let short = not_longer (cron_interval next now) positive in
      let since = not_since (last_run src) now (cron_interval next now) positive in
      (
        simp (on, line, parses, ok_at, below),
        simp (on, line, parses, ok_at, none_left, zero, same, short, since),
      )
