-- ===== src/Controller/Health/Tests.antt =====
-- The health of a source that runs every hour.
use ice_hive.Prelude.{◌≡◌, refl, true, false, ◌||◌, none, some, arith}
use ice_hive.Prelude.Int.{ℤ, pos, negsuc, ◌-ℤ◌, leb_ℤ, ltb_ℤ, scale, quot}
use ice_hive.Text.{codes, trim_space, trim, trim_left, trim_right, is_space, is_nil}
use ice_hive.Controller.Db.{CollectionSourceRow}
use ice_hive.Controller.Health.{Clockwork, cron_interval, unix_milli, source_gauges}
use ice_hive.Controller.Health.Stale.{gauge_stale_iff_late}

-- Floating-point numbers that are numbers of nanoseconds, and a schedule with its next run an hour
-- away.
abbrev exact : Clockwork
exact = record {
  Float = ℤ;
  float = λ n. scale 1000000000 n;
  seconds = λ d. d;
  negative = λ x. ltb_ℤ x (pos 0);
  whole = λ x. quot 1000000000 x;
  duration = λ x. x;
  parse = λ s. some (λ t. t -ℤ negsuc 3599999999999);
}

abbrev hourly : CollectionSourceRow
hourly = record {
  id = codes "s1";
  collector_type = codes "collector-rss";
  source_spec = codes "rss:news";
  cron_line = codes "0 * * * *";
  enabled = true;
  last_run_unix_ms = some (pos 1000);
  last_success_unix_ms = some (pos 1000);
  last_error = none;
  next_due_unix_ms = none;
  created_at = pos 1;
  updated_at = pos 1;
}

has_schedule : is_nil (trim_space hourly.cron_line) ≡ false
unfolding trim_space trim trim_left trim_right is_space
has_schedule = refl

abbrev next_run : ℤ → ℤ
next_run t = t -ℤ negsuc 3599999999999

gauge_stale_iff_late_example : (source_gauges exact (pos 4000000000000) hourly).stale ≡ (
    ltb_ℤ (pos 4000000000000 -ℤ unix_milli (pos 1000)) (pos 0)
    || ltb_ℤ
        (cron_interval next_run (pos 4000000000000))
        (pos 4000000000000 -ℤ unix_milli (pos 1000)))
gauge_stale_iff_late_example =
    gauge_stale_iff_late exact hourly (pos 4000000000000) (pos 1000) (pos 1000) next_run refl
      has_schedule refl refl refl (omega arith) refl refl

abbrev now : ℤ
now = pos 500000000

below : ltb_ℤ (now -ℤ unix_milli (pos 1000)) (pos 0) ≡ true
unfolding ◌-ℤ◌
below = refl

none_whole : leb_ℤ (quot 1000000000 (now -ℤ unix_milli (pos 1000))) (pos 0) ≡ true
unfolding ◌-ℤ◌
none_whole = refl
