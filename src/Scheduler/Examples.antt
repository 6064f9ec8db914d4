-- ===== src/Scheduler/Examples.antt =====
-- Tests and sample runs of the cron parser and the tick.
use lapinq.Prelude.{ℕ, ◌+◌, ◌*◌, ◌%◌, ◌≡◌, refl, true, ◌&&◌, none, some, [], ◌∷◌, ◌++◌, arith}
use lapinq.Prelude.Int.{pos}
use lapinq.Prelude.Lists.{filter}
use lapinq.Json.{arr, nil, obj, end}
use lapinq.Storage.Task.{Table}
use lapinq.Storage.Enqueue.{ok, insert, enqueue}
use lapinq.Scheduler.Cron.{
  split, words, parse_int, parse_nat, range_from, range, range_step, base_range, parse_segment,
  parse_segments, parse_field, parse_cron, CronSets, Moment, should_run, digits_from, is_space,
}
use lapinq.Scheduler.Cron.Meaning.{at, span, every}
use lapinq.Scheduler.Cron.Field.{Field, all, items, denotes}
use lapinq.Scheduler.Cron.Firing.{show_cron, should_run-show_cron}
use lapinq.Scheduler.Tick.{
  minute, moment, of_minutes, month_and_day, ScheduledTask, Tables, Draw, is_due, request_of, stamp,
  trigger, trigger_all, tick,
}
use lapinq.Scheduler.Tick.Firings.{enqueued_by, fires, tick-enqueues}
use lapinq.Scheduler.Tick.Rows.{AreRowsOf}
use lapinq.Scheduler.Tick.Again.{tick-tick}

abbrev quarter : Field
quarter = items (every (b'1' ∷ b'5' ∷ [])) []

abbrev nine : Field
nine = items (at (b'9' ∷ [])) []

abbrev workdays : Field
workdays = items (span (b'1' ∷ []) (b'5' ∷ [])) []

-- Monday, 5 January 1970, 09:30:12
abbrev monday : ℕ
monday = (4 * 1440 + 9 * 60 + 30) * minute + 12_000_000

moment-monday : moment monday ≡ record { minute = 30; hour = 9; day = 5; month = 1; weekday = 0 }
unfolding moment of_minutes month_and_day
moment-monday = refl

-- 29 February 2024 was a Thursday.
leap_day :
    of_minutes (19782 * 1440) ≡ record { minute = 0; hour = 0; day = 29; month = 2; weekday = 3 }
unfolding of_minutes month_and_day
leap_day = refl

-- A descending stepped range and a step of zero are errors, and a signed numeral is none.
stepped_down : parse_segment 0 59 (b'5' ∷ b'-' ∷ b'1' ∷ b'/' ∷ b'2' ∷ []) ≡ none
unfolding parse_segment base_range split parse_nat parse_int digits_from
stepped_down = refl

zero_step : parse_segment 0 59 (b'*' ∷ b'/' ∷ b'0' ∷ []) ≡ none
unfolding parse_segment base_range split parse_nat parse_int digits_from range_step
zero_step = refl

abbrev at_half : Moment
at_half = record { minute = 30; hour = 9; day = 5; month = 1; weekday = 0 }

should_run-show_cron_example :
    (s : CronSets) × (parse_cron (show_cron quarter nine all all workdays) ≡ some s)
    × (should_run s at_half ≡ (
        denotes 0 59 quarter 30
        && denotes 0 23 nine 9
        && denotes 1 31 all 5
        && denotes 1 12 all 1
        && denotes 0 6 workdays ((0 + 1) % 7)))
should_run-show_cron_example =
    should_run-show_cron quarter nine all all workdays at_half (ground arith) (ground arith) tt tt
      (ground arith) (λ x h. ground arith) (omega arith)

abbrev report : ScheduledTask
report = record {
  id = 7;
  queue_name = "default";
  task_name = "report";
  module_path = "jobs";
  args = arr nil;
  kwargs = obj end;
  cron =
      b'*' ∷ b'/' ∷ b'1' ∷ b'5' ∷ b' ' ∷ b'9' ∷ b' ' ∷ b'*' ∷ b' ' ∷ b'*' ∷ b' ' ∷ b'1' ∷ b'-'
      ∷ b'5' ∷ [];
  ttl_seconds = none;
  priority = pos 0;
  max_retries = pos 3;
  metadata = obj end;
  retry_delay = none;
  retry_backoff = some true;
  webhook_url = none;
  enabled = true;
  last_triggered_at = none;
}

abbrev before : Tables
before = record { schedules = report ∷ []; tasks = [] }

abbrev draws : ℕ → Draw
draws k = record { task_id = k + 1; enqueued_at = monday; stamped_at = monday }

report_due : is_due monday report ≡ true
unfolding is_due moment of_minutes month_and_day parse_cron words split is_space parse_field
    parse_segments parse_segment base_range parse_nat parse_int digits_from range range_step
    range_from should_run
report_due = refl

abbrev after : Tables
after = record {
  schedules = record report { last_triggered_at = some monday } ∷ [];
  tasks = enqueued_by draws monday (report ∷ []);
}

first_tick : tick draws monday before ≡ (ok tt, after)
unfolding tick trigger_all trigger stamp enqueue insert request_of
first_tick = ground (arith, report_due)

tick-enqueues_example :
    (rows : Table) × (after.tasks ≡ before.tasks ++ rows)
    × AreRowsOf draws (filter (fires monday) before.schedules) rows
tick-enqueues_example = tick-enqueues draws monday before after first_tick

tick-tick_example : tick draws (monday + 30_000_000) after ≡ (ok tt, after)
tick-tick_example =
    tick-tick draws draws monday (monday + 30_000_000) before after (λ k. omega arith) refl
      first_tick
