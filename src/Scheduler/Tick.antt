-- ===== src/Scheduler/Tick.antt =====
-- Scheduler._tick of python/lapinq/scheduler.py, with the table `lapinq_scheduled_tasks`. Instants are
-- microseconds from the start of 1970, UTC.
pub mod Rows
pub mod Firings
pub mod Again
use lapinq.Prelude.{
  ℕ, ◌+◌, ◌-◌, ◌*◌, ◌/◌, ◌%◌, String, Bool, true, false, not, ◌&&◌, Option, none, some, List, [],
  ◌∷◌, ltb, leb, ◌==◌, if◌then◌else◌,
}
use lapinq.Prelude.Lists.{filter}
use lapinq.Prelude.Int.{ℤ}
use lapinq.Prelude.Rows.{update_where}
use lapinq.Json.{Json, arr, nil, obj, end, or_else}
use lapinq.Storage.Task.{Table}
use lapinq.Storage.Enqueue.{Result, ok, raise, Request, enqueue}
use lapinq.Scheduler.Cron.{Text, parse_cron, Moment, should_run}

-- one minute, in microseconds
abbrev pub minute : ℕ
minute = 60_000_000

-- datetime.month and datetime.day of a day counted from 1970-01-01, in years that begin in March.
unfoldable pub month_and_day : ℕ → ℕ × ℕ
month_and_day days =
    let day_of_era = (days + 719468) % 146097 in
    let year_of_era =
      (day_of_era - day_of_era / 1460 + day_of_era / 36524 - day_of_era / 146096) / 365 in
    let day_of_year = day_of_era - (365 * year_of_era + year_of_era / 4 - year_of_era / 100) in
    let month_of_year = (5 * day_of_year + 2) / 153 in
    (
      if ltb month_of_year 10 then month_of_year + 3 else month_of_year - 9,
      day_of_year - (153 * month_of_year + 2) / 5 + 1,
    )

-- The attributes of the datetime so many minutes after 1970 began; 1970-01-01 was a Thursday.
unfoldable pub of_minutes : ℕ → Moment
unfolding month_and_day
of_minutes minutes =
    let days = minutes / 1440 in
    let (month, day) = month_and_day days in
    record {
      minute = minutes % 60;
      hour = minutes / 60 % 24;
      day = day;
      month = month;
      weekday = (days + 3) % 7;
    }

unfoldable pub moment : ℕ → Moment
unfolding of_minutes
moment now = of_minutes (now / minute)

-- now.replace(second=0, microsecond=0)
abbrev pub minute_start : ℕ → ℕ
minute_start now = now / minute * minute

pub record ScheduledTask : Type 0 where
  pub id : ℕ
  pub queue_name : String
  pub task_name : String
  pub module_path : String
  pub args : Json
  pub kwargs : Json
  pub cron : Text
  pub ttl_seconds : Option ℤ
  pub priority : ℤ
  pub max_retries : ℤ
  pub metadata : Json
  pub retry_delay : Option ℤ
  pub retry_backoff : Option Bool
  pub webhook_url : Option String
  pub enabled : Bool
  pub last_triggered_at : Option ℕ

-- The two tables that a tick uses.
pub record Tables : Type 0 where
  pub schedules : List ScheduledTask
  pub tasks : Table

-- What the database answers while a row is triggered: the new task's id, now() in the INSERT, and
-- now() in the UPDATE.
pub record Draw : Type 0 where
  pub task_id : ℕ
  pub enqueued_at : ℕ
  pub stamped_at : ℕ

-- last is not None and last >= now.replace(second=0, microsecond=0)
abbrev pub is_triggered : ℕ → Option ℕ → Bool
is_triggered now none = false
is_triggered now (some last) = leb (minute_start now) last

-- Whether the row passes the three tests of the loop; a row whose cron does not parse is skipped.
unfoldable pub is_due : ℕ → ScheduledTask → Bool
unfolding moment
is_due now row = elim (parse_cron row.cron) [
  | none ↦ false
  | some sets ↦ should_run sets (moment now) && not (is_triggered now row.last_triggered_at)
]

unfoldable pub request_of : ScheduledTask → Request
request_of row = record {
  task_name = row.task_name;
  queue_name = row.queue_name;
  module_path = row.module_path;
  args = or_else row.args (arr nil);
  kwargs = or_else row.kwargs (obj end);
  scheduled_at = none;
  max_retries = row.max_retries;
  priority = row.priority;
  ttl_seconds = row.ttl_seconds;
  metadata = or_else row.metadata (obj end);
  retry_delay = row.retry_delay;
  retry_backoff = row.retry_backoff;
  webhook_url = row.webhook_url;
}

-- UPDATE lapinq_scheduled_tasks SET last_triggered_at = now() WHERE id = $1
unfoldable pub stamp : ℕ → ℕ → List ScheduledTask → List ScheduledTask
stamp id at = update_where (λ r. r.id == id) (λ r. record r { last_triggered_at = some at })

abbrev pub Outcome : Type 0
Outcome = Result (Unit {0}) × Tables

-- An error of `enqueue` leaves the loop before the stamp.
abbrev pub stamp_triggered : ℕ → ℕ → List ScheduledTask → Result (Option ℕ) × Table → Outcome
stamp_triggered id at schedules (ok task_id, tasks) =
    (ok tt, record { schedules = stamp id at schedules; tasks = tasks })
stamp_triggered id at schedules (raise e, tasks) =
    (raise e, record { schedules = schedules; tasks = tasks })

-- One row of the snapshot.
unfoldable pub trigger : Draw → ℕ → ScheduledTask → Tables → Outcome
unfolding is_due request_of stamp
trigger draw now row s =
    if is_due now row
    then stamp_triggered row.id draw.stamped_at s.schedules
        (enqueue draw.task_id draw.enqueued_at (request_of row) s.tasks)
    else (ok tt, s)

-- An error ends the loop.
abbrev pub and_then : Outcome → (Tables → Outcome) → Outcome
and_then (ok done, t) rest = rest t
and_then (raise e, t) rest = (raise e, t)

-- The loop over the snapshot; the draws are those of each row, by its id.
unfoldable pub trigger_all : (ℕ → Draw) → ℕ → List ScheduledTask → Tables → Outcome
unfolding trigger
trigger_all draw now [] s = (ok tt, s)
trigger_all draw now (row ∷ rows) s =
    and_then (trigger (draw row.id) now row s) (λ t. trigger_all draw now rows t)

unfoldable pub tick : (ℕ → Draw) → ℕ → Tables → Outcome
unfolding trigger_all
tick draw now s = trigger_all draw now (filter (λ r. r.enabled) s.schedules) s
