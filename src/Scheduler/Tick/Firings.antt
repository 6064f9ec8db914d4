-- ===== src/Scheduler/Tick/Firings.antt =====
-- What one tick enqueues, and that a tick later in the same minute does nothing.
use lapinq.Prelude.{
  ℕ, ◌≡◌, refl, sym, ap, ◌∙◌, subst, not, Bool, true, false, none, some, ltb, ◌*◌, ◌/◌, ◌&&◌,
  Option, List, [], ◌∷◌, ◌++◌, arith, if◌then◌else◌, map, inl, inr, ◌⊎◌, Bool-cases,
}
use mathlib.Core.List.{append-nil, append_assoc}
use lapinq.Prelude.Lists.{filter}
use lapinq.Storage.Task.{Table, Task}
use lapinq.Storage.Enqueue.{
  Error, Request, Result, ok, raise, new_row, insert, is_zero_ttl, enqueue,
}
use lapinq.Scheduler.Cron.{Text, parse_cron, should_run, CronSets}
use lapinq.Scheduler.Tick.Rows.{AreRowsOf, map-AreRowsOf}
use lapinq.Scheduler.Tick.{
  ScheduledTask, Tables, Draw, moment, is_triggered, is_due, request_of, stamp_triggered, Outcome,
  and_then, trigger, trigger_all, tick,
}

-- The rows that a tick enqueues.
abbrev pub enqueued_by : (ℕ → Draw) → ℕ → List ScheduledTask → List Task
enqueued_by draw now rows =
    map (λ r. new_row (draw r.id).task_id (draw r.id).enqueued_at (request_of r))
      (filter (λ r. is_due now r && not (is_zero_ttl r.ttl_seconds)) rows)

enqueue-tasks :
    (id now : ℕ) (r : Request) (ts us : Table) (v : Option ℕ)
    → enqueue id now r ts ≡ (ok v, us)
    → us ≡ (if is_zero_ttl r.ttl_seconds then ts else ts ++ new_row id now r ∷ [])
unfolding enqueue insert
enqueue-tasks id now r ts us v e = ground (arith)

pub Outcome-cases :
    (o : Outcome)
    → ((t : Tables) × (o ≡ (ok tt, t))) ⊎ ((e : Error) × ((t : Tables) × (o ≡ (raise e, t))))
Outcome-cases (ok done, t) = inl (t, refl)
Outcome-cases (raise e, t) = inr (e, (t, refl))

stamp_triggered-tasks :
    (id at : ℕ) (l : List ScheduledTask) (p : Result (Option ℕ) × Table) (t : Tables)
    → stamp_triggered id at l p ≡ (ok tt, t)
    → (v : Option ℕ) × (p ≡ (ok v, t.tasks))
stamp_triggered-tasks id at l (ok v, us) t e = (v, ap (λ o. (ok v, o.1.tasks)) e)
stamp_triggered-tasks id at l (raise f, us) t e = ground arith

trigger-tasks :
    (draw : ℕ → Draw) (now : ℕ) (row : ScheduledTask) (s : Tables)
    → (t : Tables) → trigger (draw row.id) now row s ≡ (ok tt, t)
    → t.tasks ≡ s.tasks ++ enqueued_by draw now (row ∷ [])
unfolding trigger request_of
trigger-tasks draw now row s t e = elim (Bool-cases (is_due now row)) [
  | inl due ↦
      let (v, h) =
        stamp_triggered-tasks row.id (draw row.id).stamped_at s.schedules
          (enqueue (draw row.id).task_id (draw row.id).enqueued_at (request_of row) s.tasks) t
          (let f : trigger (draw row.id) now row s
                ≡ stamp_triggered row.id (draw row.id).stamped_at s.schedules (
                    enqueue (draw row.id).task_id (draw row.id).enqueued_at (request_of row)
                      s.tasks) =
              rw due refl in
            sym f ∙ e) in
      ground (
        arith,
        due,
        append-nil s.tasks,
        enqueue-tasks (draw row.id).task_id (draw row.id).enqueued_at (request_of row) s.tasks
            t.tasks v h,
        ttl row,
      )
  | inr not_due ↦ ground (arith, not_due, append-nil s.tasks)
]
  where
    ttl : (r : ScheduledTask) → (request_of r).ttl_seconds ≡ r.ttl_seconds
    ttl r = refl

trigger_all-tasks :
    (draw : ℕ → Draw) (now : ℕ) (rows : List ScheduledTask) (s t : Tables)
    → trigger_all draw now rows s ≡ (ok tt, t)
    → t.tasks ≡ s.tasks ++ enqueued_by draw now rows
unfolding trigger_all
trigger_all-tasks draw now [] s t e = ground (arith, append-nil s.tasks)
trigger_all-tasks draw now (row ∷ rows) s t e =
    elim (Outcome-cases (trigger (draw row.id) now row s)) [
      | inl (u, h) ↦ ground (
        arith,
        trigger_all-tasks draw now rows u t
            (sym (ap (λ o. and_then o (λ v. trigger_all draw now rows v)) h) ∙ e),
        trigger-tasks draw now row s u h,
        append_assoc s.tasks (enqueued_by draw now (row ∷ [])) (enqueued_by draw now rows),
      )
      | inr (f, (u, h)) ↦ ground (arith, h)
    ]

tick-enqueued_by :
    (draw : ℕ → Draw) (now : ℕ) (s t : Tables)
    → tick draw now s ≡ (ok tt, t)
    → t.tasks ≡ s.tasks ++ enqueued_by draw now (filter (λ r. r.enabled) s.schedules)
unfolding tick
tick-enqueued_by draw now s t e =
    trigger_all-tasks draw now (filter (λ r. r.enabled) s.schedules) s t e

-- The minute of `now` is one of those that the cron expression names.
abbrev pub matches : ℕ → Text → Bool
matches now cron = elim (parse_cron cron) [
  | none ↦ false
  | some sets ↦ should_run sets (moment now)
]

-- The schedule has not been triggered since the minute of `now` began.
abbrev pub is_fresh : ℕ → Option ℕ → Bool
is_fresh now none = true
is_fresh now (some last) = ltb last (now / 60_000_000 * 60_000_000)

abbrev pub fires : ℕ → ScheduledTask → Bool
fires now s =
    s.enabled
    && (matches now s.cron && (is_fresh now s.last_triggered_at && not (is_zero_ttl s.ttl_seconds)))

is_fresh_lem : (now : ℕ) (last : Option ℕ) → not (is_triggered now last) ≡ is_fresh now last
is_fresh_lem now none = refl
is_fresh_lem now (some last) = ground arith

is_due_lem :
    (now : ℕ) (s : ScheduledTask)
    → is_due now s ≡ matches now s.cron && is_fresh now s.last_triggered_at
unfolding is_due
is_due_lem now s = by_sets (parse_cron s.cron)
  where
    by_sets :
        (o : Option CronSets)
        → (elim o as (λ x. Bool) [
          | none ↦ false
          | some sets ↦ should_run sets (moment now) && not (is_triggered now s.last_triggered_at)
        ])
          ≡ (elim o as (λ x. Bool) [ none ↦ false | some sets ↦ should_run sets (moment now) ])
            && is_fresh now s.last_triggered_at
    by_sets none = refl
    by_sets (some sets) =
        ap (λ b. should_run sets (moment now) && b) (is_fresh_lem now s.last_triggered_at)

fired :
    (now : ℕ) (ss : List ScheduledTask)
    → filter (λ r. is_due now r && not (is_zero_ttl r.ttl_seconds)) (filter (λ r. r.enabled) ss)
      ≡ filter (fires now) ss
fired now [] = refl
fired now (s ∷ ss) = ground (arith, fired now ss, is_due_lem now s)

-- When a tick raises no error, the tasks afterwards are the tasks before with one new row behind
-- them for each schedule that is enabled, whose cron expression parses and matches the minute of
-- the instant, that was not triggered since that minute began and whose TTL is not zero, in the
-- order of the schedules: a pending row with the identifier and the instant drawn for it, due at
-- once, and with the columns of the schedule, the defaults in place of empty values.
pub tick-enqueues :
    (draw : ℕ → Draw) (now : ℕ) (s t : Tables)
    → tick draw now s ≡ (ok tt, t)
    → (rows : Table) × (t.tasks ≡ s.tasks ++ rows)
      × AreRowsOf draw (filter (fires now) s.schedules) rows
tick-enqueues draw now s t e = (
  enqueued_by draw now (filter (λ r. r.enabled) s.schedules),
  tick-enqueued_by draw now s t e,
  subst
      (λ ss. AreRowsOf draw ss (
        map (λ r. new_row (draw r.id).task_id (draw r.id).enqueued_at (request_of r))
          (filter (λ r. is_due now r && not (is_zero_ttl r.ttl_seconds))
            (filter (λ r. r.enabled) s.schedules))))
      (fired now s.schedules)
      (map-AreRowsOf draw (
        filter (λ r. is_due now r && not (is_zero_ttl r.ttl_seconds))
          (filter (λ r. r.enabled) s.schedules))),
)
