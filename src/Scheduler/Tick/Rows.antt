-- ===== src/Scheduler/Tick/Rows.antt =====
-- The rows that Scheduler._tick makes of the schedules, column by column.
use lapinq.Prelude.{
  ℕ, ◌≡◌, refl, ap, ◌∙◌, Bool, true, false, none, some, Option, List, [], ◌∷◌, if◌then◌else◌, map,
  inl, inr, Bool-cases,
}
use lapinq.Json.{Json, arr, nil, obj, end, is_truthy, or_else}
use lapinq.Storage.Task.{pending, Task}
use lapinq.Storage.Enqueue.{new_row, coalesce}
use lapinq.Scheduler.Tick.{ScheduledTask, Draw, request_of}

-- The row has the columns of the schedule, and is new.
abbrev pub IsRowOf : Draw → ScheduledTask → Task → Type 0
IsRowOf d s t =
    (t.id ≡ d.task_id)
    × (t.status ≡ pending)
    × (t.attempts ≡ 0)
    × (t.created_at ≡ d.enqueued_at)
    × (t.scheduled_at ≡ d.enqueued_at)
    × (t.queue_name ≡ s.queue_name)
    × (t.task_name ≡ s.task_name)
    × (t.module_path ≡ s.module_path)
    × (t.args ≡ (if is_truthy s.args then s.args else arr nil))
    × (t.kwargs ≡ (if is_truthy s.kwargs then s.kwargs else obj end))
    × (t.metadata ≡ (if is_truthy s.metadata then s.metadata else obj end))
    × (t.ttl_seconds ≡ s.ttl_seconds)
    × (t.priority ≡ s.priority)
    × (t.max_retries ≡ s.max_retries)
    × (t.retry_delay ≡ s.retry_delay)
    × (t.retry_backoff ≡ (elim s.retry_backoff [ none ↦ some true | some b ↦ some b ]))
    × (t.webhook_url ≡ s.webhook_url)

-- Row by row, in the same order.
abbrev pub AreRowsOf : (ℕ → Draw) → List ScheduledTask → List Task → Type 0
AreRowsOf draw [] [] = Unit {0}
AreRowsOf draw (s ∷ ss) (t ∷ ts) = IsRowOf (draw s.id) s t × AreRowsOf draw ss ts
AreRowsOf draw ss ts = ⊥

or_else_lem : (j d : Json) → or_else j d ≡ (if is_truthy j then j else d)
or_else_lem j d = by_test (is_truthy j)
  where
    by_test : (b : Bool) → (elim b as (λ x. Json) [ true ↦ j | false ↦ d ]) ≡ (if b then j else d)
    by_test true = refl
    by_test false = refl

or_else-same : (d : Json) → or_else d d ≡ d
or_else-same d =
    or_else_lem d d ∙ (elim (Bool-cases (is_truthy d)) [ inl k ↦ rw k refl | inr k ↦ rw k refl ])

or_else-twice : (j d : Json) → or_else (or_else j d) d ≡ (if is_truthy j then j else d)
or_else-twice j d = elim (Bool-cases (is_truthy j)) [
  | inl e ↦
      let same : or_else j d ≡ j = or_else_lem j d ∙ rw e refl in
      ap (λ k. or_else k d) same ∙ same ∙ rw e refl
  | inr e ↦
      let default : or_else j d ≡ d = or_else_lem j d ∙ rw e refl in
      ap (λ k. or_else k d) default ∙ or_else-same d ∙ rw e refl
]

retried :
    (o : Option Bool)
    → some (coalesce o true) ≡ (elim o as (λ x. Option Bool) [ none ↦ some true | some b ↦ some b ])
retried none = refl
retried (some b) = refl

new_row-IsRowOf :
    (d : Draw) (s : ScheduledTask) → IsRowOf d s (new_row d.task_id d.enqueued_at (request_of s))
unfolding new_row request_of
new_row-IsRowOf d s = (
  refl,
  refl,
  refl,
  refl,
  refl,
  refl,
  refl,
  refl,
  or_else-twice s.args (arr nil),
  or_else-twice s.kwargs (obj end),
  or_else-twice s.metadata (obj end),
  refl,
  refl,
  refl,
  refl,
  retried s.retry_backoff,
  refl,
)

pub map-AreRowsOf :
    (draw : ℕ → Draw) (ss : List ScheduledTask)
    → AreRowsOf draw ss
        (map (λ r. new_row (draw r.id).task_id (draw r.id).enqueued_at (request_of r)) ss)
map-AreRowsOf draw [] = tt
map-AreRowsOf draw (s ∷ ss) = (new_row-IsRowOf (draw s.id) s, map-AreRowsOf draw ss)
