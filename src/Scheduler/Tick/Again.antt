-- ===== src/Scheduler/Tick/Again.antt =====
-- A tick later in the same minute, as after a restart of the server, does nothing.
use lapinq.Prelude.{
  subst, ℕ, ◌*◌, ◌/◌, ◌≤◌, ◌≡◌, refl, sym, ap, ◌∙◌, Bool, true, false, not, ◌&&◌, ◌||◌, Option,
  some, List, [], ◌∷◌, arith, ◌==◌, inl, inr, Option-cases, Bool-cases,
}
use lapinq.Prelude.Lists.{All, filter, any}
use lapinq.Storage.Enqueue.{Result, ok, raise, enqueue}
use lapinq.Storage.Task.{Table}
use lapinq.Scheduler.Cron.{parse_cron}
use lapinq.Scheduler.Tick.{
  minute, minute_start, moment, of_minutes, ScheduledTask, Tables, Draw, is_due, request_of, stamp,
  stamp_triggered, and_then, trigger, trigger_all, tick,
}
use lapinq.Scheduler.Tick.Firings.{Outcome-cases}

-- If the row is enabled and due, then a due row of its id is still to come.
abbrev is_covered : ℕ → List ScheduledTask → ScheduledTask → Bool
is_covered now rows r =
    not (r.enabled && is_due now r) || any (λ q. q.id == r.id && is_due now q) rows

abbrev IsCovered : ℕ → List ScheduledTask → List ScheduledTask → Type 0
IsCovered now rows = All (λ r. is_covered now rows r ≡ true)

stamped_due :
    (now at : ℕ) (r : ScheduledTask)
    → minute_start now ≤ at
    → is_due now (record r { last_triggered_at = some at }) ≡ false
unfolding is_due
stamped_due now at r h = elim (Option-cases (parse_cron r.cron)) [
  | inl e ↦ rw (e, is_due) refl
  | inr (sets, e) ↦ ground (arith, e)
]

stamp-IsCovered :
    (now at : ℕ) (row : ScheduledTask) (rows l : List ScheduledTask)
    → minute_start now ≤ at
    → IsCovered now (row ∷ rows) l
    → IsCovered now rows (stamp row.id at l)
unfolding stamp
stamp-IsCovered now at row rows [] h c = tt
stamp-IsCovered now at row rows (r ∷ l) h (c, cs) =
    (ground (arith, stamped_due now at r h), stamp-IsCovered now at row rows l h cs)

skip-IsCovered :
    (now : ℕ) (row : ScheduledTask) (rows l : List ScheduledTask)
    → is_due now row ≡ false
    → IsCovered now (row ∷ rows) l
    → IsCovered now rows l
skip-IsCovered now row rows [] h c = tt
skip-IsCovered now row rows (r ∷ l) h (c, cs) =
    (ground (arith, h), skip-IsCovered now row rows l h cs)

stamp_triggered-IsCovered :
    (now at : ℕ) (row : ScheduledTask) (rows l : List ScheduledTask) (p : Result (Option ℕ) × Table)
    (t : Tables)
    → minute_start now ≤ at
    → IsCovered now (row ∷ rows) l
    → stamp_triggered row.id at l p ≡ (ok tt, t)
    → IsCovered now rows t.schedules
stamp_triggered-IsCovered now at row rows l (ok v, us) t h c e =
    subst (λ l'. IsCovered now rows l') (ap (λ o. o.1.schedules) e)
      (stamp-IsCovered now at row rows l h c)
stamp_triggered-IsCovered now at row rows l (raise f, us) t h c e = ground arith

trigger-IsCovered :
    (draw : ℕ → Draw) (now : ℕ) (row : ScheduledTask) (rows : List ScheduledTask) (s t : Tables)
    → minute_start now ≤ (draw row.id).stamped_at
    → IsCovered now (row ∷ rows) s.schedules
    → trigger (draw row.id) now row s ≡ (ok tt, t)
    → IsCovered now rows t.schedules
unfolding trigger
trigger-IsCovered draw now row rows s t h c e = elim (Bool-cases (is_due now row)) [
  | inl due ↦
      stamp_triggered-IsCovered now (draw row.id).stamped_at row rows s.schedules
        (enqueue (draw row.id).task_id (draw row.id).enqueued_at (request_of row) s.tasks) t h c
        (let f : trigger (draw row.id) now row s
              ≡ stamp_triggered row.id (draw row.id).stamped_at s.schedules (
                  enqueue (draw row.id).task_id (draw row.id).enqueued_at (request_of row)
                    s.tasks) =
            rw due refl in
          sym f ∙ e)
  | inr not_due ↦
      subst (λ u. IsCovered now rows u.schedules)
        (let f : trigger (draw row.id) now row s ≡ (ok tt, s) = rw not_due refl in
          ap (λ o. o.1) (sym f ∙ e))
        (skip-IsCovered now row rows s.schedules not_due c)
]

trigger_all-IsCovered :
    (draw : ℕ → Draw) (now : ℕ) (rows : List ScheduledTask) (s t : Tables)
    → ((k : ℕ) → minute_start now ≤ (draw k).stamped_at)
    → IsCovered now rows s.schedules
    → trigger_all draw now rows s ≡ (ok tt, t)
    → IsCovered now [] t.schedules
unfolding trigger_all
trigger_all-IsCovered draw now [] s t h c e =
    subst (λ u. IsCovered now [] u.schedules) (ap (λ o. o.1) e) c
trigger_all-IsCovered draw now (row ∷ rows) s t h c e =
    elim (Outcome-cases (trigger (draw row.id) now row s)) [
      | inl (u, f) ↦
          trigger_all-IsCovered draw now rows u t h
            (trigger-IsCovered draw now row rows s u (h row.id) c f)
            (sym (ap (λ o. and_then o (λ v. trigger_all draw now rows v)) f) ∙ e)
      | inr (g, (u, f)) ↦ ground (arith, f)
    ]

-- Every enabled row is its own cover at the start.
own_cover :
    (now : ℕ) (l : List ScheduledTask) (r : ScheduledTask) (extra : List ScheduledTask)
    → IsCovered now (filter (λ q. q.enabled) l) extra
    → IsCovered now (filter (λ q. q.enabled) (r ∷ l)) extra
own_cover now l r [] c = tt
own_cover now l r (x ∷ extra) (c, cs) = (ground arith, own_cover now l r extra cs)

snapshot-IsCovered :
    (now : ℕ) (l : List ScheduledTask) → IsCovered now (filter (λ q. q.enabled) l) l
snapshot-IsCovered now [] = tt
snapshot-IsCovered now (r ∷ l) = (ground arith, own_cover now l r l (snapshot-IsCovered now l))

same_moment : (now later : ℕ) → later / minute ≡ now / minute → moment later ≡ moment now
unfolding moment
same_moment now later e = ap of_minutes e

same_due :
    (now later : ℕ) (r : ScheduledTask)
    → later / minute ≡ now / minute
    → is_due later r ≡ is_due now r
unfolding is_due
same_due now later r e = elim (Option-cases (parse_cron r.cron)) [
  | inl f ↦ ground (arith, f)
  | inr (sets, f) ↦ elim (Option-cases r.last_triggered_at) [
    | inl g ↦ ground (arith, f, g, same_moment now later e)
    | inr (last, g) ↦ ground (arith, f, g, same_moment now later e, ap (λ n. n * minute) e)
  ]
]

nothing_due :
    (draw : ℕ → Draw) (now later : ℕ) (l : List ScheduledTask) (s : Tables)
    → later / minute ≡ now / minute
    → IsCovered now [] l
    → trigger_all draw later (filter (λ q. q.enabled) l) s ≡ (ok tt, s)
unfolding trigger_all trigger
nothing_due draw now later [] s e c = refl
nothing_due draw now later (r ∷ l) s e (c, cs) =
    ground (arith, same_due now later r e, nothing_due draw now later l s e cs)

-- A schedule fires at most once a minute: after a tick that raised no error, whose stamps by the
-- clock of the database are not before the start of the minute that the scheduler reads, a tick in
-- the same minute raises nothing and changes nothing.
pub tick-tick :
    (draw draw' : ℕ → Draw) (now later : ℕ) (s t : Tables)
    → ((k : ℕ) → minute_start now ≤ (draw k).stamped_at)
    → later / minute ≡ now / minute
    → tick draw now s ≡ (ok tt, t)
    → tick draw' later t ≡ (ok tt, t)
unfolding tick
tick-tick draw draw' now later s t h e first = nothing_due draw' now later t.schedules t e (
    trigger_all-IsCovered draw now (filter (λ q. q.enabled) s.schedules) s t h
      (snapshot-IsCovered now s.schedules) first)
