-- ===== src/Client/Waiting.antt =====
-- What TaskRef.wait returns, in terms of the task table.
use lapinq.Prelude.{
  ◌++◌, true, ℕ, ◌≡◌, refl, Bool, false, Option, none, some, List, [], ◌∷◌, arith, if◌then◌else◌,
  Option-cases, inl, inr,
}
use lapinq.Prelude.Lists.{All}
use lapinq.Storage.Task.{completed, failed, is_final, Task, Table, find_task}
use lapinq.Storage.Queries.{get_task_result, result_of}
use lapinq.Server.Handlers.{Answer, result_is, unfinished, get_task_result_handler}
use lapinq.Client.{wait}

abbrev pub is_final_task : Option Task → Bool
is_final_task none = false
is_final_task (some t) = is_final t.status

-- The task as it is at the first poll that finds it final.
pub first_final : ℕ → List Table → Option Task
first_final task_id [] = none
first_final task_id (ts ∷ polls) =
    let later = first_final task_id polls in
    if is_final_task (find_task task_id ts) then find_task task_id ts else later

-- Only completed and failed tasks come with their result.
abbrev pub shown : Task → Answer
shown t = elim t.status [
  | completed ↦ result_is (result_of t)
  | failed ↦ result_is (result_of t)
  | other ↦ unfinished t.status
]

abbrev pub answered : Option Task → Option Answer
answered none = none
answered (some t) = some (shown t)

-- TaskRef.wait returns exactly if some poll before the deadline finds the task completed, failed,
-- cancelled or expired, and then at the first such poll: with the result and the error of a task
-- that is completed or failed, and with "task not finished" and the status of one that is
-- cancelled or expired.
pub wait-first_final :
    (task_id : ℕ) (polls : List Table) → wait task_id polls ≡ answered (first_final task_id polls)
unfolding wait first_final get_task_result_handler get_task_result
wait-first_final task_id [] = refl
wait-first_final task_id (ts ∷ polls) = elim (Option-cases (find_task task_id ts)) [
  | inl e ↦ ground (arith, e, wait-first_final task_id polls)
  | inr (t, e) ↦ ground (arith, e, wait-first_final task_id polls)
]

-- Polls that find the task not final are passed over.
pub first_final-append :
    (k : ℕ) (early late : List Table) (ts : Table) (t : Task)
    → All (λ us. is_final_task (find_task k us) ≡ false) early
    → find_task k ts ≡ some t
    → is_final t.status ≡ true
    → first_final k (early ++ ts ∷ late) ≡ some t
unfolding first_final
first_final-append k [] late ts t h e f = ground arith
first_final-append k (us ∷ early) late ts t h e f =
    ground (arith, h.0, first_final-append k early late ts t h.1 e f)
