-- ===== src/Storage/Samples.antt =====
-- Batches, listings and histories over the small task table, on which the theorems are applied.
use lapinq.Prelude.{String, ◌≡◌, refl, Bool, none, some, List, [], ◌∷◌, ◌++◌, arith, str_eq}
use lapinq.Prelude.Int.{pos}
use lapinq.Json.{Json}
use lapinq.Storage.Task.{Table, find_task}
use lapinq.Storage.Enqueue.{raise, not_null_violation}
use lapinq.Storage.Batch
use lapinq.Storage.Batch.{Item, absent, value, enqueue_batch, item_row}
use lapinq.Storage.Batch.Progress.{Entry, enqueue_batch-not_atomic}
use lapinq.Storage.Queries.{
  Filters, meets, list_filters, list_tasks, list_failed_tasks, delete_tasks, stats_of, count_in,
  queue_stats,
}
use lapinq.Storage.Lifecycle.{Op, claims, beats, completes, cancels, cleans_up, deletes, apply, run}
use lapinq.Storage.Lifecycle.Invariant.{IsSound, run-IsSound}
use lapinq.Storage.Lifecycle.Moves.{Fate}
use lapinq.Storage.Lifecycle.Edges.{apply-Fate}
use lapinq.Storage.Examples.{task, three, free}

-- An item that gives only its name, and one whose max_retries is null.
abbrev plain : Item
plain = record {
  task_name = "send";
  queue_name = absent;
  module_path = value "app.tasks";
  args = none;
  kwargs = none;
  scheduled_at = absent;
  max_retries = absent;
  priority = absent;
  ttl_seconds = absent;
  metadata = none;
  retry_delay = absent;
  retry_backoff = absent;
  webhook_url = absent;
}

abbrev broken : Item
broken = record plain { max_retries = Batch.null }

abbrev entries : List Entry
entries = (11, 50, plain) ∷ (12, 51, plain) ∷ []

abbrev stored : Table
stored = (enqueue_batch entries three).1

enqueue_batch-not_atomic_example :
    enqueue_batch (entries ++ (13, 52, broken) ∷ (14, 53, plain) ∷ []) three
    ≡ (raise not_null_violation, stored)
unfolding enqueue_batch Batch.insert_item
enqueue_batch-not_atomic_example =
    enqueue_batch-not_atomic entries ((14, 53, plain) ∷ []) 13 52 broken (11 ∷ 12 ∷ [])
      not_null_violation three stored refl refl refl

abbrev contains : String → String → Bool
contains v s = str_eq v s

abbrev text : Json → String
text j = ""

abbrev by_name : Filters
by_name = list_filters none none (some "send")

abbrev history : List Op
history =
    claims "w" 20 free
    ∷ beats "w" 21
    ∷ completes 30 3 (some "1")
    ∷ cancels 31 1
    ∷ cleans_up 40
    ∷ deletes by_name
    ∷ []

abbrev concat : Json → Json → Json
concat a b = b

three-IsSound : IsSound three
three-IsSound = record { distinct = omega arith; rows = ground arith }

run-IsSound_example : IsSound (run concat contains text history three)
run-IsSound_example = run-IsSound concat contains text history three three-IsSound

apply-Fate_example :
    Fate
      (claims "w" 20 free)
      (task 2 (pos 7) 9)
      (find_task 2 (apply concat contains text (claims "w" 20 free) three))
apply-Fate_example =
    apply-Fate concat contains text (claims "w" 20 free) 2 three (task 2 (pos 7) 9) (omega arith)
      refl

none_failed : list_failed_tasks contains text none 9 three ≡ []
unfolding list_failed_tasks lapinq.Storage.Queries.list_tasks meets
none_failed = refl
